-- ===== src/Connection/Https/Serving.antt =====
-- A request that arrives over TLS in pieces is answered over TLS.
use https_http_server.Shared.{
  ℕ, suc, ◌+◌, ◌≤◌, ◌<◌, ◌≡◌, refl, ap, ◌∙◌, List, ◌∷◌, ◌++◌, map, Text, true, length, All,
}
use https_http_server.Message.Envelope.{JsonLib}
use https_http_server.Routing.Router.{RouterManager, init}
use https_http_server.Routing.Router.Dispatch.{Registration, calls}
use https_http_server.Codec.Parse.{ok, thrown, parse}
use https_http_server.Connection.Socket.{
  reception_buf_limit, TlsRead, got, TlsWrite, returned, terminated, complete,
}
use https_http_server.Connection.Http.Serving.{answer_text, execution-calls}
use https_http_server.Connection.Http.Sends.{room}
use https_http_server.Connection.Https.{recv, send, process_connection}
use https_http_server.Connection.Https.Receives.{payload, Fills, recv-Fills}
use https_http_server.Connection.Https.Sends.{plain, Writes, send-plain-room}

module _ (J : JsonLib) where
  process_received :
      (now : ℕ) (id id' : Text) (m : RouterManager J) (cs : List (Registration J)) (bufsize : ℕ)
      (reads rest : List TlsRead) (writes : List TlsWrite) (wire raw text : Text)
      → recv bufsize reads ≡ complete raw rest
      → answer_text J now id id' cs raw ≡ ok text
      → process_connection J now id id' (calls J (init J m) cs) bufsize reads writes wire
        ≡ send text writes wire
  unfolding process_connection
  process_received now id id' m cs bufsize reads rest writes wire raw text e h =
      rw (e, process_connection, execution-calls J now id id' m cs raw, h) refl

  -- Where the parser throws on a text that has arrived, the exception ends the program in `execution`,
  -- which is `noexcept`, and nothing is sent.
  process_connection-thrown :
      (now : ℕ) (id id' : Text) (m : RouterManager J) (cs : List (Registration J)) (bufsize : ℕ)
      (reads rest : List TlsRead) (writes : List TlsWrite) (wire raw : Text)
      → recv bufsize reads ≡ complete raw rest
      → parse J id raw ≡ thrown
      → process_connection J now id id' (calls J (init J m) cs) bufsize reads writes wire
        ≡ record { result = terminated; wire = wire; left = writes }
  unfolding process_connection
  process_connection-thrown now id id' m cs bufsize reads rest writes wire raw e h =
      rw (e, process_connection, execution-calls J now id id' m cs raw, h) refl

  -- A text that arrives over TLS, in reads that fill the buffer and a shorter last one, below the
  -- limit together, and on which the parser does not throw, is answered whole where every `SSL_write`
  -- gets on and they have room for the response: `process` returns `true`, and the wire has got the
  -- printed answer, of a router that any registrations have filled, to the bytes that arrived.
  pub process_connection-true :
      (now : ℕ) (id id' : Text) (m : RouterManager J) (cs : List (Registration J)) (bufsize : ℕ)
      (es rest : List TlsRead) (c : ℕ) (tail : Text) (writes : List TlsWrite) (wire text : Text)
      → All (Fills bufsize) es
      → suc (length tail) < bufsize
      → length (payload es) + suc (length tail) < reception_buf_limit
      → All Writes writes
      → answer_text J now id id' cs (payload es ++ c ∷ tail) ≡ ok text
      → length text ≤ room (map plain writes)
      → ((process_connection J now id id'
            (calls J (init J m) cs)
            bufsize
            (es ++ got c tail ∷ rest)
            writes
            wire).result
          ≡ returned true)
        × ((process_connection J now id id'
              (calls J (init J m) cs)
              bufsize
              (es ++ got c tail ∷ rest)
              writes
              wire).wire
            ≡ wire ++ text)
  process_connection-true now id id' m cs bufsize es rest c tail writes wire text hf short small hw
        answered fits =
      let raw = payload es ++ c ∷ tail in
      let same =
        process_received now id id' m cs bufsize (es ++ got c tail ∷ rest) rest writes wire raw text
          (recv-Fills bufsize es rest c tail hf short small) answered in
      let (done, all) = send-plain-room text wire writes hw fits in
      (ap (λ s. s.result) same ∙ done, ap (λ s. s.wire) same ∙ all)
