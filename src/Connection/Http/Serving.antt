-- ===== src/Connection/Http/Serving.antt =====
-- A request that arrives at once on a plain connection is answered.
use https_http_server.Shared.{
  ℕ, suc, ◌≤◌, ◌<◌, ◌≡◌, refl, ap, ◌∙◌, List, ◌∷◌, ◌++◌, Text, find_byte, none, some, true, length,
  drop, append-nil, All,
}
use https_http_server.Message.Envelope.{JsonLib, Response}
use https_http_server.Routing.Router.{RouterManager, init}
use https_http_server.Routing.Router.Dispatch.{Registration, calls}
use https_http_server.Codec.Parse.{Parsed, ok, refused, thrown, exhausted, ◌>>=◌}
use https_http_server.Codec.Parse
use https_http_server.Codec.Serialize.{serialize}
use https_http_server.Codec.Process.{HttpCodec, new_codec}
use https_http_server.Codec.Process.Answering.{response_to, processed, process-calls}
use https_http_server.Connection.Socket.{
  reception_buf_limit, Receipt, bytes, Sending, returned, complete,
}
use https_http_server.Connection.Http.{execution, recv, send, process_connection}
use https_http_server.Connection.Http.Sends.{GetsOn, room, send-room}
use https_http_server.Connection.Http.Receives.{first_read, recv-first_read}

module _ (J : JsonLib) where
  -- The text that answers a received text, or the exception.
  abbrev pub answer_text : ℕ → Text → Text → List (Registration J) → Text → Parsed Text
  answer_text now id id' cs raw =
      response_to J now id' cs (Parse.parse J id raw) >>= λ r. ok (serialize J r)

  response-text :
      (codec : HttpCodec J) (resp : Parsed (Response J))
      → (processed J codec resp >>= λ x. ok x.1) ≡ (resp >>= λ r. ok (serialize J r))
  response-text codec (ok r) = refl
  response-text codec refused = refl
  response-text codec thrown = refl
  response-text codec exhausted = refl

  pub execution-calls :
      (now : ℕ) (id id' : Text) (m : RouterManager J) (cs : List (Registration J)) (raw : Text)
      → execution J now id id' (calls J (init J m) cs) raw ≡ answer_text now id id' cs raw
  unfolding execution
  execution-calls now id id' m cs raw =
      ap (λ p. p >>= λ x. ok x.1) (process-calls J now id id' m cs (new_codec J) raw).0
      ∙ response-text _ (response_to J now id' cs (Parse.parse J id raw))

  process_received :
      (now : ℕ) (id id' : Text) (m : RouterManager J) (cs : List (Registration J)) (buf : Text)
      (receipts rest : List Receipt) (es : List Sending) (wire raw text : Text)
      → recv buf receipts ≡ complete raw rest
      → answer_text now id id' cs raw ≡ ok text
      → process_connection J now id id' (calls J (init J m) cs) buf receipts es wire
        ≡ send text es wire
  unfolding process_connection
  process_received now id id' m cs buf receipts rest es wire raw text e h =
      rw (e, process_connection, execution-calls now id id' m cs raw, h) refl

  -- A text that arrives in the first read, below the limit and without a zero byte, and on which the
  -- parser does not throw, is answered whole where a zero byte stands right behind it in the buffer,
  -- every `::send` gets on, and they have room for the response: `process` returns `true`, and the wire
  -- has got the printed answer, of a router that any registrations have filled, to the text.
  pub process_connection_zeroed :
      (now : ℕ) (id id' : Text) (m : RouterManager J) (cs : List (Registration J)) (buf : Text)
      (c : ℕ) (tail : Text) (rest : List Receipt) (es : List Sending) (wire text : Text)
      → find_byte 0 (c ∷ tail) ≡ none
      → suc (length tail) < reception_buf_limit
      → find_byte 0 (drop (suc (length tail)) buf) ≡ some 0
      → All GetsOn es
      → answer_text now id id' cs (c ∷ tail) ≡ ok text
      → length text ≤ room es
      → ((process_connection J now id id'
            (calls J (init J m) cs)
            buf
            (bytes (c ∷ tail) ∷ rest)
            es
            wire).result
          ≡ returned true)
        × ((process_connection J now id id'
              (calls J (init J m) cs)
              buf
              (bytes (c ∷ tail) ∷ rest)
              es
              wire).wire
            ≡ wire ++ text)
  process_connection_zeroed now id id' m cs buf c tail rest es wire text nul small zero_at hs
        answered fits =
      let received =
        recv-first_read buf c tail rest nul small
        ∙ (ap (λ o. first_read (c ∷ tail) buf o rest) zero_at
            ∙ ap (λ t. complete t rest) (append-nil (c ∷ tail))) in
      let same =
        process_received now id id' m cs buf (bytes (c ∷ tail) ∷ rest) rest es wire (c ∷ tail) text
          received answered in
      let (done, all) = send-room text wire es hs fits in
      (ap (λ s. s.result) same ∙ done, ap (λ s. s.wire) same ∙ all)
