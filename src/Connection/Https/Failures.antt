-- ===== src/Connection/Https/Failures.antt =====
-- What a client gets where its request is not received.
use https_http_server.Shared.{
  ℕ, suc, ◌+◌, ◌≤◌, ◌<◌, ◌≡◌, refl, sym, ap, ◌∙◌, List, [], ◌∷◌, ◌++◌, map, append-nil, Text,
  Option, none, some, some-injective, false, leb, length, All, if◌then◌else◌, Bool-cases, inl, inr,
  arith,
}
use https_http_server.Status.RetCodes.{RetCode}
use https_http_server.Message.Envelope.{JsonLib}
use https_http_server.Routing.Router.{RouterManager}
use https_http_server.Connection.Socket.{
  reception_buf_limit, SslError, want_read, want_write, zero_return, TlsRead, got, read_error,
  TlsWrite, returned, Received, erroneous, disconnected,
}
use https_http_server.Connection.Http.{error_text}
use https_http_server.Connection.Http.Sends.{room}
use https_http_server.Connection.Https.{recv_loop, recv, process_connection}
use https_http_server.Connection.Https.Receives.{payload, Fills, recv_loop-Fills}
use https_http_server.Connection.Https.Sends.{plain, Writes, send-plain-room}

-- How a read ends the reception without a request, behind `n` bytes: with an error, or since the
-- client has left; `none` where it does not.
abbrev pub failure : ℕ → TlsRead → Option (Option RetCode)
failure n (got c cs) =
    if leb reception_buf_limit (n + suc (length cs))
    then some (some RetCode.request_buffer_overflow)
    else none
failure n (read_error SslError.other) = some (some RetCode.internal_error)
failure n (read_error zero_return) = some none
failure n (read_error want_read) = none
failure n (read_error want_write) = none

abbrev received : Option RetCode → Received TlsRead
received none = disconnected
received (some retcode) = erroneous retcode

recv_loop-failure :
    (bufsize n : ℕ) (req : Text) (e : TlsRead) (rest : List TlsRead) (o : Option RetCode)
    → failure n e ≡ some o
    → recv_loop bufsize req n (e ∷ rest) ≡ received o
unfolding recv_loop
recv_loop-failure bufsize n req (got c cs) rest o h =
    elim (Bool-cases (leb reception_buf_limit (n + suc (length cs)))) [
      | inl y ↦
          let same : some RetCode.request_buffer_overflow ≡ o =
            some-injective _ _ (sym (rw y refl) ∙ h) in
          rw (y, recv_loop) (ap received same)
      | inr z ↦ absurd (never (sym (rw z refl) ∙ h))
    ]
  where
    never : none ≡ some o → ⊥
    never e = cc
recv_loop-failure bufsize n req (read_error SslError.other) rest o h =
    ap received (some-injective _ _ h)
recv_loop-failure bufsize n req (read_error zero_return) rest o h =
    ap received (some-injective _ _ h)
recv_loop-failure bufsize n req (read_error want_read) rest o h = cc
recv_loop-failure bufsize n req (read_error want_write) rest o h = cc

module _ (J : JsonLib) where
  -- The text that the client gets.
  abbrev pub failure_text : ℕ → Text → Option RetCode → Text
  failure_text now id' none = []
  failure_text now id' (some retcode) = error_text J now id' retcode

  process_failed :
      (now : ℕ) (id id' : Text) (m : RouterManager J) (bufsize : ℕ) (reads : List TlsRead)
      (writes : List TlsWrite) (wire : Text) (o : Option RetCode)
      → recv bufsize reads ≡ received o
      → All Writes writes
      → length (failure_text now id' o) ≤ room (map plain writes)
      → ((process_connection J now id id' m bufsize reads writes wire).result ≡ returned false)
        × ((process_connection J now id id' m bufsize reads writes wire).wire
            ≡ wire ++ failure_text now id' o)
  unfolding process_connection
  process_failed now id id' m bufsize reads writes wire none e hw fits =
      rw (e, process_connection) (refl, sym (append-nil wire))
  process_failed now id id' m bufsize reads writes wire (some retcode) e hw fits =
      let (done, all) = send-plain-room (error_text J now id' retcode) wire writes hw fits in
      rw (e, process_connection)
        (ap (λ r. (elim r [ returned b ↦ returned false | x ↦ x ])) done, all)

  -- A request that is not received over TLS: behind reads that fill the buffer and are below the limit
  -- together, one read reaches the limit, fails, or tells that the client has left. Then `process`
  -- returns `false`, and where every `SSL_write` gets on and they have room for it, the client gets
  -- the printed response with the code `request_buffer_overflow` or `internal_error`, and where it has
  -- left, nothing. The router is not asked.
  pub process_connection-failure :
      (now : ℕ) (id id' : Text) (m : RouterManager J) (bufsize : ℕ) (es rest : List TlsRead)
      (last : TlsRead) (o : Option RetCode) (writes : List TlsWrite) (wire : Text)
      → All (Fills bufsize) es
      → length (payload es) < reception_buf_limit
      → failure (length (payload es)) last ≡ some o
      → All Writes writes
      → length (failure_text now id' o) ≤ room (map plain writes)
      → ((process_connection J now id id' m bufsize (es ++ last ∷ rest) writes wire).result
          ≡ returned false)
        × ((process_connection J now id id' m bufsize (es ++ last ∷ rest) writes wire).wire
            ≡ wire ++ failure_text now id' o)
  unfolding recv
  process_connection-failure now id id' m bufsize es rest last o writes wire hf small h hw fits =
      process_failed now id id' m bufsize (es ++ last ∷ rest) writes wire o
        (recv_loop-Fills bufsize 0 [] es (last ∷ rest) hf (omega arith)
          ∙ recv_loop-failure bufsize (0 + length (payload es)) (payload es) last rest o
              (ap (λ n. failure n last) (omega arith) ∙ h))
        hw fits
