-- ===== src/Connection/Https.antt =====
-- `HttpsConnection`, of src/server/src/http/https_connection.cc: `recv`, `send` and `process` over
-- OpenSSL. Log lines are not modelled. `static_cast<int>` of what is left to send is exact: a
-- response stays below 2 ^ 31 bytes.
pub mod Sends
pub mod Receives
pub mod Limits
pub mod Failures
pub mod Serving
use https_http_server.Shared.{
  ℕ, suc, ◌+◌, ◌-◌, min, List, [], ◌∷◌, ◌++◌, Text, Bool, true, false, if◌then◌else◌, ltb, leb,
  length, take, drop,
}
use https_http_server.Status.RetCodes.{RetCode}
use https_http_server.Message.Envelope.{JsonLib}
use https_http_server.Routing.Router.{RouterManager}
use https_http_server.Codec.Parse.{ok}
use https_http_server.Connection.Socket.{
  reception_buf_limit, SslError, want_read, want_write, zero_return, TlsRead, got, read_error,
  TlsWrite, wrote, write_error, Ended, returned, waiting, Sent, Received, complete, disconnected,
  erroneous, blocked, undefined,
}
use https_http_server.Connection.Http.{execution, error_text, error_end}

abbrev pub is_want : SslError → Bool
is_want want_read = true
is_want want_write = true
is_want zero_return = false
is_want SslError.other = false

-- The loop of `recv`. `SSL_read` tells how many bytes it has put in the buffer, and these are
-- appended.
unfoldable pub recv_loop : ℕ → Text → ℕ → List TlsRead → Received TlsRead
recv_loop bufsize req resbytes [] = blocked
recv_loop bufsize req resbytes (got c cs ∷ es) =
    let numbytes = suc (length cs) in
    elim (leb reception_buf_limit (resbytes + numbytes)) [
      | true ↦ erroneous RetCode.request_buffer_overflow
      | false ↦ elim (ltb numbytes bufsize) [
        | true ↦ complete (req ++ c ∷ cs) es
        | false ↦ recv_loop bufsize (req ++ c ∷ cs) (resbytes + numbytes) es
      ]
    ]
recv_loop bufsize req resbytes (read_error want_read ∷ es) = recv_loop bufsize req resbytes es
recv_loop bufsize req resbytes (read_error want_write ∷ es) = recv_loop bufsize req resbytes es
recv_loop bufsize req resbytes (read_error zero_return ∷ es) = disconnected
recv_loop bufsize req resbytes (read_error SslError.other ∷ es) = erroneous RetCode.internal_error

unfoldable pub recv : ℕ → List TlsRead → Received TlsRead
unfolding recv_loop
recv bufsize es = recv_loop bufsize [] 0 es

-- The loop of `send`, with `total_sent` bytes of the response sent.
unfoldable pub send_loop : Text → ℕ → List TlsWrite → Text → Sent TlsWrite
send_loop resp total_sent [] wire = record {
  result = if ltb total_sent (length resp) then waiting else returned true;
  wire = wire;
  left = [];
}
send_loop resp total_sent (e ∷ es) wire = elim (ltb total_sent (length resp)) [
  | false ↦ record { result = returned true; wire = wire; left = e ∷ es }
  | true ↦ elim e [
    | wrote n ↦
        let numbytes = min (suc n) (length resp - total_sent) in
        send_loop resp (total_sent + numbytes) es (wire ++ take numbytes (drop total_sent resp))
    | write_error err ↦ elim (is_want err) [
      | true ↦ send_loop resp total_sent es wire
      | false ↦ record { result = returned false; wire = wire; left = es }
    ]
  ]
]

unfoldable pub send : Text → List TlsWrite → Text → Sent TlsWrite
unfolding send_loop
send resp es wire = send_loop resp 0 es wire

module _ (J : JsonLib) where
  -- `process`: what `recv` sends on an error goes to the same wire, and `false` is returned then.
  unfoldable pub process_connection :
      ℕ → Text → Text → RouterManager J → ℕ → List TlsRead → List TlsWrite → Text → Sent TlsWrite
  unfolding recv send execution
  process_connection now id id' manager bufsize reads es wire = elim (recv bufsize reads) [
    | complete req left ↦ elim (execution J now id id' manager req) [
      | ok resp ↦ send resp es wire
      | _ ↦ record { result = Ended.terminated; wire = wire; left = es }
    ]
    | erroneous retcode ↦ error_end (send (error_text J now id' retcode) es wire)
    | disconnected ↦ record { result = returned false; wire = wire; left = es }
    | blocked ↦ record { result = waiting; wire = wire; left = es }
    | undefined ↦ record { result = Ended.undefined; wire = wire; left = es }
  ]
