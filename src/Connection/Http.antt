-- ===== src/Connection/Http.antt =====
-- `HttpConnection`, of src/server/src/http/http_connection.cc: `recv`, `send`, `execution` and
-- `process`. Log lines are not modelled. The client's fields only go to the log.
pub mod Sends
pub mod Receives
pub mod Serving
use https_http_server.Shared.{
  ℕ, ◌+◌, ◌-◌, min, List, [], ◌∷◌, ◌++◌, Text, find_byte, Option, none, some, Bool, true, false,
  if◌then◌else◌, ltb, leb, ◌==◌, length, take, drop,
}
use https_http_server.Status.RetCodes.{RetCode}
use https_http_server.Message.Envelope.{JsonLib, make_resp, empty_object}
use https_http_server.Routing.Router.{RouterManager}
use https_http_server.Codec.Parse.{Parsed, ok, ◌>>=◌}
use https_http_server.Codec.Serialize.{serialize}
use https_http_server.Codec.Process.{new_codec, process}
use https_http_server.Connection.Socket.{
  reception_buf_limit, Receipt, failed, bytes, Errno, eintr, eagain, ewouldblock, Sending, refused,
  sent, Ended, returned, waiting, Sent, Received, complete, disconnected, erroneous, blocked,
  undefined,
}

-- `EINTR`, `EAGAIN` and `EWOULDBLOCK` are tried again.
abbrev pub is_retry : Errno → Bool
is_retry eintr = true
is_retry eagain = true
is_retry ewouldblock = true
is_retry Errno.other = false

-- The loop of `send`, with `total_send` bytes of the response sent.
unfoldable pub send_loop : Text → ℕ → List Sending → Text → Sent Sending
send_loop resp total_send [] wire = record {
  result = if ltb total_send (length resp) then waiting else returned true;
  wire = wire;
  left = [];
}
send_loop resp total_send (e ∷ es) wire = elim (ltb total_send (length resp)) [
  | false ↦ record { result = returned true; wire = wire; left = e ∷ es }
  | true ↦ elim e [
    | refused err ↦ elim (is_retry err) [
      | true ↦ send_loop resp total_send es wire
      | false ↦ record { result = returned false; wire = wire; left = es }
    ]
    | sent n ↦
        let numbytes = min n (length resp - total_send) in
        elim (numbytes == 0) [
          | true ↦ record { result = returned false; wire = wire; left = es }
          | false ↦
              send_loop resp (total_send + numbytes) es
                (wire ++ take numbytes (drop total_send resp))
        ]
  ]
]

unfoldable pub send : Text → List Sending → Text → Sent Sending
unfolding send_loop
send resp es wire = send_loop resp 0 es wire

-- A C string, up to its zero byte; `none` where the array has none.
unfoldable pub c_string : Text → Option Text
unfolding find_byte
c_string buf = elim (find_byte 0 buf) [ none ↦ none | some i ↦ some (take i buf) ]

-- `::recv` overwrites the front of the buffer.
abbrev pub overwrite : Text → Text → Text
overwrite chunk buf = chunk ++ drop (length chunk) buf

-- The loop of `recv`, on the buffer as the last round has left it.
unfoldable pub recv_loop : Text → Text → ℕ → List Receipt → Received Receipt
unfolding c_string
recv_loop buf req resbytes [] = blocked
recv_loop buf req resbytes (failed ∷ es) = erroneous RetCode.internal_error
recv_loop buf req resbytes (bytes [] ∷ es) = disconnected
recv_loop buf req resbytes (bytes (c ∷ cs) ∷ es) =
    let chunk = c ∷ cs in
    let numbytes = length chunk in
    elim (leb reception_buf_limit (resbytes + numbytes)) [
      | true ↦ erroneous RetCode.request_buffer_overflow
      | false ↦ elim (c_string (overwrite chunk buf)) [
        | none ↦ undefined
        | some s ↦ elim (ltb numbytes (length buf)) [
          | true ↦ complete (req ++ s) es
          | false ↦ recv_loop (overwrite chunk buf) (req ++ s) (resbytes + numbytes) es
        ]
      ]
    ]

-- `char buf[bufsize_]` is not initialised: `buf` is what stands in it.
unfoldable pub recv : Text → List Receipt → Received Receipt
unfolding recv_loop
recv buf es = recv_loop buf [] 0 es

-- `return false` behind a `send`, whatever that returns.
abbrev pub error_end {ℓ} : {E : Type ℓ} → Sent E → Sent E
error_end s = record {
  result = elim s.result [ returned b ↦ returned false | e ↦ e ];
  wire = s.wire;
  left = s.left;
}

module _ (J : JsonLib) where
  -- `execution`, with a codec of its own.
  unfoldable pub execution : ℕ → Text → Text → RouterManager J → Text → Parsed Text
  unfolding process
  execution now id id' manager req = do
    (codec, resp) ← process J now id id' manager (new_codec J) req
    ok resp

  -- The response of `recv` to its own errors.
  abbrev pub error_text : ℕ → Text → RetCode → Text
  error_text now id' retcode = serialize J (make_resp J now retcode id' (empty_object J))

  -- `process`: what `recv` sends on an error goes to the same wire, and `false` is returned then.
  unfoldable pub process_connection :
      ℕ → Text → Text → RouterManager J → Text → List Receipt → List Sending → Text → Sent Sending
  unfolding recv send execution
  process_connection now id id' manager buf receipts es wire = elim (recv buf receipts) [
    | complete req left ↦ elim (execution now id id' manager req) [
      | ok resp ↦ send resp es wire
      | _ ↦ record { result = Ended.terminated; wire = wire; left = es }
    ]
    | erroneous retcode ↦ error_end (send (error_text now id' retcode) es wire)
    | disconnected ↦ record { result = returned false; wire = wire; left = es }
    | blocked ↦ record { result = waiting; wire = wire; left = es }
    | undefined ↦ record { result = Ended.undefined; wire = wire; left = es }
  ]
