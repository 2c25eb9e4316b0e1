-- ===== src/Connection/Examples.antt =====
-- Instances of the theorems on connections.
use https_http_server.Shared.{
  Text, ◌≡◌, refl, List, [], ◌∷◌, ◌++◌, map, codes, none, some, false, find_byte, find, starts_with,
  true, drop, arith,
}
use https_http_server.Status.Codes.{code, obsolete_reason}
use https_http_server.Message.Envelope.{Response, make_resp, empty_object}
use https_http_server.Codec.Parse.{parse}
use https_http_server.Codec.Serialize.{serialize, print_fields, to_decimal}
use https_http_server.Routing.Router.{RouterManager, init}
use https_http_server.Routing.Router.Dispatch.{calls}
use https_http_server.Connection.Socket.{
  bytes, Errno, SslError, Sending, refused, sent, want_read, want_write, zero_return, TlsRead, got,
  read_error, TlsWrite, wrote, write_error, returned, complete,
}
use https_http_server.Connection.Http
use https_http_server.Connection.Http.Sends.{SentFirst, send-SentFirst}
use https_http_server.Connection.Http.Receives.{first_read, recv-first_read}
use https_http_server.Connection.Https.{recv, send, process_connection}
use https_http_server.Connection.Https.Sends.{plain, map_left, send-plain}
use https_http_server.Connection.Https.Receives.{payload, recv-Fills}
use https_http_server.Connection.Https.Failures.{failure_text, process_connection-failure}
use https_http_server.Status.RetCodes.{RetCode}
use https_http_server.Connection.Https.Limits.{IsSound, recv-IsSound}
use https_http_server.Connection.Http.Serving.{process_connection_zeroed}
use https_http_server.Connection.Https.Serving.{process_connection-true}
use https_http_server.Connection.Descriptor.{pos, ClientConnection}
use https_http_server.Samples.{text_json, registrations}

abbrev no_router : RouterManager text_json
no_router = record { router = none }

-- Two reads of four bytes with a `WANT_READ` between them.
abbrev full_reads : List TlsRead
full_reads = got b'G' (codes "ET ") ∷ read_error want_read ∷ got b'/' (codes " HT") ∷ []

-- Writes with room for 1000 bytes, cut after the first 10.
abbrev tls_writes : List TlsWrite
tls_writes = wrote 9 ∷ write_error want_write ∷ wrote 989 ∷ []

abbrev sendings : List Sending
sendings = sent 2 ∷ refused Errno.eintr ∷ sent 7 ∷ []

abbrev refusal : Response text_json
refusal = make_resp text_json 0 RetCode.invalid_json_or_params (codes "8") (empty_object text_json)

-- A request without a line end is answered with an error.
process_connection-true_example :
    ((process_connection text_json 0
        (codes "7")
        (codes "8")
        (calls text_json (init text_json no_router) registrations)
        4
        (full_reads ++ got b'T' [] ∷ [])
        tls_writes
        []).result
      ≡ returned true)
    × ((process_connection text_json 0
          (codes "7")
          (codes "8")
          (calls text_json (init text_json no_router) registrations)
          4
          (full_reads ++ got b'T' [] ∷ [])
          tls_writes
          []).wire
        ≡ serialize text_json refusal)
unfolding find starts_with parse serialize print_fields to_decimal code obsolete_reason make_resp
process_connection-true_example =
    process_connection-true text_json 0 (codes "7") (codes "8") no_router registrations 4 full_reads
      [] b'T' [] tls_writes [] (serialize text_json refusal)
      (omega arith, (refl, (omega arith, tt))) (omega arith) (omega arith)
      (omega arith, (refl, (omega arith, tt))) refl (omega arith)

recv-Fills_example :
    recv 4 (full_reads ++ got b'T' [] ∷ read_error zero_return ∷ [])
    ≡ complete (payload full_reads ++ b'T' ∷ []) (read_error zero_return ∷ [])
recv-Fills_example =
    recv-Fills 4 full_reads (read_error zero_return ∷ []) b'T' []
      (omega arith, (refl, (omega arith, tt))) (omega arith) (omega arith)

recv-IsSound_example :
    IsSound
      (full_reads ++ got b'T' [] ∷ read_error zero_return ∷ [])
      (recv 4 (full_reads ++ got b'T' [] ∷ read_error zero_return ∷ []))
recv-IsSound_example = recv-IsSound 4 (full_reads ++ got b'T' [] ∷ read_error zero_return ∷ [])

send-SentFirst_example :
    SentFirst (codes "hello") (codes "x") (Http.send (codes "hello") sendings (codes "x"))
send-SentFirst_example = send-SentFirst (codes "hello") (codes "x") sendings

send-plain_example :
    map_left plain (send (codes "hello") tls_writes [])
    ≡ Http.send (codes "hello") (map plain tls_writes) []
send-plain_example = send-plain (codes "hello") [] tls_writes

-- Two bytes of the stack stand behind the request.
recv-first_read_example :
    Http.recv (codes "abcdef" ++ 0 ∷ 0 ∷ []) (bytes (codes "GET ") ∷ [])
    ≡ first_read
        (codes "GET ")
        (codes "abcdef" ++ 0 ∷ 0 ∷ [])
        (find_byte 0 (drop 4 (codes "abcdef" ++ 0 ∷ 0 ∷ [])))
        []
unfolding find_byte
recv-first_read_example =
    recv-first_read (codes "abcdef" ++ 0 ∷ 0 ∷ []) b'G' (codes "ET ") [] refl (omega arith)

abbrev client : ClientConnection
client = record { id = codes "7"; sockfd = pos 5; ip = codes "::1"; port = 4000 }

abbrev roomy : List Sending
roomy = sent 10 ∷ refused Errno.eagain ∷ sent 990 ∷ []

abbrev zeroed : Text
zeroed = codes "....." ++ 0 ∷ 0 ∷ []

process_connection_zeroed_example :
    ((Http.process_connection text_json 0
        (codes "7")
        (codes "8")
        (calls text_json (init text_json no_router) registrations)
        zeroed
        (bytes (codes "GET /") ∷ [])
        roomy
        []).result
      ≡ returned true)
    × ((Http.process_connection text_json 0
          (codes "7")
          (codes "8")
          (calls text_json (init text_json no_router) registrations)
          zeroed
          (bytes (codes "GET /") ∷ [])
          roomy
          []).wire
        ≡ serialize text_json refusal)
unfolding find_byte find starts_with parse serialize print_fields to_decimal code obsolete_reason
    make_resp
process_connection_zeroed_example =
    process_connection_zeroed text_json 0 (codes "7") (codes "8") no_router registrations zeroed
      b'G' (codes "ET /") [] roomy [] (serialize text_json refusal) refl (omega arith) refl
      (omega arith, (refl, (omega arith, tt))) refl (omega arith)

process_connection-failure_example :
    ((process_connection text_json 0
        (codes "7")
        (codes "8")
        no_router
        4
        (full_reads ++ read_error SslError.other ∷ [])
        tls_writes
        []).result
      ≡ returned false)
    × ((process_connection text_json 0
          (codes "7")
          (codes "8")
          no_router
          4
          (full_reads ++ read_error SslError.other ∷ [])
          tls_writes
          []).wire
        ≡ failure_text text_json 0 (codes "8") (some RetCode.internal_error))
unfolding serialize print_fields to_decimal code obsolete_reason make_resp
process_connection-failure_example =
    process_connection-failure text_json 0 (codes "7") (codes "8") no_router 4 full_reads []
      (read_error SslError.other) (some RetCode.internal_error) tls_writes []
      (omega arith, (refl, (omega arith, tt))) (omega arith) refl
      (omega arith, (refl, (omega arith, tt))) (omega arith)
