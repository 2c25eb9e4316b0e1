-- ===== src/Program/Examples.antt =====
-- An instance of the theorem on the program's answer for `/uni`.
use https_http_server.Shared.{
  ◌≡◌, refl, List, [], ◌∷◌, ◌++◌, Text, codes, find_byte, find, starts_with, arith, true, none, ◌∙◌,
  ap, length, All, map, ◌≤◌,
}
use https_http_server.Message.Method.{Method, method_name}
use https_http_server.Message.Fields.{lookup, has, field_eq}
use https_http_server.Message.Envelope.{Response, make_resp, empty_object}
use https_http_server.Routing.Router.{RouterManager}
use https_http_server.Codec.Parse.{first_not_blank}
use https_http_server.Codec.Serialize.{serialize, print_fields, to_decimal}
use https_http_server.Status.Codes.{code, obsolete_reason}
use https_http_server.Connection.Socket.{got, TlsWrite, wrote, returned}
use https_http_server.Connection.Https.{process_connection}
use https_http_server.Uuid.{generate_uuid_v4}
use https_http_server.Server.Children.{draw_id, tls_round, tls_rounds, arrive}
use https_http_server.Server.Intake.{tls_intake, accept_connection, ssl_handshake}
use https_http_server.Server.Children.Identifiers.{id_at}
use https_http_server.Connection.Descriptor.{pos, drop_client}
use https_http_server.Server.Children.Examples.{counter, visits, start}
use https_http_server.Program.Children.{child_routes, asks_uni, child_response}
use https_http_server.Program.Identifiers.{sends, Carries, tls_rounds-same_id}
use https_http_server.Program.{registered}
use https_http_server.Program.Answers.{uni_response}
use https_http_server.Codec.Parse
use https_http_server.Codec.Parse.{ok}
use https_http_server.Codec.Process.Answering.{request, response_to}
use https_http_server.Program.Service.{Talk, serve, responses, IsDone, Suits, serve-tls_rounds}
use https_http_server.Status.RetCodes.{RetCode, to_http_status}
use https_http_server.Program.Serving.{
  parse-uni_request, response_to-uni, same_uni, process_connection-uni,
}
use https_http_server.Samples.{text_json, fields}

abbrev no_router : RouterManager text_json
no_router = record { router = none }

-- The request behind its first byte.
abbrev tail : Text
tail =
    codes "ET /uni HTTP/1.1"
    ++ (13 ∷ 10 ∷ codes "Host: x")
    ++ (13 ∷ 10 ∷ codes "Via: y z")
    ++ (13 ∷ 10 ∷ 13 ∷ 10 ∷ codes "[1]")

abbrev writes : List TlsWrite
writes = wrote 400 ∷ []

process_connection-uni_example :
    ((process_connection text_json 0
        (codes "7")
        (codes "8")
        (registered text_json 0 1 2 no_router)
        1024
        (got b'G' tail ∷ [])
        writes
        []).result
      ≡ returned true)
    × ((process_connection text_json 0
          (codes "7")
          (codes "8")
          (registered text_json 0 1 2 no_router)
          1024
          (got b'G' tail ∷ [])
          writes
          []).wire
        ≡ serialize text_json (uni_response text_json 0 1 2))
unfolding find_byte find starts_with method_name first_not_blank lookup has field_eq serialize
    to_decimal code make_resp obsolete_reason print_fields generate_uuid_v4
process_connection-uni_example =
    process_connection-uni text_json 0 1 2 (codes "7") (codes "8") no_router 1024 [] [] b'G' tail
      writes [] fields (codes "[1]") (codes "[1]") ((refl, refl, refl), ((refl, refl, refl), tt))
      (refl, (refl, tt)) refl refl refl refl tt (omega arith) (omega arith) (omega arith, tt)
      (omega arith)

-- The bytes behind the first one of a request that the parser refuses.
abbrev other : Text
other = codes "ET"

uni_request_read :
    (id : Text)
    → Parse.parse text_json id (b'G' ∷ tail)
      ≡ ok (request text_json id Method.get (codes "/uni") (codes "HTTP/1.1") fields (codes "[1]"))
unfolding find_byte find starts_with method_name first_not_blank lookup has field_eq
uni_request_read id =
    parse-uni_request text_json id fields (codes "[1]") (codes "[1]")
      ((refl, refl, refl), ((refl, refl, refl), tt)) (refl, (refl, tt)) refl refl refl

child_uni : child_response text_json counter 0 2 (b'G' ∷ tail) ≡ ok (uni_response text_json 0 4 5)
unfolding draw_id
child_uni =
    ap (response_to text_json 0 (id_at counter 2 0) (child_routes text_json counter 0 2))
      (uni_request_read (id_at counter 2 0))
    ∙ response_to-uni text_json 0 4 5 (id_at counter 2 0) (id_at counter 2 0) fields (codes "[1]")

uni_fits : length (serialize text_json (uni_response text_json 0 4 5)) ≤ 401
unfolding serialize to_decimal code make_resp obsolete_reason print_fields generate_uuid_v4
uni_fits = omega arith

abbrev uni_talk : Talk
uni_talk = record {
  now = 0;
  bufsize = 1024;
  full = [];
  first = b'G';
  tail = tail;
  rest = [];
  writes = writes;
}

abbrev other_talk : Talk
other_talk = record {
  now = 9;
  bufsize = 1024;
  full = [];
  first = b'G';
  tail = other;
  rest = [];
  writes = writes;
}

other_refused : (id : Text) → Parse.parse text_json id (b'G' ∷ other) ≡ Parse.refused
unfolding Parse.parse find starts_with
other_refused id = refl

abbrev refusal : Response text_json
refusal =
    make_resp text_json 9 RetCode.invalid_json_or_params (id_at counter 4 0)
      (empty_object text_json)

child_other : child_response text_json counter 9 4 (b'G' ∷ other) ≡ ok refusal
child_other =
    ap (response_to text_json 9 (id_at counter 4 0) (child_routes text_json counter 9 4))
      (other_refused (id_at counter 4 0))

refusal_fits : length (serialize text_json refusal) ≤ 401
unfolding serialize to_decimal code make_resp obsolete_reason print_fields generate_uuid_v4 draw_id
    to_http_status
refusal_fits = omega arith

uni_talk-Suits : Suits text_json counter 2 uni_talk
uni_talk-Suits = (
  tt,
  omega arith,
  omega arith,
  (omega arith, tt),
  uni_response text_json 0 4 5,
  child_uni,
  uni_fits,
)

other_talk-Suits : Suits text_json counter 4 other_talk
other_talk-Suits =
    (tt, omega arith, omega arith, (omega arith, tt), refusal, child_other, refusal_fits)

tls_rounds-same_id_example :
    Carries text_json counter
      (id_at counter 0 2)
      (sends text_json counter no_router 2 uni_talk).wire
    × Carries text_json counter
        (id_at counter 0 2)
        (sends text_json counter no_router 4 other_talk).wire
unfolding tls_rounds tls_round arrive draw_id tls_intake accept_connection drop_client ssl_handshake
tls_rounds-same_id_example =
    tls_rounds-same_id text_json counter no_router visits start 0 0
      (record { sockfd = pos 6; ip = codes "::1"; port = 4000 })
      (record { sockfd = pos 7; ip = codes "::1"; port = 4001 }) 2 4 uni_talk other_talk
      (refl, (tt, (refl, tt))) refl refl refl refl refl uni_talk-Suits other_talk-Suits
      (ap (asks_uni text_json counter) (uni_request_read _) ∙ same_uni text_json)
      (ap (asks_uni text_json counter) (other_refused _))

serve-tls_rounds_example :
    (map
        (λ s. ok s.wire)
        (serve text_json counter no_router
          (tls_rounds counter visits start).copies
          (uni_talk ∷ other_talk ∷ []))
      ≡ responses text_json counter (2 ∷ 4 ∷ []) (uni_talk ∷ other_talk ∷ []))
    × All (IsDone text_json counter) (
        serve text_json counter no_router
          (tls_rounds counter visits start).copies
          (uni_talk ∷ other_talk ∷ []))
unfolding tls_rounds tls_round arrive draw_id tls_intake accept_connection drop_client ssl_handshake
serve-tls_rounds_example =
    serve-tls_rounds text_json counter no_router visits start (uni_talk ∷ other_talk ∷ [])
      (refl, (tt, (refl, tt))) refl (uni_talk-Suits, (other_talk-Suits, tt))
