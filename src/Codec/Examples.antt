-- ===== src/Codec/Examples.antt =====
-- Instances of the theorems on parsing, printing and processing.
use https_http_server.Shared.{
  ◌≡◌, refl, [], ◌∷◌, ◌++◌, Text, codes, find_byte, find, starts_with, arith, none, text_eq,
  if◌then◌else◌, find_from,
}
use https_http_server.Status.Codes.{Http}
use https_http_server.Message.Method.{Method, method_name, to_method}
use https_http_server.Message.Fields.{has, field_eq, lookup, assign}
use https_http_server.Message.Envelope.{JsonLib, json_value, out_of_range, Request, Response}
use https_http_server.Routing.Router.{RouterManager, init}
use https_http_server.Routing.Router.Dispatch.{calls, first_handler, answer}
use https_http_server.Codec.Parse.{
  ok, ◌>>=◌, ◌>>◌, require, first_not_blank, parse_target, parse, thrown, parse_body, parse_headers,
  parse_lines, parse_line, substr, find_byte_from, trim,
}
use https_http_server.Codec.Parse.Layout.{raw_request, fields_of}
use https_http_server.Codec.Parse.Whole.{body_of, parse_lem}
use https_http_server.Codec.Parse.RoundTrip.{print_request, parse-print_request}
use https_http_server.Codec.Parse.Total.{Ends, parse-Ends}
use https_http_server.Codec.Serialize.{serialize}
use https_http_server.Codec.Serialize.Client.{
  read_response, status_line, content_fields, read_response-serialize,
}
use https_http_server.Codec.Process.{new_codec, process}
use https_http_server.Codec.Process.Answering.{
  request, response_to, codec_after, processed, process-calls, process-print_request,
}
use https_http_server.Samples.{text_json, registrations, fields}

abbrev no_router : RouterManager text_json
no_router = record { router = none }

abbrev version : Text
version = codes "HTTP/1.1"

abbrev body : Text
body = codes "[1]"

abbrev sample_request : Request text_json
sample_request = request text_json (codes "7") Method.get (codes "/a/b") version fields body

-- A body whose first line is read as a header line.
abbrev leaking_body : Text
leaking_body = codes "A: 1" ++ (13 ∷ 10 ∷ codes "[1]")

process-print_request_example :
    process text_json 0
      (codes "7")
      (codes "8")
      (calls text_json (init text_json no_router) registrations)
      (new_codec text_json)
      (print_request Method.get (codes "/a/b") version fields body)
    ≡ ok (
      record { req = sample_request },
      serialize text_json (
          answer text_json 0
            (first_handler text_json registrations Method.get (codes "/a/b"))
            sample_request),
    )
unfolding find_byte find starts_with method_name first_not_blank lookup has field_eq
process-print_request_example =
    process-print_request text_json 0 (codes "7") (codes "8") no_router registrations
      (new_codec text_json) Method.get (codes "/a/b") version fields body body (λ e. cc) refl refl
      ((refl, refl, refl), ((refl, refl, refl), tt)) (refl, (refl, tt)) refl refl refl

-- A library that has no type for 1e999.
abbrev narrow_json : JsonLib
narrow_json = record {
  Json = Text;
  null = codes "null";
  number = λ n. n ∷ [];
  text = λ t. t;
  object = λ fs. codes "{}";
  array = λ ts. codes "[]";
  parse = λ t. if text_eq t (codes "1e999") then out_of_range else json_value t;
  dump = λ n t. t;
  dump_line = λ t. t;
}

abbrev overflowing : Text
overflowing = print_request Method.get (codes "/a/b") version fields (codes "1e999")

process-calls_example :
    (process narrow_json 0
        (codes "7")
        (codes "8")
        (calls narrow_json (init narrow_json (record { router = none })) [])
        (new_codec narrow_json)
        overflowing
      ≡ processed narrow_json
          (codec_after narrow_json
            (new_codec narrow_json)
            (parse narrow_json (codes "7") overflowing))
          (response_to narrow_json 0 (codes "8") [] (parse narrow_json (codes "7") overflowing)))
    × Ends narrow_json overflowing (parse narrow_json (codes "7") overflowing)
process-calls_example =
    process-calls narrow_json 0 (codes "7") (codes "8") (record { router = none }) []
      (new_codec narrow_json) overflowing

parse-print_request_example :
    parse text_json (codes "7") (print_request Method.get (codes "/a/b") version fields body)
    ≡ ok sample_request
unfolding find_byte find starts_with method_name first_not_blank lookup has field_eq
parse-print_request_example =
    parse-print_request text_json (codes "7") Method.get (codes "/a/b") version fields body body
      (λ e. cc) refl refl ((refl, refl, refl), ((refl, refl, refl), tt)) (refl, (refl, tt)) refl
      refl refl

-- The body's first line stands among the fields, and the host is overwritten by none.
parse_lem_example :
    parse text_json
      (codes "7")
      (raw_request (codes "GET / HTTP/1.1") (codes "Host: x" ∷ []) leaking_body)
    ≡ (do
      first ← parse_target (codes "GET / HTTP/1.1")
      require (has (codes "Host") (fields_of (codes "Host: x" ∷ []) (codes "A: 1" ∷ [])))
      json ← body_of text_json leaking_body
      ok (record {
        id = codes "7";
        method = first.method;
        path = first.path;
        version = first.version;
        headers = fields_of (codes "Host: x" ∷ []) (codes "A: 1" ∷ []);
        body = json;
      }))
unfolding find starts_with
parse_lem_example =
    parse_lem text_json (codes "7") (codes "GET / HTTP/1.1") (codes "Host: x" ∷ [])
      (codes "A: 1" ∷ []) leaking_body (codes "[1]") refl (omega arith) (((λ e. cc), refl), tt) refl
      (refl, tt) refl

-- Its parser throws on the overflowing body.
overflowing_thrown : parse narrow_json (codes "7") overflowing ≡ thrown
unfolding parse parse_body parse_headers parse_lines parse_line parse_target substr find_byte_from
    find_from trim first_not_blank assign has find_byte find starts_with method_name to_method
    text_eq field_eq
overflowing_thrown = refl

parse-Ends_example : Ends narrow_json overflowing (parse narrow_json (codes "7") overflowing)
parse-Ends_example = parse-Ends narrow_json (codes "7") overflowing

abbrev sample_response : Response text_json
sample_response = record {
  status = Http.not_found;
  headers = (codes "X-Request-Id", codes "7") ∷ [];
  body = body;
}

read_response-serialize_example :
    read_response (serialize text_json sample_response)
    ≡ ok (status_line Http.not_found, content_fields body ++ sample_response.headers, body)
unfolding find_byte find starts_with first_not_blank lookup field_eq
read_response-serialize_example =
    read_response-serialize text_json sample_response ((refl, refl, refl), tt)
      (refl, (refl, (refl, tt)))
