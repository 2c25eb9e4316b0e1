-- ===== src/Codec/Process/Answering.antt =====
-- What a text that a connection has received is answered with, and a well-formed request by its handler.
use https_http_server.Shared.{
  ℕ, ◌-◌, ◌≡◌, ◌≢◌, refl, List, [], Text, codes, true, take, length, All,
}
use https_http_server.Status.RetCodes.{RetCode}
use https_http_server.Message.Method.{Method, method_name}
use https_http_server.Message.Fields.{Fields, has}
use https_http_server.Message.Envelope.{JsonLib, Request, Response, make_resp, empty_object}
use https_http_server.Routing.Router.{RouterManager, init}
use https_http_server.Routing.Router.Dispatch.{
  Registration, calls, first_handler, answer, manager_route-calls,
}
use https_http_server.Codec.Parse.{Parsed, ok, refused, thrown, exhausted, ◌>>=◌, parse}
use https_http_server.Codec.Parse.Search.{IsLine}
use https_http_server.Codec.Parse.TargetLine.{target_line, HasNoSpace}
use https_http_server.Codec.Parse.Whole.{body_of}
use https_http_server.Codec.Parse.RoundTrip.{IsField, AreFresh, print_request, parse-print_request}
use https_http_server.Codec.Parse.Total.{Ends, parse-Ends}
use https_http_server.Codec.Serialize.{serialize}
use https_http_server.Codec.Process.{HttpCodec, parse_w, process}

module _ (J : JsonLib) where
  -- What a router with registrations `cs` makes of what the parser gives: an answer to a request or to
  -- a refusal, and no response to an exception.
  abbrev pub response_to :
      ℕ → Text → List (Registration J) → Parsed (Request J) → Parsed (Response J)
  response_to now id' cs (ok req) = ok (answer J now (first_handler J cs req.method req.path) req)
  response_to now id' cs refused =
      ok (make_resp J now RetCode.invalid_json_or_params id' (empty_object J))
  response_to now id' cs thrown = thrown
  response_to now id' cs exhausted = exhausted

  abbrev pub codec_after : HttpCodec J → Parsed (Request J) → HttpCodec J
  codec_after codec (ok req) = record { req = req }
  codec_after codec _ = codec

  -- The codec and the printed response, or the exception.
  abbrev pub processed : HttpCodec J → Parsed (Response J) → Parsed (HttpCodec J × Text)
  processed codec resp = resp >>= λ r. ok (codec, serialize J r)

  abbrev pub request : Text → Method → Text → Text → Fields → J.Json → Request J
  request id m path version fs json = record {
    id = id;
    method = m;
    path = path;
    version = version;
    headers = fs;
    body = json;
  }

  process_of :
      (now : ℕ) (id id' : Text) (m : RouterManager J) (cs : List (Registration J))
      (codec : HttpCodec J) (raw : Text) (p : Parsed (Request J))
      → parse J id raw ≡ p
      → process J now id id' (calls J (init J m) cs) codec raw
        ≡ processed (codec_after codec p) (response_to now id' cs p)
  unfolding process parse_w
  process_of now id id' m cs codec raw (ok req) e =
      rw (e, process, parse_w, manager_route-calls J now m cs req) refl
  process_of now id id' m cs codec raw refused e = rw (e, process, parse_w) refl
  process_of now id id' m cs codec raw thrown e = rw (e, process, parse_w) refl
  process_of now id id' m cs codec raw exhausted e = rw (e, process, parse_w) refl

  -- With a router that `Init` has made and that any registrations have filled, a text is answered by
  -- the first handler registered at the place of the request where the parser accepts it (`not_found`
  -- where there is none), and with `invalid_json_or_params` where the parser refuses it, in which case
  -- the codec keeps its request; where the parser throws, `process` passes the exception on. The parser
  -- throws only where a blank line stands in the text and the JSON library throws `out_of_range` on
  -- what is behind it, and it never loops without end.
  pub process-calls :
      (now : ℕ) (id id' : Text) (m : RouterManager J) (cs : List (Registration J))
      (codec : HttpCodec J) (raw : Text)
      → (process J now id id' (calls J (init J m) cs) codec raw
          ≡ processed
              (codec_after codec (parse J id raw))
              (response_to now id' cs (parse J id raw)))
        × Ends J raw (parse J id raw)
  process-calls now id id' m cs codec raw =
      (process_of now id id' m cs codec raw (parse J id raw) refl, parse-Ends J id raw)

  -- With a router that `Init` has made and that any registrations have filled, a request that a
  -- client prints gets the printed response of the first handler registered at its method and
  -- path, and the printed `not_found` response where there is none. The method is not the unknown
  -- one; the path has no space; no line holds a line end; the fields are such that a line can
  -- carry them, differ in more than case, and name the host; the JSON library reads the body; and
  -- the body has no line end in its first bytes, as many as the first line has but two.
  pub process-print_request :
      (now : ℕ) (id id' : Text) (rm : RouterManager J) (cs : List (Registration J))
      (codec : HttpCodec J) (m : Method) (path version : Text) (fs : Fields) (body : Text)
      (json : J.Json)
      → m ≢ Method.unknown
      → HasNoSpace path
      → IsLine (target_line (method_name m) path version)
      → All IsField fs
      → AreFresh [] fs
      → has (codes "Host") fs ≡ true
      → body_of J body ≡ ok json
      → IsLine (take (length (target_line (method_name m) path version) - 2) body)
      → process J now id id' (calls J (init J rm) cs) codec (print_request m path version fs body)
        ≡ ok (
          record { req = request id m path version fs json },
          serialize J
              (answer J now (first_handler J cs m path) (request id m path version fs json)),
        )
  process-print_request now id id' rm cs codec m path version fs body json hm hp ht hf fresh host hb
        spill =
      process_of now id id' rm cs codec (print_request m path version fs body)
        (ok (request id m path version fs json))
        (parse-print_request J id m path version fs body json hm hp ht hf fresh host hb spill)
