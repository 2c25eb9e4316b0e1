-- ===== src/Program/Answers.antt =====
-- What the program answers.
use https_http_server.Shared.{
  ℕ, ◌-◌, ◌≡◌, ◌≢◌, refl, ap, ◌∙◌, List, [], ◌∷◌, Text, codes, some, true, take, length, All,
  if◌then◌else◌, Bool-cases, inl, inr,
}
use https_http_server.Status.RetCodes.{RetCode}
use https_http_server.Message.Method.{Method, method_name}
use https_http_server.Message.Fields.{Fields, has}
use https_http_server.Message.Envelope.{JsonLib, Request, Response, make_resp, empty_object}
use https_http_server.Routing.Tree.Table.{same_place}
use https_http_server.Routing.Router.{RouterManager, init}
use https_http_server.Routing.Router.Dispatch.{
  Registration, Verb, call, calls, first_handler, answer,
}
use https_http_server.Codec.Parse.{ok}
use https_http_server.Codec.Parse.Search.{IsLine}
use https_http_server.Codec.Parse.TargetLine.{target_line, HasNoSpace}
use https_http_server.Codec.Parse.Whole.{body_of}
use https_http_server.Codec.Parse.RoundTrip.{IsField, AreFresh, print_request}
use https_http_server.Codec.Serialize.{serialize}
use https_http_server.Codec.Process.{HttpCodec, process}
use https_http_server.Codec.Process.Answering.{request, process-print_request}
use https_http_server.Uuid.{generate_uuid_v4}
use https_http_server.Program.{uni_handler, registered}

module _ (J : JsonLib) where
  -- The response for `/uni`, and the one for all else.
  abbrev pub uni_response : ℕ → ℕ → ℕ → Response J
  uni_response now first second = make_resp J now RetCode.success (generate_uuid_v4 first second) (
      J.object (
        (codes "Message", J.text (codes "The request was received and successfully processed..."))
        ∷ []))

  pub only_route : ℕ → ℕ → ℕ → List (Registration J)
  only_route now first second =
      record {
        verb = Verb.get;
        path = codes "/uni";
        handler = some (uni_handler J now first second);
      }
      ∷ []

  pub registered-calls :
      (now first second : ℕ) (rm : RouterManager J)
      → registered J now first second rm ≡ calls J (init J rm) (only_route now first second)
  unfolding registered calls call only_route
  registered-calls now first second rm = refl

  pub only_answer :
      (now first second : ℕ) (m : Method) (path : Text) (req : Request J)
      → answer J now (first_handler J (only_route now first second) m path) req ≡ (
          if same_place Method.get (codes "/uni") m path
          then uni_response now first second
          else make_resp J now RetCode.not_found req.id (empty_object J))
  unfolding only_route uni_handler
  only_answer now first second m path req =
      elim (Bool-cases (same_place Method.get (codes "/uni") m path)) [
        | inl y ↦ rw (y) refl
        | inr n ↦ rw (n) refl
      ]

  -- In the program, a request that a client prints is answered: with the result code `success`, its
  -- message and a new identifier where it is a `GET` whose path comes to the place of `/uni`, and with
  -- `not_found` and the request's own identifier else. The method is not the unknown one; the path has
  -- no space; no line holds a line end; the fields are such that a line can carry them, differ in more
  -- than case, and name the host; the JSON library reads the body; and the body has no line end in its
  -- first bytes, as many as the first line has but two.
  pub process-registered :
      (now first second : ℕ) (id id' : Text) (rm : RouterManager J) (codec : HttpCodec J)
      (m : Method) (path version : Text) (fs : Fields) (body : Text) (json : J.Json)
      → m ≢ Method.unknown
      → HasNoSpace path
      → IsLine (target_line (method_name m) path version)
      → All IsField fs
      → AreFresh [] fs
      → has (codes "Host") fs ≡ true
      → body_of J body ≡ ok json
      → IsLine (take (length (target_line (method_name m) path version) - 2) body)
      → process J now id id'
          (registered J now first second rm)
          codec
          (print_request m path version fs body)
        ≡ ok (
          record { req = request J id m path version fs json },
          serialize J (
              if same_place Method.get (codes "/uni") m path
              then uni_response now first second
              else make_resp J now RetCode.not_found id (empty_object J)),
        )
  process-registered now first second id id' rm codec m path version fs body json hm hp ht hf fresh
        host hb spill =
      let req = request J id m path version fs json in
      ap (λ r. process J now id id' r codec (print_request m path version fs body))
        (registered-calls now first second rm)
      ∙ (process-print_request J now id id' rm (only_route now first second) codec m path version fs
            body json hm hp ht hf fresh host hb spill
          ∙ ap (λ r. ok (record { req = req }, serialize J r))
              (only_answer now first second m path req))
