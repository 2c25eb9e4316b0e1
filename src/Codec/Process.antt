-- ===== src/Codec/Process.antt =====
-- `HttpCodec::parse_w` and `HttpCodec::process`, of src/server/src/http/http_codec.cc. Log lines are
-- not modelled.
pub mod Answering
use https_http_server.Shared.{ℕ, Text, Option, none, some, Bool, true, false}
use https_http_server.Status.RetCodes.{RetCode}
use https_http_server.Message.Envelope.{
  JsonLib, Request, Response, default_request, make_resp, empty_object,
}
use https_http_server.Routing.Router.{RouterManager, manager_route}
use https_http_server.Codec.Parse.{Parsed, ok, refused, thrown, exhausted, ◌>>=◌, parse}
use https_http_server.Codec.Serialize.{serialize}

module _ (J : JsonLib) where
  pub record HttpCodec : Type 0 where
    pub req : Request J

  abbrev pub new_codec : HttpCodec
  new_codec = record { req = default_request J }

  -- The request of the codec is replaced only where the parser returns one; an exception passes.
  unfoldable pub parse_w : Text → HttpCodec → Text → Parsed (HttpCodec × Bool)
  parse_w id codec raw = elim (parse J id raw) [
    | ok req ↦ ok (record { req = req }, true)
    | refused ↦ ok (codec, false)
    | thrown ↦ thrown
    | exhausted ↦ exhausted
  ]

  -- `id` is drawn by the parser, and `id'` by `makeResp` where an error is answered.
  unfoldable pub process :
      ℕ → Text → Text → RouterManager J → HttpCodec → Text → Parsed (HttpCodec × Text)
  process now id id' manager codec raw = do
    (codec', is_parsed) ← parse_w id codec raw
    let resp : Option (Response J) = elim is_parsed [
      | false ↦ some (make_resp J now RetCode.invalid_json_or_params id' (empty_object J))
      | true ↦ manager_route J now manager codec'.req
    ]
    ok (
      codec',
      serialize J (elim resp [
        | none ↦ make_resp J now RetCode.internal_error id' (empty_object J)
        | some response ↦ response
      ]),
    )
