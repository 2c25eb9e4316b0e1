-- ===== src/Codec/Serialize/Results.antt =====
-- The response that `makeResp` makes for a result code, as a client reads it.
use https_http_server.Shared.{ℕ, ◌≡◌, refl, [], ◌∷◌, ◌++◌, Text, codes}
use https_http_server.Status.RetCodes.{RetCode, to_http_status}
use https_http_server.Message.Fields.{lookup, field_eq}
use https_http_server.Message.Envelope.{JsonLib, make_resp}
use https_http_server.Codec.Parse.{ok}
use https_http_server.Codec.Parse.RoundTrip.{IsField}
use https_http_server.Codec.Serialize.{serialize}
use https_http_server.Codec.Serialize.Client.{
  read_response, status_line, content_fields, read_response-serialize,
}

module _ (J : JsonLib) where
  -- For every result code, a client that reads the serialised response of `makeResp` gets the status
  -- line of the HTTP status that the code stands for, the two content fields, the identifier in
  -- `X-Request-Id`, and the printed body. The identifier is one that a header line can carry.
  pub read_response-make_resp :
      (now : ℕ) (retcode : RetCode) (id : Text) (result : J.Json)
      → IsField (codes "X-Request-Id", id)
      → read_response (serialize J (make_resp J now retcode id result))
        ≡ ok (
          status_line (to_http_status retcode),
          content_fields (J.dump 4 (make_resp J now retcode id result).body)
              ++ (codes "X-Request-Id", id) ∷ [],
          J.dump 4 (make_resp J now retcode id result).body,
        )
  unfolding make_resp lookup field_eq
  read_response-make_resp now retcode id result h =
      read_response-serialize J (make_resp J now retcode id result) (h, tt)
        (refl, (refl, (refl, tt)))
