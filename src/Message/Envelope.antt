-- ===== src/Message/Envelope.antt =====
-- `struct Request`, `struct Response` and `makeResp`, of http_message.h and http_message.cc.
-- `nlohmann::ordered_json` is the parameter `JsonLib`. The clock and the random identifiers are
-- arguments.
use https_http_server.Shared.{ℕ, List, [], ◌∷◌, Text, codes}
use https_http_server.Status.Codes.{Http}
use https_http_server.Status.RetCodes.{RetCode, retcode_number, to_http_status, ret_mesg}
use https_http_server.Message.Method.{Method}
use https_http_server.Message.Fields.{Fields}

-- What `nlohmann::json::parse` gives: a value, or the exceptions `parse_error` and `out_of_range` (406,
-- for a number that no type of the library holds, such as 1e999), which are not derived from each
-- other.
pub data JsonParse {ℓ} (A : Type ℓ) : Type ℓ where
  json_value : A → JsonParse A
  parse_error out_of_range : JsonParse A

-- What the code uses of nlohmann's JSON: a default value, the values that it builds, `parse`, `dump`
-- with an indentation, and `dump` with none (`dump_line`).
pub record JsonLib : Type 1 where
  pub Json : Type 0
  pub null : Json
  pub number : ℕ → Json
  pub text : Text → Json
  pub object : List (Text × Json) → Json
  pub array : List Json → Json
  pub parse : Text → JsonParse Json
  pub dump : ℕ → Json → Text
  pub dump_line : Json → Text

module _ (J : JsonLib) where
  open J use {Json, null, number, text, object}

  pub record Request : Type 0 where
    pub id : Text
    pub method : Method
    pub path : Text
    pub version : Text
    pub headers : Fields
    pub body : Json

  -- `Request req;`, with the initialisers of the struct.
  abbrev pub default_request : Request
  default_request = record {
    id = [];
    method = Method.unknown;
    path = codes "none";
    version = codes "HTTP/1.1";
    headers = [];
    body = null;
  }

  pub record Response : Type 0 where
    pub status : Http
    pub headers : Fields
    pub body : Json

  -- `makeResp(retcode, id, result)`, at the time `now`.
  unfoldable pub make_resp : ℕ → RetCode → Text → Json → Response
  unfolding to_http_status retcode_number ret_mesg
  make_resp now retcode id result = record {
    status = to_http_status retcode;
    headers = (codes "X-Request-Id", id) ∷ [];
    body = object (
        (codes "retCode", number (retcode_number retcode))
        ∷ (codes "retMesg", text (ret_mesg retcode))
        ∷ (codes "time", number now)
        ∷ (codes "result", result)
        ∷ []);
  }

  -- The default argument `nlohmann::json::object()`.
  abbrev pub empty_object : Json
  empty_object = object []
