-- ===== src/Samples.antt =====
-- Data that the tests of several modules share: a JSON library whose values are texts, and a router
-- with two handlers. No code of the repository is modelled here.
use https_http_server.Shared.{List, [], ◌∷◌, Text, codes, some}
use https_http_server.Status.Codes.{Http}
use https_http_server.Message.Fields.{Fields}
use https_http_server.Message.Envelope.{JsonLib, json_value}
use https_http_server.Routing.Router.{Handler}
use https_http_server.Routing.Router.Dispatch.{Verb, Registration}

abbrev pub text_json : JsonLib
text_json = record {
  Json = Text;
  null = codes "null";
  number = λ n. n ∷ [];
  text = λ t. t;
  object = λ fs. codes "{}";
  array = λ ts. codes "[]";
  parse = json_value;
  dump = λ n t. t;
  dump_line = λ t. t;
}

-- A handler that gives its request's path back.
abbrev pub echo : Handler text_json
echo req = record { status = Http.ok; headers = []; body = req.path }

abbrev pub registrations : List (Registration text_json)
registrations =
    record { verb = Verb.get; path = codes "/a/b"; handler = some echo }
    ∷ record { verb = Verb.post; path = codes "/a"; handler = some echo }
    ∷ []

abbrev pub fields : Fields
fields = (codes "Host", codes "x") ∷ (codes "Via", codes "y z") ∷ []
