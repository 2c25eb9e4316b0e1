-- ===== src/Routing/Examples.antt =====
-- Tests of the routing tree and instances of its theorems.
use https_http_server.Shared.{ℕ, ◌≡◌, refl, codes, some, none, ◌&&◌, if◌then◌else◌, text_eq}
use https_http_server.Message.Method.{Method}
use https_http_server.Routing.Tree.{RoutingTree, make_root, add, get}
use https_http_server.Routing.Tree.Table.{same_place, get-add}
use https_http_server.Routing.Router.{RouterManager, init, manager_route}
use https_http_server.Routing.Router.Dispatch.{calls, first_handler, answer, manager_route-calls}
use https_http_server.Message.Envelope.{Request}
use https_http_server.Samples.{text_json, registrations, fields}

abbrev no_router : RouterManager text_json
no_router = record { router = none }

abbrev sample_request : Request text_json
sample_request = record {
  id = codes "1";
  method = Method.get;
  path = codes "/a/b";
  version = codes "HTTP/1.1";
  headers = fields;
  body = codes "null";
}

-- Routes of the same shape do not meet, and a route is found again.
abbrev sample : RoutingTree ℕ
sample =
    (add (add make_root Method.get (codes "/a/b") (some 1)).0 Method.get (codes "/a") (some 2)).0

sample_found : get sample Method.get (codes "/a/b") ≡ some 1
unfolding get add make_root text_eq
sample_found = refl

sample_shorter : get sample Method.get (codes "/a") ≡ some 2
unfolding get add make_root text_eq
sample_shorter = refl

sample_missing : get sample Method.post (codes "/a") ≡ none
unfolding get add make_root text_eq
sample_missing = refl

get-add_example :
    get (add sample Method.get (codes "/c/d") (some 3)).0 Method.get (codes "/c/d") ≡ (
      if (add sample Method.get (codes "/c/d") (some 3)).1
        && same_place Method.get (codes "/c/d") Method.get (codes "/c/d")
      then some 3
      else get sample Method.get (codes "/c/d"))
get-add_example = get-add sample Method.get Method.get (codes "/c/d") (codes "/c/d") (some 3)

manager_route-calls_example :
    manager_route text_json 0
      (calls text_json (init text_json no_router) registrations)
      sample_request
    ≡ some (
        answer text_json 0
          (first_handler text_json registrations sample_request.method sample_request.path)
          sample_request)
manager_route-calls_example = manager_route-calls text_json 0 no_router registrations sample_request
