-- ===== src/Routing/Router.antt =====
-- `Router` and `RouterManager`, of src/routing/include/project/routing/router.h and
-- src/routing/src/router.cc. A handler is a function from requests to responses. Log lines are not
-- modelled. The hash key that `Init` may take only places entries in buckets.
pub mod Dispatch
use https_http_server.Shared.{ℕ, Text, codes, Option, none, some, Bool, true, false}
use https_http_server.Status.RetCodes.{RetCode}
use https_http_server.Message.Method.{Method}
use https_http_server.Message.Envelope.{JsonLib, Request, Response, make_resp, empty_object}
use https_http_server.Routing.Tree.{RoutingTree, make_root}
use https_http_server.Routing.Tree

module _ (J : JsonLib) where
  abbrev pub Handler : Type 0
  Handler = Request J → Response J

  pub record Router : Type 0 where
    pub rtree : RoutingTree Handler

  unfoldable pub new_router : Router
  unfolding make_root
  new_router = record { rtree = make_root }

  -- `rtree_.add(mtd, path, std::move(h))`, which each of the five methods below calls.
  abbrev add_handler : Router → Method → Text → Option Handler → Router × Bool
  add_handler r mtd path h =
      let (t, done) = Tree.add r.rtree mtd path h in (record { rtree = t }, done)

  unfoldable pub router_get : Router → Text → Option Handler → Router × Bool
  router_get r path h = add_handler r Method.get path h

  unfoldable pub router_post : Router → Text → Option Handler → Router × Bool
  router_post r path h = add_handler r Method.post path h

  unfoldable pub router_put : Router → Text → Option Handler → Router × Bool
  router_put r path h = add_handler r Method.put path h

  unfoldable pub router_del : Router → Text → Option Handler → Router × Bool
  router_del r path h = add_handler r Method.delete path h

  unfoldable pub router_patch : Router → Text → Option Handler → Router × Bool
  router_patch r path h = add_handler r Method.patch path h

  -- `Router::route`: `none` where no handler is found.
  unfoldable pub router_route : Router → Request J → Option (Response J)
  router_route r req = elim (Tree.get r.rtree req.method req.path) [
    | none ↦ none
    | some h ↦ some (h req)
  ]

  -- `RouterManager::router_`, null until `Init`.
  pub record RouterManager : Type 0 where
    pub router : Option Router

  -- What a registration gives its caller: the result, or `throw std::runtime_error`.
  pub data Outcome : Type 0 where
    returned : Bool → Outcome
    thrown : Text → Outcome

  unfoldable pub init : RouterManager → RouterManager
  unfolding new_router
  init m = record { router = some new_router }

  unfoldable pub clear : RouterManager → RouterManager
  clear m = record { router = none }

  -- The body that the five registering functions share, around the method of the router.
  pub register_with :
      (Router → Text → Option Handler → Router × Bool)
      → RouterManager
      → Text
      → Option Handler
      → RouterManager × Outcome
  register_with f m path h = elim m.router [
    | none ↦ (m, thrown (codes "Router not initialized"))
    | some r ↦ let (r', result) = f r path h in (record { router = some r' }, returned result)
  ]

  unfoldable pub manager_get : RouterManager → Text → Option Handler → RouterManager × Outcome
  unfolding register_with router_get
  manager_get = register_with router_get

  unfoldable pub manager_post : RouterManager → Text → Option Handler → RouterManager × Outcome
  unfolding register_with router_post
  manager_post = register_with router_post

  unfoldable pub manager_put : RouterManager → Text → Option Handler → RouterManager × Outcome
  unfolding register_with router_put
  manager_put = register_with router_put

  unfoldable pub manager_del : RouterManager → Text → Option Handler → RouterManager × Outcome
  unfolding register_with router_del
  manager_del = register_with router_del

  unfoldable pub manager_patch : RouterManager → Text → Option Handler → RouterManager × Outcome
  unfolding register_with router_patch
  manager_patch = register_with router_patch

  -- `RouterManager::Route`, at the time `now`: `none` where there is no router.
  unfoldable pub manager_route : ℕ → RouterManager → Request J → Option (Response J)
  unfolding router_route
  manager_route now m req = elim m.router [
    | none ↦ none
    | some r ↦ elim (router_route r req) [
      | none ↦ some (make_resp J now RetCode.not_found req.id (empty_object J))
      | some response ↦ some response
    ]
  ]
