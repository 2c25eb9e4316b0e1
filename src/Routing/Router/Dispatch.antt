-- ===== src/Routing/Router/Dispatch.antt =====
-- What a request is answered with after a series of registrations.
use https_http_server.Shared.{
  ℕ, ◌≡◌, ◌<◌, refl, ap, ◌∙◌, List, [], ◌∷◌, Text, Option, none, some, true, if◌then◌else◌, is_some,
  arith, Option-cases, Bool-cases, inl, inr, length, length-set, get_elem?-eq-some,
}
use https_http_server.Status.RetCodes.{RetCode}
use https_http_server.Message.Method.{Method, method_index}
use https_http_server.Message.Envelope.{JsonLib, Request, Response, make_resp, empty_object}
use https_http_server.Routing.Tree.{RoutingTree, make_root, map_of, after_slash}
use https_http_server.Routing.Tree
use https_http_server.Routing.Tree.Table.{same_place, add-done, get-add}
use https_http_server.Routing.Tree.Places.{get-same_place, get-make_root}
use https_http_server.Routing.Router.{
  Handler, RouterManager, Outcome, returned, init, manager_get, manager_post, manager_put,
  manager_del, manager_patch, manager_route,
}

module _ {ℓ} {H : Type ℓ} where
  abbrev pub HasMaps : RoutingTree H → Type 0
  HasMaps t = length t.root ≡ 5

  add-HasMaps :
      (t : RoutingTree H) (mtd : Method) (path : Text) (h : Option H)
      → HasMaps t
      → HasMaps (Tree.add t mtd path h).0
  unfolding Tree.add
  add-HasMaps t mtd path h w = elim (Option-cases (map_of t mtd)) [
    | inl e ↦ rw (e, Tree.add) w
    | inr (m, e) ↦ rw (e, Tree.add) (length-set t.root (method_index mtd) _ ∙ w)
  ]

abbrev pub or_else {ℓ} : {A : Type ℓ} → Option A → Option A → Option A
or_else none o = o
or_else (some a) o = some a

or_else_assoc {ℓ} :
    {A : Type ℓ} (a b c : Option A) → or_else (or_else a b) c ≡ or_else a (or_else b c)
or_else_assoc none b c = refl
or_else_assoc (some x) b c = refl

-- The five registering functions.
pub data Verb : Type 0 where
  get post put del patch : Verb

abbrev pub verb_method : Verb → Method
verb_method get = Method.get
verb_method post = Method.post
verb_method put = Method.put
verb_method del = Method.delete
verb_method patch = Method.patch

module _ {ℓ} {H : Type ℓ} where
  has_map : (t : RoutingTree H) (v : Verb) → HasMaps t → is_some (map_of t (verb_method v)) ≡ true
  has_map t v w =
      let (m, e) = get_elem?-eq-some t.root (method_index (verb_method v)) (bound v) in ap is_some e
    where
      bound : (u : Verb) → method_index (verb_method u) < length t.root
      bound get = omega arith
      bound _ = omega arith

  -- The handler that a registration offers to a lookup.
  abbrev pub offered : Verb → Text → Option H → Method → Text → Option H
  offered v path h mtd' path' = if same_place (verb_method v) path mtd' path' then h else none

  -- One registration: a lookup finds what it found before, and failing that what is offered to it.
  get-add-offered :
      (t : RoutingTree H) (v : Verb) (path : Text) (h : Option H) (mtd' : Method) (path' : Text)
      → HasMaps t
      → Tree.get (Tree.add t (verb_method v) path h).0 mtd' path'
        ≡ or_else (Tree.get t mtd' path') (offered v path h mtd' path')
  get-add-offered t v path h mtd' path' w =
      elim (Bool-cases (same_place (verb_method v) path mtd' path')) [
        | inl here ↦
            let (slash, maps, same) = get-same_place t (verb_method v) mtd' path path' here in
            rw
              (
                get-add t (verb_method v) mtd' path path' h,
                add-done t (verb_method v) path h,
                has_map t v w,
                slash,
                same,
                here,
              )
              (ground arith)
        | inr away ↦ rw (get-add t (verb_method v) mtd' path path' h, away) (ground arith)
      ]

module _ (J : JsonLib) where
  pub record Registration : Type 0 where
    pub verb : Verb
    pub path : Text
    pub handler : Option (Handler J)

  -- The call that a registration makes.
  unfoldable pub call :
      RouterManager J → Verb → Text → Option (Handler J) → RouterManager J × Outcome J
  unfolding manager_get manager_post manager_put manager_del manager_patch
  call m get path h = manager_get J m path h
  call m post path h = manager_post J m path h
  call m put path h = manager_put J m path h
  call m del path h = manager_del J m path h
  call m patch path h = manager_patch J m path h

  unfoldable pub calls : RouterManager J → List Registration → RouterManager J
  calls m [] = m
  calls m (c ∷ cs) = calls (call m c.verb c.path c.handler).0 cs

  -- The handler that is registered first at the place that a lookup comes to.
  abbrev pub first_handler : List Registration → Method → Text → Option (Handler J)
  first_handler [] mtd path = none
  first_handler (c ∷ cs) mtd path =
      or_else (offered c.verb c.path c.handler mtd path) (first_handler cs mtd path)

  -- The answer of a router whose lookups find `o`.
  abbrev pub answer : ℕ → Option (Handler J) → Request J → Response J
  answer now none req = make_resp J now RetCode.not_found req.id (empty_object J)
  answer now (some h) req = h req

  abbrev holding : RoutingTree (Handler J) → RouterManager J
  holding t = record { router = some (record { rtree = t }) }

  call-holding :
      (t : RoutingTree (Handler J)) (v : Verb) (path : Text) (h : Option (Handler J))
      → call (holding t) v path h ≡ (
        holding (Tree.add t (verb_method v) path h).0,
        returned (Tree.add t (verb_method v) path h).1,
      )
  unfolding call
  call-holding t get path h = refl
  call-holding t _ path h = refl

  route-holding :
      (now : ℕ) (t : RoutingTree (Handler J)) (req : Request J)
      → manager_route J now (holding t) req ≡ some (answer now (Tree.get t req.method req.path) req)
  unfolding manager_route
  route-holding now t req = ground arith

  route-calls :
      (now : ℕ) (t : RoutingTree (Handler J)) (cs : List Registration) (req : Request J)
      → HasMaps t
      → manager_route J now (calls (holding t) cs) req
        ≡ some (
            answer now
              (or_else (Tree.get t req.method req.path) (first_handler cs req.method req.path))
              req)
  unfolding calls
  route-calls now t [] req w = route-holding now t req ∙ ground arith
  route-calls now t (c ∷ cs) req w =
      let t' : RoutingTree (Handler J) = (Tree.add t (verb_method c.verb) c.path c.handler).0 in
      let rest : Option (Handler J) = first_handler cs req.method req.path in
      let found : or_else (Tree.get t' req.method req.path) rest
          ≡ or_else (Tree.get t req.method req.path)
              (or_else (offered c.verb c.path c.handler req.method req.path) rest) =
        ap (λ o. or_else o rest) (get-add-offered t c.verb c.path c.handler req.method req.path w)
        ∙ or_else_assoc (Tree.get t req.method req.path)
            (offered c.verb c.path c.handler req.method req.path) rest in
      ap (λ r. manager_route J now (calls r.0 cs) req) (call-holding t c.verb c.path c.handler)
      ∙ (route-calls now t' cs req (add-HasMaps t (verb_method c.verb) c.path c.handler w)
          ∙ ap (λ o. some (answer now o req)) found)

  make_root-HasMaps : HasMaps {H = Handler J} make_root
  unfolding make_root
  make_root-HasMaps = refl

  -- After any series of registrations on a new router, a request is answered by the handler that
  -- was registered first at its method and route, null handlers left aside, and with the result
  -- code `not_found` and the request's own identifier where there is none.
  pub manager_route-calls :
      (now : ℕ) (m : RouterManager J) (cs : List Registration) (req : Request J)
      → manager_route J now (calls (init J m) cs) req
        ≡ some (answer now (first_handler cs req.method req.path) req)
  unfolding init
  manager_route-calls now m cs req =
      route-calls now make_root cs req make_root-HasMaps
      ∙ ap (λ o. some (answer now (or_else o (first_handler cs req.method req.path)) req))
          (get-make_root req.method req.path)
