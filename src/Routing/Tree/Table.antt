-- ===== src/Routing/Tree/Table.antt =====
-- The routing tree as a table from methods and routes to handlers.
use https_http_server.Shared.{
  ℕ, zero, suc, ◌≡◌, ◌≢◌, refl, sym, ap, ◌∙◌, List, [], ◌∷◌, Text, Option, none, some, Bool, true,
  false, ◌&&◌, if◌then◌else◌, ◌==◌, is_some, is_none, arith, Option-cases, inl, inr, get_elem?, set,
  set_same,
}
use https_http_server.Message.Method.{Method, method_index}
use https_http_server.Routing.Tree.{
  HashMap, RoutingTree, after_slash, elements, add_elems, get_elems, add_path, get_path, add_long,
  get_long, map_of, add, get,
}
use https_http_server.Routing.Tree.Insert.{add_elems-done, get_elems-add_elems, add_elems_refused}
use https_http_server.Routing.Tree.Routes.{
  Route, route_eq, route_to_add, route_to_get, first_elem, more_elems, add_route, get_route,
  add_path-route, get_path-route, same_route-route_eq, is_some-route_to_add, route_to_get_of_add,
  route_eq_sound,
}

abbrev pub same_route? : Option Route → Option Route → Bool
same_route? (some r) (some s) = route_eq r s
same_route? _ _ = false

-- A lookup of `path'` under the method `mtd'` comes to the place at which `path` is registered
-- under the method `mtd`.
abbrev pub same_place : Method → Text → Method → Text → Bool
same_place mtd path mtd' path' =
    method_index mtd == method_index mtd' && same_route? (route_to_add path) (route_to_get path')

pub same_route?-sound :
    (o o' : Option Route) → same_route? o o' ≡ true → (r : Route) × (o ≡ some r) × (o' ≡ some r)
same_route?-sound (some r) (some s) e = (r, refl, ap some (sym (route_eq_sound r s e)))
same_route?-sound none o e = cc
same_route?-sound (some r) none e = cc

module _ {ℓ} {H : Type ℓ} where
  pub get_path_route :
      (m : HashMap H) (p : Text) (r : Route)
      → route_to_add p ≡ some r
      → get_path m p ≡ get_elems m (first_elem r) (more_elems r)
  get_path_route m p r e = get_path-route m p ∙ ap (get_route m) (route_to_get_of_add p r e)

  add_path-done :
      (m : HashMap H) (p : Text) (h : Option H)
      → (add_path m p h).1 ≡ (is_some (after_slash p) && is_none (get_path m p))
  add_path-done m p h = elim (Option-cases (route_to_add p)) [
    | inl e ↦ rw (add_path-route m p h, ← is_some-route_to_add p, e)
    | inr (r, e) ↦
        rw (add_path-route m p h, ← is_some-route_to_add p, get_path_route m p r e, e)
          (add_elems-done m (first_elem r) (more_elems r) h)
  ]

  get_route-add_elems :
      (m : HashMap H) (r : Route) (h : Option H) (o : Option Route)
      → get_route (add_elems m (first_elem r) (more_elems r) h).0 o ≡ (
          if (add_elems m (first_elem r) (more_elems r) h).1 && same_route? (some r) o
          then h
          else get_route m o)
  get_route-add_elems m r h none = ground arith
  get_route-add_elems m r h (some s) = ground (
    arith,
    add_elems-done m (first_elem r) (more_elems r) h,
    get_elems-add_elems m (first_elem r) (more_elems r) h (first_elem s) (more_elems s),
    same_route-route_eq r s,
  )

  get_path-add_path :
      (m : HashMap H) (p q : Text) (h : Option H)
      → get_path (add_path m p h).0 q ≡ (
          if (add_path m p h).1 && same_route? (route_to_add p) (route_to_get q)
          then h
          else get_path m q)
  get_path-add_path m p q h = elim (Option-cases (route_to_add p)) [
    | inl e ↦ rw (add_path-route m p h, e)
    | inr (r, e) ↦
        rw
          (
            add_path-route m p h,
            e,
            get_path-route (add_elems m (first_elem r) (more_elems r) h).0 q,
            get_path-route m q,
          )
          (get_route-add_elems m r h (route_to_get q))
  ]

  add_path_refused :
      (m : HashMap H) (p : Text) (h : Option H)
      → (add_path m p h).1 ≡ false
      → (add_path m p h).0 ≡ m
  add_path_refused m p h refused = elim (Option-cases (route_to_add p)) [
    | inl e ↦ rw (add_path-route m p h, e)
    | inr (r, e) ↦
        let same : add_path m p h ≡ add_elems m (first_elem r) (more_elems r) h =
          add_path-route m p h ∙ ap (λ o. add_route m o h) e in
        ap (λ x. x.0) same
        ∙ add_elems_refused m (first_elem r) (more_elems r) h (sym (ap (λ x. x.1) same) ∙ refused)
  ]

  -- The root array with one entry written, at the entry that is there and at the others.
  get_elem?-set :
      (xs : List (HashMap H)) (i j : ℕ) (m m' : HashMap H)
      → get_elem? xs i ≡ some m
      → get_elem? (set xs i m') j ≡ (if i == j then some m' else get_elem? xs j)
  get_elem?-set [] i j m m' e = cc
  get_elem?-set (x ∷ xs) zero zero m m' e = refl
  get_elem?-set (x ∷ xs) zero (suc j) m m' e = ground arith
  get_elem?-set (x ∷ xs) (suc i) zero m m' e = ground arith
  get_elem?-set (x ∷ xs) (suc i) (suc j) m m' e =
      get_elem?-set xs i j m m' e ∙ ap (λ b. if b then some m' else get_elem? xs j) (ground arith)

  -- Registration succeeds exactly if the method has a map, the path has a slash, and a lookup of
  -- the path under the method finds no handler yet.
  pub add-done :
      (t : RoutingTree H) (mtd : Method) (path : Text) (h : Option H)
      → (add t mtd path h).1
        ≡ (is_some (map_of t mtd) && (is_some (after_slash path) && is_none (get t mtd path)))
  unfolding add get
  add-done t mtd path h = elim (Option-cases (map_of t mtd)) [
    | inl e ↦ rw (e, add)
    | inr (m, e) ↦ rw (e, add, get) (add_path-done m path h)
  ]

  -- A registration that is refused leaves the tree as it was.
  pub add_refused :
      (t : RoutingTree H) (mtd : Method) (path : Text) (h : Option H)
      → (add t mtd path h).1 ≡ false
      → (add t mtd path h).0 ≡ t
  unfolding add
  add_refused t mtd path h refused = elim (Option-cases (map_of t mtd)) [
    | inl e ↦ rw (e, add)
    | inr (m, e) ↦ ground (arith, add_path_refused m path h, set_same t.root (method_index mtd) m e)
  ]

  -- After a registration that succeeds, a lookup finds the new handler at the place that was
  -- registered; everywhere else, and after one that is refused, it finds what it found before.
  pub get-add :
      (t : RoutingTree H) (mtd mtd' : Method) (path path' : Text) (h : Option H)
      → get (add t mtd path h).0 mtd' path'
        ≡ (if (add t mtd path h).1 && same_place mtd path mtd' path' then h else get t mtd' path')
  unfolding add get
  get-add t mtd mtd' path path' h = elim (Option-cases (map_of t mtd)) [
    | inl e ↦ rw (e, add)
    | inr (m, e) ↦ ground (
      arith,
      get_elem?-set t.root (method_index mtd) (method_index mtd') m (add_path m path h).0 e,
      get_path-add_path m path path' h,
    )
  ]

  -- What stands in a path before its first slash is ignored, in registration and in lookup: two
  -- paths of at least two characters with the same text behind their first slash are one path.
  pub after_slash-add-get :
      (t : RoutingTree H) (mtd : Method) (c d c' d' : ℕ) (p p' : Text) (h : Option H)
      → after_slash (c ∷ d ∷ p) ≡ after_slash (c' ∷ d' ∷ p')
      → (add t mtd (c ∷ d ∷ p) h ≡ add t mtd (c' ∷ d' ∷ p') h)
        × (get t mtd (c ∷ d ∷ p) ≡ get t mtd (c' ∷ d' ∷ p'))
  unfolding add get add_path get_path
  after_slash-add-get t mtd c d c' d' p p' h e = elim (Option-cases (map_of t mtd)) [
    | inl f ↦ (rw (f, add), rw (f, get))
    | inr (m, f) ↦ (ground (arith, ap (λ o. add_long m o h) e), rw (f, get) (ap (get_long m) e))
  ]

  -- A path of one character other than the slash is never registered, but its lookup finds the
  -- handler that is registered at the path with a slash before that character.
  pub get_one_char :
      (t : RoutingTree H) (mtd : Method) (c : ℕ) (h : Option H)
      → c ≢ b'/'
      → ((add t mtd (c ∷ []) h).1 ≡ false) × (get t mtd (c ∷ []) ≡ get t mtd (b'/' ∷ c ∷ []))
  unfolding add get add_path get_path after_slash elements get_elems
  get_one_char t mtd c h ne = (ground arith, ground arith)
