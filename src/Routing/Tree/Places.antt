-- ===== src/Routing/Tree/Places.antt =====
-- Lookups that come to one place of the routing tree, and the tree with no routes.
use https_http_server.Shared.{
  ◌≡◌, refl, sym, ap, ◌∙◌, Text, Option, none, some, true, is_some, arith, Option-cases, inl, inr,
  get_elem?,
}
use https_http_server.Message.Method.{Method, method_index}
use https_http_server.Routing.Tree.{
  HashMap, empty, RoutingTree, after_slash, get_path, make_root, map_of, get,
}
use https_http_server.Routing.Tree.Insert.{get_elems-empty}
use https_http_server.Routing.Tree.Routes.{
  Route, route_to_add, route_to_get, first_elem, more_elems, get_route, get_path-route,
  is_some-route_to_add,
}
use https_http_server.Routing.Tree.Table.{same_place, same_route?-sound, get_path_route}

module _ {ℓ} {H : Type ℓ} where
  map_of-index :
      (t : RoutingTree H) (mtd mtd' : Method)
      → method_index mtd ≡ method_index mtd'
      → map_of t mtd ≡ map_of t mtd'
  map_of-index t mtd mtd' e = ap (get_elem? t.root) e

  get_path_same :
      (m : HashMap H) (path path' : Text) (r : Route)
      → route_to_add path ≡ some r
      → route_to_get path' ≡ some r
      → get_path m path ≡ get_path m path'
  get_path_same m path path' r e f =
      get_path_route m path r e ∙ sym (get_path-route m path' ∙ ap (get_route m) f)

  get_same_maps :
      (t : RoutingTree H) (mtd mtd' : Method) (path path' : Text)
      → map_of t mtd ≡ map_of t mtd'
      → ((m : HashMap H) → get_path m path ≡ get_path m path')
      → get t mtd path ≡ get t mtd' path'
  unfolding get
  get_same_maps t mtd mtd' path path' maps found = elim (Option-cases (map_of t mtd)) [
    | inl g ↦ rw (g, get, ← maps, g)
    | inr (m, g) ↦ rw (g, get, ← maps, g) (found m)
  ]

  -- Where a lookup comes to a place, the place has a slash in its path, and a lookup of the path
  -- that registers it finds the same.
  pub get-same_place :
      (t : RoutingTree H) (mtd mtd' : Method) (path path' : Text)
      → same_place mtd path mtd' path' ≡ true
      → (is_some (after_slash path) ≡ true)
        × (map_of t mtd ≡ map_of t mtd')
        × (get t mtd path ≡ get t mtd' path')
  get-same_place t mtd mtd' path path' h =
      let (r, e, f) = same_route?-sound (route_to_add path) (route_to_get path') (ground arith) in
      let maps : map_of t mtd ≡ map_of t mtd' = map_of-index t mtd mtd' (ground arith) in
      (
        sym (is_some-route_to_add path) ∙ ap is_some e,
        maps,
        get_same_maps t mtd mtd' path path' maps (λ m. get_path_same m path path' r e f),
      )

  get_path-empty : (path : Text) → get_path {H = H} empty path ≡ none
  get_path-empty path = get_path-route empty path ∙ nothing (route_to_get path)
    where
      nothing : (o : Option Route) → get_route {H = H} empty o ≡ none
      nothing none = refl
      nothing (some r) = get_elems-empty (first_elem r) (more_elems r)

  -- A new tree has no routes.
  pub get-make_root : (mtd : Method) (path : Text) → get {H = H} make_root mtd path ≡ none
  unfolding get make_root
  get-make_root Method.get path = get_path-empty path
  get-make_root Method.unknown path = refl
  get-make_root _ path = get_path-empty path
