-- ===== src/Routing/Tree/Routes.antt =====
-- The routes behind the paths: what the switches of `add` and `get` on the length of a path and the
-- search for its first slash amount to.
use https_http_server.Shared.{
  ℕ, ◌≡◌, refl, ap, List, [], ◌∷◌, Text, text_eq, text_eq_iff, Option, none, some, Bool, true,
  false, ◌&&◌, if◌then◌else◌, ◌==◌, is_some, arith,
}
use https_http_server.Routing.Tree.{
  HashMap, after_slash, elements, add_elems, get_elems, add_path, get_path,
}
use https_http_server.Routing.Tree.Insert.{same_route}

-- What a path stands for in the tree: the route "/", or the text behind the path's first slash.
pub data Route : Type 0 where
  top : Route
  below : Text → Route

abbrev pub route_eq : Route → Route → Bool
route_eq top top = true
route_eq (below p) (below q) = text_eq p q
route_eq _ _ = false

abbrev below? : Option Text → Option Route
below? none = none
below? (some p) = some (below p)

-- The route that `add` registers at a path; `none` if it refuses the path.
unfoldable pub route_to_add : Text → Option Route
unfolding after_slash
route_to_add [] = none
route_to_add (c ∷ []) = if c == b'/' then some top else none
route_to_add (c ∷ d ∷ p) = below? (after_slash (c ∷ d ∷ p))

-- The route that `get` looks up for a path.
unfoldable pub route_to_get : Text → Option Route
unfolding after_slash
route_to_get [] = none
route_to_get (c ∷ []) = if c == b'/' then some top else some (below (c ∷ []))
route_to_get (c ∷ d ∷ p) = below? (after_slash (c ∷ d ∷ p))

-- The elements by which the tree stores a route.
abbrev pub first_elem : Route → Text
first_elem top = b'/' ∷ []
first_elem (below p) = (elements p).0

abbrev pub more_elems : Route → List Text
more_elems top = []
more_elems (below p) = (elements p).1

module _ {ℓ} {H : Type ℓ} where
  abbrev pub add_route : HashMap H → Option Route → Option H → HashMap H × Bool
  add_route m none h = (m, false)
  add_route m (some r) h = add_elems m (first_elem r) (more_elems r) h

  abbrev pub get_route : HashMap H → Option Route → Option H
  get_route m none = none
  get_route m (some r) = get_elems m (first_elem r) (more_elems r)

  pub add_path-route :
      (m : HashMap H) (p : Text) (h : Option H) → add_path m p h ≡ add_route m (route_to_add p) h
  unfolding add_path route_to_add
  add_path-route m [] h = refl
  add_path-route m (c ∷ []) h = unfold add_elems in ground arith
  add_path-route m (c ∷ d ∷ p) h = ground arith

  pub get_path-route : (m : HashMap H) (p : Text) → get_path m p ≡ get_route m (route_to_get p)
  unfolding get_path route_to_get
  get_path-route m [] = refl
  get_path-route m (c ∷ []) = unfold get_elems elements in ground arith
  get_path-route m (c ∷ d ∷ p) = ground arith

-- A path that can be registered is looked up at the route that it registers.
pub route_to_get_of_add : (p : Text) (r : Route) → route_to_add p ≡ some r → route_to_get p ≡ some r
unfolding route_to_add route_to_get
route_to_get_of_add [] r e = e
route_to_get_of_add (c ∷ []) r e = ground arith
route_to_get_of_add (c ∷ d ∷ p) r e = e

-- A path can be registered exactly if it has a slash.
pub is_some-route_to_add : (p : Text) → is_some (route_to_add p) ≡ is_some (after_slash p)
unfolding route_to_add after_slash
is_some-route_to_add [] = refl
is_some-route_to_add (c ∷ []) = ground arith
is_some-route_to_add (c ∷ d ∷ p) = ground arith

pub route_eq_sound : (r s : Route) → route_eq r s ≡ true → r ≡ s
route_eq_sound top top e = refl
route_eq_sound top (below q) e = cc
route_eq_sound (below p) top e = cc
route_eq_sound (below p) (below q) e = ap below ((text_eq_iff p q).0 e)

same_route-cons :
    (c d : ℕ) (e f : Text) (es fs : List Text)
    → same_route (c ∷ e) es (d ∷ f) fs ≡ (c == d && same_route e es f fs)
unfolding same_route text_eq
same_route-cons c d e f [] [] = refl
same_route-cons c d e f [] (y ∷ fs) = ground arith
same_route-cons c d e f (x ∷ es) [] = ground arith
same_route-cons c d e f (x ∷ es) (y ∷ fs) = ground arith

same_route-nil : (d : ℕ) (f : Text) (es fs : List Text) → same_route [] es (d ∷ f) fs ≡ false
unfolding same_route text_eq
same_route-nil d f [] [] = refl
same_route-nil d f [] (y ∷ fs) = refl
same_route-nil d f (x ∷ es) [] = refl
same_route-nil d f (x ∷ es) (y ∷ fs) = refl

nil-same_route : (c : ℕ) (e : Text) (es fs : List Text) → same_route (c ∷ e) es [] fs ≡ false
unfolding same_route text_eq
nil-same_route c e [] [] = refl
nil-same_route c e [] (y ∷ fs) = refl
nil-same_route c e (x ∷ es) [] = refl
nil-same_route c e (x ∷ es) (y ∷ fs) = refl

-- Cutting at the slashes loses nothing: two texts have the same elements exactly if they are equal.
pub same_route-elements :
    (p q : Text)
    → same_route (elements p).0 (elements p).1 (elements q).0 (elements q).1 ≡ text_eq p q
unfolding elements text_eq same_route
same_route-elements [] [] = refl
same_route-elements [] (d ∷ q) = ground (arith, same_route-nil d (elements q).0 [] (elements q).1)
same_route-elements (c ∷ p) [] = ground (arith, nil-same_route c (elements p).0 (elements p).1 [])
same_route-elements (c ∷ p) (d ∷ q) = ground (
  arith,
  same_route-nil d (elements q).0 ((elements p).0 ∷ (elements p).1) (elements q).1,
  nil-same_route c (elements p).0 (elements p).1 ((elements q).0 ∷ (elements q).1),
  same_route-cons c d (elements p).0 (elements q).0 (elements p).1 (elements q).1,
  same_route-elements p q,
)

-- No text has the one element "/", so the route "/" meets no other.
top-elements : (q : Text) → same_route (b'/' ∷ []) [] (elements q).0 (elements q).1 ≡ false
unfolding elements text_eq same_route
top-elements [] = refl
top-elements (d ∷ q) = ground (arith, same_route-cons b'/' d [] (elements q).0 [] (elements q).1)

elements-top : (q : Text) → same_route (elements q).0 (elements q).1 (b'/' ∷ []) [] ≡ false
unfolding elements text_eq same_route
elements-top [] = refl
elements-top (d ∷ q) = ground (arith, same_route-cons d b'/' (elements q).0 [] (elements q).1 [])

pub same_route-route_eq :
    (r s : Route)
    → same_route (first_elem r) (more_elems r) (first_elem s) (more_elems s) ≡ route_eq r s
same_route-route_eq top top = unfold same_route text_eq in refl
same_route-route_eq top (below q) = top-elements q
same_route-route_eq (below p) top = elements-top p
same_route-route_eq (below p) (below q) = same_route-elements p q
