-- ===== src/Routing/Tree/Insert.antt =====
-- One insertion into a map of the routing tree: what it reports, and what is found afterwards.
use https_http_server.Shared.{
  ◌≡◌, refl, sym, ap, ◌∙◌, List, [], ◌∷◌, Text, text_eq, text_eq_iff, text_eq_refl, Option, none,
  some, Bool, true, false, ◌&&◌, if◌then◌else◌, is_some, is_none, arith, Option-cases, inl, inr,
}
use https_http_server.Routing.Tree.{
  RoutingNode, HashMap, node, empty, entry, handler, children, find_node, write_node, try_emplace,
  set_elem, reach, add_elems, get_elems,
}

-- Two routes of a method's map are the same: their elements are equal one by one.
unfoldable pub same_route : Text → List Text → Text → List Text → Bool
same_route e [] f [] = text_eq e f
same_route e [] f (y ∷ fs) = false
same_route e (x ∷ es) f [] = false
same_route e (x ∷ es) f (y ∷ fs) = text_eq e f && same_route x es y fs

module _ {ℓ} {H : Type ℓ} where
  find_node-write_node :
      (k j : Text) (n : RoutingNode H) (m : HashMap H)
      → is_some (find_node k m) ≡ true
      → find_node j (write_node k n m) ≡ (if text_eq k j then some n else find_node j m)
  unfolding find_node write_node
  find_node-write_node k j n empty h = cc
  find_node-write_node k j n (entry i n' m) h =
      ground
        (arith, text_eq_iff k j, text_eq_iff i k, text_eq_iff i j, find_node-write_node k j n m)

  -- Writing back the node that is found changes nothing.
  write_node-find_node :
      (k : Text) (n : RoutingNode H) (m : HashMap H) → find_node k m ≡ some n → write_node k n m ≡ m
  unfolding find_node write_node
  write_node-find_node k n empty h = refl
  write_node-find_node k n (entry i n' m) h = ground (arith, write_node-find_node k n m)

  find_node-emplace :
      (k j : Text) (n : RoutingNode H) (m : HashMap H)
      → find_node k m ≡ none
      → find_node j (write_node k n (try_emplace k none m))
        ≡ (if text_eq k j then some n else find_node j m)
  unfolding find_node write_node
  find_node-emplace k j n m e = ground (arith, text_eq_refl k)

  find_node-reach :
      (k j : Text) (n : RoutingNode H) (m : HashMap H)
      → find_node j (write_node k n (reach k m).0) ≡ (if text_eq k j then some n else find_node j m)
  unfolding reach
  find_node-reach k j n m = elim (Option-cases (find_node k m)) [
    | inl e ↦ rw (e, reach) (find_node-emplace k j n m e)
    | inr (n', e) ↦ rw (e, reach) (find_node-write_node k j n m (rw e))
  ]

  pub get_elems-empty : (e : Text) (es : List Text) → get_elems {H = H} empty e es ≡ none
  unfolding get_elems
  get_elems-empty e [] = refl
  get_elems-empty e (x ∷ es) = refl

  -- What the node that is reached holds is what was found under the element before.
  reach_found : (k : Text) (m : HashMap H) → handler (reach k m).1 ≡ get_elems m k []
  unfolding reach get_elems
  reach_found k m = ground arith

  reach_below :
      (k y : Text) (ys : List Text) (m : HashMap H)
      → get_elems (children (reach k m).1) y ys ≡ get_elems m k (y ∷ ys)
  unfolding reach get_elems
  reach_below k y ys m = ground (arith, get_elems-empty y ys)

  -- A handler is set exactly where the route has none yet.
  pub add_elems-done :
      (m : HashMap H) (e : Text) (es : List Text) (h : Option H)
      → (add_elems m e es h).1 ≡ is_none (get_elems m e es)
  unfolding add_elems get_elems
  add_elems-done m e [] h = ground arith
  add_elems-done m e (x ∷ es) h =
      add_elems-done (children (reach e m).1) x es h ∙ ap is_none (reach_below e x es m)

  -- Where there is a node for the element already.
  set_elem-get_old :
      (m : HashMap H) (e : Text) (h : Option H) (f : Text) (fs : List Text) (n : RoutingNode H)
      → find_node e m ≡ some n
      → get_elems (set_elem m e h).0 f fs
        ≡ (if same_route e [] f fs && is_none (get_elems m e []) then h else get_elems m f fs)
  unfolding set_elem same_route get_elems
  set_elem-get_old m e h f [] (node old hm) p =
      ground (arith, find_node-write_node e f (node h hm) m, text_eq_iff e f)
  set_elem-get_old m e h f (y ∷ fs) (node old hm) p =
      ground (arith, find_node-write_node e f (node h hm) m, text_eq_iff e f)

  -- Where there is none.
  set_elem-get_new :
      (m : HashMap H) (e : Text) (h : Option H) (f : Text) (fs : List Text)
      → find_node e m ≡ none
      → get_elems (set_elem m e h).0 f fs
        ≡ (if same_route e [] f fs && is_none (get_elems m e []) then h else get_elems m f fs)
  unfolding set_elem same_route get_elems find_node
  set_elem-get_new m e h f [] p = ground arith
  set_elem-get_new m e h f (y ∷ fs) p = ground (arith, get_elems-empty y fs, text_eq_iff e f)

  set_elem-get :
      (m : HashMap H) (e : Text) (h : Option H) (f : Text) (fs : List Text)
      → get_elems (set_elem m e h).0 f fs
        ≡ (if same_route e [] f fs && is_none (get_elems m e []) then h else get_elems m f fs)
  set_elem-get m e h f fs = elim (Option-cases (find_node e m)) [
    | inl p ↦ set_elem-get_new m e h f fs p
    | inr (n, p) ↦ set_elem-get_old m e h f fs n p
  ]

  -- After an insertion, the inserted route has the given handler if it had none before; every
  -- other route has the handler that it had.
  pub get_elems-add_elems :
      (m : HashMap H) (e : Text) (es : List Text) (h : Option H) (f : Text) (fs : List Text)
      → get_elems (add_elems m e es h).0 f fs
        ≡ (if same_route e es f fs && is_none (get_elems m e es) then h else get_elems m f fs)
  unfolding add_elems get_elems same_route
  get_elems-add_elems m e [] h f fs = set_elem-get m e h f fs
  get_elems-add_elems m e (x ∷ es) h f [] = ground (
    arith,
    find_node-reach e f (node (handler (reach e m).1) (add_elems (children (reach e m).1) x es h).0)
        m,
    reach_found e m,
    text_eq_iff e f,
  )
  get_elems-add_elems m e (x ∷ es) h f (y ∷ fs) = ground (
    arith,
    find_node-reach e f (node (handler (reach e m).1) (add_elems (children (reach e m).1) x es h).0)
        m,
    get_elems-add_elems (children (reach e m).1) x es h y fs,
    reach_below e x es m,
    reach_below e y fs m,
    text_eq_iff e f,
  )

  -- A map in which the way down finds a node keeps its nodes.
  reach_node :
      (k : Text) (m : HashMap H) (n : RoutingNode H) → find_node k m ≡ some n → reach k m ≡ (m, n)
  unfolding reach
  reach_node k m n e = rw (e, reach)

  found_of_get :
      (m : HashMap H) (e : Text) (es : List Text)
      → is_none (get_elems m e es) ≡ false
      → (n : RoutingNode H) × (find_node e m ≡ some n)
  unfolding get_elems
  found_of_get m e [] h = ground arith
  found_of_get m e (x ∷ es) h = ground arith

  -- An insertion that is refused leaves the map as it was, intermediate nodes included.
  pub add_elems_refused :
      (m : HashMap H) (e : Text) (es : List Text) (h : Option H)
      → (add_elems m e es h).1 ≡ false
      → (add_elems m e es h).0 ≡ m
  unfolding add_elems set_elem
  add_elems_refused m e [] h r = ground arith
  add_elems_refused m e (x ∷ es) h r =
      let (n, found) = found_of_get m e (x ∷ es) (sym (add_elems-done m e (x ∷ es) h) ∙ r) in
      let kept = add_elems_refused (children (reach e m).1) x es h r in
      ground (arith, reach_node e m n found, kept, write_node-find_node e n m found)
