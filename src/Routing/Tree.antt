-- ===== src/Routing/Tree.antt =====
-- `RoutingTree`, of src/routing/include/project/routing/routing_tree.h, over any type of handlers.
-- A handler that may be null is an `Option`. `std::unordered_map` is the list of its entries; the
-- keyed hash only places an entry in a bucket, and is not modelled.
pub mod Insert
pub mod Routes
pub mod Table
pub mod Places
use https_http_server.Shared.{
  ℕ, suc, List, [], ◌∷◌, Text, codes, text_eq, Option, none, some, Bool, true, false, if◌then◌else◌,
  ◌==◌, leb, length, get_elem?, set, is_some,
}
use https_http_server.Message.Method.{Method, method_index}

mutual
  -- `struct RoutingNode`: its handler and the map below it.
  pub data RoutingNode {ℓ} (H : Type ℓ) : Type ℓ where
    node : Option H → HashMap H → RoutingNode H

  pub data HashMap {ℓ} (H : Type ℓ) : Type ℓ where
    empty : HashMap H
    entry : Text → RoutingNode H → HashMap H → HashMap H

module _ {ℓ} {H : Type ℓ} where
  abbrev pub handler : RoutingNode H → Option H
  handler (node h hm) = h

  abbrev pub children : RoutingNode H → HashMap H
  children (node h hm) = hm

  -- `map.find(elem)`
  unfoldable pub find_node : Text → HashMap H → Option (RoutingNode H)
  find_node elem empty = none
  find_node elem (entry j n m) = if text_eq j elem then some n else find_node elem m

  -- A write through the iterator that `map.find(elem)` returns.
  unfoldable pub write_node : Text → RoutingNode H → HashMap H → HashMap H
  write_node elem n' empty = empty
  write_node elem n' (entry j n m) =
      if text_eq j elem then entry j n' m else entry j n (write_node elem n' m)

  -- `map.try_emplace(elem, key_, h)`, where `elem` is not in the map.
  abbrev pub try_emplace : Text → Option H → HashMap H → HashMap H
  try_emplace elem h m = entry elem (node h empty) m

  -- The new map, and whether the handler was set.
  unfoldable pub set_elem : HashMap H → Text → Option H → HashMap H × Bool
  unfolding find_node write_node
  set_elem m elem h = elim (find_node elem m) [
    | none ↦ (try_emplace elem h m, true)
    | some (node old hm) ↦ if is_some old then (m, false) else (write_node elem (node h hm) m, true)
  ]

  -- One round of the loop of `add`, up to the new `target_map`: the map with a node for `elem` in
  -- it, and that node.
  pub reach : Text → HashMap H → HashMap H × RoutingNode H
  unfolding find_node
  reach elem m = elim (find_node elem m) [
    | none ↦ (try_emplace elem none m, node none empty)
    | some n ↦ (m, n)
  ]

  -- The loop of `add` and what follows it. `elem` is the current element and the list holds those
  -- behind it. The source goes down through a pointer; here each level is written back.
  unfoldable pub add_elems : HashMap H → Text → List Text → Option H → HashMap H × Bool
  unfolding set_elem reach write_node
  add_elems m elem [] h = set_elem m elem h
  add_elems m elem (next ∷ more) h =
      let (m', n) = reach elem m in
      let (below, done) = add_elems (children n) next more h in
      (write_node elem (node (handler n) below) m', done)

  -- The loop of `get` and what follows it.
  unfoldable pub get_elems : HashMap H → Text → List Text → Option H
  unfolding find_node
  get_elems m elem [] = elim (find_node elem m) [ none ↦ none | some n ↦ handler n ]
  get_elems m elem (next ∷ more) = elim (find_node elem m) [
    | none ↦ none
    | some n ↦ get_elems (children n) next more
  ]

-- What stands behind the first slash: `slash_beg + 1`, or `none` where `slash_beg == end`.
unfoldable pub after_slash : Text → Option Text
after_slash [] = none
after_slash (c ∷ p) = if c == b'/' then some p else after_slash p

-- The element that begins here, up to the next slash, and the elements behind it: the texts that
-- the loops of `add` and `get` cut between `slash_beg` and `slash_end`.
unfoldable pub elements : Text → Text × List Text
elements [] = ([], [])
elements (c ∷ p) =
    let (elem, more) = elements p in if c == b'/' then ([], elem ∷ more) else (c ∷ elem, more)

module _ {ℓ} {H : Type ℓ} where
  -- The `default` case of the switch of `add`.
  pub add_long : HashMap H → Option Text → Option H → HashMap H × Bool
  unfolding add_elems elements
  add_long m none h = (m, false)
  add_long m (some rest) h = let (elem, more) = elements rest in add_elems m elem more h

  -- The switch of `add` on the length of the path.
  unfoldable pub add_path : HashMap H → Text → Option H → HashMap H × Bool
  unfolding set_elem add_long after_slash
  add_path m [] h = (m, false)
  add_path m (c ∷ []) h = if c == b'/' then set_elem m (c ∷ []) h else (m, false)
  add_path m (c ∷ d ∷ p) h = add_long m (after_slash (c ∷ d ∷ p)) h

  -- The `default` case of the switch of `get`.
  pub get_long : HashMap H → Option Text → Option H
  unfolding get_elems elements
  get_long m none = none
  get_long m (some rest) = let (elem, more) = elements rest in get_elems m elem more

  -- The switch of `get` on the length of the path.
  unfoldable pub get_path : HashMap H → Text → Option H
  unfolding find_node get_long after_slash
  get_path m [] = none
  get_path m (c ∷ []) = elim (find_node (c ∷ []) m) [ none ↦ none | some n ↦ handler n ]
  get_path m (c ∷ d ∷ p) = get_long m (after_slash (c ∷ d ∷ p))

pub record RoutingTree {ℓ} (H : Type ℓ) : Type ℓ where
  pub root : List (HashMap H)

module _ {ℓ} {H : Type ℓ} where
  -- `make_root`: an empty map for each of the `kNumHTTPMethods` methods.
  unfoldable pub make_root : RoutingTree H
  make_root = record { root = empty ∷ empty ∷ empty ∷ empty ∷ empty ∷ [] }

  -- `root_[idx]`, or `none` where `idx >= root_.size()`.
  abbrev pub map_of : RoutingTree H → Method → Option (HashMap H)
  map_of t mtd = get_elem? t.root (method_index mtd)

  unfoldable pub add : RoutingTree H → Method → Text → Option H → RoutingTree H × Bool
  unfolding add_path
  add t mtd path h = elim (map_of t mtd) [
    | none ↦ (t, false)
    | some m ↦
        let (m', done) = add_path m path h in
        (record { root = set t.root (method_index mtd) m' }, done)
  ]

  unfoldable pub get : RoutingTree H → Method → Text → Option H
  unfolding get_path
  get t mtd path = elim (map_of t mtd) [ none ↦ none | some m ↦ get_path m path ]
