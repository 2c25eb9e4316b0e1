-- ===== src/Message/Fields.antt =====
-- The header map of a message: `CaseInsensitiveHash`, `CaseInsensitiveEqual` and the operations of
-- `std::unordered_map` that the code calls, of http_message.h. A map is the list of its entries in
-- the order in which it is walked; that order is free, so a new entry may go to the end.
use https_http_server.Shared.{
  ℕ, ◌≡◌, refl, ap, ◌↔◌, List, [], ◌∷◌, map, Bool, true, false, ◌&&◌, arith, Text, Option, none,
  some, text_eq, text_eq_iff, if◌then◌else◌, ◌==◌, length, is_some,
}
use https_http_server.Message.Method.{to_lower}

-- `CaseInsensitiveHash`, over the library's hash of a text.
unfoldable pub field_hash : (Text → ℕ) → Text → ℕ
field_hash hash s = hash (map to_lower s)

-- The loop of `std::equal` over the first range.
pub equal_lower : Text → Text → Bool
equal_lower (c ∷ a) (d ∷ b) = to_lower c == to_lower d && equal_lower a b
equal_lower _ _ = true

-- `CaseInsensitiveEqual`
unfoldable pub field_eq : Text → Text → Bool
unfolding equal_lower to_lower
field_eq a b = if length a == length b then equal_lower a b else false

abbrev pub Fields : Type 0
Fields = List (Text × Text)

-- `headers.find(k)`
unfoldable pub lookup : Text → Fields → Option Text
unfolding field_eq
lookup k [] = none
lookup k ((j, v) ∷ m) = if field_eq j k then some v else lookup k m

-- `headers[k] = v`: an entry that is there keeps its spelling of the key.
unfoldable pub assign : Text → Text → Fields → Fields
unfolding field_eq
assign k v [] = (k, v) ∷ []
assign k v ((j, w) ∷ m) = if field_eq j k then (j, v) ∷ m else (j, w) ∷ assign k v m

-- `headers.count(k)`, as a test.
unfoldable pub has : Text → Fields → Bool
unfolding lookup
has k m = is_some (lookup k m)

field_eq_lem : (a b : Text) → field_eq a b ≡ text_eq (map to_lower a) (map to_lower b)
unfolding field_eq text_eq
field_eq_lem [] [] = refl
field_eq_lem [] (d ∷ b) = ground arith
field_eq_lem (c ∷ a) [] = ground arith
field_eq_lem (c ∷ a) (d ∷ b) = ground (arith, field_eq_lem a b)

-- Two field names are equal exactly if they are the same text in lower case.
pub field_eq_iff : (a b : Text) → (field_eq a b ≡ true) ↔ (map to_lower a ≡ map to_lower b)
field_eq_iff a b = rw (field_eq_lem a b) (text_eq_iff (map to_lower a) (map to_lower b))

-- What `std::unordered_map` asks of the two functors: keys that are equal have the same hash,
-- whatever the hash of texts is.
pub field_hash-field_eq :
    (hash : Text → ℕ) (a b : Text) → field_eq a b ≡ true → field_hash hash a ≡ field_hash hash b
unfolding field_hash
field_hash-field_eq hash a b h = ap hash ((field_eq_iff a b).0 h)

-- Assigning to a key changes what is found under that key, in every mixture of cases, and nothing
-- else.
pub lookup-assign :
    (k j v : Text) (m : Fields)
    → lookup j (assign k v m) ≡ (if field_eq k j then some v else lookup j m)
unfolding lookup assign
lookup-assign k j v [] = refl
lookup-assign k j v ((i, w) ∷ m) =
    ground (arith, field_eq_iff k j, field_eq_iff i k, field_eq_iff i j, lookup-assign k j v m)
