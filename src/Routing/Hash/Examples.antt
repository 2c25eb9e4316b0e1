-- ===== src/Routing/Hash/Examples.antt =====
-- Instances of the theorems on the keyed hash, with a sum in place of OpenSSL's code.
use https_http_server.Shared.{ℕ, ◌+◌, ◌≡◌, refl, List, [], ◌∷◌, Text, codes, some, true}
use https_http_server.Routing.Hash.{MacLib, Fetched, copy, call}
use https_http_server.Routing.Hash.Interface.{
  call_value, by_hash, siphash_class, clone, clone-call_value,
}
use https_http_server.Routing.Hash.Copies.{hash_of}

abbrev total : List ℕ → ℕ
total [] = 0
total (x ∷ xs) = x + total xs

-- A context is the sum of what it has read.
abbrev sums : MacLib
sums = record {
  Ctx = ℕ;
  init = λ key c. (true, total key);
  update = λ v c. (true, c + total v);
  final = λ c. (some (c ∷ 0 ∷ 0 ∷ 0 ∷ 0 ∷ 0 ∷ 0 ∷ 0 ∷ []), 0);
}

sum_call : (call sums (codes "a") (hash_of sums (1 ∷ []) 5)).0 ≡ some 98
unfolding call
sum_call = refl

abbrev fetched : Fetched sums
fetched = record { mac = true; created = true; configured = some 3 }

-- The one byte of a small number.
abbrev byte_of : ℕ → Text
byte_of n = n ∷ []

clone-call_value_example :
    ((call_value (by_hash sums) byte_of 7 (hash_of sums (1 ∷ []) 3)).0
      ≡ (call_value (siphash_class sums) byte_of 7 (hash_of sums (1 ∷ []) 3)).0)
    × ((call_value (siphash_class sums) byte_of 7 (hash_of sums (1 ∷ []) 3)).0
        ≡ (call_value (siphash_class sums) byte_of 7 (hash_of sums (1 ∷ []) 5)).0)
unfolding copy clone call
clone-call_value_example =
    clone-call_value sums byte_of (λ key c d. refl) (1 ∷ []) 5 (codes "b" ∷ []) 7 fetched
      (hash_of sums (1 ∷ []) 3) refl
