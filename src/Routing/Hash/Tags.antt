-- ===== src/Routing/Hash/Tags.antt =====
-- The number of a tag.
use https_http_server.Shared.{
  ℕ, zero, suc, ◌*◌, ◌<◌, ◌^◌, ◌≡◌, ◌↔◌, refl, sym, ap, ap₂, ◌∙◌, List, [], ◌∷◌, length, take,
  arith,
}
use https_http_server.Routing.Hash.{number_of_bytes, tag_to_size_t}

abbrev pub AreBytes : List ℕ → Type 0
AreBytes [] = Unit {0}
AreBytes (b ∷ bs) = (b < 256) × AreBytes bs

-- The number of the lists of `n` bytes.
abbrev pub byte_lists : ℕ → ℕ
byte_lists zero = 1
byte_lists (suc n) = 256 * byte_lists n

taken_bound : (n : ℕ) (bs : List ℕ) → AreBytes bs → number_of_bytes (take n bs) < byte_lists n
unfolding number_of_bytes
taken_bound zero bs h = omega arith
taken_bound (suc n) [] h = let i = taken_bound n [] tt in omega arith
taken_bound (suc n) (b ∷ bs) h = let i = taken_bound n bs h.1 in let k = h.0 in omega arith

number-injective :
    (bs cs : List ℕ)
    → AreBytes bs
    → AreBytes cs
    → length bs ≡ length cs
    → number_of_bytes bs ≡ number_of_bytes cs
    → bs ≡ cs
unfolding number_of_bytes
number-injective [] [] hb hc e h = refl
number-injective [] (c ∷ cs) hb hc e h = absurd (omega arith)
number-injective (b ∷ bs) [] hb hc e h = absurd (omega arith)
number-injective (b ∷ bs) (c ∷ cs) hb hc e h =
    let bb = hb.0 in
    let cc = hc.0 in
    ap₂ (λ x xs. x ∷ xs) (omega arith)
      (number-injective bs cs hb.1 hc.1 (omega arith) (omega arith))

take_all : (n : ℕ) (bs : List ℕ) → length bs ≡ n → take n bs ≡ bs
take_all zero [] h = refl
take_all zero (b ∷ bs) h = absurd (omega arith)
take_all (suc n) [] h = refl
take_all (suc n) (b ∷ bs) h = ap (λ x. b ∷ x) (take_all n bs (omega arith))

-- For tags of eight bytes, which is what `fhash` gives: the number of a tag fits `size_t`, of 64 bits;
-- and two tags have the same number exactly if they are the same.
pub tag_to_size_t_bounds :
    (tag other : List ℕ)
    → AreBytes tag
    → AreBytes other
    → length tag ≡ 8
    → length other ≡ 8
    → (tag_to_size_t tag < 2 ^ 64) × ((tag_to_size_t tag ≡ tag_to_size_t other) ↔ (tag ≡ other))
unfolding tag_to_size_t
tag_to_size_t_bounds tag other h ho e eo = (
  taken_bound 8 tag h,
  (
    λ q. number-injective tag other h ho (e ∙ sym eo) (
        sym (ap number_of_bytes (take_all 8 tag e))
        ∙ (q ∙ ap number_of_bytes (take_all 8 other eo))),
    λ q. ap tag_to_size_t q,
  ),
)
