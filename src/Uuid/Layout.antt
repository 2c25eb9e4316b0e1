-- ===== src/Uuid/Layout.antt =====
-- The form of an identifier.
use Prim.Native.Nat.{bit_and, bit_or}
use https_http_server.Shared.{
  ℕ, zero, suc, ◌+◌, ◌-◌, ◌*◌, ◌/◌, ◌%◌, ◌^◌, ◌≤◌, ◌<◌, ◌≡◌, refl, sym, ap, ap₂, ◌∙◌, [], ◌∷◌, ◌++◌,
  append_assoc, Text, codes, ltb, length, length-append, Bool-cases, inl, inr, ltb→lt, lt→ltb, true,
  false, arith,
}
use https_http_server.Shared.Bits.{
  bit_and_parts, bit_or_parts, bit_or-zero, bit_or_low, bit_and_low,
}
use native.Mathlib.Nat.{pow-suc}
use https_http_server.Uuid.{
  hex_digit, hex_digits, zeros, padded, version_bits, variant_bits, generate_uuid_v4,
}

-- The lowest `w` digits of a number.
abbrev pub fixed_digits : ℕ → ℕ → Text
fixed_digits zero n = []
fixed_digits (suc w) n = fixed_digits w (n / 16) ++ (hex_digit (n % 16) ∷ [])

masked_version :
    (a : ℕ) → a < 2 ^ 64 → bit_and a 0xFFFFFFFFFFFF0FFF ≡ a / 2 ^ 16 * 2 ^ 16 + a % 2 ^ 12
masked_version a h =
    let split : a ≡ a / 2 ^ 16 * 2 ^ 16 + a % 2 ^ 16 = omega arith in
    ap (λ x. bit_and x 0xFFFFFFFFFFFF0FFF) split
    ∙ omega (
      arith,
      bit_and_parts 16 (a / 2 ^ 16) 0xFFFFFFFFFFFF (a % 2 ^ 16) 0xFFF (omega arith) (omega arith),
      bit_and_low 48 (a / 2 ^ 16),
      bit_and_low 12 (a % 2 ^ 16),
    )

set_version :
    (hi lo : ℕ) → lo < 2 ^ 12 → bit_or (hi * 2 ^ 16 + lo) 0x4000 ≡ hi * 2 ^ 16 + (0x4000 + lo)
set_version hi lo h = omega (
  arith,
  bit_or_parts 16 hi 0 lo 0x4000 (omega arith) (omega arith),
  bit_or-zero hi,
  bit_or_low 12 4 lo h,
)

-- The random bits of the first number stay, but for those where the version goes.
version_bits_lem :
    (a : ℕ) → a < 2 ^ 64 → version_bits a ≡ a / 2 ^ 16 * 2 ^ 16 + (0x4000 + a % 2 ^ 12)
unfolding version_bits
version_bits_lem a h =
    ap (λ x. bit_or x 0x4000) (masked_version a h)
    ∙ set_version (a / 2 ^ 16) (a % 2 ^ 12) (omega arith)

-- The random bits of the second number stay, but for those where the variant goes.
variant_bits_lem : (b : ℕ) → b < 2 ^ 64 → variant_bits b ≡ 2 ^ 63 + b % 2 ^ 62
unfolding variant_bits
variant_bits_lem b h =
    ap (λ x. bit_or x 0x8000000000000000) (bit_and_low 62 b)
    ∙ bit_or_low 62 2 (b % 2 ^ 62) (omega arith)

fixed_digits-zero : (w : ℕ) → fixed_digits w 0 ≡ zeros w
unfolding hex_digit
fixed_digits-zero zero = refl
fixed_digits-zero (suc w) = ap (λ s. s ++ (48 ∷ [])) (fixed_digits-zero w) ∙ zeros_end w
  where
    zeros_end : (w : ℕ) → zeros w ++ (48 ∷ []) ≡ 48 ∷ zeros w
    zeros_end zero = refl
    zeros_end (suc w) = ap (λ s. 48 ∷ s) (zeros_end w)

hex_digits-small : (f n : ℕ) → ltb n 16 ≡ true → hex_digits (suc f) n ≡ hex_digit n ∷ []
unfolding hex_digits
hex_digits-small f n y = rw (y) refl

hex_digits-large :
    (f n : ℕ)
    → ltb n 16 ≡ false
    → hex_digits (suc f) n ≡ hex_digits f (n / 16) ++ (hex_digit (n % 16) ∷ [])
unfolding hex_digits
hex_digits-large f n y = rw (y) refl

-- A text behind zeros.
abbrev filled : ℕ → Text → Text
filled w s = zeros (w - length s) ++ s

filled-end : (w : ℕ) (s : Text) (d : ℕ) → filled (suc w) (s ++ (d ∷ [])) ≡ filled w s ++ (d ∷ [])
filled-end w s d =
    ap (λ k. zeros k ++ (s ++ (d ∷ []))) (omega (arith, length-append s (d ∷ [])))
    ∙ sym (append_assoc (zeros (w - length s)) s (d ∷ []))

-- A number that the fuel is enough for, and that fits its width.
filled-hex_digits :
    (f w n : ℕ)
    → n < 16 ^ suc w
    → suc w ≤ f
    → filled (suc w) (hex_digits f n) ≡ fixed_digits (suc w) n
filled-hex_digits zero w n h e = absurd (omega arith)
filled-hex_digits (suc f) zero n h e =
    ap (filled 1) (hex_digits-small f n (lt→ltb n 16 h)) ∙ ap (λ d. hex_digit d ∷ []) (omega arith)
filled-hex_digits (suc f) (suc w) n h e = elim (Bool-cases (ltb n 16)) [
  | inl y ↦
      let small = ltb→lt n 16 y in
      ap (filled (suc (suc w))) (hex_digits-small f n y)
      ∙ ap₂ (λ s d. s ++ (hex_digit d ∷ []))
          (ap zeros {y = suc w} (omega arith)
            ∙ (sym (fixed_digits-zero (suc w)) ∙ ap (fixed_digits (suc w)) {x = 0} (omega arith)))
          (omega arith)
  | inr y ↦
      ap (filled (suc (suc w))) (hex_digits-large f n y)
      ∙ (filled-end (suc w) (hex_digits f (n / 16)) (hex_digit (n % 16))
          ∙ ap (λ s. s ++ (hex_digit (n % 16) ∷ []))
              (filled-hex_digits f w (n / 16) (omega (arith, pow-suc 16 (suc w))) (omega arith)))
]

-- The first digit of a number in parts.
fixed_digits-parts :
    (w t r : ℕ)
    → t < 16
    → r < 16 ^ w
    → fixed_digits (suc w) (t * 16 ^ w + r) ≡ hex_digit t ∷ fixed_digits w r
fixed_digits-parts zero t r ht hr = ap (λ d. hex_digit d ∷ []) (omega arith)
fixed_digits-parts (suc w) t r ht hr =
    let e : t * 16 ^ suc w ≡ 16 * (t * 16 ^ w) =
      omega (arith, ap (λ (x : ℕ). t * x) (pow-suc 16 w)) in
    let q : (t * 16 ^ suc w + r) / 16 ≡ t * 16 ^ w + r / 16 = omega (arith, e) in
    ap₂ (λ s d. s ++ (hex_digit d ∷ []))
      (ap (fixed_digits (suc w)) q
        ∙ fixed_digits-parts w t (r / 16) ht (omega (arith, pow-suc 16 w)))
      (omega (arith, e))

padded_lem : (w n : ℕ) → suc w ≤ 16 → n < 16 ^ suc w → padded (suc w) n ≡ fixed_digits (suc w) n
unfolding padded
padded_lem w n e h = filled-hex_digits 16 w n h e

-- A field of the identifier: a number below its mask.
field :
    (w n x : ℕ)
    → suc w ≤ 16
    → n < 16 ^ suc w
    → bit_and x (16 ^ suc w - 1) ≡ n
    → padded (suc w) (bit_and x (16 ^ suc w - 1)) ≡ fixed_digits (suc w) n
field w n x e h q = ap (padded (suc w)) q ∙ padded_lem w n e h

module _ (a b : ℕ) (ha : a < 2 ^ 64) (hb : b < 2 ^ 64) where
  time_low : padded 8 (bit_and (version_bits a / 2 ^ 32) 0xFFFFFFFF) ≡ fixed_digits 8 (a / 2 ^ 32)
  time_low =
      field 7 (a / 2 ^ 32) (version_bits a / 2 ^ 32) (omega arith) (omega arith)
        (omega (arith, bit_and_low 32 (version_bits a / 2 ^ 32), version_bits_lem a ha))

  time_mid :
      padded 4 (bit_and (version_bits a / 2 ^ 16) 0xFFFF) ≡ fixed_digits 4 (a / 2 ^ 16 % 2 ^ 16)
  time_mid =
      field 3 (a / 2 ^ 16 % 2 ^ 16) (version_bits a / 2 ^ 16) (omega arith) (omega arith)
        (omega (arith, bit_and_low 16 (version_bits a / 2 ^ 16), version_bits_lem a ha))

  version : padded 4 (bit_and (version_bits a) 0xFFFF) ≡ hex_digit 4 ∷ fixed_digits 3 (a % 2 ^ 12)
  version =
      field 3 (4 * 16 ^ 3 + a % 2 ^ 12) (version_bits a) (omega arith) (omega arith)
        (omega (arith, bit_and_low 16 (version_bits a), version_bits_lem a ha))
      ∙ fixed_digits-parts 3 4 (a % 2 ^ 12) (omega arith) (omega arith)

  variant :
      padded 4 (bit_and (variant_bits b / 2 ^ 48) 0xFFFF)
      ≡ hex_digit (8 + b / 2 ^ 60 % 4) ∷ fixed_digits 3 (b / 2 ^ 48 % 2 ^ 12)
  variant =
      field 3 ((8 + b / 2 ^ 60 % 4) * 16 ^ 3 + b / 2 ^ 48 % 2 ^ 12) (variant_bits b / 2 ^ 48)
        (omega arith) (omega arith)
        (omega (arith, bit_and_low 16 (variant_bits b / 2 ^ 48), variant_bits_lem b hb))
      ∙ fixed_digits-parts 3 (8 + b / 2 ^ 60 % 4) (b / 2 ^ 48 % 2 ^ 12) (omega arith) (omega arith)

  node : padded 12 (bit_and (variant_bits b) 0xFFFFFFFFFFFF) ≡ fixed_digits 12 (b % 2 ^ 48)
  node =
      field 11 (b % 2 ^ 48) (variant_bits b) (omega arith) (omega arith)
        (omega (arith, bit_and_low 48 (variant_bits b), variant_bits_lem b hb))

-- The identifier of two random numbers, by their random bits.
abbrev pub layout : ℕ → ℕ → Text
layout a b =
    fixed_digits 8 (a / 2 ^ 32)
    ++ (codes "-"
        ++ (fixed_digits 4 (a / 2 ^ 16 % 2 ^ 16)
            ++ (codes "-"
                ++ ((hex_digit 4 ∷ fixed_digits 3 (a % 2 ^ 12))
                    ++ (codes "-"
                        ++ ((hex_digit (8 + b / 2 ^ 60 % 4) ∷ fixed_digits 3 (b / 2 ^ 48 % 2 ^ 12))
                            ++ (codes "-" ++ fixed_digits 12 (b % 2 ^ 48))))))))

pub uuid_layout : (a b : ℕ) → a < 2 ^ 64 → b < 2 ^ 64 → generate_uuid_v4 a b ≡ layout a b
unfolding generate_uuid_v4
uuid_layout a b ha hb =
    rw
      (time_low a b ha hb, time_mid a b ha hb, version a b ha hb, variant a b ha hb, node a b ha hb)
      refl
