-- ===== src/Uuid/Identity.antt =====
-- Identifiers of different random bits.
use https_http_server.Shared.{
  parts, ℕ, zero, suc, ◌+◌, ◌/◌, ◌%◌, ◌^◌, ◌<◌, ◌≡◌, ◌↔◌, refl, sym, ap, ◌∙◌, [], ◌∷◌, ◌++◌, Text,
  length, length-append, arith,
}
use native.Mathlib.Nat.{pow-suc}
use https_http_server.Uuid.{hex_digit, generate_uuid_v4}
use https_http_server.Uuid.Layout.{fixed_digits, layout, uuid_layout}

first_of : (x y : ℕ) (xs ys : Text) → (x ∷ xs) ≡ (y ∷ ys) → x ≡ y
first_of x y xs ys h = cc

rest_of : (x y : ℕ) (xs ys : Text) → (x ∷ xs) ≡ (y ∷ ys) → xs ≡ ys
rest_of x y xs ys h = cc

hex_digit-injective : (d e : ℕ) → d < 16 → e < 16 → hex_digit d ≡ hex_digit e → d ≡ e
unfolding hex_digit
hex_digit-injective d e hd he h = ground arith

length-fixed_digits : (w n : ℕ) → length (fixed_digits w n) ≡ w
length-fixed_digits zero n = refl
length-fixed_digits (suc w) n = omega (
  arith,
  length-append (fixed_digits w (n / 16)) (hex_digit (n % 16) ∷ []),
  length-fixed_digits w (n / 16),
)

same_length : (w n m : ℕ) → length (fixed_digits w n) ≡ length (fixed_digits w m)
same_length w n m = length-fixed_digits w n ∙ sym (length-fixed_digits w m)

fixed_digits-injective :
    (w n m : ℕ) → n < 16 ^ w → m < 16 ^ w → fixed_digits w n ≡ fixed_digits w m → n ≡ m
fixed_digits-injective zero n m hn hm h = omega arith
fixed_digits-injective (suc w) n m hn hm h =
    let (front, last) = parts _ _ _ _ (same_length w (n / 16) (m / 16)) h in
    let high =
      fixed_digits-injective w (n / 16) (m / 16) (omega (arith, pow-suc 16 w))
        (omega (arith, pow-suc 16 w)) front in
    let low =
      hex_digit-injective (n % 16) (m % 16) (omega arith) (omega arith) (first_of _ _ [] [] last) in
    omega (arith, high, low)

next_group :
    (w n m : ℕ) (rest rest' : Text)
    → n < 16 ^ w
    → m < 16 ^ w
    → fixed_digits w n ++ rest ≡ fixed_digits w m ++ rest'
    → (n ≡ m) × (rest ≡ rest')
next_group w n m rest rest' hn hm h =
    let (front, back) = parts _ _ _ _ (same_length w n m) h in
    (fixed_digits-injective w n m hn hm front, back)

-- The random bits of an identifier: all but those of its version and its variant.
abbrev pub first_bits : ℕ → ℕ × ℕ
first_bits a = (a / 2 ^ 16, a % 2 ^ 12)

abbrev pub second_bits : ℕ → ℕ
second_bits b = b % 2 ^ 62

layout-injective :
    (a b c d : ℕ)
    → a < 2 ^ 64
    → b < 2 ^ 64
    → c < 2 ^ 64
    → d < 2 ^ 64
    → layout a b ≡ layout c d
    → (first_bits a ≡ first_bits c) × (second_bits b ≡ second_bits d)
layout-injective a b c d ha hb hc hd e =
    let (g1, e1) = next_group 8 (a / 2 ^ 32) (c / 2 ^ 32) _ _ (omega arith) (omega arith) e in
    let (g2, e2) =
      next_group 4 (a / 2 ^ 16 % 2 ^ 16) (c / 2 ^ 16 % 2 ^ 16) _ _ (omega arith) (omega arith)
        (rest_of _ _ _ _ e1) in
    let (g3, e3) =
      next_group 3 (a % 2 ^ 12) (c % 2 ^ 12) _ _ (omega arith) (omega arith)
        (rest_of _ _ _ _ (rest_of _ _ _ _ e2)) in
    let e4 = rest_of _ _ _ _ e3 in
    let v =
      hex_digit-injective (8 + b / 2 ^ 60 % 4) (8 + d / 2 ^ 60 % 4) (omega arith) (omega arith)
        (first_of _ _ _ _ e4) in
    let (g5, e5) =
      next_group 3 (b / 2 ^ 48 % 2 ^ 12) (d / 2 ^ 48 % 2 ^ 12) _ _ (omega arith) (omega arith)
        (rest_of _ _ _ _ e4) in
    let g6 =
      fixed_digits-injective 12 (b % 2 ^ 48) (d % 2 ^ 48) (omega arith) (omega arith)
        (rest_of _ _ _ _ e5) in
    (same_pair (omega (arith, g1, g2)) g3, omega (arith, v, g5, g6))
  where
    same_pair : {p q r s : ℕ} → p ≡ q → r ≡ s → ◌≡◌ {A = ℕ × ℕ} (p, r) (q, s)
    same_pair {q = q} {r = r} h k = ap (λ x. (x, r)) h ∙ ap (λ x. (q, x)) k

-- The layout is a function of the random bits.
layout-bits :
    (a b c d : ℕ)
    → first_bits a ≡ first_bits c
    → second_bits b ≡ second_bits d
    → layout a b ≡ layout c d
layout-bits a b c d h k =
    let high : a / 2 ^ 16 ≡ c / 2 ^ 16 = ap (λ x. x.0) h in
    let e1 : a / 2 ^ 32 ≡ c / 2 ^ 32 = omega (arith, high) in
    let e2 : a / 2 ^ 16 % 2 ^ 16 ≡ c / 2 ^ 16 % 2 ^ 16 = omega (arith, high) in
    let e3 : a % 2 ^ 12 ≡ c % 2 ^ 12 = ap (λ x. x.1) h in
    let e4 : b / 2 ^ 60 % 4 ≡ d / 2 ^ 60 % 4 = omega (arith, k) in
    let e5 : b / 2 ^ 48 % 2 ^ 12 ≡ d / 2 ^ 48 % 2 ^ 12 = omega (arith, k) in
    let e6 : b % 2 ^ 48 ≡ d % 2 ^ 48 = omega (arith, k) in rw (e1, e2, e3, e4, e5, e6) refl

-- For all random numbers of 64 bits: an identifier has 36 characters, in groups of 8, 4, 4, 4 and 12
-- hexadecimal digits with a hyphen between, its third group starts with the digit 4 and its fourth
-- with one of 8, 9, a and b; and two identifiers are the same exactly if the random numbers agree in
-- all their bits but the four of the version and the two of the variant.
pub generate_uuid_v4_lem :
    (a b c d : ℕ)
    → a < 2 ^ 64
    → b < 2 ^ 64
    → c < 2 ^ 64
    → d < 2 ^ 64
    → (generate_uuid_v4 a b ≡ layout a b)
      × (length (generate_uuid_v4 a b) ≡ 36)
      × ((generate_uuid_v4 a b ≡ generate_uuid_v4 c d)
          ↔ ((first_bits a ≡ first_bits c) × (second_bits b ≡ second_bits d)))
generate_uuid_v4_lem a b c d ha hb hc hd =
    let e = uuid_layout a b ha hb in
    let e' = uuid_layout c d hc hd in
    (
      e,
      ap length e ∙ refl,
      (
        λ h. layout-injective a b c d ha hb hc hd (sym e ∙ (h ∙ e')),
        λ h. e ∙ (layout-bits a b c d h.0 h.1 ∙ sym e'),
      ),
    )
