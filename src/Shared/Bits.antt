-- ===== src/Shared/Bits.antt =====
-- Binary digits: `bit_and` and `bit_or` on the parts of a number above and below a digit.
use Prim.Native.Nat.{
  ℕ, zero, suc, ◌+◌, ◌-◌, ◌*◌, ◌/◌, ◌%◌, ◌^◌, ◌≤◌, ◌<◌, min, max, bit_and, bit_or, digits, bitwise,
  bit_and-bitwise, bit_or-bitwise,
}
use mathlib.Core.Path.{◌≡◌, refl, ap, ap₂, ◌∙◌}
use native.Mathlib.Nat.{le_refl, pow-suc, one-le-pow}
use native.Mathlib.Omega.{arith}

module _ (rest : ℕ → ℕ) (op : ℕ → ℕ → ℕ) where
  no_digits : (k l y : ℕ) → digits rest op k 0 y ≡ digits rest op l 0 y
  no_digits zero zero y = refl
  no_digits zero (suc l) y = refl
  no_digits (suc k) zero y = refl
  no_digits (suc k) (suc l) y = refl

  -- Counts that are enough for a number give the same.
  enough_digits : (x k l y : ℕ) → x ≤ k → x ≤ l → digits rest op k x y ≡ digits rest op l x y
  enough_digits zero k l y hk hl = no_digits k l y
  enough_digits (suc x) zero l y hk hl = absurd (omega arith)
  enough_digits (suc x) (suc k) zero y hk hl = absurd (omega arith)
  enough_digits (suc x) (suc k) (suc l) y hk hl =
      let half = suc x / 2 in
      ap (λ high. high * 2 + op (suc x % 2) (y % 2))
        (enough_digits half k l (y / 2) (omega arith) (omega arith))

  lowest_digit :
      (x y : ℕ)
      → bitwise rest op (suc x) y ≡ bitwise rest op (suc x / 2) (y / 2) * 2 + op (suc x % 2) (y % 2)
  lowest_digit x y =
      let half = suc x / 2 in
      ap (λ high. high * 2 + op (suc x % 2) (y % 2))
        (enough_digits half x half (y / 2) (omega arith) (le_refl half))

bit_and_digit : (a b : ℕ) → bit_and a b ≡ bit_and (a / 2) (b / 2) * 2 + min (a % 2) (b % 2)
bit_and_digit zero b = simp bit_and-bitwise (omega arith)
bit_and_digit (suc a) b = simp bit_and-bitwise (lowest_digit (λ y. 0) min a b)

bit_or_digit : (a b : ℕ) → bit_or a b ≡ bit_or (a / 2) (b / 2) * 2 + max (a % 2) (b % 2)
bit_or_digit zero b = simp bit_or-bitwise (omega arith)
bit_or_digit (suc a) b = simp bit_or-bitwise (lowest_digit (λ y. y) max a b)

mul-pow_suc : (q k : ℕ) → q * 2 ^ suc k ≡ 2 * (q * 2 ^ k)
mul-pow_suc q k = omega (arith, ap (λ (t : ℕ). q * t) (pow-suc 2 k))

only_part : (p r : ℕ) → r < 1 → p * 1 + r ≡ p
only_part p r h = omega arith

no_part : (r : ℕ) → r < 1 → r ≡ 0
no_part r h = omega arith

-- The operations work on the two parts of their numbers by themselves.
pub bit_and_parts :
    (k p q r s : ℕ)
    → r < 2 ^ k
    → s < 2 ^ k
    → bit_and (p * 2 ^ k + r) (q * 2 ^ k + s) ≡ bit_and p q * 2 ^ k + bit_and r s
bit_and_parts zero p q r s hr hs =
    ap₂ bit_and (only_part p r hr) (only_part q s hs)
    ∙ omega (arith, ap₂ bit_and (no_part r hr) (no_part s hs))
bit_and_parts (suc k) p q r s hr hs = ground (
  arith,
  bit_and_digit (p * 2 ^ suc k + r) (q * 2 ^ suc k + s),
  bit_and_digit r s,
  mul-pow_suc p k,
  mul-pow_suc q k,
  mul-pow_suc (bit_and p q) k,
  pow-suc 2 k,
  bit_and_parts k p q (r / 2) (s / 2) (omega (arith, pow-suc 2 k)) (omega (arith, pow-suc 2 k)),
)

pub bit_or_parts :
    (k p q r s : ℕ)
    → r < 2 ^ k
    → s < 2 ^ k
    → bit_or (p * 2 ^ k + r) (q * 2 ^ k + s) ≡ bit_or p q * 2 ^ k + bit_or r s
bit_or_parts zero p q r s hr hs =
    ap₂ bit_or (only_part p r hr) (only_part q s hs)
    ∙ omega (arith, ap₂ bit_or (no_part r hr) (no_part s hs))
bit_or_parts (suc k) p q r s hr hs = ground (
  arith,
  bit_or_digit (p * 2 ^ suc k + r) (q * 2 ^ suc k + s),
  bit_or_digit r s,
  mul-pow_suc p k,
  mul-pow_suc q k,
  mul-pow_suc (bit_or p q) k,
  pow-suc 2 k,
  bit_or_parts k p q (r / 2) (s / 2) (omega (arith, pow-suc 2 k)) (omega (arith, pow-suc 2 k)),
)

bit_and-zero_within : (n a : ℕ) → a ≤ n → bit_and a 0 ≡ 0
bit_and-zero_within n zero h = refl
bit_and-zero_within zero (suc a) h = absurd (omega arith)
bit_and-zero_within (suc n) (suc a) h =
    omega (arith, bit_and_digit (suc a) 0, bit_and-zero_within n (suc a / 2) (omega arith))

pub bit_and-zero : (a : ℕ) → bit_and a 0 ≡ 0
bit_and-zero a = bit_and-zero_within a a (le_refl a)

bit_or-zero_within : (n a : ℕ) → a ≤ n → bit_or a 0 ≡ a
bit_or-zero_within n zero h = refl
bit_or-zero_within zero (suc a) h = absurd (omega arith)
bit_or-zero_within (suc n) (suc a) h =
    omega (arith, bit_or_digit (suc a) 0, bit_or-zero_within n (suc a / 2) (omega arith))

pub bit_or-zero : (a : ℕ) → bit_or a 0 ≡ a
bit_or-zero a = bit_or-zero_within a a (le_refl a)

pub zero-bit_or : (a : ℕ) → bit_or 0 a ≡ a
zero-bit_or a = bit_or-bitwise 0 a

-- A mask of low digits.
bit_and_ones : (k r : ℕ) → r < 2 ^ k → bit_and r (2 ^ k - 1) ≡ r
bit_and_ones zero r h = omega (arith, bit_and-zero r)
bit_and_ones (suc k) r h =
    let i = bit_and_ones k (r / 2) (omega (arith, pow-suc 2 k)) in
    ground (arith, bit_and_digit r (2 ^ suc k - 1), pow-suc 2 k, one-le-pow k 2)

pub bit_and_low : (k a : ℕ) → bit_and a (2 ^ k - 1) ≡ a % 2 ^ k
bit_and_low k a = ground (
  arith,
  one-le-pow k 2,
  bit_and_parts k (a / 2 ^ k) 0 (a % 2 ^ k) (2 ^ k - 1),
  bit_and-zero (a / 2 ^ k),
  bit_and_ones k (a % 2 ^ k),
)

-- Digits put above a number.
pub bit_or_low : (k q r : ℕ) → r < 2 ^ k → bit_or r (q * 2 ^ k) ≡ q * 2 ^ k + r
bit_or_low k q r h =
    ap₂ bit_or (under r) (above (q * 2 ^ k))
    ∙ omega (
      arith,
      bit_or_parts k 0 q r 0 h (one-le-pow k 2 (omega arith)),
      ap (λ (x : ℕ). x * 2 ^ k) (zero-bit_or q),
      bit_or-zero r,
    )
  where
    under : (r : ℕ) → r ≡ 0 * 2 ^ k + r
    under r = omega arith

    above : (q : ℕ) → q ≡ q + 0
    above q = omega arith
