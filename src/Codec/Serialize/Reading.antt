-- ===== src/Codec/Serialize/Reading.antt =====
-- What a client reads from a serialised response.
use https_http_server.Shared.{
  ℕ, zero, suc, ◌+◌, ◌*◌, ◌-◌, ◌/◌, ◌%◌, ◌<◌, ◌≡◌, refl, [], ◌∷◌, ◌++◌, Text, arith,
}
use https_http_server.Codec.Serialize.{digits, to_decimal}

-- Reading a decimal number, digit by digit.
read_digits : ℕ → Text → ℕ
read_digits n [] = n
read_digits n (c ∷ s) = read_digits (n * 10 + (c - 48)) s

unfoldable pub read_decimal : Text → ℕ
unfolding read_digits
read_decimal = read_digits 0

read_digits-append :
    (n : ℕ) (s : Text) (c : ℕ) → read_digits n (s ++ c ∷ []) ≡ read_digits n s * 10 + (c - 48)
unfolding read_digits
read_digits-append n [] c = refl
read_digits-append n (d ∷ s) c = read_digits-append (n * 10 + (d - 48)) s c

read-digits : (fuel n : ℕ) → n < fuel → read_digits 0 (digits fuel n) ≡ n
unfolding digits read_digits
read-digits zero n h = absurd (omega arith)
read-digits (suc fuel) n h =
    ground
      (arith, read-digits fuel (n / 10), read_digits-append 0 (digits fuel (n / 10)) (48 + n % 10))

-- The decimal print of a number reads back as the number.
pub read_decimal-to_decimal : (n : ℕ) → read_decimal (to_decimal n) ≡ n
unfolding read_decimal to_decimal
read_decimal-to_decimal n = read-digits (suc n) n (omega arith)

-- Zeros before a number do not change it.
pub read_decimal-zero : (s : Text) → read_decimal (b'0' ∷ s) ≡ read_decimal s
unfolding read_decimal read_digits
read_decimal-zero s = refl
