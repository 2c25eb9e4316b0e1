-- ===== src/Uuid.antt =====
-- `generate_uuid_v4`, of src/common/include/project/common/uuid.h and src/common/src/uuid.cc. The two
-- random numbers of 64 bits are arguments.
pub mod Identity
pub mod Layout
mod Examples
use Prim.Native.Nat.{bit_and, bit_or}
use https_http_server.Shared.{
  ℕ, zero, suc, ◌+◌, ◌-◌, ◌/◌, ◌%◌, ◌^◌, List, [], ◌∷◌, ◌++◌, Text, codes, if◌then◌else◌, ltb,
  length,
}

-- A digit as `std::hex` prints it.
unfoldable pub hex_digit : ℕ → ℕ
hex_digit d = if ltb d 10 then 48 + d else 87 + d

-- A number as `std::hex` prints it; the fuel counts the digits that are left.
unfoldable pub hex_digits : ℕ → ℕ → Text
unfolding hex_digit
hex_digits zero n = []
hex_digits (suc fuel) n =
    let front = hex_digits fuel (n / 16) in
    if ltb n 16 then hex_digit n ∷ [] else front ++ hex_digit (n % 16) ∷ []

abbrev pub zeros : ℕ → Text
zeros zero = []
zeros (suc n) = 48 ∷ zeros n

-- `std::setw(w)` with the fill `'0'`, on a number of 64 bits, which has at most 16 digits.
unfoldable pub padded : ℕ → ℕ → Text
unfolding hex_digits
padded w n = let s = hex_digits 16 n in zeros (w - length s) ++ s

-- The version in the first number.
unfoldable pub version_bits : ℕ → ℕ
version_bits a = bit_or (bit_and a 0xFFFFFFFFFFFF0FFF) 0x0000000000004000

-- The variant in the second number.
unfoldable pub variant_bits : ℕ → ℕ
variant_bits b = bit_or (bit_and b 0x3FFFFFFFFFFFFFFF) 0x8000000000000000

-- `generate_uuid_v4`
unfoldable pub generate_uuid_v4 : ℕ → ℕ → Text
unfolding padded version_bits variant_bits
generate_uuid_v4 first second =
    let a = version_bits first in
    let b = variant_bits second in
    padded 8 (bit_and (a / 2 ^ 32) 0xFFFFFFFF)
    ++ (codes "-"
        ++ (padded 4 (bit_and (a / 2 ^ 16) 0xFFFF)
            ++ (codes "-"
                ++ (padded 4 (bit_and a 0xFFFF)
                    ++ (codes "-"
                        ++ (padded 4 (bit_and (b / 2 ^ 48) 0xFFFF)
                            ++ (codes "-" ++ padded 12 (bit_and b 0xFFFFFFFFFFFF))))))))
