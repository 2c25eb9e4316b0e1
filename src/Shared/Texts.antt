-- ===== src/Shared/Texts.antt =====
-- Texts as lists of bytes: literals, equality, and the searches of `std::string_view`.
use Prim.Native.Nat.{ℕ, suc, ◌+◌}
use Prim.Native.Char.{code}
use Prim.Native.String.{String}
use mathlib.Core.Path.{◌≡◌, refl}
use mathlib.Core.Logic.{◌↔◌}
use mathlib.Core.Bool.{Bool, true, false, ◌&&◌}
use mathlib.Core.Option
use mathlib.Core.Option.{Option, none, some}
use mathlib.Core.List.{List, [], ◌∷◌}
use native.Mathlib.Omega.{arith}
use https_http_server.Shared.Tests.{◌==◌, if◌then◌else◌}
use https_http_server.Shared.Lists.{drop}

abbrev pub Text : Type 0
Text = List ℕ

-- The bytes of an ASCII literal.
abbrev pub codes : String → Text
codes String.[] = []
codes (String.◌∷◌ c s) = code c ∷ codes s

unfoldable pub text_eq : Text → Text → Bool
text_eq [] [] = true
text_eq [] (y ∷ ys) = false
text_eq (x ∷ xs) [] = false
text_eq (x ∷ xs) (y ∷ ys) = x == y && text_eq xs ys

text_eq_sound : (a b : Text) → text_eq a b ≡ true → a ≡ b
unfolding text_eq
text_eq_sound [] [] h = refl
text_eq_sound [] (y ∷ b) h = cc
text_eq_sound (x ∷ a) [] h = cc
text_eq_sound (x ∷ a) (y ∷ b) h = ground (arith, text_eq_sound a b)

pub text_eq_refl : (a : Text) → text_eq a a ≡ true
unfolding text_eq
text_eq_refl [] = refl
text_eq_refl (x ∷ a) = ground (arith, text_eq_refl a)

pub text_eq_iff : (a b : Text) → (text_eq a b ≡ true) ↔ (a ≡ b)
text_eq_iff a b = (text_eq_sound a b, λ e. rw e (text_eq_refl b))

-- `s.find(c)` for a character: `none` stands for `npos`.
unfoldable pub find_byte : ℕ → Text → Option ℕ
find_byte c [] = none
find_byte c (x ∷ xs) = if x == c then some 0 else Option.map suc (find_byte c xs)

unfoldable pub starts_with : Text → Text → Bool
starts_with [] s = true
starts_with (p ∷ ps) [] = false
starts_with (p ∷ ps) (x ∷ xs) = x == p && starts_with ps xs

-- `s.find(p)` for a text `p` that is not empty.
unfoldable pub find : Text → Text → Option ℕ
unfolding starts_with
find p [] = none
find p (x ∷ xs) = if starts_with p (x ∷ xs) then some 0 else Option.map suc (find p xs)

-- `s.find(p, pos)`: the position counts from the start of `s`.
unfoldable pub find_from : Text → ℕ → Text → Option ℕ
find_from p pos s = Option.map (λ i. pos + i) (find p (drop pos s))
