-- ===== src/Codec/Parse/Search.antt =====
-- Where the searches of the parser stop: at the end of a line that holds no line end, and at a
-- character of the line.
use mathlib.Core.Option
use https_http_server.Shared.{
  ℕ, zero, suc, ◌+◌, ◌<◌, ◌≡◌, refl, [], ◌∷◌, ◌++◌, Text, starts_with, find_byte, find, find_from,
  Option, none, some, false, length, drop-append, arith, length-append,
}
use https_http_server.Codec.Parse.{crlf, crlf_crlf, find_byte_from, ok, substr, take?}

-- A line as the parser cuts it: a text with no line end in it.
abbrev pub IsLine : Text → Type 0
IsLine l = find crlf l ≡ none

-- A line stops at the line end behind it.
pub find-line : (l r : Text) → IsLine l → find crlf (l ++ (crlf ++ r)) ≡ some (length l)
unfolding find starts_with
find-line [] r h = refl
find-line (c ∷ []) r h = ground arith
find-line (c ∷ d ∷ l) r h = ground (arith, find-line (d ∷ l) r)

-- The blank line is found at the end of a line that it follows.
pub find-blank_line :
    (l r : Text) → IsLine l → find crlf_crlf (l ++ (crlf_crlf ++ r)) ≡ some (length l)
unfolding find starts_with
find-blank_line [] r h = refl
find-blank_line (c ∷ []) r h = ground arith
find-blank_line (c ∷ d ∷ l) r h = ground (arith, find-blank_line (d ∷ l) r)

-- And it is looked for behind a line that another line follows.
pub find-skip_line :
    (l r : Text)
    → IsLine l
    → starts_with crlf r ≡ false
    → find crlf_crlf (l ++ (crlf ++ r)) ≡ Option.map (λ i. length l + 2 + i) (find crlf_crlf r)
unfolding find starts_with
find-skip_line [] r h s = ground arith
find-skip_line (c ∷ []) r h s = ground arith
find-skip_line (c ∷ d ∷ l) r h s = ground (arith, find-skip_line (d ∷ l) r)

-- A character of a line is found there, whatever follows the line.
pub find_byte-append_some :
    (c : ℕ) (l r : Text) (i : ℕ) → find_byte c l ≡ some i → find_byte c (l ++ r) ≡ some i
unfolding find_byte
find_byte-append_some c [] r i h = cc
find_byte-append_some c (x ∷ l) r zero h = ground arith
find_byte-append_some c (x ∷ l) r (suc i) h = ground (arith, find_byte-append_some c l r i)

pub find_byte-append_none :
    (c : ℕ) (l r : Text)
    → find_byte c l ≡ none
    → find_byte c (l ++ r) ≡ Option.map (λ i. length l + i) (find_byte c r)
unfolding find_byte
find_byte-append_none c [] r h = ground arith
find_byte-append_none c (x ∷ l) r h = ground (arith, find_byte-append_none c l r)

pub find_byte-lt-length : (c : ℕ) (l : Text) (i : ℕ) → find_byte c l ≡ some i → i < length l
unfolding find_byte
find_byte-lt-length c [] i h = cc
find_byte-lt-length c (x ∷ l) zero h = omega arith
find_byte-lt-length c (x ∷ l) (suc i) h = ground (arith, find_byte-lt-length c l i)

-- Cutting the text behind a prefix.
pub substr-append :
    (p s : Text) (n : ℕ) (count : Option ℕ)
    → n ≡ length p
    → substr n count (p ++ s) ≡ ok (take? count s)
unfolding substr
substr-append p s n count e = rw e (ground (arith, length-append {0} p s, drop-append {0} p s))

pub find_byte_from-append :
    (c : ℕ) (p s : Text)
    → find_byte_from c (length p) (p ++ s) ≡ Option.map (λ i. length p + i) (find_byte c s)
unfolding find_byte_from
find_byte_from-append c p s = rw (drop-append p s)

pub find_from-append :
    (t p s : Text) → find_from t (length p) (p ++ s) ≡ Option.map (λ i. length p + i) (find t s)
unfolding find_from
find_from-append t p s = rw (drop-append p s)
