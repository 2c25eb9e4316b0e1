-- ===== src/Codec/Parse/Headers.antt =====
-- The loop over the header lines, against a reading line by line.
use mathlib.Core.Option
use https_http_server.Shared.{
  ℕ, zero, suc, ◌+◌, ◌-◌, ◌≤◌, ◌<◌, ◌≡◌, refl, sym, ap, ◌∙◌, List, [], ◌∷◌, ◌++◌, Text, codes,
  find_byte, find, find_from, none, some, if◌then◌else◌, length, take, drop, All, take-append,
  take-append-drop, length-drop, length-take, arith, append_assoc, length-append, Option-cases, inl,
  inr,
}
use https_http_server.Message.Fields.{Fields, assign, has}
use https_http_server.Codec.Parse.{
  crlf, find_byte_from, ok, refused, substr, trim, parse_line, parse_lines, parse_headers,
}
use https_http_server.Codec.Parse.Search.{
  IsLine, find-line, find_byte-append_some, find_byte-append_none, find_byte-lt-length,
  substr-append, find_byte_from-append, find_from-append,
}

-- What one header line does to the fields: the text before its first colon is assigned the text
-- behind it, without the blanks in front; a line with no colon does nothing.
unfoldable pub read_line : Fields → Text → Fields
read_line fields l = elim (find_byte b':' l) [
  | none ↦ fields
  | some i ↦ assign (take i l) (trim (drop (i + 1) l)) fields
]

unfoldable pub read_lines : Fields → List Text → Fields
read_lines fields [] = fields
read_lines fields (l ∷ ls) = read_lines (read_line fields l) ls

-- Lines with their line ends, and a tail behind them.
abbrev pub unlines : List Text → Text → Text
unlines [] tail = tail
unlines (l ∷ ls) tail = l ++ (crlf ++ unlines ls tail)

take-append_le {ℓ} :
    {A : Type ℓ} (n : ℕ) (xs ys : List A) → n ≤ length xs → take n (xs ++ ys) ≡ take n xs
take-append_le zero xs ys h = refl
take-append_le (suc n) [] ys h = absurd (omega arith)
take-append_le (suc n) (x ∷ xs) ys h = ap (λ t. x ∷ t) (take-append_le n xs ys (omega arith))

pub take_exactly {ℓ} :
    {A : Type ℓ} (n : ℕ) (xs ys : List A) → n ≡ length xs → take n (xs ++ ys) ≡ xs
take_exactly n xs ys h = rw h (take-append xs ys)

module _ (p l r : Text) where
  abbrev whole : Text
  whole = p ++ (l ++ r)

  -- The text before the colon at `i` of the line.
  key-substr :
      (i : ℕ)
      → i < length l
      → substr (length p) (some (length p + i - length p)) whole ≡ ok (take i l)
  key-substr i h =
      substr-append p (l ++ r) (length p) (some (length p + i - length p)) refl
      ∙ ap (λ n. ok (take n (l ++ r))) (omega arith)
      ∙ ap ok (take-append_le i l r (omega arith))

  split_at : (n : ℕ) → whole ≡ (p ++ take n l) ++ (drop n l ++ r)
  split_at n = ap (λ m. p ++ (m ++ r)) (sym (take-append-drop n l)) ∙ simp append_assoc

  -- The text behind it, up to the end of the line.
  value-substr :
      (i : ℕ)
      → i < length l
      → substr (length p + i + 1) (some (length p + length l - (length p + i) - 1)) whole
        ≡ ok (drop (i + 1) l)
  value-substr i h =
      ap (substr (length p + i + 1) (some (length p + length l - (length p + i) - 1)))
        (split_at (i + 1))
      ∙ (substr-append (p ++ take (i + 1) l) (drop (i + 1) l ++ r) (length p + i + 1)
            (some (length p + length l - (length p + i) - 1))
            (omega (arith, length-append {0} p (take (i + 1) l), length-take {0} (i + 1) l))
          ∙ ap ok (
              take_exactly (length p + length l - (length p + i) - 1) (drop (i + 1) l) r
                (omega (arith, length-drop {0} (i + 1) l))))

-- The first colon from the start of a line, in a text that goes on behind it.
colon_in :
    (p l r : Text) (i : ℕ)
    → find_byte b':' l ≡ some i
    → find_byte_from b':' (length p) (p ++ (l ++ r)) ≡ some (length p + i)
colon_in p l r i e =
    find_byte_from-append b':' p (l ++ r)
    ∙ ap (Option.map (λ j. length p + j)) (find_byte-append_some b':' l r i e)

colon_beyond :
    (p l r : Text)
    → find_byte b':' l ≡ none
    → find_byte_from b':' (length p) (p ++ (l ++ r))
      ≡ Option.map (λ j. length p + j) (Option.map (λ j. length l + j) (find_byte b':' r))
colon_beyond p l r e =
    find_byte_from-append b':' p (l ++ r)
    ∙ ap (Option.map (λ j. length p + j)) (find_byte-append_none b':' l r e)

crlf_first : (r : Text) (j : ℕ) → find_byte b':' (crlf ++ r) ≡ some j → 0 < j
unfolding find_byte
crlf_first r zero e = ground arith
crlf_first r (suc j) e = omega arith

-- One round of the loop reads the line that it stands at, and never reads out of range.
parse_line_lem :
    (p l r : Text) (fields : Fields)
    → parse_line (p ++ (l ++ (crlf ++ r))) (length p) (length p + length l) fields
      ≡ ok (read_line fields l)
unfolding parse_line read_line
parse_line_lem p l r fields = elim (Option-cases (find_byte b':' l)) [
  | inl e ↦ elim (Option-cases (find_byte b':' (crlf ++ r))) [
    | inl f ↦ ground (arith, colon_beyond p l (crlf ++ r) e, e, f)
    | inr (j, f) ↦ ground (arith, colon_beyond p l (crlf ++ r) e, e, f, crlf_first r j f)
  ]
  | inr (i, e) ↦ ground (
    arith,
    e,
    colon_in p l (crlf ++ r) i e,
    find_byte-lt-length b':' l i e,
    key-substr p l (crlf ++ r) i,
    value-substr p l (crlf ++ r) i,
  )
]

module _ (p l r : Text) where
  passed : p ++ (l ++ (crlf ++ r)) ≡ (p ++ (l ++ crlf)) ++ r
  passed = simp append_assoc

  length-passed : length p + length l + 2 ≡ length (p ++ (l ++ crlf))
  length-passed = omega (arith, length-append {0} p (l ++ crlf), length-append {0} l crlf)

  -- The search for the end of the next line starts behind the line end.
  next_end :
      find_from crlf (length p + length l + 2) (p ++ (l ++ (crlf ++ r)))
      ≡ Option.map (λ i. length p + length l + 2 + i) (find crlf r)
  next_end = rw (passed, length-passed) (find_from-append crlf (p ++ (l ++ crlf)) r)

-- With as many rounds as there are lines, the loop reads all lines, and it ends at the tail.
parse_lines_lem :
    (ls : List Text) (l : Text) (fuel : ℕ) (p tail : Text) (fields : Fields)
    → All IsLine ls
    → IsLine tail
    → length ls < fuel
    → parse_lines fuel
        (p ++ (l ++ (crlf ++ unlines ls tail)))
        (length p)
        (length p + length l)
        fields
      ≡ ok (read_lines (read_line fields l) ls)
unfolding parse_lines read_lines
parse_lines_lem ls l zero p tail fields hs ht h = absurd (omega arith)
parse_lines_lem [] l (suc fuel) p tail fields hs ht h =
    rw (parse_line_lem p l tail fields, next_end p l tail, ht)
parse_lines_lem (l' ∷ ls) l (suc fuel) p tail fields hs ht h =
    rw
      (
        parse_line_lem p l (unlines (l' ∷ ls) tail) fields,
        next_end p l (unlines (l' ∷ ls) tail),
        find-line l' (unlines ls tail) hs.0,
        passed p l (unlines (l' ∷ ls) tail),
        length-passed p l tail,
      )
      (parse_lines_lem ls l' fuel (p ++ (l ++ crlf)) tail (read_line fields l) hs.1 ht
        (omega arith))

length-unlines : (ls : List Text) (tail : Text) → length ls ≤ length (unlines ls tail)
length-unlines [] tail = omega arith
length-unlines (l ∷ ls) tail =
    omega (arith, length-unlines ls tail, length-append {0} l (crlf ++ unlines ls tail))

pub first_lines :
    (l : Text) (ls : List Text) (tail : Text)
    → All IsLine (l ∷ ls)
    → IsLine tail
    → parse_lines (length (unlines (l ∷ ls) tail)) (unlines (l ∷ ls) tail) 0 (length l) []
      ≡ ok (read_lines [] (l ∷ ls))
unfolding read_lines
first_lines l ls tail hs ht =
    ap (λ n. parse_lines (length (unlines (l ∷ ls) tail)) (unlines (l ∷ ls) tail) 0 n [])
      (let e : length l ≡ 0 + length l = omega arith in e)
    ∙ parse_lines_lem ls l (length (unlines (l ∷ ls) tail)) [] tail [] hs.1 ht
        (omega (arith, length-unlines ls tail, length-append {0} l (crlf ++ unlines ls tail)))

-- A text of one or more lines with their line ends, and a tail with no line end, is read line by line
-- from the top. It is refused exactly if no line gives the field `Host`, and no read is out of range.
pub parse_headers_lem :
    (l : Text) (ls : List Text) (tail : Text)
    → All IsLine (l ∷ ls)
    → IsLine tail
    → parse_headers (unlines (l ∷ ls) tail) ≡ (
        if has (codes "Host") (read_lines [] (l ∷ ls))
        then ok (read_lines [] (l ∷ ls))
        else refused)
unfolding parse_headers read_lines
parse_headers_lem l ls tail hs ht =
    rw (find-line l (unlines ls tail) hs.0, parse_headers, first_lines l ls tail hs ht)
      (ground arith)
