-- ===== src/Codec/Parse/Layout.antt =====
-- A whole request: the first line, the header lines, the blank line and the body.
use mathlib.Core.Option
use https_http_server.Shared.{
  ℕ, suc, ◌+◌, ◌≡◌, ◌≢◌, refl, ap, ◌∙◌, List, [], ◌∷◌, ◌++◌, Text, find, find_byte, starts_with,
  none, some, false, length, take, All, arith, append_assoc, length-append,
}
use https_http_server.Message.Fields.{Fields}
use https_http_server.Codec.Parse.{crlf, crlf_crlf, ok, substr}
use https_http_server.Codec.Parse.Search.{IsLine, find-blank_line, find-skip_line, substr-append}
use https_http_server.Codec.Parse.Headers.{read_line, read_lines, unlines, take_exactly}

-- A header line of a request: not empty, with no line end in it.
abbrev pub IsHeader : Text → Type 0
IsHeader l = (l ≢ []) × IsLine l

-- The first line, the header lines, the blank line and the body.
abbrev pub raw_request : Text → List Text → Text → Text
raw_request target ls body = target ++ (crlf ++ unlines ls (crlf ++ body))

-- The position of the blank line.
abbrev pub head_length : Text → List Text → ℕ
head_length target [] = length target
head_length target (l ∷ ls) = length target + 2 + head_length l ls

starts_with-line : (l r : Text) → IsHeader l → starts_with crlf (l ++ (crlf ++ r)) ≡ false
unfolding starts_with find
starts_with-line [] r h = absurd (h.0 refl)
starts_with-line (c ∷ []) r h = ground arith
starts_with-line (c ∷ d ∷ l) r h = ground arith

pub find-head :
    (target : Text) (ls : List Text) (body : Text)
    → IsLine target
    → All IsHeader ls
    → find crlf_crlf (raw_request target ls body) ≡ some (head_length target ls)
find-head target [] body h hs = find-blank_line target body h
find-head target (l ∷ ls) body h hs =
    find-skip_line target (unlines (l ∷ ls) (crlf ++ body)) h
      (starts_with-line l (unlines ls (crlf ++ body)) hs.0)
    ∙ ap (Option.map (λ i. length target + 2 + i)) (find-head l ls body hs.0.1 hs.1)

pub lines_size : List Text → ℕ
lines_size [] = 0
lines_size (l ∷ ls) = length l + (2 + lines_size ls)

pub head_length_lem :
    (target : Text) (ls : List Text) → head_length target ls ≡ lines_size ls + length target
unfolding lines_size
head_length_lem target [] = omega arith
head_length_lem target (l ∷ ls) = omega (arith, head_length_lem l ls)

pub take-append_add : (xs ys : Text) (n : ℕ) → take (length xs + n) (xs ++ ys) ≡ xs ++ take n ys
take-append_add [] ys n = ap (λ k. take k ys) (omega arith)
take-append_add (x ∷ xs) ys n =
    ap (λ k. take k (x ∷ xs ++ ys))
      (let e : suc (length xs) + n ≡ suc (length xs + n) = omega arith in e)
    ∙ ap (λ t. x ∷ t) (take-append_add xs ys n)

pub take-unlines :
    (ls : List Text) (n : ℕ) (t : Text)
    → take (lines_size ls + n) (unlines ls t) ≡ unlines ls (take n t)
unfolding lines_size
take-unlines [] n t = ap (λ k. take k t) (omega arith)
take-unlines (l ∷ ls) n t =
    ap (λ k. take k (l ++ (crlf ++ unlines ls t))) (omega arith)
    ∙ (take-append_add l (crlf ++ unlines ls t) (length crlf + (lines_size ls + n))
        ∙ ap (λ r. l ++ r)
            (take-append_add crlf (unlines ls t) (lines_size ls + n)
              ∙ ap (λ r. crlf ++ r) (take-unlines ls n t)))

-- What the source takes for the header lines. Its view begins behind the first line and is as long as
-- all that stands before the blank line, so it runs on by the length of the first line.
pub headers_view :
    (target : Text) (ls : List Text) (body : Text)
    → substr (length target + 2) (some (head_length target ls)) (raw_request target ls body)
      ≡ ok (unlines ls (take (length target) (crlf ++ body)))
headers_view target ls body =
    ap (substr (length target + 2) (some (head_length target ls))) behind
    ∙ (substr-append (target ++ crlf) (unlines ls (crlf ++ body)) (length target + 2)
          (some (head_length target ls)) (omega (arith, length-append {0} target crlf))
        ∙ ap ok (
            ap (λ n. take n (unlines ls (crlf ++ body))) (head_length_lem target ls)
            ∙ take-unlines ls (length target) (crlf ++ body)))
  where
    behind : raw_request target ls body ≡ (target ++ crlf) ++ unlines ls (crlf ++ body)
    behind = simp append_assoc

pub target-substr :
    (target : Text) (ls : List Text) (body : Text)
    → substr 0 (some (length target)) (raw_request target ls body) ≡ ok target
target-substr target ls body =
    substr-append [] (raw_request target ls body) 0 (some (length target)) refl
    ∙ ap ok (take_exactly (length target) target (crlf ++ unlines ls (crlf ++ body)) refl)

unlines-append : (ls : List Text) (s t : Text) → unlines ls (s ++ t) ≡ unlines ls s ++ t
unlines-append [] s t = refl
unlines-append (l ∷ ls) s t = ap (λ r. l ++ (crlf ++ r)) (unlines-append ls s t) ∙ simp append_assoc

length-unlines : (ls : List Text) (t : Text) → length (unlines ls t) ≡ lines_size ls + length t
unfolding lines_size
length-unlines [] t = omega arith
length-unlines (l ∷ ls) t =
    omega (arith, length-append {0} l (crlf ++ unlines ls t), length-unlines ls t)

pub body-substr :
    (target : Text) (ls : List Text) (body : Text)
    → substr (head_length target ls + 4) none (raw_request target ls body) ≡ ok body
body-substr target ls body =
    ap (substr (head_length target ls + 4) none) split
    ∙ substr-append (target ++ (crlf ++ unlines ls crlf)) body (head_length target ls + 4) none (
        omega (
          arith,
          head_length_lem target ls,
          length-append {0} target (crlf ++ unlines ls crlf),
          length-unlines ls crlf,
        ))
  where
    split : raw_request target ls body ≡ (target ++ (crlf ++ unlines ls crlf)) ++ body
    split = ap (λ r. target ++ (crlf ++ r)) (unlines-append ls crlf body) ∙ simp append_assoc

-- The fields that the parser is left with: those of the header lines, then what the lines do that
-- stand in the first bytes of the body.
abbrev pub fields_of : List Text → List Text → Fields
fields_of ls ms = read_lines (read_lines [] ls) ms

read_lines-append :
    (fields : Fields) (ls ms : List Text)
    → read_lines fields (ls ++ ms) ≡ read_lines (read_lines fields ls) ms
unfolding read_lines
read_lines-append fields [] ms = refl
read_lines-append fields (l ∷ ls) ms = read_lines-append (read_line fields l) ls ms

-- The blank line does nothing.
pub read_lines-blank : (ls ms : List Text) → read_lines [] (ls ++ [] ∷ ms) ≡ fields_of ls ms
read_lines-blank ls ms =
    read_lines-append [] ls ([] ∷ ms) ∙ unfold read_lines read_line find_byte in refl
