-- ===== src/Codec/Parse/Lines.antt =====
-- The lines of an arbitrary text, for the loop over header lines.
use https_http_server.Shared.{
  ℕ, ◌≡◌, refl, ap, ◌∙◌, List, [], ◌∷◌, ◌++◌, Text, starts_with, find, true, false, ◌==◌, ◌&&◌, All,
  arith, Bool-cases, inl, inr,
}
use https_http_server.Codec.Parse.{crlf}
use https_http_server.Codec.Parse.Search.{IsLine}
use https_http_server.Codec.Parse.Headers.{unlines}

-- Every text is a list of lines with their line ends and a tail without one.
pub record Lines (t : Text) : Type 0 where
  pub lines : List Text
  pub tail : Text
  pub same : t ≡ unlines lines tail
  pub are_lines : All IsLine lines
  pub tail_line : IsLine tail

IsLine-tail : (d : ℕ) (l : Text) → IsLine (d ∷ l) → IsLine l
unfolding find
IsLine-tail d l h = ground arith

IsLine-one : (c : ℕ) → IsLine (c ∷ [])
unfolding find starts_with
IsLine-one c = ground arith

IsLine-cons :
    (c d : ℕ) (l : Text) → (c == 13 && d == 10) ≡ false → IsLine (d ∷ l) → IsLine (c ∷ d ∷ l)
unfolding find starts_with
IsLine-cons c d l e h = ground arith

IsLine-nil : IsLine []
unfolding find
IsLine-nil = refl

line_end : (c d : ℕ) (t : Text) → (c == 13 && d == 10) ≡ true → c ∷ d ∷ t ≡ crlf ++ t
line_end c d t e = ground arith

-- A character more in front.
Lines-cons : (c : ℕ) (t : Text) → Lines t → Lines (c ∷ t)
Lines-cons c t s = go s.lines s.tail s.same s.are_lines s.tail_line
  where
    go :
        (ls : List Text) (tail : Text)
        → t ≡ unlines ls tail
        → All IsLine ls
        → IsLine tail
        → Lines (c ∷ t)
    go [] [] e h k = record {
      lines = [];
      tail = c ∷ [];
      same = ap (λ r. c ∷ r) e;
      are_lines = tt;
      tail_line = IsLine-one c;
    }
    go [] (d ∷ tail) e h k = elim (Bool-cases (c == 13 && d == 10)) [
      | inl y ↦ record {
        lines = [] ∷ [];
        tail = tail;
        same = ap (λ r. c ∷ r) e ∙ line_end c d tail y;
        are_lines = (IsLine-nil, tt);
        tail_line = IsLine-tail d tail k;
      }
      | inr n ↦ record {
        lines = [];
        tail = c ∷ d ∷ tail;
        same = ap (λ r. c ∷ r) e;
        are_lines = tt;
        tail_line = IsLine-cons c d tail n k;
      }
    ]
    go ([] ∷ ls) tail e h k = record {
      lines = (c ∷ []) ∷ ls;
      tail = tail;
      same = ap (λ r. c ∷ r) e;
      are_lines = (IsLine-one c, h.1);
      tail_line = k;
    }
    go ((d ∷ l) ∷ ls) tail e h k = elim (Bool-cases (c == 13 && d == 10)) [
      | inl y ↦ record {
        lines = [] ∷ l ∷ ls;
        tail = tail;
        same = ap (λ r. c ∷ r) e ∙ line_end c d (unlines (l ∷ ls) tail) y;
        are_lines = (IsLine-nil, (IsLine-tail d l h.0, h.1));
        tail_line = k;
      }
      | inr n ↦ record {
        lines = (c ∷ d ∷ l) ∷ ls;
        tail = tail;
        same = ap (λ r. c ∷ r) e;
        are_lines = (IsLine-cons c d l n h.0, h.1);
        tail_line = k;
      }
    ]

-- The lines of a text.
pub Lines-total : (t : Text) → Lines t
Lines-total [] = record {
  lines = [];
  tail = [];
  same = refl;
  are_lines = tt;
  tail_line = IsLine-nil;
}
Lines-total (c ∷ t) = Lines-cons c t (Lines-total t)
