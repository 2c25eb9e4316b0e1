-- ===== src/Codec/Parse/Total.antt =====
-- How the parser ends on any input: no read is out of range and no loop runs out of rounds.
use https_http_server.Shared.{
  ℕ, zero, suc, ◌+◌, ◌≤◌, ◌≡◌, refl, List, [], ◌∷◌, Text, starts_with, find, find_byte, Option,
  none, some, Bool, true, false, if◌then◌else◌, length, length-drop, drop, All, arith, Option-cases,
  inl, inr,
}
use https_http_server.Message.Envelope.{JsonLib, JsonParse, json_value, parse_error, out_of_range}
use https_http_server.Message.Method.{to_method}
use https_http_server.Codec.Parse.{
  crlf, crlf_crlf, Parsed, ok, refused, thrown, exhausted, ◌>>=◌, require, require_found, next,
  is_unknown, substr, find_byte_from, parse_target, parse_headers, parse_body, parse,
}
use https_http_server.Codec.Parse.Search.{IsLine, find_byte-lt-length}
use https_http_server.Codec.Parse.Whole.{body_of}
use https_http_server.Codec.Parse.Lines.{Lines-total}
use https_http_server.Codec.Parse.Headers.{unlines, read_lines, parse_headers_lem}

-- A result or a refusal.
abbrev Answers {ℓ} : {A : Type ℓ} → Parsed A → Type 0
Answers (ok a) = Unit
Answers refused = Unit
Answers thrown = ⊥
Answers exhausted = ⊥

Answers-bind {ℓ κ} :
    {A : Type ℓ} {B : Type κ} (m : Parsed A) (f : A → Parsed B)
    → Answers m
    → ((a : A) → m ≡ ok a → Answers (f a))
    → Answers (m >>= f)
Answers-bind (ok a) f h k = k a refl
Answers-bind refused f h k = tt
Answers-bind thrown f h k = h
Answers-bind exhausted f h k = h

Answers-substr : (n : ℕ) (count : Option ℕ) (s : Text) → n ≤ length s → Answers (substr n count s)
unfolding substr
Answers-substr n count s h = ground arith

substr-drop : (n : ℕ) (s : Text) → n ≤ length s → substr n none s ≡ ok (drop n s)
unfolding substr
substr-drop n s h = ground arith

Answers-require : (b : Bool) → Answers (require b)
Answers-require true = tt
Answers-require false = tt

starts_with-length : (p s : Text) → starts_with p s ≡ true → length p ≤ length s
unfolding starts_with
starts_with-length [] s h = omega arith
starts_with-length (c ∷ p) [] h = cc
starts_with-length (c ∷ p) (d ∷ s) h = ground (arith, starts_with-length p s)

find-bound : (p s : Text) (i : ℕ) → find p s ≡ some i → i + length p ≤ length s
unfolding find
find-bound p [] i h = cc
find-bound p (c ∷ s) zero h = ground (arith, starts_with-length p (c ∷ s))
find-bound p (c ∷ s) (suc i) h = ground (arith, find-bound p s i)

next-le : (c : ℕ) (s : Text) → next (find_byte c s) ≤ length s
next-le c s = elim (Option-cases (find_byte c s)) [
  | inl e ↦ rw e (omega arith)
  | inr (i, e) ↦ rw e (omega (arith, find_byte-lt-length c s i e))
]

next-from-le : (c n : ℕ) (s : Text) → n ≤ length s → next (find_byte_from c n s) ≤ length s
unfolding find_byte_from
next-from-le c n s h = elim (Option-cases (find_byte c (drop n s))) [
  | inl e ↦ rw e (omega arith)
  | inr (i, e) ↦ rw e (omega (arith, find_byte-lt-length c (drop n s) i e, length-drop {0} n s))
]

Answers-parse_target : (s : Text) → Answers (parse_target s)
unfolding parse_target
Answers-parse_target s =
    Answers-bind (substr 0 (find_byte b' ' s) s) _ (Answers-substr 0 _ s (omega arith)) λ name _.
      Answers-bind (require (if is_unknown (to_method name) then false else true)) _
        (Answers-require _)
        λ _ _.
          Answers-bind (substr (next (find_byte b' ' s)) _ s) _
            (Answers-substr _ _ s (next-le b' ' s))
            λ _ _.
              Answers-bind (substr (next (find_byte_from b' ' (next (find_byte b' ' s)) s)) none s)
                _
                (Answers-substr _ none s
                  (next-from-le b' ' (next (find_byte b' ' s)) s (next-le b' ' s)))
                λ _ _. tt

Answers-if : (b : Bool) (fields : List (Text × Text)) → Answers (if b then ok fields else refused)
Answers-if true fields = tt
Answers-if false fields = tt

Answers-parse_headers : (t : Text) → Answers (parse_headers t)
unfolding parse_headers
Answers-parse_headers t = let s = Lines-total t in go s.lines s.tail s.same s.are_lines s.tail_line
  where
    go :
        (ls : List Text) (tail : Text)
        → t ≡ unlines ls tail
        → All IsLine ls
        → IsLine tail
        → Answers (parse_headers t)
    go [] tail e h k = rw (e, parse_headers, k) tt
    go (l ∷ ls) tail e h k =
        rw (e, parse_headers_lem l ls tail h k) (Answers-if _ (read_lines [] (l ∷ ls)))

module _ (J : JsonLib) where
  -- A result or a refusal; or an exception, where what stands behind the blank line is JSON with a
  -- number out of range.
  abbrev pub Ends {ℓ} : {A : Type ℓ} → Text → Parsed A → Type 0
  Ends raw (ok a) = Unit
  Ends raw refused = Unit
  Ends raw thrown =
      (i : ℕ) × (c : ℕ) × (cs : Text) × (find crlf_crlf raw ≡ some i)
      × (drop (i + 4) raw ≡ c ∷ cs)
      × (J.parse (c ∷ cs) ≡ out_of_range)
  Ends raw exhausted = ⊥

  Ends-bind {ℓ κ} :
      {A : Type ℓ} {B : Type κ} (raw : Text) (m : Parsed A) (f : A → Parsed B)
      → Answers m
      → ((a : A) → m ≡ ok a → Ends raw (f a))
      → Ends raw (m >>= f)
  Ends-bind raw (ok a) f h k = k a refl
  Ends-bind raw refused f h k = tt
  Ends-bind raw thrown f h k = absurd h
  Ends-bind raw exhausted f h k = absurd h

  Ends-body_of {ℓ} :
      {B : Type ℓ} (raw : Text) (i : ℕ) (body : Text) (f : J.Json → B)
      → find crlf_crlf raw ≡ some i
      → drop (i + 4) raw ≡ body
      → Ends raw (body_of J body >>= λ json. ok (f json))
  Ends-body_of raw i [] f e d = tt
  Ends-body_of {B = B} raw i (c ∷ cs) f e d = on_json (J.parse (c ∷ cs)) refl
    where
      on_json :
          (r : JsonParse J.Json)
          → J.parse (c ∷ cs) ≡ r
          → Ends {A = B} raw (
              (elim r [ json_value json ↦ ok json | parse_error ↦ refused | out_of_range ↦ thrown ])
              >>= λ json. ok (f json))
      on_json (json_value json) q = tt
      on_json parse_error q = tt
      on_json out_of_range q = (i, c, cs, e, d, q)

  Ends-parse_body {ℓ} :
      {B : Type ℓ} (raw : Text) (end_headers : Option ℕ) (f : J.Json → B)
      → find crlf_crlf raw ≡ end_headers
      → Ends raw (parse_body J end_headers raw >>= λ json. ok (f json))
  unfolding parse_body substr
  Ends-parse_body raw none f e = tt
  Ends-parse_body {B = B} raw (some i) f e =
      rw (substr-drop (i + 4) raw (find-bound crlf_crlf raw i e)) (on_text (drop (i + 4) raw) refl)
    where
      on_text :
          (body : Text)
          → drop (i + 4) raw ≡ body
          → Ends {A = B} raw (
              (elim body [
                | [] ↦ ok J.null
                | c ∷ cs ↦ elim (J.parse (c ∷ cs)) [
                  | json_value json ↦ ok json
                  | parse_error ↦ refused
                  | out_of_range ↦ thrown
                ]
              ])
              >>= λ json. ok (f json))
      on_text [] d = tt
      on_text (c ∷ cs) d = Ends-body_of raw i (c ∷ cs) f e d

  Answers-found : (o : Option ℕ) → Answers (require_found o)
  Answers-found none = tt
  Answers-found (some i) = tt

  found_lem : (o : Option ℕ) (i : ℕ) → require_found o ≡ ok i → o ≡ some i
  found_lem none i e = cc
  found_lem (some j) i e = cc

  -- Whatever the bytes are, parsing ends with a request or a refusal, and with an exception only where
  -- a blank line stands in them and the JSON library throws `out_of_range` on what is behind it: no
  -- read is out of range, and no loop runs out of rounds.
  pub parse-Ends : (id raw : Text) → Ends raw (parse J id raw)
  unfolding parse
  parse-Ends id raw = Ends-bind raw (require_found (find crlf raw)) _ (Answers-found _) λ n found.
      let bound : n + 2 ≤ length raw = find-bound crlf raw n (found_lem (find crlf raw) n found) in
      Ends-bind raw (substr 0 (some n) raw) _ (Answers-substr 0 _ raw (omega arith)) λ targets _.
        Ends-bind raw (parse_target targets) _ (Answers-parse_target targets) λ target _.
          Ends-bind raw (substr (n + 2) (find crlf_crlf raw) raw) _ (Answers-substr _ _ raw bound)
            λ headers _.
              Ends-bind raw (parse_headers headers) _ (Answers-parse_headers headers)
                λ fields _. Ends-parse_body raw (find crlf_crlf raw) _ refl
