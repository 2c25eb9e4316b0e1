-- ===== src/Codec/Parse/TargetLine.antt =====
-- The first line of a request: what its method, path and version are.
use mathlib.Core.Option
use https_http_server.Shared.{
  ℕ, ◌+◌, ◌≡◌, refl, ap, ◌∙◌, [], ◌∷◌, ◌++◌, Text, find_byte, none, some, if◌then◌else◌, length,
  arith, append_assoc, length-append,
}
use https_http_server.Message.Method.{to_method}
use https_http_server.Codec.Parse.{
  find_byte_from, ok, refused, substr, span, is_unknown, parse_target,
}
use https_http_server.Codec.Parse.Search.{
  substr-append, find_byte-append_none, find_byte_from-append,
}
use https_http_server.Codec.Parse.Headers.{take_exactly}

abbrev pub HasNoSpace : Text → Type 0
HasNoSpace s = find_byte b' ' s ≡ none

-- The space behind a text with none.
find_space : (s r : Text) → HasNoSpace s → find_byte b' ' (s ++ b' ' ∷ r) ≡ some (length s)
unfolding find_byte
find_space s r h = rw (find_byte-append_none b' ' s (b' ' ∷ r) h, find_byte) (ground arith)

span_lem : (a b : ℕ) → span (some a) (some (a + 1 + b)) ≡ some b
span_lem a b = ground arith

module _ (m p v : Text) where
  abbrev pub target_line : Text
  target_line = m ++ b' ' ∷ (p ++ b' ' ∷ v)

  name-substr : substr 0 (some (length m)) target_line ≡ ok m
  name-substr =
      substr-append [] target_line 0 (some (length m)) refl
      ∙ ap ok (take_exactly (length m) m (b' ' ∷ (p ++ b' ' ∷ v)) refl)

  behind_name : target_line ≡ (m ++ b' ' ∷ []) ++ (p ++ b' ' ∷ v)
  behind_name = simp append_assoc

  length-name : length m + 1 ≡ length (m ++ b' ' ∷ [])
  length-name = omega (arith, length-append {0} m (b' ' ∷ []))

  second :
      HasNoSpace p → find_byte_from b' ' (length m + 1) target_line ≡ some (length m + 1 + length p)
  second h =
      rw (behind_name, length-name)
        (find_byte_from-append b' ' (m ++ b' ' ∷ []) (p ++ b' ' ∷ v)
          ∙ ap (Option.map (λ i. length (m ++ b' ' ∷ []) + i)) (find_space p v h))

  path-substr : substr (length m + 1) (some (length p)) target_line ≡ ok p
  path-substr = rw (behind_name) (
      substr-append (m ++ b' ' ∷ []) (p ++ b' ' ∷ v) (length m + 1) (some (length p)) length-name
      ∙ ap ok (take_exactly (length p) p (b' ' ∷ v) refl))

  behind_path : target_line ≡ (m ++ (b' ' ∷ (p ++ b' ' ∷ []))) ++ v
  behind_path = simp append_assoc

  version-substr : substr (length m + 1 + length p + 1) none target_line ≡ ok v
  version-substr = rw (behind_path) (
      substr-append (m ++ (b' ' ∷ (p ++ b' ' ∷ []))) v (length m + 1 + length p + 1) none (
        omega
          (arith, length-append {0} m (b' ' ∷ (p ++ b' ' ∷ [])), length-append {0} p (b' ' ∷ []))))

  -- A line of a method, a path and a version, with one space between them and no other before the
  -- version, is read as those three; it is refused exactly if the method is unknown.
  pub parse_target_lem :
      HasNoSpace m
      → HasNoSpace p
      → parse_target target_line ≡ (
          if is_unknown (to_method m)
          then refused
          else ok (record { method = to_method m; path = p; version = v }))
  unfolding parse_target
  parse_target_lem hm hp =
      rw
        (
          find_space m (p ++ b' ' ∷ v) hm,
          name-substr,
          second hp,
          span_lem (length m) (length p),
          path-substr,
          version-substr,
        )
        (ground arith)

-- A line with one space only is refused if what stands before the space is no known method;
-- otherwise the path is what follows the space, and the version is the whole line.
pub parse_target_no_version :
    (m p : Text)
    → HasNoSpace m
    → HasNoSpace p
    → parse_target (m ++ b' ' ∷ p) ≡ (
        if is_unknown (to_method m)
        then refused
        else ok (record { method = to_method m; path = p; version = m ++ b' ' ∷ p }))
unfolding parse_target
parse_target_no_version m p hm hp =
    rw (find_space m p hm, name, second_none, path, version) (ground arith)
  where
    line : Text
    line = m ++ b' ' ∷ p

    behind : line ≡ (m ++ b' ' ∷ []) ++ p
    behind = simp append_assoc

    bound : length m + 1 ≡ length (m ++ b' ' ∷ [])
    bound = omega (arith, length-append {0} m (b' ' ∷ []))

    name : substr 0 (some (length m)) line ≡ ok m
    name =
        substr-append [] line 0 (some (length m)) refl
        ∙ ap ok (take_exactly (length m) m (b' ' ∷ p) refl)

    second_none : find_byte_from b' ' (length m + 1) line ≡ none
    second_none =
        rw (behind, bound)
          (find_byte_from-append b' ' (m ++ b' ' ∷ []) p
            ∙ ap (Option.map (λ i. length (m ++ b' ' ∷ []) + i)) hp)

    path : substr (length m + 1) none line ≡ ok p
    path = rw behind (substr-append (m ++ b' ' ∷ []) p (length m + 1) none bound)

    version : substr 0 none line ≡ ok line
    version = substr-append [] line 0 none refl
