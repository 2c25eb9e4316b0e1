-- ===== src/Conversion.antt =====
-- The conversions to text of src/common/include/project/common/tostring.h, and `field`, of
-- src/logging/include/project/logging/logging.h.
use https_http_server.Shared.{
  ℕ, ◌≡◌, refl, ap, ◌∙◌, List, [], ◌∷◌, ◌++◌, append_assoc, map, Text, Option, none, some,
}
use https_http_server.Codec.Serialize.{to_decimal}
use https_http_server.Logging.Record.{LogField}

-- The values that the program converts: an enumeration, by its number; a number that is not negative;
-- a text.
pub data Value : Type 0 where
  enumeration number : ℕ → Value
  text : Text → Value

-- `to_string`, and the lambda of `concat`: `fmt` prints a text as it is.
unfoldable pub to_string : Value → Text
unfolding to_decimal
to_string (enumeration n) = to_decimal n
to_string (number n) = to_decimal n
to_string (text t) = t

-- `res.pop_back()`, which is not defined on the empty text: `none`.
unfoldable pub pop_back : Text → Option Text
pop_back [] = none
pop_back (c ∷ []) = some []
pop_back (c ∷ d ∷ s) =
    let rest = pop_back (d ∷ s) in elim rest [ none ↦ none | some t ↦ some (c ∷ t) ]

-- The fold over the arguments.
unfoldable pub append_all : Text → List Value → Text
unfolding to_string
append_all res [] = res
append_all res (v ∷ vs) = append_all (res ++ (to_string v ++ b' ' ∷ [])) vs

-- `concat`
unfoldable pub concat : List Value → Option Text
unfolding append_all pop_back
concat vs = pop_back (append_all [] vs)

-- `field`
unfoldable pub field : Text → Value → LogField
unfolding to_string
field key v = (key, to_string v)

-- The texts of values with a space between each two.
abbrev pub joined : Text → List Text → Text
joined t [] = t
joined t (u ∷ us) = t ++ (b' ' ∷ joined u us)

pop_back-end : (s : Text) (c : ℕ) → pop_back (s ++ c ∷ []) ≡ some s
unfolding pop_back
pop_back-end [] c = refl
pop_back-end (x ∷ []) c = refl
pop_back-end (x ∷ y ∷ s) c = rw (pop_back-end (y ∷ s) c, pop_back) refl

append_all-joined :
    (res : Text) (v : Value) (vs : List Value)
    → append_all res (v ∷ vs) ≡ res ++ (joined (to_string v) (map to_string vs) ++ b' ' ∷ [])
unfolding append_all
append_all-joined res v [] = refl
append_all-joined res v (w ∷ vs) =
    append_all-joined (res ++ (to_string v ++ b' ' ∷ [])) w vs ∙ simp append_assoc

-- `concat` of one value or more is their texts with a space between each two; of none, it is not
-- defined, since `pop_back` is called on an empty text.
pub concat_lem :
    (v : Value) (vs : List Value)
    → (concat (v ∷ vs) ≡ some (joined (to_string v) (map to_string vs))) × (concat [] ≡ none)
unfolding concat append_all pop_back
concat_lem v vs = (
  ap pop_back (append_all-joined [] v vs)
      ∙ pop_back-end (joined (to_string v) (map to_string vs)) b' ',
  refl,
)
