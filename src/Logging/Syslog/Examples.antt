-- ===== src/Logging/Syslog/Examples.antt =====
-- An instance of the theorem on the messages of the logging system, with a formatter that knows the
-- field `{}` alone.
use https_http_server.Shared.{
  append_assoc, append-nil, sym, ℕ, ◌≡◌, refl, ap, ◌∙◌, List, [], ◌∷◌, ◌++◌, Text, codes, Bool,
  true, false, not, ◌&&◌, ◌||◌, ◌==◌, arith, if◌then◌else◌,
}
use https_http_server.Status.LogLevels.{info, warning, error, critical, level_reason}
use https_http_server.Codec.Serialize.{to_decimal}
use https_http_server.Logging.Syslog.{
  Formatted, formatted, thrown, FmtLib, stdout, stderr, Console, print, syslog, message_format,
  sys_info, sys_warn, sys_error, sys_crit,
}
use https_http_server.Logging.Syslog.Printed.{
  is_plain, IsPlain, format_of, FillsFields, message_of, printed, sys-printed,
}

abbrev prefix : Text → Formatted → Formatted
prefix x (formatted t) = formatted (x ++ t)
prefix x (thrown what) = thrown what

abbrev is_field : ℕ → ℕ → Bool
is_field c d = c == b'{' && d == b'}'

unfoldable fields : Text → List Text → Formatted
fields [] args = formatted []
fields (c ∷ []) args = formatted (c ∷ [])
fields (c ∷ d ∷ s) [] =
    let rest = fields (d ∷ s) [] in
    if is_field c d then thrown (codes "argument not found") else prefix (c ∷ []) rest
fields (c ∷ d ∷ s) (a ∷ args) =
    let rest = fields (d ∷ s) (a ∷ args) in
    let behind = fields s args in if is_field c d then prefix a behind else prefix (c ∷ []) rest

abbrev simple_fmt : FmtLib
simple_fmt = record { vformat = fields }

fields_cons :
    (c : ℕ) (x : Text) (args : List Text)
    → (c == b'{') ≡ false
    → fields (c ∷ x) args ≡ prefix (c ∷ []) (fields x args)
unfolding fields
fields_cons c [] args h = refl
fields_cons c (d ∷ s) [] h = rw (h, fields) refl
fields_cons c (d ∷ s) (a ∷ args) h = rw (h, fields) refl

prefix-append : (x y : Text) (f : Formatted) → prefix x (prefix y f) ≡ prefix (x ++ y) f
prefix-append x y (formatted t) = ap formatted (sym (append_assoc x y t))
prefix-append x y (thrown what) = refl

prefix_nil : (f : Formatted) → f ≡ prefix [] f
prefix_nil (formatted t) = refl
prefix_nil (thrown what) = refl

not_open : (c : ℕ) (b : Bool) → (not (c == b'{' || c == b'}') && b) ≡ true → (c == b'{') ≡ false
not_open c b h = ground arith

rest_plain : (c : ℕ) (b : Bool) → (not (c == b'{' || c == b'}') && b) ≡ true → b ≡ true
rest_plain c b h = ground arith

fields-plain :
    (t r : Text) (args : List Text) → IsPlain t → fields (t ++ r) args ≡ prefix t (fields r args)
fields-plain [] r args h = prefix_nil (fields r args)
fields-plain (c ∷ t) r args h =
    fields_cons c (t ++ r) args (not_open c (is_plain t) h)
    ∙ (ap (prefix (c ∷ [])) (fields-plain t r args (rest_plain c (is_plain t) h))
        ∙ prefix-append (c ∷ []) t (fields r args))

fields-FillsFields : FillsFields simple_fmt
unfolding fields
fields-FillsFields t [] args ht hs enough =
    ap (λ x. fields x args) (sym (append-nil t))
    ∙ (fields-plain t [] args ht ∙ ap formatted (append-nil t))
fields-FillsFields t (u ∷ us) [] ht hs enough = absurd (omega arith)
fields-FillsFields t (u ∷ us) (a ∷ args) ht hs enough =
    fields-plain t (codes "{}" ++ format_of u us) (a ∷ args) ht
    ∙ (ap (λ f. prefix t (prefix a f)) (fields-FillsFields u us args hs.0 hs.1 (omega arith))
        ∙ refl)

abbrev silent : Console
silent = record { output = []; errors = [] }

-- The message of a sink whose file cannot be written.
abbrev text : Text
text = codes "Error writing to log file: "

abbrev there : Text
there = codes "logging.cc"

sys-printed_example :
    (sys_info simple_fmt (message_of text ([] ∷ []) there 163 52) (codes "full" ∷ []) silent
      ≡ print stdout (printed info there 163 52 (text ++ codes "full")) silent)
    × (sys_warn simple_fmt (message_of text ([] ∷ []) there 163 52) (codes "full" ∷ []) silent
        ≡ print stdout (printed warning there 163 52 (text ++ codes "full")) silent)
    × (sys_error simple_fmt (message_of text ([] ∷ []) there 163 52) (codes "full" ∷ []) silent
        ≡ print stderr (printed error there 163 52 (text ++ codes "full")) silent)
    × (sys_crit simple_fmt (message_of text ([] ∷ []) there 163 52) (codes "full" ∷ []) silent
        ≡ print stderr (printed critical there 163 52 (text ++ codes "full")) silent)
sys-printed_example =
    sys-printed simple_fmt fields-FillsFields text ([] ∷ []) (codes "full" ∷ []) there 163 52 silent
      refl (refl, tt) (omega arith)

-- The message of an exception as a format: its text is lost where it has a field.
exception_lost :
    sys_error simple_fmt
      (message_of (codes "Failed to open `/") (codes "`" ∷ []) there 151 9)
      []
      silent
    ≡ print stderr (codes "argument not found\n") silent
unfolding sys_error syslog fields message_format level_reason to_decimal
exception_lost = refl
