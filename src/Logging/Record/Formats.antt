-- ===== src/Logging/Record/Formats.antt =====
-- What the formats print, and what they leave out.
use https_http_server.Shared.{
  ℕ, ◌≡◌, refl, sym, ap, ◌∙◌, List, [], ◌∷◌, ◌++◌, append_assoc, Text, codes, append-nil,
}
use https_http_server.Message.Envelope.{JsonLib}
use https_http_server.Logging.Record.{
  LogField, LogInfo, pop_back, print_details, console_head, console_format, json_format,
}

-- The details, each behind a line feed.
abbrev pub detail_lines : List LogField → Text
detail_lines [] = []
detail_lines ((k, v) ∷ fs) =
    codes "\n\t- " ++ (k ++ (codes ": \"" ++ (v ++ (codes "\"" ++ detail_lines fs))))

pop_back_last : (s : Text) (c : ℕ) → pop_back (s ++ c ∷ []) ≡ s
unfolding pop_back
pop_back_last [] c = refl
pop_back_last (x ∷ []) c = refl
pop_back_last (x ∷ y ∷ s) c = ap (λ t. x ∷ t) (pop_back_last (y ∷ s) c)

feed-print_details : (ds : List LogField) → 10 ∷ print_details ds ≡ detail_lines ds ++ 10 ∷ []
unfolding print_details
feed-print_details [] = refl
feed-print_details ((k, v) ∷ ds) =
    ap (λ t. codes "\n\t- " ++ (k ++ (codes ": \"" ++ (v ++ b'"' ∷ t)))) (feed-print_details ds)
    ∙ sym (simp append_assoc)

-- What stands behind the first line.
abbrev pub details_part : List LogField → Text
details_part [] = []
details_part (d ∷ ds) = codes " details:" ++ detail_lines (d ∷ ds)

console_of :
    (i : LogInfo) (ds : List LogField)
    → i.details ≡ ds
    → console_format i ≡ console_head i ++ details_part ds
unfolding console_format
console_of i [] e = rw (e, console_format) (sym (append-nil (console_head i)))
console_of i (d ∷ ds) e =
    rw (e, console_format)
      (ap pop_back (
          append_assoc (console_head i) (codes " details:\n") (print_details (d ∷ ds))
          ∙ (ap (λ t. console_head i ++ (codes " details:" ++ t)) (feed-print_details (d ∷ ds))
              ∙ sym (append_assoc (console_head i) (details_part (d ∷ ds)) (10 ∷ []))))
        ∙ pop_back_last (console_head i ++ details_part (d ∷ ds)) 10)

-- A record is printed on the console as its first line, and each of its details on a line of its own
-- behind that; no line feed stands at the end.
pub console_format_lem : (i : LogInfo) → console_format i ≡ console_head i ++ details_part i.details
console_format_lem i = console_of i i.details refl

-- The JSON form of a record does not depend on its message: a record is logged without it.
pub json_format_info :
    (J : JsonLib) (i : LogInfo) (info : Text)
    → json_format J (record i { info = info }) ≡ json_format J i
unfolding json_format
json_format_info J i info = refl
