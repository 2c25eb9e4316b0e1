-- ===== src/Logging/Syslog/Printed.antt =====
-- What a message prints.
use https_http_server.Shared.{
  ℕ, suc, ◌≤◌, ◌≡◌, refl, sym, ap, ap₂, ◌∙◌, List, [], ◌∷◌, ◌++◌, append_assoc, Text, codes, All,
  and_assoc, Bool, true, not, ◌&&◌, ◌||◌, ◌==◌, length, arith,
}
use https_http_server.Status.LogLevels.{Log, info, warning, error, critical, level_reason}
use https_http_server.Codec.Serialize.{to_decimal}
use https_http_server.Logging.Syslog.{
  formatted, FmtLib, ErrorMessage, Out, stdout, stderr, Console, print, message_format, syslog,
  sys_info, sys_error, sys_crit, sys_warn,
}

-- No brace stands in a text.
abbrev pub is_plain : Text → Bool
is_plain [] = true
is_plain (c ∷ t) = not (c == b'{' || c == b'}') && is_plain t

abbrev pub IsPlain : Text → Type 0
IsPlain t = is_plain t ≡ true

is_plain-append : (t u : Text) → is_plain (t ++ u) ≡ (is_plain t && is_plain u)
is_plain-append [] u = refl
is_plain-append (c ∷ t) u =
    ap (λ b. not (c == b'{' || c == b'}') && b) (is_plain-append t u)
    ∙ sym (and_assoc (not (c == b'{' || c == b'}')) (is_plain t) (is_plain u))

append-IsPlain : (t u : Text) → IsPlain t → IsPlain u → IsPlain (t ++ u)
append-IsPlain t u h k = is_plain-append t u ∙ ap₂ (λ a b. a && b) h k

-- The format with a field `{}` between each two of its parts.
abbrev pub format_of : Text → List Text → Text
format_of t [] = t
format_of t (u ∷ us) = t ++ (codes "{}" ++ format_of u us)

-- The parts with an argument between each two of them.
abbrev pub fill : Text → List Text → List Text → Text
fill t [] args = t
fill t (u ∷ us) [] = t
fill t (u ∷ us) (a ∷ args) = t ++ (a ++ fill u us args)

-- What `fmt` says of such a format: each field `{}` stands for the next argument, and there may be
-- more arguments.
abbrev pub FillsFields : FmtLib → Type 0
FillsFields F =
    (t : Text) (us args : List Text)
    → IsPlain t
    → All IsPlain us
    → length us ≤ length args
    → F.vformat (format_of t us) args ≡ formatted (fill t us args)

-- A text behind the last part.
abbrev first_closed : Text → List Text → Text → Text
first_closed t [] e = t ++ e
first_closed t (u ∷ us) e = t

abbrev others_closed : List Text → Text → List Text
others_closed [] e = []
others_closed (u ∷ us) e = first_closed u us e ∷ others_closed us e

format_of_closed :
    (t : Text) (us : List Text) (e : Text)
    → format_of (first_closed t us e) (others_closed us e) ≡ format_of t us ++ e
format_of_closed t [] e = refl
format_of_closed t (u ∷ us) e =
    ap (λ r. t ++ (codes "{}" ++ r)) (format_of_closed u us e)
    ∙ sym (append_assoc t (codes "{}" ++ format_of u us) e)

fill_closed :
    (t : Text) (us args : List Text) (e : Text)
    → length us ≤ length args
    → fill (first_closed t us e) (others_closed us e) args ≡ fill t us args ++ e
fill_closed t [] args e h = refl
fill_closed t (u ∷ us) [] e h = absurd (omega arith)
fill_closed t (u ∷ us) (a ∷ args) e h =
    ap (λ r. t ++ (a ++ r)) (fill_closed u us args e (omega arith)) ∙ sym (simp append_assoc)

closed-IsPlain :
    (t : Text) (us : List Text) (e : Text)
    → IsPlain t
    → All IsPlain us
    → IsPlain e
    → IsPlain (first_closed t us e) × All IsPlain (others_closed us e)
closed-IsPlain t [] e ht hs he = (append-IsPlain t e ht he, tt)
closed-IsPlain t (u ∷ us) e ht hs he = (ht, closed-IsPlain u us e hs.0 hs.1 he)

length-closed : (us : List Text) (e : Text) → length (others_closed us e) ≡ length us
length-closed [] e = refl
length-closed (u ∷ us) e = ap suc (length-closed us e)

abbrev pub message_of : Text → List Text → Text → ℕ → ℕ → ErrorMessage
message_of t us file line column = record {
  format = format_of t us;
  file = file;
  line = line;
  column = column;
}

-- A message, with its level, its place and its arguments.
abbrev pub printed : Log → Text → ℕ → ℕ → Text → Text
printed level file line column message =
    codes "["
    ++ (level_reason level
        ++ (codes "_SYSLOG] "
            ++ (file
                ++ (codes ":("
                    ++ (to_decimal line
                        ++ (codes ":"
                            ++ (to_decimal column ++ (codes ") " ++ (message ++ codes "\n")))))))))

abbrev message_head : Log → Text
message_head level = codes "[" ++ (level_reason level ++ codes "_SYSLOG] ")

message_head-IsPlain : (level : Log) → IsPlain (message_head level)
unfolding level_reason
message_head-IsPlain Log.unknown = refl
message_head-IsPlain Log.trace = refl
message_head-IsPlain Log.debug = refl
message_head-IsPlain info = refl
message_head-IsPlain warning = refl
message_head-IsPlain error = refl
message_head-IsPlain critical = refl

format_of-append : (x t : Text) (us : List Text) → format_of (x ++ t) us ≡ x ++ format_of t us
format_of-append x t [] = refl
format_of-append x t (u ∷ us) = append_assoc x t (codes "{}" ++ format_of u us)

fill-append : (x t : Text) (us args : List Text) → fill (x ++ t) us args ≡ x ++ fill t us args
fill-append x t [] args = refl
fill-append x t (u ∷ us) [] = refl
fill-append x t (u ∷ us) (a ∷ args) = append_assoc x t (a ++ fill u us args)

message_format-format_of :
    (level : Log) (t : Text) (us : List Text)
    → message_format level (format_of t us)
      ≡ format_of (message_head level) (codes ":(" ∷ codes ":" ∷ (codes ") " ++ t) ∷ us)
        ++ codes "\n"
unfolding message_format
message_format-format_of level t us = sym (
    ap (λ r. message_head level ++ (codes "{}:({}:{}" ++ r) ++ codes "\n")
      (format_of-append (codes ") ") t us)
    ∙ simp append_assoc)

fill-printed :
    (level : Log) (t : Text) (us args : List Text) (file : Text) (line column : ℕ)
    → fill
          (message_head level)
          (codes ":(" ∷ codes ":" ∷ (codes ") " ++ t) ∷ us)
          (file ∷ to_decimal line ∷ to_decimal column ∷ args)
        ++ codes "\n"
      ≡ printed level file line column (fill t us args)
fill-printed level t us args file line column =
    ap
      (λ r.
        (message_head level
          ++ (file ++ (codes ":(" ++ (to_decimal line ++ (codes ":" ++ (to_decimal column ++ r))))))
        ++ codes "\n")
      (fill-append (codes ") ") t us args)
    ∙ simp append_assoc

module _ (F : FmtLib) (follows : FillsFields F) where
  vformat-closed :
      (t : Text) (us args : List Text) (e : Text)
      → IsPlain t
      → All IsPlain us
      → IsPlain e
      → length us ≤ length args
      → F.vformat (format_of t us ++ e) args ≡ formatted (fill t us args ++ e)
  vformat-closed t us args e ht hs he enough =
      let (first, others) = closed-IsPlain t us e ht hs he in
      ap (λ f. F.vformat f args) (sym (format_of_closed t us e))
      ∙ (follows (first_closed t us e) (others_closed us e) args first others
            (omega (arith, length-closed us e, enough))
          ∙ ap formatted (fill_closed t us args e enough))

  syslog-format_of :
      (out : Out) (level : Log) (t : Text) (us args : List Text) (file : Text) (line column : ℕ)
      (s : Console)
      → IsPlain t
      → All IsPlain us
      → length us ≤ length args
      → syslog F out level (message_of t us file line column) args s
        ≡ print out (printed level file line column (fill t us args)) s
  unfolding syslog
  syslog-format_of out level t us args file line column s ht hs enough =
      let all = file ∷ to_decimal line ∷ to_decimal column ∷ args in
      let e =
        ap (λ f. F.vformat f all) (message_format-format_of level t us)
        ∙ (vformat-closed (message_head level) (codes ":(" ∷ codes ":" ∷ (codes ") " ++ t) ∷ us) all
              (codes "\n") (message_head-IsPlain level)
              (refl, (refl, (append-IsPlain (codes ") ") t refl ht, hs))) refl (omega arith)
            ∙ ap formatted (fill-printed level t us args file line column)) in
      rw (e, syslog) refl

  -- A message whose format has no brace but those of its fields `{}`, which are no more than its
  -- arguments, is printed with its level, the place of the call and its arguments in the places of the
  -- fields: by `sys_info` and `sys_warn` on the standard output, and by `sys_error` and `sys_crit` on
  -- the standard error, where `fmt` fills the fields of such a format with the arguments in their order.
  pub sys-printed :
      (t : Text) (us args : List Text) (file : Text) (line column : ℕ) (s : Console)
      → IsPlain t
      → All IsPlain us
      → length us ≤ length args
      → (sys_info F (message_of t us file line column) args s
          ≡ print stdout (printed info file line column (fill t us args)) s)
        × (sys_warn F (message_of t us file line column) args s
            ≡ print stdout (printed warning file line column (fill t us args)) s)
        × (sys_error F (message_of t us file line column) args s
            ≡ print stderr (printed error file line column (fill t us args)) s)
        × (sys_crit F (message_of t us file line column) args s
            ≡ print stderr (printed critical file line column (fill t us args)) s)
  unfolding sys_info sys_warn sys_error sys_crit
  sys-printed t us args file line column s ht hs enough = (
    syslog-format_of stdout info t us args file line column s ht hs enough,
    syslog-format_of stdout warning t us args file line column s ht hs enough,
    syslog-format_of stderr error t us args file line column s ht hs enough,
    syslog-format_of stderr critical t us args file line column s ht hs enough,
  )
