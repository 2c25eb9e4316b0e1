-- ===== src/Codec/Parse.antt =====
-- `HttpCodec::parse`, of src/server/src/http/http_codec.cc. The source keeps the results of `find` in
-- an `int`, where `npos` becomes -1 and compares equal to `npos` again: here they are `Option ℕ`, and
-- `none` is that -1. Positions are below the reception limit of 8192 bytes, so no `int` overflows.
pub mod Search
pub mod Headers
pub mod TargetLine
pub mod Layout
pub mod Whole
pub mod RoundTrip
pub mod Lines
pub mod Total
use mathlib.Core.Option
use https_http_server.Shared.{
  ℕ, zero, suc, ◌+◌, ◌-◌, List, [], ◌∷◌, Text, codes, text_eq, find_byte, find, find_from, Option,
  none, some, Bool, true, false, ◌&&◌, ◌||◌, if◌then◌else◌, ◌==◌, ltb, length, take, drop, is_none,
}
use https_http_server.Message.Method.{Method, to_method}
use https_http_server.Message.Fields.{Fields, assign, has}
use https_http_server.Message.Envelope.{
  JsonLib, JsonParse, json_value, parse_error, out_of_range, Request, default_request,
}

-- A result, `std::nullopt`, an exception that leaves the parser (`std::out_of_range` of `substr`, or
-- nlohmann's `out_of_range`, as the `catch` names `parse_error` alone), or a loop whose fuel ran out.
pub data Parsed {ℓ} (A : Type ℓ) : Type ℓ where
  ok : A → Parsed A
  refused thrown exhausted : Parsed A

infixl 5 ◌>>=◌ ◌>>◌
abbrev pub ◌>>=◌ {ℓ κ} : {A : Type ℓ} {B : Type κ} → Parsed A → (A → Parsed B) → Parsed B
ok a >>= f = f a
refused >>= f = refused
thrown >>= f = thrown
exhausted >>= f = exhausted

abbrev pub ◌>>◌ {ℓ} : {B : Type ℓ} → Parsed (Unit {0}) → Parsed B → Parsed B
m >> k = m >>= λ _. k

-- `return std::nullopt` unless the test holds.
abbrev pub require : Bool → Parsed (Unit {0})
require true = ok tt
require false = refused

abbrev pub require_found : Option ℕ → Parsed ℕ
require_found none = refused
require_found (some i) = ok i

abbrev pub crlf : Text
crlf = 13 ∷ 10 ∷ []

abbrev pub crlf_crlf : Text
crlf_crlf = 13 ∷ 10 ∷ 13 ∷ 10 ∷ []

-- `count` characters, all of them where the count is `npos` or -1.
abbrev pub take? : Option ℕ → Text → Text
take? none s = s
take? (some n) s = take n s

-- `s.substr(pos, count)`
unfoldable pub substr : ℕ → Option ℕ → Text → Parsed Text
substr pos count s = if ltb (length s) pos then thrown else ok (take? count (drop pos s))

-- `s.find(c, pos)`
unfoldable pub find_byte_from : ℕ → ℕ → Text → Option ℕ
unfolding find_byte
find_byte_from c pos s = Option.map (λ i. pos + i) (find_byte c (drop pos s))

-- `i + 1`, where -1 gives 0.
abbrev pub next : Option ℕ → ℕ
next none = 0
next (some i) = i + 1

-- `second - first - 1` as a count: a negative number becomes one beyond every length.
abbrev pub span : Option ℕ → Option ℕ → Option ℕ
span first none = none
span none (some s) = some s
span (some f) (some s) = if ltb f s then some (s - f - 1) else none

abbrev pub is_unknown : Method → Bool
is_unknown Method.unknown = true
is_unknown _ = false

pub record Target : Type 0 where
  pub method : Method
  pub path : Text
  pub version : Text

-- The part `parse target`, on the first line.
unfoldable pub parse_target : Text → Parsed Target
parse_target targets = do
  let first_space = find_byte b' ' targets
  let second_space = find_byte_from b' ' (next first_space) targets
  name ← substr 0 first_space targets
  let method = to_method name
  require (if is_unknown method then false else true)
  path ← substr (next first_space) (span first_space second_space) targets
  version ← substr (next second_space) none targets
  ok (record { method = method; path = path; version = version })

-- `value.find_first_not_of(" \t")`
unfoldable pub first_not_blank : Text → Option ℕ
first_not_blank [] = none
first_not_blank (c ∷ v) =
    if c == b' ' || c == b'\t' then Option.map suc (first_not_blank v) else some 0

-- Blanks before a value are dropped, but a value of blanks alone is kept.
unfoldable pub trim : Text → Text
unfolding first_not_blank
trim v = elim (first_not_blank v) [ none ↦ v | some i ↦ drop i v ]

-- One round of the loop over the header lines, up to the step to the next line: the line stands
-- between `beg` and `end`.
unfoldable pub parse_line : Text → ℕ → ℕ → Fields → Parsed Fields
unfolding find_byte_from substr trim assign
parse_line headers beg end fields = elim (find_byte_from b':' beg headers) [
  | none ↦ ok fields
  | some colon ↦ if ltb end colon then ok fields else do
    key ← substr beg (some (colon - beg)) headers
    value ← substr (colon + 1) (some (end - colon - 1)) headers
    ok (assign key (trim value) fields)
]

-- The loop `while(true)` over the header lines.
unfoldable pub parse_lines : ℕ → Text → ℕ → ℕ → Fields → Parsed Fields
unfolding parse_line find_from find
parse_lines zero headers beg end fields = exhausted
parse_lines (suc fuel) headers beg end fields = do
  fields' ← parse_line headers beg end fields
  let beg' = end + 2
  elim (find_from crlf beg' headers) [
    | none ↦ ok fields'
    | some end' ↦ parse_lines fuel headers beg' end' fields'
  ]

-- The part `parse header`, up to the test for `Host`. Each round passes a line end, so as many rounds
-- as there are bytes are enough.
unfoldable pub parse_headers : Text → Parsed Fields
unfolding parse_lines find has
parse_headers headers = do
  end ← require_found (find crlf headers)
  fields ← parse_lines (length headers) headers 0 end []
  require (has (codes "Host") fields)
  ok fields

module _ (J : JsonLib) where
  -- The part `parse body`; the second text is the rest behind the blank line.
  unfoldable pub parse_body : Option ℕ → Text → Parsed J.Json
  parse_body none raw = ok J.null
  parse_body (some end_headers) raw = do
    body ← substr (end_headers + 4) none raw
    elim body [
      | [] ↦ ok J.null
      | c ∷ cs ↦ elim (J.parse (c ∷ cs)) [
        | json_value json ↦ ok json
        | parse_error ↦ refused
        | out_of_range ↦ thrown
      ]
    ]

  -- `HttpCodec::parse`; `id` is the identifier that `generate_uuid_v4` draws.
  unfoldable pub parse : Text → Text → Parsed (Request J)
  parse id raw = do
    let end_targets? = find crlf raw
    let end_headers = find crlf_crlf raw
    end_targets ← require_found end_targets?
    targets ← substr 0 (some end_targets) raw
    target ← parse_target targets
    headers ← substr (end_targets + 2) end_headers raw
    fields ← parse_headers headers
    body ← parse_body end_headers raw
    ok (record {
      id = id;
      method = target.method;
      path = target.path;
      version = target.version;
      headers = fields;
      body = body;
    })
