-- ===== src/Codec/Parse/Whole.antt =====
-- `HttpCodec::parse` on a request of the usual shape, and where the body leaks into the header
-- fields.
use mathlib.Core.Path.{fun_ext}
use https_http_server.Shared.{
  Bool-cases, inl, inr, ◌-◌, ◌≤◌, ◌≡◌, refl, ap, ◌∙◌, List, [], ◌∷◌, ◌++◌, Text, codes, find,
  if◌then◌else◌, length, take, All, arith,
}
use https_http_server.Message.Fields.{Fields, has}
use https_http_server.Message.Envelope.{JsonLib, json_value, parse_error, out_of_range}
use https_http_server.Codec.Parse.{
  crlf, Parsed, ok, refused, thrown, ◌>>=◌, ◌>>◌, require, parse_target, parse_headers, parse_body,
  parse,
}
use https_http_server.Codec.Parse.Search.{IsLine, find-line}
use https_http_server.Codec.Parse.Headers.{read_lines, unlines, parse_headers_lem}
use https_http_server.Codec.Parse.Layout.{
  IsHeader, raw_request, find-head, headers_view, target-substr, body-substr, fields_of,
  read_lines-blank,
}

unlines-blank :
    (ls ms : List Text) (tail : Text)
    → unlines ls (crlf ++ unlines ms tail) ≡ unlines (ls ++ [] ∷ ms) tail
unlines-blank [] ms tail = refl
unlines-blank (l ∷ ls) ms tail = ap (λ r. l ++ (crlf ++ r)) (unlines-blank ls ms tail)

All-IsLine : (ls ms : List Text) → All IsHeader ls → All IsLine ms → All IsLine (ls ++ [] ∷ ms)
unfolding find
All-IsLine [] ms hs ks = (refl, ks)
All-IsLine (l ∷ ls) ms hs ks = (hs.0.1, All-IsLine ls ms hs.1 ks)

abbrev accept : Fields → Parsed Fields
accept fields = if has (codes "Host") fields then ok fields else refused

accept-bind {ℓ} :
    {B : Type ℓ} (fields : Fields) (k : Fields → Parsed B)
    → (accept fields >>= k) ≡ (require (has (codes "Host") fields) >> k fields)
accept-bind fields k = elim (Bool-cases (has (codes "Host") fields)) [ inl e ↦ rw e | inr e ↦ rw e ]

parse_headers-view :
    (ls ms : List Text) (tail : Text)
    → All IsHeader ls
    → All IsLine ms
    → IsLine tail
    → parse_headers (unlines ls (crlf ++ unlines ms tail)) ≡ accept (fields_of ls ms)
parse_headers-view ls ms tail hs ks h =
    ap parse_headers (unlines-blank ls ms tail)
    ∙ (by_cases ls (All-IsLine ls ms hs ks) ∙ ap accept (read_lines-blank ls ms))
  where
    by_cases :
        (ls' : List Text)
        → All IsLine (ls' ++ [] ∷ ms)
        → parse_headers (unlines (ls' ++ [] ∷ ms) tail) ≡ accept (read_lines [] (ls' ++ [] ∷ ms))
    by_cases [] g = parse_headers_lem [] ms tail g h
    by_cases (l ∷ ls'') g = parse_headers_lem l (ls'' ++ [] ∷ ms) tail g h

take-crlf :
    (target body : Text)
    → 2 ≤ length target
    → take (length target) (crlf ++ body) ≡ crlf ++ take (length target - 2) body
take-crlf [] body h = absurd (omega arith)
take-crlf (c ∷ []) body h = absurd (omega arith)
take-crlf (c ∷ d ∷ t) body h = ap (λ n. crlf ++ take n body) (omega arith)

module _ (J : JsonLib) where
  -- The body of a request: the default value for none, else what the JSON library makes of it; only its
  -- `parse_error` is caught.
  abbrev pub body_of : Text → Parsed J.Json
  body_of [] = ok J.null
  body_of (c ∷ cs) = elim (J.parse (c ∷ cs)) [
    | json_value json ↦ ok json
    | parse_error ↦ refused
    | out_of_range ↦ thrown
  ]

  -- A request of a first line, header lines, a blank line and a body is refused where its first line is,
  -- where no field names the host, or where the JSON library refuses its body; parsing it throws where
  -- all but the body can be read and the body has a number out of range; and else it is read with the
  -- method, path and version of its first line, the fields of its header lines and its body. But
  -- the lines that stand in the first bytes of the body, as many bytes as the first line has but
  -- two, are read as header lines too. The first line has two or more bytes, no header line is
  -- empty, and no line holds a line end.
  pub parse_lem :
      (id target : Text) (ls ms : List Text) (body tail : Text)
      → IsLine target
      → 2 ≤ length target
      → All IsHeader ls
      → take (length target - 2) body ≡ unlines ms tail
      → All IsLine ms
      → IsLine tail
      → parse J id (raw_request target ls body) ≡ (do
        first ← parse_target target
        require (has (codes "Host") (fields_of ls ms))
        json ← body_of body
        ok (record {
          id = id;
          method = first.method;
          path = first.path;
          version = first.version;
          headers = fields_of ls ms;
          body = json;
        }))
  unfolding parse parse_body
  parse_lem id target ls ms body tail ht h2 hs spill ks hk =
      rw
        (
          find-line target (unlines ls (crlf ++ body)) ht,
          find-head target ls body ht hs,
          target-substr target ls body,
          headers_view target ls body,
          take-crlf target body h2,
          spill,
          parse_headers-view ls ms tail hs ks hk,
          body-substr target ls body,
        )
        (ap (λ k. parse_target target >>= k) (fun_ext (λ first. accept-bind (fields_of ls ms) _)))

  -- If the first bytes of the body, as many as the first line has but two, hold no line end, the
  -- fields are those of the header lines alone.
  pub parse_body_apart :
      (id target : Text) (ls : List Text) (body : Text)
      → IsLine target
      → 2 ≤ length target
      → All IsHeader ls
      → IsLine (take (length target - 2) body)
      → parse J id (raw_request target ls body) ≡ (do
        first ← parse_target target
        require (has (codes "Host") (read_lines [] ls))
        json ← body_of body
        ok (record {
          id = id;
          method = first.method;
          path = first.path;
          version = first.version;
          headers = read_lines [] ls;
          body = json;
        }))
  unfolding read_lines
  parse_body_apart id target ls body ht h2 hs hb =
      parse_lem id target ls [] body (take (length target - 2) body) ht h2 hs refl tt hb
