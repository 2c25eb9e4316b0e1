-- ===== src/Codec/Parse/RoundTrip.antt =====
-- A request that a client prints is read back.
use https_http_server.Shared.{
  ℕ, ◌+◌, ◌-◌, ◌≤◌, ◌≡◌, ◌≢◌, refl, sym, ap, ◌∙◌, [], ◌∷◌, ◌++◌, map, Text, codes, find_byte, none,
  some, true, false, length, take, drop, All, arith, append_assoc, length-append, append-nil,
  take-append, drop-append,
}
use https_http_server.Message.Method.{Method, method_name, to_method-method_name}
use https_http_server.Message.Fields.{Fields, lookup, assign, has}
use https_http_server.Message.Envelope.{JsonLib}
use https_http_server.Codec.Parse.{ok, trim, first_not_blank, is_unknown, parse}
use https_http_server.Codec.Parse.Search.{IsLine, find_byte-append_none}
use https_http_server.Codec.Parse.Headers.{read_line, read_lines}
use https_http_server.Codec.Parse.TargetLine.{HasNoSpace, target_line, parse_target_lem}
use https_http_server.Codec.Parse.Layout.{IsHeader, raw_request}
use https_http_server.Codec.Parse.Whole.{body_of, parse_body_apart}

-- The line of a field.
abbrev pub header_line : Text × Text → Text
header_line (k, v) = k ++ b':' ∷ b' ' ∷ v

-- A field that one line can carry: its name has no colon, its value begins with a character that is
-- not blank, and neither holds a line end.
abbrev pub IsField : Text × Text → Type 0
IsField (k, v) =
    (find_byte b':' k ≡ none) × (first_not_blank v ≡ some 0) × IsLine (header_line (k, v))

-- No field of the list stands in `acc` or earlier in the list.
abbrev pub AreFresh : Fields → Fields → Type 0
AreFresh acc [] = Unit
AreFresh acc ((k, v) ∷ fs) = (lookup k acc ≡ none) × AreFresh (acc ++ (k, v) ∷ []) fs

-- What a client sends.
abbrev pub print_request : Method → Text → Text → Fields → Text → Text
print_request m path version fs body =
    raw_request (target_line (method_name m) path version) (map header_line fs) body

assign-fresh : (k v : Text) (m : Fields) → lookup k m ≡ none → assign k v m ≡ m ++ (k, v) ∷ []
unfolding lookup assign
assign-fresh k v [] h = refl
assign-fresh k v ((j, w) ∷ m) h = ground (arith, assign-fresh k v m)

trim-space : (v : Text) → first_not_blank v ≡ some 0 → trim (b' ' ∷ v) ≡ v
unfolding trim
trim-space v h = rw (h, trim)

find_colon :
    (k v : Text) → find_byte b':' k ≡ none → find_byte b':' (k ++ b':' ∷ v) ≡ some (length k)
unfolding find_byte
find_colon k v h = rw (find_byte-append_none b':' k (b':' ∷ v) h) (ground arith)

drop-append_one : (k v : Text) (c : ℕ) → drop (length k + 1) (k ++ c ∷ v) ≡ v
drop-append_one k v c =
    ap (λ n. drop n (k ++ c ∷ v)) (omega (arith, length-append {0} k (c ∷ [])))
    ∙ (ap (drop (length (k ++ c ∷ []))) (simp append_assoc) ∙ drop-append (k ++ c ∷ []) v)

read_line-field :
    (acc : Fields) (k v : Text)
    → IsField (k, v)
    → lookup k acc ≡ none
    → read_line acc (header_line (k, v)) ≡ acc ++ (k, v) ∷ []
unfolding read_line
read_line-field acc k v f fresh =
    rw
      (
        find_colon k (b' ' ∷ v) f.0,
        read_line,
        take-append k (b':' ∷ b' ' ∷ v),
        drop-append_one k (b' ' ∷ v) b':',
        trim-space v f.1,
      )
      (assign-fresh k v acc fresh)

pub read_lines-fields :
    (acc fs : Fields)
    → All IsField fs
    → AreFresh acc fs
    → read_lines acc (map header_line fs) ≡ acc ++ fs
unfolding read_lines
read_lines-fields acc [] h fresh = sym (append-nil acc)
read_lines-fields acc ((k, v) ∷ fs) h fresh =
    ap (λ a. read_lines a (map header_line fs)) (read_line-field acc k v h.0 fresh.0)
    ∙ (read_lines-fields (acc ++ (k, v) ∷ []) fs h.1 fresh.1 ∙ simp append_assoc)

header_line-ne-nil : (k v : Text) → header_line (k, v) ≢ []
header_line-ne-nil [] v e = cc
header_line-ne-nil (c ∷ k) v e = cc

pub All-IsHeader : (fs : Fields) → All IsField fs → All IsHeader (map header_line fs)
All-IsHeader [] h = tt
All-IsHeader ((k, v) ∷ fs) h = ((header_line-ne-nil k v, h.0.2), All-IsHeader fs h.1)

method_name-HasNoSpace : (m : Method) → HasNoSpace (method_name m)
unfolding method_name find_byte
method_name-HasNoSpace Method.get = refl
method_name-HasNoSpace _ = refl

known : (m : Method) → m ≢ Method.unknown → is_unknown m ≡ false
known Method.get h = refl
known Method.unknown h = absurd (h refl)
known _ h = refl

length-target_line : (m p v : Text) → 2 ≤ length (target_line m p v)
length-target_line m p v =
    omega (arith, length-append {0} m (b' ' ∷ (p ++ b' ' ∷ v)), length-append {0} p (b' ' ∷ v))

module _ (J : JsonLib) where
  -- Printing a request and reading it gives its method, path, version, fields and body back. The
  -- method is not the unknown one; the path has no space; no line holds a line end; the fields are
  -- such that a line can carry them, differ in more than case, and name the host; the JSON library
  -- reads the body (an empty body gives its default value); and the body has no line end in its
  -- first bytes, as many as the first line has but two.
  pub parse-print_request :
      (id : Text) (m : Method) (path version : Text) (fs : Fields) (body : Text) (json : J.Json)
      → m ≢ Method.unknown
      → HasNoSpace path
      → IsLine (target_line (method_name m) path version)
      → All IsField fs
      → AreFresh [] fs
      → has (codes "Host") fs ≡ true
      → body_of J body ≡ ok json
      → IsLine (take (length (target_line (method_name m) path version) - 2) body)
      → parse J id (print_request m path version fs body)
        ≡ ok (record {
          id = id;
          method = m;
          path = path;
          version = version;
          headers = fs;
          body = json;
        })
  parse-print_request id m path version fs body json hm hp ht hf fresh host hb spill =
      parse_body_apart J id (target_line (method_name m) path version) (map header_line fs) body ht
        (length-target_line (method_name m) path version) (All-IsHeader fs hf) spill
      ∙ rw (
        parse_target_lem (method_name m) path version (method_name-HasNoSpace m) hp,
        to_method-method_name m,
        known m hm,
        read_lines-fields [] fs hf fresh,
        host,
        hb,
      )
