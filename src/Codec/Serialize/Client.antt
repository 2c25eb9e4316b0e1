-- ===== src/Codec/Serialize/Client.antt =====
-- A serialised response is read back by a client.
use mathlib.Core.Option
use https_http_server.Shared.{
  ℕ, zero, suc, ◌+◌, ◌-◌, ◌/◌, ◌%◌, ◌≤◌, ◌<◌, ◌≡◌, refl, ap, ◌∙◌, List, [], ◌∷◌, ◌++◌, map, Text,
  codes, find, find_byte, starts_with, none, some, All, length, take, arith, append_assoc,
  length-append, Bool-cases, inl, inr, ltb,
}
use https_http_server.Status.Codes.{Http, code, obsolete_reason}
use https_http_server.Message.Fields.{Fields}
use https_http_server.Message.Envelope.{JsonLib, Response}
use https_http_server.Codec.Parse.{
  crlf, crlf_crlf, Parsed, ok, ◌>>=◌, require_found, substr, parse_lines, first_not_blank,
}
use https_http_server.Codec.Parse.Search.{IsLine, find-line, find_byte-append_none, substr-append}
use https_http_server.Codec.Parse.Headers.{unlines, first_lines}
use https_http_server.Codec.Parse.Layout.{
  raw_request, head_length, head_length_lem, find-head, target-substr, body-substr, take-unlines,
}
use https_http_server.Codec.Parse.RoundTrip.{
  header_line, IsField, AreFresh, All-IsHeader, read_lines-fields,
}
use https_http_server.Codec.Serialize.{digits, to_decimal, print_fields, serialize}

-- A client: it takes the first line, reads the lines up to the blank line, and takes what follows.
unfoldable pub read_response : Text → Parsed (Text × Fields × Text)
read_response msg = do
  end ← require_found (find crlf msg)
  blank ← require_found (find crlf_crlf msg)
  line ← substr 0 (some end) msg
  head ← substr (end + 2) (some (blank - end)) msg
  first ← require_found (find crlf head)
  fields ← parse_lines (length head) head 0 first []
  body ← substr (blank + 4) none msg
  ok (line, fields, body)

abbrev pub status_line : Http → Text
status_line s = codes "HTTP/1.1 " ++ (to_decimal (code s) ++ (codes " " ++ obsolete_reason s))

status_line-IsLine : (s : Http) → IsLine (status_line s)
unfolding to_decimal code obsolete_reason find starts_with
status_line-IsLine Http.unknown = refl
status_line-IsLine _ = refl

-- The two fields that every response has.
abbrev pub content_fields : Text → Fields
content_fields body =
    (codes "Content-Type", codes "application/json")
    ∷ (codes "Content-Length", to_decimal (length body))
    ∷ []

print_fields-unlines :
    (fs : Fields) (body : Text)
    → print_fields fs ++ (crlf ++ body) ≡ unlines (map header_line fs) (crlf ++ body)
unfolding print_fields
print_fields-unlines [] body = refl
print_fields-unlines ((k, v) ∷ fs) body =
    simp append_assoc
      (ap (λ r. k ++ b':' ∷ b' ' ∷ (v ++ (crlf ++ r))) (print_fields-unlines fs body))

module _ (J : JsonLib) where
  serialize-layout :
      (resp : Response J)
      → serialize J resp
        ≡ raw_request
            (status_line resp.status)
            (map header_line (content_fields (J.dump 4 resp.body) ++ resp.headers))
            (J.dump 4 resp.body)
  unfolding serialize
  serialize-layout resp =
      rw (print_fields-unlines resp.headers (J.dump 4 resp.body)) (simp append_assoc)

-- The lines between the first line and the blank line, with their line ends.
head-substr :
    (target : Text) (ls : List Text) (body : Text)
    → substr
        (length target + 2)
        (some (head_length target ls - length target))
        (raw_request target ls body)
      ≡ ok (unlines ls [])
head-substr target ls body =
    ap (substr (length target + 2) (some (head_length target ls - length target))) behind
    ∙ (substr-append (target ++ crlf) (unlines ls (crlf ++ body)) (length target + 2)
          (some (head_length target ls - length target))
          (omega (arith, length-append {0} target crlf))
        ∙ ap ok (
            ap (λ n. take n (unlines ls (crlf ++ body))) (omega (arith, head_length_lem target ls))
            ∙ take-unlines ls 0 (crlf ++ body)))
  where
    behind : raw_request target ls body ≡ (target ++ crlf) ++ unlines ls (crlf ++ body)
    behind = simp append_assoc

are_lines : (fs : Fields) → All IsField fs → All IsLine (map header_line fs)
are_lines [] h = tt
are_lines ((k, v) ∷ fs) h = (h.0.2, are_lines fs h.1)

nil-IsLine : IsLine []
unfolding find
nil-IsLine = refl

-- A client reads any message of a first line, at least one header line, and a body.
read_response_lem :
    (target : Text) (k v : Text) (fs : Fields) (body : Text)
    → IsLine target
    → All IsField ((k, v) ∷ fs)
    → AreFresh [] ((k, v) ∷ fs)
    → read_response (raw_request target (map header_line ((k, v) ∷ fs)) body)
      ≡ ok (target, (k, v) ∷ fs, body)
unfolding read_response
read_response_lem target k v fs body ht hf fresh = rw (
  find-line target (unlines (map header_line ((k, v) ∷ fs)) (crlf ++ body)) ht,
  find-head target (map header_line ((k, v) ∷ fs)) body ht (All-IsHeader ((k, v) ∷ fs) hf),
  target-substr target (map header_line ((k, v) ∷ fs)) body,
  head-substr target (map header_line ((k, v) ∷ fs)) body,
  find-line (header_line (k, v)) (unlines (map header_line fs) []) hf.0.2,
  first_lines (header_line (k, v)) (map header_line fs) [] (are_lines ((k, v) ∷ fs) hf) nil-IsLine,
  read_lines-fields [] ((k, v) ∷ fs) hf fresh,
  body-substr target (map header_line ((k, v) ∷ fs)) body,
)

-- A decimal number starts with a digit and has no carriage return.
digit_first : (c : ℕ) (s : Text) → 48 ≤ c → first_not_blank (c ∷ s) ≡ some 0
unfolding first_not_blank
digit_first c s h = ground arith

first_not_blank-append :
    (a b : Text) → first_not_blank a ≡ some 0 → first_not_blank (a ++ b) ≡ some 0
unfolding first_not_blank
first_not_blank-append [] b h = cc
first_not_blank-append (c ∷ a) b h = ground arith

digits-first : (fuel n : ℕ) → n < fuel → first_not_blank (digits fuel n) ≡ some 0
unfolding digits
digits-first zero n h = absurd (omega arith)
digits-first (suc fuel) n h = elim (Bool-cases (ltb n 10)) [
  | inl small ↦ rw small (digit_first (48 + n) [] (omega arith))
  | inr large ↦ rw large (
      first_not_blank-append (digits fuel (n / 10)) ((48 + n % 10) ∷ [])
        (digits-first fuel (n / 10) (ground arith)))
]

HasNoReturn : Text → Type 0
HasNoReturn s = find_byte 13 s ≡ none

digits-HasNoReturn : (fuel n : ℕ) → HasNoReturn (digits fuel n)
unfolding HasNoReturn digits find_byte
digits-HasNoReturn zero n = refl
digits-HasNoReturn (suc fuel) n = ground (
  arith,
  digits-HasNoReturn fuel (n / 10),
  find_byte-append_none 13 (digits fuel (n / 10)) ((48 + n % 10) ∷ []),
)

HasNoReturn-IsLine : (s : Text) → HasNoReturn s → IsLine s
unfolding HasNoReturn find_byte find starts_with
HasNoReturn-IsLine [] h = refl
HasNoReturn-IsLine (c ∷ s) h = ground (arith, HasNoReturn-IsLine s)

content_length_lem : (n : ℕ) → IsField (codes "Content-Length", to_decimal n)
content_length_lem n = (colon, unfold to_decimal in digits-first (suc n) n (omega arith), line)
  where
    colon : find_byte b':' (codes "Content-Length") ≡ none
    colon = unfold find_byte in refl

    line : IsLine (header_line (codes "Content-Length", to_decimal n))
    line = HasNoReturn-IsLine (header_line (codes "Content-Length", to_decimal n)) (
        unfold HasNoReturn to_decimal in
        find_byte-append_none 13 (codes "Content-Length: ") (digits (suc n) n)
          (unfold find_byte in refl)
        ∙ ap (Option.map (λ i. length (codes "Content-Length: ") + i))
            (digits-HasNoReturn (suc n) n))

content_type_lem : IsField (codes "Content-Type", codes "application/json")
unfolding find_byte first_not_blank find starts_with
content_type_lem = (refl, refl, refl)

module _ (J : JsonLib) where
  -- A client that reads a serialised response gets the status line, the two content fields with the
  -- length of the printed body, the fields of the response and the printed body. The fields of the
  -- response are such that a line can carry them, and no field stands twice, in any mixture of cases.
  pub read_response-serialize :
      (resp : Response J)
      → All IsField resp.headers
      → AreFresh [] (content_fields (J.dump 4 resp.body) ++ resp.headers)
      → read_response (serialize J resp)
        ≡ ok (
          status_line resp.status,
          content_fields (J.dump 4 resp.body) ++ resp.headers,
          J.dump 4 resp.body,
        )
  read_response-serialize resp hf fresh =
      ap read_response (serialize-layout J resp)
      ∙ read_response_lem (status_line resp.status) (codes "Content-Type")
          (codes "application/json")
          ((codes "Content-Length", to_decimal (length (J.dump 4 resp.body))) ∷ resp.headers)
          (J.dump 4 resp.body) (status_line-IsLine resp.status)
          (content_type_lem, (content_length_lem (length (J.dump 4 resp.body)), hf)) fresh
