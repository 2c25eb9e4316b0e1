-- ===== src/Connection/Http/Receives.antt =====
-- What `HttpConnection::recv` makes of the bytes that the socket delivers.
use https_http_server.Shared.{
  ℕ, suc, ◌+◌, ◌<◌, ◌≡◌, refl, ap, ◌∙◌, List, [], ◌∷◌, ◌++◌, Text, find_byte, Option, none, some,
  true, false, ltb, leb, length, length-drop, take, drop, arith,
}
use https_http_server.Connection.Socket.{
  reception_buf_limit, Receipt, bytes, Received, complete, undefined,
}
use https_http_server.Codec.Parse.Search.{find_byte-append_none, find_byte-lt-length}
use https_http_server.Connection.Http.{c_string, overwrite, recv_loop, recv}

take_past : (a b : Text) (k : ℕ) → take (length a + k) (a ++ b) ≡ a ++ take k b
take_past [] b k = ap (λ n. take n b) (omega arith)
take_past (x ∷ a) b k =
    ap (λ n. take n (x ∷ (a ++ b)))
      (let e : suc (length a) + k ≡ suc (length a + k) = omega arith in e)
    ∙ ap (λ t. x ∷ t) (take_past a b k)

c_string-overwrite :
    (chunk buf : Text) (k : ℕ)
    → find_byte 0 chunk ≡ none
    → find_byte 0 (drop (length chunk) buf) ≡ some k
    → c_string (overwrite chunk buf) ≡ some (chunk ++ take k (drop (length chunk) buf))
unfolding c_string
c_string-overwrite chunk buf k h e =
    rw (find_byte-append_none 0 chunk (drop (length chunk) buf) h, e, c_string)
      (ap some (take_past chunk (drop (length chunk) buf) k))

c_string_endless :
    (chunk buf : Text)
    → find_byte 0 chunk ≡ none
    → find_byte 0 (drop (length chunk) buf) ≡ none
    → c_string (overwrite chunk buf) ≡ none
unfolding c_string
c_string_endless chunk buf h e =
    rw (find_byte-append_none 0 chunk (drop (length chunk) buf) h, e, c_string) refl

-- What the first read becomes: the bytes of the buffer behind it, up to a zero byte, belong to the
-- request.
abbrev pub first_read : Text → Text → Option ℕ → List Receipt → Received Receipt
first_read chunk buf none es = undefined
first_read chunk buf (some k) es = complete (chunk ++ take k (drop (length chunk) buf)) es

first_read_lem :
    (buf : Text) (c : ℕ) (cs : Text) (es : List Receipt) (zero_at : Option ℕ)
    → find_byte 0 (c ∷ cs) ≡ none
    → suc (length cs) < reception_buf_limit
    → find_byte 0 (drop (suc (length cs)) buf) ≡ zero_at
    → recv buf (bytes (c ∷ cs) ∷ es) ≡ first_read (c ∷ cs) buf zero_at es
unfolding recv recv_loop
first_read_lem buf c cs es none h small e =
    let large : leb reception_buf_limit (0 + suc (length cs)) ≡ false = ground arith in
    rw (large, c_string_endless (c ∷ cs) buf h e, recv_loop) refl
first_read_lem buf c cs es (some k) h small e =
    let large : leb reception_buf_limit (0 + suc (length cs)) ≡ false = ground arith in
    let short : ltb (suc (length cs)) (length buf) ≡ true = ground (
      arith,
      find_byte-lt-length 0 (drop (suc (length cs)) buf) k e,
      length-drop {0} (suc (length cs)) buf,
    ) in
    rw (large, c_string-overwrite (c ∷ cs) buf k h e, short, recv_loop) refl

-- A first read below the limit and without a zero byte is received as the request only where a zero
-- byte follows it in the buffer, which nothing initialises: other bytes before the first zero byte
-- are received behind it, and where there is no zero byte, as with a read that fills the buffer, the
-- code reads beyond it.
pub recv-first_read :
    (buf : Text) (c : ℕ) (cs : Text) (es : List Receipt)
    → find_byte 0 (c ∷ cs) ≡ none
    → suc (length cs) < reception_buf_limit
    → recv buf (bytes (c ∷ cs) ∷ es)
      ≡ first_read (c ∷ cs) buf (find_byte 0 (drop (suc (length cs)) buf)) es
recv-first_read buf c cs es h small = first_read_lem buf c cs es _ h small refl
