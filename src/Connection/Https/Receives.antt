-- ===== src/Connection/Https/Receives.antt =====
-- What `HttpsConnection::recv` makes of the bytes that OpenSSL delivers.
use https_http_server.Shared.{
  ℕ, suc, ◌+◌, ◌≤◌, ◌<◌, ◌≡◌, refl, sym, ap, ◌∙◌, List, [], ◌∷◌, ◌++◌, Text, true, false,
  if◌then◌else◌, ltb, leb, length, length-append, append_assoc, append-nil, arith, All, inl, inr,
  Bool-cases,
}
use https_http_server.Status.RetCodes.{RetCode}
use https_http_server.Connection.Socket.{
  reception_buf_limit, SslError, want_read, want_write, zero_return, TlsRead, got, read_error,
  complete, erroneous, blocked,
}
use https_http_server.Connection.Https.{is_want, recv_loop, recv}

-- The bytes that a list of events delivers.
abbrev pub payload : List TlsRead → Text
payload [] = []
payload (got c cs ∷ es) = (c ∷ cs) ++ payload es
payload (read_error err ∷ es) = payload es

-- A read that fills the buffer, or one that is to be tried again.
abbrev pub Fills : ℕ → TlsRead → Type 0
Fills bufsize (got c cs) = bufsize ≤ suc (length cs)
Fills bufsize (read_error err) = is_want err ≡ true

recv_loop-want :
    (bufsize n : ℕ) (req : Text) (err : SslError) (es : List TlsRead)
    → is_want err ≡ true
    → recv_loop bufsize req n (read_error err ∷ es) ≡ recv_loop bufsize req n es
unfolding recv_loop
recv_loop-want bufsize n req want_read es h = refl
recv_loop-want bufsize n req want_write es h = refl
recv_loop-want bufsize n req zero_return es h = cc
recv_loop-want bufsize n req SslError.other es h = cc

recv_loop-got :
    (bufsize n : ℕ) (req : Text) (c : ℕ) (cs : Text) (es : List TlsRead)
    → bufsize ≤ suc (length cs)
    → n + suc (length cs) < reception_buf_limit
    → recv_loop bufsize req n (got c cs ∷ es)
      ≡ recv_loop bufsize (req ++ c ∷ cs) (n + suc (length cs)) es
unfolding recv_loop
recv_loop-got bufsize n req c cs es full small =
    let large : leb reception_buf_limit (n + suc (length cs)) ≡ false = ground arith in
    let short : ltb (suc (length cs)) bufsize ≡ false = ground arith in
    rw (large, short, recv_loop) refl

pub recv_loop-Fills :
    (bufsize n : ℕ) (req : Text) (es rest : List TlsRead)
    → All (Fills bufsize) es
    → n + length (payload es) < reception_buf_limit
    → recv_loop bufsize req n (es ++ rest)
      ≡ recv_loop bufsize (req ++ payload es) (n + length (payload es)) rest
recv_loop-Fills bufsize n req [] rest h b =
    ap (λ k. recv_loop bufsize req k rest) (omega arith)
    ∙ ap (λ r. recv_loop bufsize r (n + 0) rest) (sym (append-nil req))
recv_loop-Fills bufsize n req (got c cs ∷ es) rest h b =
    let size = length-append {0} (c ∷ cs) (payload es) in
    recv_loop-got bufsize n req c cs (es ++ rest) h.0 (omega arith)
    ∙ (recv_loop-Fills bufsize (n + suc (length cs)) (req ++ c ∷ cs) es rest h.1 (omega arith)
        ∙ (ap (λ r. recv_loop bufsize r (n + suc (length cs) + length (payload es)) rest)
              (append_assoc req (c ∷ cs) (payload es))
            ∙ ap (λ k. recv_loop bufsize (req ++ ((c ∷ cs) ++ payload es)) k rest) (omega arith)))
recv_loop-Fills bufsize n req (read_error err ∷ es) rest h b =
    recv_loop-want bufsize n req err (es ++ rest) h.0 ∙ recv_loop-Fills bufsize n req es rest h.1 b

-- Reads that fill the buffer, with any `WANT_READ` and `WANT_WRITE` between them, and then a shorter
-- read, are received as one request, byte by byte, where they stay below the limit together. What
-- OpenSSL delivers later is left.
pub recv-Fills :
    (bufsize : ℕ) (es rest : List TlsRead) (c : ℕ) (cs : Text)
    → All (Fills bufsize) es
    → suc (length cs) < bufsize
    → length (payload es) + suc (length cs) < reception_buf_limit
    → recv bufsize (es ++ got c cs ∷ rest) ≡ complete (payload es ++ c ∷ cs) rest
unfolding recv recv_loop
recv-Fills bufsize es rest c cs h short small =
    let large : leb reception_buf_limit (0 + length (payload es) + suc (length cs)) ≡ false =
      ground arith in
    let last : ltb (suc (length cs)) bufsize ≡ true = ground arith in
    recv_loop-Fills bufsize 0 [] es (got c cs ∷ rest) h (omega arith)
    ∙ rw (large, last, recv_loop) refl

recv_loop_full :
    (bufsize n : ℕ) (req : Text) (es : List TlsRead)
    → All (Fills bufsize) es
    → n < reception_buf_limit
    → recv_loop bufsize req n es ≡ (
        if ltb (n + length (payload es)) reception_buf_limit
        then blocked
        else erroneous RetCode.request_buffer_overflow)
unfolding recv_loop
recv_loop_full bufsize n req [] h b = ground arith
recv_loop_full bufsize n req (read_error err ∷ es) h b =
    recv_loop-want bufsize n req err es h.0 ∙ recv_loop_full bufsize n req es h.1 b
recv_loop_full bufsize n req (got c cs ∷ es) h b =
    let size = length-append {0} (c ∷ cs) (payload es) in
    elim (Bool-cases (ltb (n + suc (length cs)) reception_buf_limit)) [
      | inl s ↦
          recv_loop-got bufsize n req c cs es h.0 (ground arith)
          ∙ (recv_loop_full bufsize (n + suc (length cs)) (req ++ c ∷ cs) es h.1 (ground arith)
              ∙ ap
                  (λ k.
                    if ltb k reception_buf_limit
                    then blocked
                    else erroneous RetCode.request_buffer_overflow)
                  (omega arith))
      | inr s ↦
          let large : leb reception_buf_limit (n + suc (length cs)) ≡ true = ground arith in
          let sum : ltb (n + length ((c ∷ cs) ++ payload es)) reception_buf_limit ≡ false =
            ground arith in
          rw (large, sum, recv_loop) refl
    ]

-- Where every read fills the buffer or is to be tried again, `recv` never returns a request: below
-- the limit it waits for more, and from the limit on it fails with `request_buffer_overflow`.
pub recv_full :
    (bufsize : ℕ) (es : List TlsRead)
    → All (Fills bufsize) es
    → recv bufsize es ≡ (
        if ltb (length (payload es)) reception_buf_limit
        then blocked
        else erroneous RetCode.request_buffer_overflow)
unfolding recv
recv_full bufsize es h =
    recv_loop_full bufsize 0 [] es h (omega arith)
    ∙ ap
        (λ k.
          if ltb k reception_buf_limit then blocked else erroneous RetCode.request_buffer_overflow)
        (let e : 0 + length (payload es) ≡ length (payload es) = omega arith in e)
