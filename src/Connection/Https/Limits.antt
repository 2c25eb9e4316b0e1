-- ===== src/Connection/Https/Limits.antt =====
-- No request above the limit is received.
use https_http_server.Shared.{
  ℕ, suc, ◌+◌, ◌<◌, ◌≡◌, refl, sym, subst, ap, ◌∙◌, List, [], ◌∷◌, ◌++◌, Text, ltb, leb, length,
  length-append, append_assoc, append-nil, arith, inl, inr, Bool-cases,
}
use https_http_server.Connection.Socket.{
  reception_buf_limit, SslError, want_read, want_write, zero_return, TlsRead, got, read_error,
  Received, complete, disconnected, erroneous, blocked, undefined,
}
use https_http_server.Connection.Https.{recv_loop, recv}
use https_http_server.Connection.Https.Receives.{payload}

-- A received request is the bytes of the events that were used, and below the limit.
pub record IsPayload (es : List TlsRead) (req : Text) (rest : List TlsRead) : Type 0 where
  pub used : List TlsRead
  pub split : es ≡ used ++ rest
  pub same : req ≡ payload used
  pub bound : length req < reception_buf_limit

-- What holds of the request where the loop ends with one.
abbrev pub IsSound : List TlsRead → Received TlsRead → Type 0
IsSound es (complete req rest) = IsPayload es req rest
IsSound es disconnected = Unit
IsSound es (erroneous retcode) = Unit
IsSound es blocked = Unit
IsSound es undefined = ⊥

abbrev IsSoundFrom : Text → List TlsRead → Received TlsRead → Type 0
IsSoundFrom acc es (complete req rest) =
    (used : List TlsRead) × (es ≡ used ++ rest)
    × (req ≡ acc ++ payload used)
    × (length req < reception_buf_limit)
IsSoundFrom acc es disconnected = Unit
IsSoundFrom acc es (erroneous retcode) = Unit
IsSoundFrom acc es blocked = Unit
IsSoundFrom acc es undefined = ⊥

-- One event more in front.
more :
    (acc : Text) (e : TlsRead) (es : List TlsRead) (r : Received TlsRead)
    → IsSoundFrom (acc ++ payload (e ∷ [])) es r
    → IsSoundFrom acc (e ∷ es) r
more acc e es (complete req rest) (used, split, same, bound) = (
  e ∷ used,
  ap (λ t. e ∷ t) split,
  same ∙ (append_assoc acc (payload (e ∷ [])) (payload used) ∙ ap (λ t. acc ++ t) (join e)),
  bound,
)
  where
    join : (e : TlsRead) → payload (e ∷ []) ++ payload used ≡ payload (e ∷ used)
    join (got c cs) = ap (λ t. t ++ payload used) (append-nil (c ∷ cs))
    join (read_error err) = refl
more acc e es disconnected h = tt
more acc e es (erroneous retcode) h = tt
more acc e es blocked h = tt
more acc e es undefined h = h

retry :
    (acc : Text) (err : SslError) (es : List TlsRead) (r : Received TlsRead)
    → IsSoundFrom acc es r
    → IsSoundFrom acc (read_error err ∷ es) r
retry acc err es r h =
    more acc (read_error err) es r (subst (λ a. IsSoundFrom a es r) (sym (append-nil acc)) h)

recv_loop_sound :
    (bufsize n : ℕ) (acc : Text) (es : List TlsRead)
    → length acc ≡ n
    → IsSoundFrom acc es (recv_loop bufsize acc n es)
unfolding recv_loop
recv_loop_sound bufsize n acc [] h = tt
recv_loop_sound bufsize n acc (read_error want_read ∷ es) h =
    retry acc want_read es _ (recv_loop_sound bufsize n acc es h)
recv_loop_sound bufsize n acc (read_error want_write ∷ es) h =
    retry acc want_write es _ (recv_loop_sound bufsize n acc es h)
recv_loop_sound bufsize n acc (read_error zero_return ∷ es) h = tt
recv_loop_sound bufsize n acc (read_error SslError.other ∷ es) h = tt
recv_loop_sound bufsize n acc (got c cs ∷ es) h =
    let size = length-append {0} acc (c ∷ cs) in
    elim (Bool-cases (leb reception_buf_limit (n + suc (length cs)))) [
      | inl large ↦ rw (large, recv_loop) tt
      | inr small ↦ elim (Bool-cases (ltb (suc (length cs)) bufsize)) [
        | inl last ↦
            rw (small, last, recv_loop)
              (
                got c cs ∷ [],
                refl,
                ap (λ t. acc ++ t) (sym (append-nil (c ∷ cs))),
                ground (arith, size),
              )
        | inr full ↦
            rw (small, full, recv_loop)
              (more acc (got c cs) es _ (
                subst
                  (λ a.
                    IsSoundFrom a es (recv_loop bufsize (acc ++ c ∷ cs) (n + suc (length cs)) es))
                  (ap (λ t. acc ++ t) (sym (append-nil (c ∷ cs))))
                  (recv_loop_sound bufsize (n + suc (length cs)) (acc ++ c ∷ cs) es
                    (omega (arith, h, size)))))
      ]
    ]

-- Whatever OpenSSL delivers, a request that `recv` returns is the bytes of the reads that it has
-- used, in their order, with none lost or added; it is below the limit; and the other reads are left.
pub recv-IsSound : (bufsize : ℕ) (es : List TlsRead) → IsSound es (recv bufsize es)
unfolding recv
recv-IsSound bufsize es = go (recv_loop bufsize [] 0 es) (recv_loop_sound bufsize 0 [] es refl)
  where
    go : (r : Received TlsRead) → IsSoundFrom [] es r → IsSound es r
    go (complete req rest) (used, split, same, bound) = record {
      used = used;
      split = split;
      same = same;
      bound = bound;
    }
    go disconnected h = tt
    go (erroneous retcode) h = tt
    go blocked h = tt
    go undefined h = h
