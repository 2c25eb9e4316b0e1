-- ===== src/Connection/Http/Sends.antt =====
-- What `HttpConnection::send` leaves on the wire.
use https_http_server.Shared.{
  ℕ, zero, suc, ◌+◌, ◌-◌, ◌≤◌, ◌<◌, min, ◌≡◌, ◌≢◌, ◌↔◌, refl, sym, ap, ◌∙◌, List, [], ◌∷◌, ◌++◌,
  Text, true, false, ltb, ◌==◌, length, take_all, subst, take, drop, arith, append_assoc,
  append-nil, All, inl, inr, Bool-cases,
}
use https_http_server.Connection.Socket.{Sending, refused, sent, Ended, returned, waiting, Sent}
use https_http_server.Connection.Http.{is_retry, send_loop, send}

take-nil {ℓ} : {A : Type ℓ} (n : ℕ) → take {A = A} n [] ≡ []
take-nil zero = refl
take-nil (suc n) = refl

pub take_more {ℓ} :
    {A : Type ℓ} (m n : ℕ) (xs : List A) → take m xs ++ take n (drop m xs) ≡ take (m + n) xs
take_more zero n xs = ap (λ k. take k xs) (omega arith)
take_more (suc m) n [] = take-nil n ∙ sym (take-nil (suc m + n))
take_more (suc m) n (x ∷ xs) =
    ap (λ t. x ∷ t) (take_more m n xs)
    ∙ ap (λ k. take k (x ∷ xs)) (let e : suc (m + n) ≡ suc m + n = omega arith in e)

-- The call has sent the first `n` bytes, and returns `true` exactly where these are all.
pub record SentFirst {ℓ} {E : Type ℓ} (resp : Text) (wire : Text) (s : Sent E) : Type ℓ where
  pub n : ℕ
  pub bound : n ≤ length resp
  pub on_wire : s.wire ≡ wire ++ take n resp
  pub all_sent : (s.result ≡ returned true) ↔ (n ≡ length resp)

returned-ne : returned false ≢ returned true
returned-ne e = cc

waiting-ne : waiting ≢ returned true
waiting-ne e = cc

-- A call that stops short of the end.
pub SentFirst-short {ℓ} :
    {E : Type ℓ} (resp wire : Text) (total : ℕ) (r : Ended) (es : List E)
    → ltb total (length resp) ≡ true
    → r ≢ returned true
    → SentFirst resp wire (record { result = r; wire = wire ++ take total resp; left = es })
SentFirst-short resp wire total r es h ne = record {
  n = total;
  bound = ground arith;
  on_wire = refl;
  all_sent = (λ e. absurd (ne e), λ e. absurd (ground arith));
}

pub SentFirst-all {ℓ} :
    {E : Type ℓ} (resp wire : Text) (total : ℕ) (es : List E)
    → total ≤ length resp
    → ltb total (length resp) ≡ false
    → SentFirst resp wire
        (record { result = returned true; wire = wire ++ take total resp; left = es })
SentFirst-all resp wire total es b h = record {
  n = total;
  bound = b;
  on_wire = refl;
  all_sent = (λ e. ground arith, λ e. refl);
}

send_loop_lem :
    (resp wire : Text) (total : ℕ) (es : List Sending)
    → total ≤ length resp
    → SentFirst resp wire (send_loop resp total es (wire ++ take total resp))
unfolding send_loop
send_loop_lem resp wire total [] b = elim (Bool-cases (ltb total (length resp))) [
  | inl h ↦ rw h (SentFirst-short resp wire total waiting [] h waiting-ne)
  | inr h ↦ rw h (SentFirst-all resp wire total [] b h)
]
send_loop_lem resp wire total (refused err ∷ es) b = elim (Bool-cases (ltb total (length resp))) [
  | inl h ↦ elim (Bool-cases (is_retry err)) [
    | inl r ↦ rw (h, r, send_loop) (send_loop_lem resp wire total es b)
    | inr r ↦
        rw (h, r, send_loop) (SentFirst-short resp wire total (returned false) es h returned-ne)
  ]
  | inr h ↦ rw (h, send_loop) (SentFirst-all resp wire total (refused err ∷ es) b h)
]
send_loop_lem resp wire total (sent n ∷ es) b = elim (Bool-cases (ltb total (length resp))) [
  | inl h ↦
      let k = min n (length resp - total) in
      elim (Bool-cases (k == 0)) [
        | inl z ↦
            rw (h, z, send_loop) (SentFirst-short resp wire total (returned false) es h returned-ne)
        | inr z ↦
            rw
              (
                h,
                z,
                send_loop,
                append_assoc wire (take total resp) (take k (drop total resp)),
                take_more total k resp,
              )
              (send_loop_lem resp wire (total + k) es (omega arith))
      ]
  | inr h ↦ rw (h, send_loop) (SentFirst-all resp wire total (sent n ∷ es) b h)
]

-- `send` puts a front of the response on the wire, whatever the system does, and returns `true`
-- exactly when it is the whole response.
pub send-SentFirst :
    (resp wire : Text) (es : List Sending) → SentFirst resp wire (send resp es wire)
unfolding send
send-SentFirst resp wire es =
    subst (λ w. SentFirst resp wire (send_loop resp 0 es w)) (append-nil wire)
      (send_loop_lem resp wire 0 es (omega arith))

-- A call of `::send` that gets on: it takes bytes, or is to be tried again.
abbrev pub GetsOn : Sending → Type 0
GetsOn (refused err) = is_retry err ≡ true
GetsOn (sent n) = 0 < n

-- The bytes that the calls have room for.
abbrev pub room : List Sending → ℕ
room [] = 0
room (refused err ∷ es) = room es
room (sent n ∷ es) = n + room es

send_loop-true :
    (resp wire : Text) (total : ℕ) (es : List Sending)
    → All GetsOn es
    → length resp ≤ total + room es
    → (send_loop resp total es wire).result ≡ returned true
unfolding send_loop
send_loop-true resp wire total [] h b = ground arith
send_loop-true resp wire total (refused err ∷ es) h b =
    elim (Bool-cases (ltb total (length resp))) [
      | inl l ↦ rw (l, h.0, send_loop) (send_loop-true resp wire total es h.1 b)
      | inr l ↦ rw (l, send_loop) refl
    ]
send_loop-true resp wire total (sent n ∷ es) h b = elim (Bool-cases (ltb total (length resp))) [
  | inl l ↦
      let k = min n (length resp - total) in
      let z : (k == 0) ≡ false = ground (arith, h.0) in
      rw (l, z, send_loop)
        (send_loop-true resp (wire ++ take k (drop total resp)) (total + k) es h.1 (omega arith))
  | inr l ↦ rw (l, send_loop) refl
]

-- Where every call of `::send` gets on and they have room for the response together, `send` ends,
-- returns `true`, and the whole response is on the wire.
pub send-room :
    (resp wire : Text) (es : List Sending)
    → All GetsOn es
    → length resp ≤ room es
    → ((send resp es wire).result ≡ returned true) × ((send resp es wire).wire ≡ wire ++ resp)
unfolding send
send-room resp wire es h b =
    let s = send-SentFirst resp wire es in
    let done = send_loop-true resp wire 0 es h (omega (arith, b)) in
    (
      done,
      s.on_wire
          ∙ ap (λ t. wire ++ t)
              (ap (λ n. take n resp) (s.all_sent.0 done)
                ∙ take_all (length resp) resp (omega arith)),
    )
