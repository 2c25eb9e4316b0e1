-- ===== src/Connection/Https/Sends.antt =====
-- `HttpsConnection::send` sends as `HttpConnection::send` does.
use https_http_server.Shared.{
  ℕ, suc, ◌-◌, ◌≤◌, min, ◌≡◌, refl, ap, ◌∙◌, List, [], ◌∷◌, ◌++◌, map, Text, true, false, ltb, ◌==◌,
  length, arith, All, inl, inr, Bool-cases,
}
use https_http_server.Connection.Socket.{
  Errno, Sending, refused, sent, SslError, want_read, want_write, zero_return, TlsWrite, wrote,
  write_error, returned, Sent,
}
use https_http_server.Connection.Http
use https_http_server.Connection.Http.{is_retry}
use https_http_server.Connection.Http.Sends.{send-room, GetsOn, room}
use https_http_server.Connection.Https.{send_loop, send}

-- The event of `::send` that has the effect of an event of `SSL_write`.
abbrev pub plain : TlsWrite → Sending
plain (wrote n) = sent (suc n)
plain (write_error want_read) = refused Errno.eagain
plain (write_error want_write) = refused Errno.eagain
plain (write_error zero_return) = sent 0
plain (write_error SslError.other) = refused Errno.other

abbrev pub map_left {ℓ κ} : {A : Type ℓ} {B : Type κ} → (A → B) → Sent A → Sent B
map_left f s = record { result = s.result; wire = s.wire; left = map f s.left }

step :
    (resp wire : Text) (total : ℕ) (e : TlsWrite) (es : List TlsWrite)
    → ((t : ℕ) (w : Text)
        → map_left plain (send_loop resp t es w) ≡ Http.send_loop resp t (map plain es) w)
    → map_left plain (send_loop resp total (e ∷ es) wire)
      ≡ Http.send_loop resp total (map plain (e ∷ es)) wire
unfolding send_loop Http.send_loop
step resp wire total e es ih = elim (Bool-cases (ltb total (length resp))) [
  | inr h ↦ rw (h, send_loop, Http.send_loop) refl
  | inl h ↦ go e h
]
  where
    go :
        (e : TlsWrite)
        → ltb total (length resp) ≡ true
        → map_left plain (send_loop resp total (e ∷ es) wire)
          ≡ Http.send_loop resp total (map plain (e ∷ es)) wire
    go (write_error want_read) h = rw (h, send_loop, Http.send_loop) (ih total wire)
    go (write_error want_write) h = rw (h, send_loop, Http.send_loop) (ih total wire)
    go (write_error zero_return) h =
        let z : (min 0 (length resp - total) == 0) ≡ true = ground arith in
        rw (h, z, send_loop, Http.send_loop) refl
    go (write_error SslError.other) h = rw (h, send_loop, Http.send_loop) refl
    go (wrote n) h =
        let z : (min (suc n) (length resp - total) == 0) ≡ false = ground arith in
        rw (h, z, send_loop, Http.send_loop) (ih _ _)

send_loop-plain :
    (resp wire : Text) (total : ℕ) (es : List TlsWrite)
    → map_left plain (send_loop resp total es wire) ≡ Http.send_loop resp total (map plain es) wire
send_loop-plain resp wire total [] = unfold send_loop Http.send_loop in refl
send_loop-plain resp wire total (e ∷ es) =
    step resp wire total e es λ t w. send_loop-plain resp w t es

-- Sending over TLS ends as sending over the plain socket does, with the same bytes on the wire, when
-- each event of `SSL_write` is replaced by an event of `::send` with the same effect: taken bytes by
-- as many, `WANT_READ` and `WANT_WRITE` by `EAGAIN`, a closed connection by 0 bytes, and any other
-- error by an error that is not tried again.
pub send-plain :
    (resp wire : Text) (es : List TlsWrite)
    → map_left plain (send resp es wire) ≡ Http.send resp (map plain es) wire
unfolding send Http.send
send-plain resp wire es = send_loop-plain resp wire 0 es

-- A call of `SSL_write` that gets on.
abbrev pub Writes : TlsWrite → Type 0
Writes e = GetsOn (plain e)

All-map {ℓ κ μ} :
    {A : Type ℓ} {B : Type κ} (P : B → Type μ) (f : A → B) (xs : List A)
    → All (λ x. P (f x)) xs
    → All P (map f xs)
All-map P f [] h = tt
All-map P f (x ∷ xs) h = (h.0, All-map P f xs h.1)

pub send-plain-room :
    (resp wire : Text) (es : List TlsWrite)
    → All Writes es
    → length resp ≤ room (map plain es)
    → ((send resp es wire).result ≡ returned true) × ((send resp es wire).wire ≡ wire ++ resp)
send-plain-room resp wire es h b =
    let (done, all) = send-room resp wire (map plain es) (All-map GetsOn plain es h) b in
    let same = send-plain resp wire es in
    (ap (λ s. s.result) same ∙ done, ap (λ s. s.wire) same ∙ all)
