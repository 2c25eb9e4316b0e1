-- ===== src/Server/Intake/Sessions.antt =====
-- What the TLS loop that takes clients has closed, started and kept.
use https_http_server.Shared.{
  ℕ, zero, suc, ◌≡◌, refl, sym, List, [], ◌∷◌, append-nil, Text, Option, none, some, Bool, true,
  false, All, arith,
}
use https_http_server.Connection.Descriptor.{ℤ, pos, negsuc, is_positive, drop_client}
use https_http_server.Server.Intake.{
  Peer, Handshake, no_ssl, refused, accepted, Arrival, Intake, accept_connection, ssl_handshake,
  tls_intake, rounds,
}
use https_http_server.Server.Intake.Clients.{
  IsClient, client_fds, served, has_session, sessions, after, Intake_eq, one, peer_of, after-nil,
  sessions_cons, rounds-after,
}

tls_intake-one :
    (fd : ℤ) (ip : Text) (port : ℕ) (id : Text) (h : Handshake) (f : Bool) (s : Intake)
    → is_positive fd ≡ true
    → tls_intake (one (some (peer_of fd ip port)) id h f) s
      ≡ after s
          (fd ∷ [])
          (served has_session (one (some (peer_of fd ip port)) id h f ∷ []))
          (sessions (one (some (peer_of fd ip port)) id h f ∷ []))
unfolding tls_intake accept_connection drop_client ssl_handshake
tls_intake-one (pos zero) ip port id h f s e = cc
tls_intake-one (pos (suc n)) ip port id no_ssl f s e =
    Intake_eq refl (sym (append-nil s.children)) (omega arith)
tls_intake-one (pos (suc n)) ip port id refused f s e =
    Intake_eq refl (sym (append-nil s.children)) (omega arith)
tls_intake-one (pos (suc n)) ip port id accepted true s e = refl
tls_intake-one (pos (suc n)) ip port id accepted false s e =
    Intake_eq refl (sym (append-nil s.children)) refl
tls_intake-one (negsuc n) ip port id h f s e = cc

tls_intake-Arrival :
    (peer : Option Peer) (id : Text) (h : Handshake) (f : Bool) (s : Intake)
    → IsClient (one peer id h f)
    → tls_intake (one peer id h f) s
      ≡ after s
          (client_fds (one peer id h f ∷ []))
          (served has_session (one peer id h f ∷ []))
          (sessions (one peer id h f ∷ []))
unfolding tls_intake accept_connection drop_client
tls_intake-Arrival none id h f s e = after-nil s
tls_intake-Arrival (some p) id h f s e = tls_intake-one p.sockfd p.ip p.port id h f s e

-- The TLS server, on any clients that arrive with descriptors above 0: its own process closes the
-- descriptor of each client, also where the handshake fails; a child serves each client with a
-- session for which `fork` succeeds; and the process keeps an SSL object for every session, since
-- it frees none.
pub tls_intake-rounds :
    (arrivals : List Arrival) (s : Intake)
    → All IsClient arrivals
    → rounds tls_intake arrivals s
      ≡ after s (client_fds arrivals) (served has_session arrivals) (sessions arrivals)
tls_intake-rounds =
    rounds-after tls_intake has_session sessions refl sessions_cons
      λ a s h. tls_intake-Arrival a.peer a.id a.handshake a.is_forked s h
