-- ===== src/Server/Intake/Clients.antt =====
-- What the loops that take clients have closed, started and kept.
use https_http_server.Shared.{
  ℕ, zero, suc, ◌+◌, ◌≡◌, refl, sym, ap, ◌∙◌, List, [], ◌∷◌, ◌++◌, append_assoc, append-nil, Text,
  Option, none, some, Bool, true, false, All, arith, if◌then◌else◌,
}
use https_http_server.Connection.Descriptor.{
  ℤ, pos, negsuc, is_positive, ClientConnection, drop_client,
}
use https_http_server.Server.Intake.{
  Peer, Handshake, accepted, Arrival, Intake, accept_connection, intake, rounds,
}

-- `accept` gives descriptors above 0.
abbrev pub IsClient : Arrival → Type 0
IsClient a = elim a.peer [ none ↦ Unit | some p ↦ is_positive p.sockfd ≡ true ]

-- The descriptors of the clients that arrive.
abbrev pub client_fds : List Arrival → List ℤ
client_fds [] = []
client_fds (a ∷ arrivals) = elim a.peer [
  | none ↦ client_fds arrivals
  | some p ↦ p.sockfd ∷ client_fds arrivals
]

-- The clients of the arrivals that pass a test and for which a child starts.
abbrev pub served : (Arrival → Bool) → List Arrival → List ClientConnection
served test [] = []
served test (a ∷ arrivals) = elim a.peer [
  | none ↦ served test arrivals
  | some p ↦
      if test a
      then (if a.is_forked
          then accept_connection a ∷ served test arrivals
          else served test arrivals)
      else served test arrivals
]

abbrev pub any_client : Arrival → Bool
any_client a = true

abbrev pub has_session : Arrival → Bool
has_session a = elim a.handshake [ accepted ↦ true | _ ↦ false ]

-- The arrivals with a session.
abbrev pub sessions : List Arrival → ℕ
sessions [] = 0
sessions (a ∷ arrivals) = elim a.peer [
  | none ↦ sessions arrivals
  | some p ↦ if has_session a then suc (sessions arrivals) else sessions arrivals
]

abbrev pub after : Intake → List ℤ → List ClientConnection → ℕ → Intake
after s fds clients n = record {
  closed = s.closed ++ fds;
  children = s.children ++ clients;
  ssl_objects = s.ssl_objects + n;
}

after-after :
    (s : Intake) (f g : List ℤ) (c d : List ClientConnection) (m n : ℕ)
    → after (after s f c m) g d n ≡ after s (f ++ g) (c ++ d) (m + n)
after-after s f g c d m n =
    rw (append_assoc s.closed f g, append_assoc s.children c d)
      (ap
        (λ k. record {
          closed = s.closed ++ (f ++ g);
          children = s.children ++ (c ++ d);
          ssl_objects = k;
        })
        (omega arith))

abbrev pub the_state : List ℤ → List ClientConnection → ℕ → Intake
the_state c d n = record { closed = c; children = d; ssl_objects = n }

-- States with the same parts are the same.
pub Intake_eq :
    {c c' : List ℤ} {d d' : List ClientConnection} {n n' : ℕ}
    → c ≡ c'
    → d ≡ d'
    → n ≡ n'
    → the_state c d n ≡ the_state c' d' n'
Intake_eq {c = c} {c' = c'} {d = d} {d' = d'} {n = n} {n' = n'} e f g =
    ap (λ x. the_state x d n) e ∙ (ap (λ x. the_state c' x n) f ∙ ap (the_state c' d') g)

abbrev pub one : Option Peer → Text → Handshake → Bool → Arrival
one peer id h f = record { peer = peer; id = id; handshake = h; is_forked = f }

abbrev pub peer_of : ℤ → Text → ℕ → Peer
peer_of fd ip port = record { sockfd = fd; ip = ip; port = port }

intake-one :
    (fd : ℤ) (ip : Text) (port : ℕ) (id : Text) (h : Handshake) (f : Bool) (s : Intake)
    → is_positive fd ≡ true
    → intake (one (some (peer_of fd ip port)) id h f) s
      ≡ after s (fd ∷ []) (served any_client (one (some (peer_of fd ip port)) id h f ∷ [])) 0
unfolding intake accept_connection drop_client
intake-one (pos zero) ip port id h f s e = cc
intake-one (pos (suc n)) ip port id h true s e = Intake_eq refl refl (omega arith)
intake-one (pos (suc n)) ip port id h false s e =
    Intake_eq refl (sym (append-nil s.children)) (omega arith)
intake-one (negsuc n) ip port id h f s e = cc

-- The empty round.
pub after-nil : (s : Intake) → s ≡ after s [] [] 0
after-nil s =
    Intake_eq (sym (append-nil s.closed)) (sym (append-nil s.children))
      (let e : s.ssl_objects ≡ s.ssl_objects + 0 = omega arith in e)

intake-Arrival :
    (peer : Option Peer) (id : Text) (h : Handshake) (f : Bool) (s : Intake)
    → IsClient (one peer id h f)
    → intake (one peer id h f) s
      ≡ after s (client_fds (one peer id h f ∷ [])) (served any_client (one peer id h f ∷ [])) 0
unfolding intake accept_connection drop_client
intake-Arrival none id h f s e = after-nil s
intake-Arrival (some p) id h f s e = intake-one p.sockfd p.ip p.port id h f s e

client_fds_cons :
    (a : Arrival) (as' : List Arrival)
    → client_fds (a ∷ []) ++ client_fds as' ≡ client_fds (a ∷ as')
client_fds_cons a as' = go a.peer
  where
    go :
        (peer : Option Peer)
        → client_fds (one peer a.id a.handshake a.is_forked ∷ []) ++ client_fds as'
          ≡ client_fds (one peer a.id a.handshake a.is_forked ∷ as')
    go none = refl
    go (some p) = refl

pub served_cons :
    (test : Arrival → Bool) (a : Arrival) (as' : List Arrival)
    → served test (a ∷ []) ++ served test as' ≡ served test (a ∷ as')
served_cons test a as' = ground arith

pub sessions_cons :
    (a : Arrival) (as' : List Arrival) → sessions (a ∷ []) + sessions as' ≡ sessions (a ∷ as')
sessions_cons a as' = ground arith

pub rounds-after :
    (step : Arrival → Intake → Intake) (test : Arrival → Bool) (g : List Arrival → ℕ)
    → 0 ≡ g []
    → ((a : Arrival) (more : List Arrival) → g (a ∷ []) + g more ≡ g (a ∷ more))
    → ((a : Arrival) (s : Intake)
        → IsClient a
        → step a s ≡ after s (client_fds (a ∷ [])) (served test (a ∷ [])) (g (a ∷ [])))
    → (arrivals : List Arrival) (s : Intake) → All IsClient arrivals
    → rounds step arrivals s ≡ after s (client_fds arrivals) (served test arrivals) (g arrivals)
unfolding rounds
rounds-after step test g zero_of more one_round [] s h = after-nil s ∙ ap (after s [] []) zero_of
rounds-after step test g zero_of more one_round (a ∷ arrivals) s h =
    ap (rounds step arrivals) (one_round a s h.0)
    ∙ (rounds-after step test g zero_of more one_round arrivals
          (after s (client_fds (a ∷ [])) (served test (a ∷ [])) (g (a ∷ []))) h.1
        ∙ (after-after s (client_fds (a ∷ [])) (client_fds arrivals) (served test (a ∷ []))
              (served test arrivals) (g (a ∷ [])) (g arrivals)
            ∙ Intake_eq (ap (λ f. s.closed ++ f) (client_fds_cons a arrivals))
                (ap (λ f. s.children ++ f) (served_cons test a arrivals))
                (ap (λ n. s.ssl_objects + n) (more a arrivals))))

-- The plain server, on any clients that arrive with descriptors above 0: its own process closes
-- the descriptor of each client, once and in their order, and no other; it starts a child for each
-- client for which `fork` succeeds; and it makes no SSL object.
pub intake-rounds :
    (arrivals : List Arrival) (s : Intake)
    → All IsClient arrivals
    → rounds intake arrivals s ≡ after s (client_fds arrivals) (served any_client arrivals) 0
intake-rounds =
    rounds-after intake any_client (λ arrivals. 0) refl (λ a more. omega arith)
      λ a s h. intake-Arrival a.peer a.id a.handshake a.is_forked s h
