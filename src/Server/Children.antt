-- ===== src/Server/Children.antt =====
-- The identifiers that the processes of the TLS server draw: `acceptConnection`, of
-- src/server/src/http/http_server.cc, and `clientIntakeCycle`, of src/server/src/http/https_server.cc,
-- with the generator of `generate_uuid_v4`, of src/common/src/uuid.cc. `fork` gives the child a copy
-- of the generator.
pub mod Identifiers
pub mod Different
pub mod Examples
use https_http_server.Shared.{
  ℕ, List, [], ◌∷◌, ◌++◌, Text, Option, none, some, Bool, true, false, ◌&&◌, not, if◌then◌else◌,
}
use https_http_server.Uuid.{generate_uuid_v4}
use https_http_server.Server.Intake.{
  Peer, Handshake, accepted, Arrival, Intake, accept_connection, is_invalid, tls_intake,
}

-- What the code uses of `std::mt19937_64` and `std::uniform_int_distribution`: a state, and `dist(gen)`.
pub record Generator : Type 1 where
  pub State : Type 0
  pub next : State → ℕ × State

-- One round of the loop: what `accept` gives, the handshake, and whether `fork` starts a child.
pub record Visit : Type 0 where
  pub peer : Option Peer
  pub handshake : Handshake
  pub is_forked : Bool

-- Whether a child starts for a client.
abbrev pub starts_child : Arrival → Bool
starts_child a =
    not (is_invalid (accept_connection a).sockfd)
    && (elim a.handshake [ accepted ↦ true | _ ↦ false ] && a.is_forked)

module _ (G : Generator) where
  -- `generate_uuid_v4`, with the generator that it keeps.
  unfoldable pub draw_id : G.State → Text × G.State
  unfolding generate_uuid_v4
  draw_id g =
      let (first, g') = G.next g in
      let (second, g'') = G.next g' in (generate_uuid_v4 first second, g'')

  -- `acceptConnection` draws where `accept` has succeeded.
  unfoldable pub arrive : Visit → G.State → Arrival × G.State
  unfolding draw_id
  arrive v g = elim v.peer [
    | none ↦ (record { peer = none; id = []; handshake = v.handshake; is_forked = v.is_forked }, g)
    | some p ↦ (
      record {
        peer = some p;
        id = (draw_id g).0;
        handshake = v.handshake;
        is_forked = v.is_forked;
      },
      (draw_id g).1,
    )
  ]

  -- The process that takes the clients: its generator, what it has done, and the generators that its
  -- children have started with.
  pub record Parent : Type 0 where
    pub generator : G.State
    pub intake : Intake
    pub copies : List G.State

  -- A round of `HttpsServer::clientIntakeCycle`.
  unfoldable pub tls_round : Visit → Parent → Parent
  unfolding arrive tls_intake accept_connection
  tls_round v s =
      let (a, g) = arrive v s.generator in
      record {
        generator = g;
        intake = tls_intake a s.intake;
        copies = if starts_child a then s.copies ++ g ∷ [] else s.copies;
      }

  -- The loop, on the visits that come.
  unfoldable pub tls_rounds : List Visit → Parent → Parent
  unfolding tls_round
  tls_rounds [] s = s
  tls_rounds (v ∷ visits) s = tls_rounds visits (tls_round v s)
