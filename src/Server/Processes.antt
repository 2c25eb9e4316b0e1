-- ===== src/Server/Processes.antt =====
-- The process that takes TLS clients, with its children: `clientIntakeCycle` and `sslHandshake`, of
-- src/server/src/http/https_server.cc. The process waits for no child (it calls no `waitpid` and sets
-- no action for `SIGCHLD`), so a child that has ended keeps its entry in the table of processes; and
-- `fork` starts a child as long as the table has room. `SSL_accept` runs in this process, and waits for
-- the client.
pub mod Room
use https_http_server.Shared.{
  ℕ, zero, suc, ◌+◌, List, [], ◌∷◌, Text, some, Bool, true, false, if◌then◌else◌, ltb,
}
use https_http_server.Connection.Descriptor.{ℤ}
use https_http_server.Server.Intake.{Peer, Handshake, Arrival, Intake, tls_intake}
use https_http_server.Server.Children.{starts_child}

-- What happens: a client comes, with the identifier that is drawn, and its handshake ends; a client
-- comes and never goes on with the handshake; a child calls `_exit`.
pub data Happening : Type 0 where
  comes : Peer → Text → Handshake → Happening
  stalls : Peer → Happening
  child_ends : Happening

-- What the process has done, its children that run and those that have ended, and whether it is in a
-- handshake that does not end.
pub record Processes : Type 0 where
  pub intake : Intake
  pub running : ℕ
  pub ended : ℕ
  pub in_handshake : Bool

-- The arrival of a client.
abbrev pub arrival_of : Peer → Text → Handshake → Bool → Arrival
arrival_of p id h f = record { peer = some p; id = id; handshake = h; is_forked = f }

-- What happens, where the table has room for `limit` children.
unfoldable pub happen : ℕ → Happening → Processes → Processes
unfolding tls_intake
happen limit child_ends s = elim s.running [
  | zero ↦ s
  | suc n ↦ record {
    intake = s.intake;
    running = n;
    ended = suc s.ended;
    in_handshake = s.in_handshake;
  }
]
happen limit (stalls p) s = record {
  intake = s.intake;
  running = s.running;
  ended = s.ended;
  in_handshake = true;
}
happen limit (comes p id h) s = elim s.in_handshake [
  | true ↦ s
  | false ↦
      let a = arrival_of p id h (ltb (s.running + s.ended) limit) in
      record {
        intake = tls_intake a s.intake;
        running = if starts_child a then suc s.running else s.running;
        ended = s.ended;
        in_handshake = false;
      }
]

unfoldable pub happen_all : ℕ → List Happening → Processes → Processes
unfolding happen
happen_all limit [] s = s
happen_all limit (h ∷ hs) s = happen_all limit hs (happen limit h s)
