-- ===== src/Server/Intake.antt =====
-- `acceptConnection` and `clientIntakeCycle`, of src/server/src/http/http_server.cc, and
-- `clientIntakeCycle` and `sslHandshake`, of src/server/src/http/https_server.cc, in the process that
-- takes the clients. The loops do not end: they are run on the list of the clients that arrive. Log
-- lines are not modelled.
pub mod Clients
pub mod Sessions
use https_http_server.Shared.{
  ℕ, zero, suc, ◌+◌, ◌-◌, List, [], ◌∷◌, ◌++◌, Text, Option, none, some, Bool, true, false,
}
use https_http_server.Connection.Descriptor.{
  ℤ, pos, negsuc, invalid_socket, ClientConnection, drop_client,
}

-- What `accept` gives with the address of the client.
pub record Peer : Type 0 where
  pub sockfd : ℤ
  pub ip : Text
  pub port : ℕ

-- What `SSL_new` and `SSL_accept` give.
pub data Handshake : Type 0 where
  no_ssl refused accepted : Handshake

-- One round: what `accept` gives, `none` for -1, the identifier that is drawn, the handshake (TLS
-- only), and whether `fork` starts a child.
pub record Arrival : Type 0 where
  pub peer : Option Peer
  pub id : Text
  pub handshake : Handshake
  pub is_forked : Bool

-- The descriptors that the process has closed, the clients that its children serve, and how many SSL
-- objects it has made and not freed.
pub record Intake : Type 0 where
  pub closed : List ℤ
  pub children : List ClientConnection
  pub ssl_objects : ℕ

-- `client.sockfd == kInvalidSocket`
abbrev pub is_invalid : ℤ → Bool
is_invalid (pos n) = false
is_invalid (negsuc zero) = true
is_invalid (negsuc (suc n)) = false

unfoldable pub accept_connection : Arrival → ClientConnection
accept_connection a = elim a.peer [
  | none ↦ record { id = []; sockfd = invalid_socket; ip = []; port = 0 }
  | some p ↦ record { id = a.id; sockfd = p.sockfd; ip = p.ip; port = p.port }
]

-- The end of a round: the client's destructor runs.
abbrev pub leave : ClientConnection → Intake → Intake
leave client s = record {
  closed = drop_client client s.closed;
  children = s.children;
  ssl_objects = s.ssl_objects;
}

-- `fork`: the child has a copy of the client.
abbrev pub dispatch : Bool → ClientConnection → Intake → Intake
dispatch false client s = s
dispatch true client s = record {
  closed = s.closed;
  children = s.children ++ client ∷ [];
  ssl_objects = s.ssl_objects;
}

-- A round of `HttpServer::clientIntakeCycle`.
unfoldable pub intake : Arrival → Intake → Intake
unfolding accept_connection drop_client
intake a s =
    let client = accept_connection a in
    elim (is_invalid client.sockfd) [
      | true ↦ leave client s
      | false ↦ leave client (dispatch a.is_forked client s)
    ]

-- `sslHandshake`: whether there is a session, and the SSL objects.
unfoldable pub ssl_handshake : Handshake → Intake → Bool × Intake
ssl_handshake no_ssl s = (false, s)
ssl_handshake refused s = (
  false,
  record { closed = s.closed; children = s.children; ssl_objects = s.ssl_objects + 1 - 1 },
)
ssl_handshake accepted s =
    (true, record { closed = s.closed; children = s.children; ssl_objects = s.ssl_objects + 1 })

-- A round of `HttpsServer::clientIntakeCycle`.
unfoldable pub tls_intake : Arrival → Intake → Intake
unfolding accept_connection drop_client ssl_handshake
tls_intake a s =
    let client = accept_connection a in
    elim (is_invalid client.sockfd) [
      | true ↦ leave client s
      | false ↦
          let (has_session, s') = ssl_handshake a.handshake s in
          elim has_session [
            | false ↦ leave client s'
            | true ↦ leave client (dispatch a.is_forked client s')
          ]
    ]

-- A loop, on the clients that arrive.
unfoldable pub rounds : (Arrival → Intake → Intake) → List Arrival → Intake → Intake
rounds step [] s = s
rounds step (a ∷ arrivals) s = rounds step arrivals (step a s)
