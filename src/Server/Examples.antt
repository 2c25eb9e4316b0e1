-- ===== src/Server/Examples.antt =====
-- Instances of the theorems on the servers.
use https_http_server.Shared.{◌≡◌, refl, List, [], ◌∷◌, ◌++◌, map, codes, some, none, true, false}
use https_http_server.Connection.Descriptor.{ℤ, pos}
use https_http_server.Server.Binding.{Address, HttpServer, build_socket}
use https_http_server.Server.Binding.Sockets.{unbound, socketless, build_socket-socketless}
use https_http_server.Server.Intake.{
  Peer, Handshake, Arrival, Intake, tls_intake, accept_connection, rounds,
}
use https_http_server.Server.Processes.{Happening, comes, child_ends, happen_all}
use https_http_server.Server.Processes.Room.{happen_all-served}
use https_http_server.Server.Intake.Clients.{client_fds, served, has_session, sessions, after}
use https_http_server.Server.Intake.Sessions.{tls_intake-rounds}

abbrev server : HttpServer
server = record { sockfd = pos 3; servinfo = [] }

abbrev bindable : Address
bindable = record { socket = some (pos 5); reuse_addr = false; reuse_port = true; bind = true }

build_socket-socketless_example :
    build_socket
      (some (map unbound ((pos 4, true) ∷ []) ++ socketless true true true ∷ bindable ∷ []))
      server
    ≡ none
build_socket-socketless_example =
    build_socket-socketless ((pos 4, true) ∷ []) true true true (bindable ∷ []) server (refl, tt)

abbrev arrivals : List Arrival
arrivals =
    record { peer = none; id = codes "1"; handshake = Handshake.accepted; is_forked = true }
    ∷ record {
      peer = some (record { sockfd = pos 6; ip = codes "::1"; port = 4000 });
      id = codes "2";
      handshake = Handshake.accepted;
      is_forked = true;
    }
    ∷ record {
      peer = some (record { sockfd = pos 7; ip = codes "::1"; port = 4001 });
      id = codes "3";
      handshake = Handshake.refused;
      is_forked = true;
    }
    ∷ []

abbrev start : Intake
start = record { closed = []; children = []; ssl_objects = 0 }

tls_intake-rounds_example :
    rounds tls_intake arrivals start
    ≡ after start (client_fds arrivals) (served has_session arrivals) (sessions arrivals)
tls_intake-rounds_example = tls_intake-rounds arrivals start (tt, (refl, (refl, tt)))

abbrev peer : ℤ → Peer
peer fd = record { sockfd = fd; ip = codes "::1"; port = 4000 }

abbrev happenings : List Happening
happenings =
    comes (peer (pos 6)) (codes "1") Handshake.accepted
    ∷ child_ends
    ∷ comes (peer (pos 7)) (codes "2") Handshake.accepted
    ∷ []

-- With room for one child, the second client is not served, although no child runs when it comes.
happen_all-served_example :
    (happen_all 1 happenings
      (record { intake = start; running = 0; ended = 0; in_handshake = false })).intake.children
    ≡ record { id = codes "1"; sockfd = pos 6; ip = codes "::1"; port = 4000 } ∷ []
unfolding accept_connection
happen_all-served_example =
    happen_all-served 1 happenings
      (record { intake = start; running = 0; ended = 0; in_handshake = false }) refl
      (refl, (tt, (refl, tt)))
