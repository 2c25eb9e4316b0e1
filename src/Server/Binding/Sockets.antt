-- ===== src/Server/Binding/Sockets.antt =====
-- The sockets that `buildSocket` opens and closes.
use https_http_server.Shared.{
  ◌≡◌, refl, sym, ap, ◌∙◌, List, [], ◌∷◌, ◌++◌, map, append_assoc, append-nil, none, some, Bool,
  true, false, All, Bool-cases, inl, inr, if◌then◌else◌,
}
use https_http_server.Connection.Descriptor.{ℤ, is_positive}
use https_http_server.Server.Binding.{
  Address, HttpServer, set_sock_options, close_connection, build_loop, build_socket,
}

-- An address whose socket opens and cannot be bound; the first option may fail.
abbrev pub unbound : ℤ × Bool → Address
unbound (fd, reuse_addr) = record {
  socket = some fd;
  reuse_addr = reuse_addr;
  reuse_port = true;
  bind = false;
}

abbrev pub socket_of : ℤ × Bool → ℤ
socket_of (fd, reuse_addr) = fd

abbrev pub IsOpen : ℤ × Bool → Type 0
IsOpen (fd, reuse_addr) = is_positive fd ≡ true

-- An address that cannot have a socket.
abbrev pub socketless : Bool → Bool → Bool → Address
socketless reuse_addr reuse_port bind = record {
  socket = none;
  reuse_addr = reuse_addr;
  reuse_port = reuse_port;
  bind = bind;
}

closes :
    (fd : ℤ) (closed : List ℤ)
    → is_positive fd ≡ true
    → (close_connection fd closed).1 ≡ closed ++ fd ∷ []
unfolding close_connection
closes fd closed h = rw (h, close_connection) refl

build_loop-unbound :
    (us : List (ℤ × Bool)) (more : List Address) (closed : List ℤ)
    → All IsOpen us
    → build_loop false (map unbound us ++ more) closed
      ≡ build_loop false more (closed ++ map socket_of us)
unfolding build_loop set_sock_options
build_loop-unbound [] more closed h = ap (build_loop false more) (sym (append-nil closed))
build_loop-unbound ((fd, r) ∷ us) more closed h =
    ap (build_loop false (map unbound us ++ more)) (closes fd closed h.0)
    ∙ (build_loop-unbound us more (closed ++ fd ∷ []) h.1
        ∙ ap (build_loop false more) (append_assoc closed (fd ∷ []) (map socket_of us)))

-- The descriptors that a server that has a socket closes when it gets another.
abbrev pub old_socket : HttpServer → List ℤ
old_socket server = if is_positive server.sockfd then server.sockfd ∷ [] else []

-- Where addresses that cannot be bound stand before one that can, and all their sockets open,
-- above 0 before that one, and take the option `SO_REUSEPORT`, `buildSocket` takes the socket of
-- that one and the chain from there on, and returns `true`; it has closed the socket of each
-- address before, in their order, and the old one of the server where that is above 0, and no
-- other. Whether an address takes the option `SO_REUSEADDR` changes nothing.
pub build_socket-unbound :
    (us : List (ℤ × Bool)) (fd : ℤ) (reuse_addr : Bool) (more : List Address) (server : HttpServer)
    → All IsOpen us
    → build_socket
        (some (
          map unbound us
          ++ record { socket = some fd; reuse_addr = reuse_addr; reuse_port = true; bind = true }
            ∷ more))
        server
      ≡ some (
        record {
          sockfd = fd;
          servinfo =
              record { socket = some fd; reuse_addr = reuse_addr; reuse_port = true; bind = true }
              ∷ more;
        },
        true,
        map socket_of us ++ old_socket server,
      )
unfolding build_socket build_loop set_sock_options close_connection
build_socket-unbound us fd reuse_addr more server h =
    let a : Address = record {
      socket = some fd;
      reuse_addr = reuse_addr;
      reuse_port = true;
      bind = true;
    } in
    rw (build_loop-unbound us (a ∷ more) [] h, build_socket)
      (elim (Bool-cases (is_positive server.sockfd)) [
        | inl y ↦ rw (y, close_connection) refl
        | inr n ↦
            rw (n, close_connection)
              (ap (λ c. some (record { sockfd = fd; servinfo = a ∷ more }, true, c))
                (sym (append-nil (map socket_of us))))
      ])

-- Where an address has no socket, behind addresses whose sockets open above 0, take the option
-- `SO_REUSEPORT` and cannot be bound, freed memory is read if another address follows; if none
-- does, `false` is returned, with the sockets before it closed.
pub build_socket-socketless :
    (us : List (ℤ × Bool)) (reuse_addr reuse_port bind : Bool) (more : List Address)
    (server : HttpServer)
    → All IsOpen us
    → build_socket (some (map unbound us ++ socketless reuse_addr reuse_port bind ∷ more)) server
      ≡ (elim more [ [] ↦ some (server, false, map socket_of us) | b ∷ rest ↦ none ])
unfolding build_socket build_loop
build_socket-socketless us r s b [] server h =
    rw (build_loop-unbound us (socketless r s b ∷ []) [] h, build_socket) refl
build_socket-socketless us r s b (c ∷ more) server h =
    rw (build_loop-unbound us (socketless r s b ∷ c ∷ more) [] h, build_socket) refl
