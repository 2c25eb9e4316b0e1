-- ===== src/Server/Binding.antt =====
-- `HttpServer::buildSocket` and `listenInternal`, of src/server/src/http/http_server.cc. The result of
-- `getaddrinfo` is the list of its addresses, each with what the calls on it give. `freeaddrinfo`
-- frees the address that it is given and all behind it. Log lines are not modelled.
pub mod Sockets
use https_http_server.Shared.{
  ℕ, List, [], ◌∷◌, ◌++◌, Option, none, some, Bool, true, false, if◌then◌else◌, leb,
}
use https_http_server.Connection.Descriptor.{
  ℤ, pos, negsuc, invalid_socket, empty_descriptor, is_positive,
}

-- What the calls on one address give: `socket`, `none` for -1; whether `setsockopt` succeeds for each
-- of the two options; and whether `bind` does.
pub record Address : Type 0 where
  pub socket : Option ℤ
  pub reuse_addr : Bool
  pub reuse_port : Bool
  pub bind : Bool

-- `sockfd_`, and the chain that `servinfo_` points to, empty for null.
pub record HttpServer : Type 0 where
  pub sockfd : ℤ
  pub servinfo : List Address

-- `HttpServer::closeConnection`: the descriptor that is left, and the calls of `close`.
unfoldable pub close_connection : ℤ → List ℤ → ℤ × List ℤ
close_connection sockfd closed = elim (is_positive sockfd) [
  | true ↦ (empty_descriptor, closed ++ sockfd ∷ [])
  | false ↦ (invalid_socket, closed)
]

-- `setSockOptions`: the fold over the comma has the value of the last call.
unfoldable pub set_sock_options : List Bool → Bool
set_sock_options [] = true
set_sock_options (r ∷ []) = r
set_sock_options (r ∷ s ∷ rs) = set_sock_options (s ∷ rs)

-- How the loop of `buildSocket` ends, with the descriptors that were closed: with a socket and the
-- chain from its address on, with none, or with a read of freed memory.
pub data Built : Type 0 where
  built : ℤ → List Address → List ℤ → Built
  failed : List ℤ → Built
  undefined : Built

-- The loop of `buildSocket`; `freed` tells whether the chain from here on is freed.
unfoldable pub build_loop : Bool → List Address → List ℤ → Built
unfolding close_connection set_sock_options
build_loop freed [] closed = failed closed
build_loop true (a ∷ more) closed = undefined
build_loop false (a ∷ more) closed = elim a.socket [
  | none ↦ build_loop true more closed
  | some sockfd ↦ elim (set_sock_options (a.reuse_addr ∷ a.reuse_port ∷ [])) [
    | false ↦ failed (close_connection sockfd closed).1
    | true ↦ elim a.bind [
      | false ↦ build_loop false more (close_connection sockfd closed).1
      | true ↦ built sockfd (a ∷ more) closed
    ]
  ]
]

-- `buildSocket` on the result of `getaddrinfo`, `none` where that fails: the server, what is
-- returned, and the descriptors that were closed; `none` where freed memory is read.
unfoldable pub build_socket :
    Option (List Address) → HttpServer → Option (HttpServer × Bool × List ℤ)
unfolding build_loop close_connection
build_socket none server = some (server, false, [])
build_socket (some servinfo) server = elim (build_loop false servinfo []) [
  | built sockfd p closed ↦
      some
        (record { sockfd = sockfd; servinfo = p }, true, (close_connection server.sockfd closed).1)
  | failed closed ↦ some (server, false, closed)
  | undefined ↦ none
]

-- A number that may be negative, tested by `<= 0`.
abbrev pub is_above_zero : ℤ → Bool
is_above_zero n = is_positive n

-- `listenInternal` up to the loop: whether the loop of `clientIntakeCycle` is entered; `heard` is the
-- success of `::listen`.
unfoldable pub listens : ℤ → ℤ → Bool → Bool
listens max_connections bufsize heard = elim (is_above_zero max_connections) [
  | false ↦ false
  | true ↦ elim (is_above_zero bufsize) [ false ↦ false | true ↦ heard ]
]
