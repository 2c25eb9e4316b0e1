-- ===== src/Server/Life.antt =====
-- The rest of `HttpServer`, of src/server/include/project/server/http/http_server.h and
-- src/server/src/http/http_server.cc, and the constructor and the destructor of `HttpsServer`, of
-- src/server/src/http/https_server.cc. Log lines are not modelled.
pub mod Descriptors
use https_http_server.Shared.{ℕ, List, [], ◌∷◌, ◌++◌, Option, none, some, Bool, true, false, ◌&&◌}
use https_http_server.Connection.Descriptor.{ℤ, empty_descriptor}
use https_http_server.Server.Binding.{Address, HttpServer, close_connection, build_socket, listens}

-- `HttpServer()`
unfoldable pub new_server : HttpServer
new_server = record { sockfd = empty_descriptor; servinfo = [] }

-- `HttpServer::swap`
unfoldable pub swap : HttpServer → HttpServer → HttpServer × HttpServer
swap server other = (other, server)

-- `HttpServer::stopListen`: the server, and the calls of `close`.
unfoldable pub stop_listen : HttpServer → List ℤ → HttpServer × List ℤ
unfolding close_connection
stop_listen server closed =
    let (sockfd, closed') = close_connection server.sockfd closed in
    (record server { sockfd = sockfd }, closed')

-- `~HttpServer`: the chain that is freed, and the calls of `close`.
unfoldable pub drop_server : HttpServer → List ℤ → List Address × List ℤ
unfolding close_connection
drop_server server closed = (server.servinfo, (close_connection server.sockfd closed).1)

-- How `listen` ends: it returns; it takes clients, and does not return; or it reads freed memory.
pub data Listened : Type 0 where
  refused : HttpServer → List ℤ → Listened
  taking : HttpServer → List ℤ → Listened
  undefined : Listened

-- `listen(host, port, max_connections, bufsize)`, on the result of `getaddrinfo` and the success of
-- `::listen`.
unfoldable pub listen : Option (List Address) → ℤ → ℤ → Bool → HttpServer → Listened
unfolding build_socket listens
listen addresses max_connections bufsize heard server = elim (build_socket addresses server) [
  | none ↦ undefined
  | some (server', is_built, closed) ↦ elim (is_built && listens max_connections bufsize heard) [
    | true ↦ taking server' closed
    | false ↦ refused server' closed
  ]
]

-- The success of the calls of the constructor of `HttpsServer`, in their order.
pub record TlsCalls : Type 0 where
  pub created : Bool
  pub certificate : Bool
  pub private_key : Bool
  pub matches : Bool

-- How the constructor ends: with a server that owns a context; or with an `SSLException`, and whether
-- a context was made before, which no destructor frees.
pub data Constructed : Type 0 where
  constructed : Constructed
  thrown : Bool → Constructed

-- `HttpsServer(cert, key)`
unfoldable pub new_https_server : TlsCalls → Constructed
new_https_server calls = elim calls.created [
  | false ↦ thrown false
  | true ↦ elim calls.certificate [
    | false ↦ thrown true
    | true ↦ elim calls.private_key [
      | false ↦ thrown true
      | true ↦ elim calls.matches [ false ↦ thrown true | true ↦ constructed ]
    ]
  ]
]

-- `~HttpsServer`, and then `~HttpServer`, on the number of its context: the contexts that are freed, the
-- chain that is freed, and the calls of `close`.
unfoldable pub drop_https_server :
    ℕ → HttpServer → List ℕ → List ℤ → List ℕ × (List Address × List ℤ)
unfolding drop_server
drop_https_server ctx server freed closed = (freed ++ ctx ∷ [], drop_server server closed)
