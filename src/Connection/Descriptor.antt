-- ===== src/Connection/Descriptor.antt =====
-- Who closes the client's file descriptor: `ClientConnection` and the constructors and destructors of
-- `HttpConnection`, of src/server/include/project/server/http/http_connection.h and
-- src/server/src/http/http_connection.cc, with `closeConnection`. The state is the list of the
-- descriptors that `close` is called with.
use https_http_server.Shared.{
  ℕ, zero, suc, ◌≡◌, ◌∙◌, List, [], ◌∷◌, ◌++◌, Text, Bool, true, false, if◌then◌else◌, arith,
}

-- A value of type `int`.
pub data ℤ : Type 0 where
  pos negsuc : ℕ → ℤ

abbrev pub invalid_socket : ℤ
invalid_socket = negsuc 0

abbrev pub empty_descriptor : ℤ
empty_descriptor = pos 0

-- `sockfd > 0`
abbrev pub is_positive : ℤ → Bool
is_positive (pos zero) = false
is_positive (pos (suc n)) = true
is_positive (negsuc n) = false

pub record ClientConnection : Type 0 where
  pub id : Text
  pub sockfd : ℤ
  pub ip : Text
  pub port : ℕ

-- `closeConnection(sockfd)`: the descriptor that is left, and the calls of `close`.
unfoldable pub close_connection : ℤ → List ℤ → ℤ × List ℤ
close_connection sockfd closed = elim (is_positive sockfd) [
  | true ↦ (empty_descriptor, closed ++ sockfd ∷ [])
  | false ↦ (invalid_socket, closed)
]

-- `~ClientConnection`
unfoldable pub drop_client : ClientConnection → List ℤ → List ℤ
drop_client client closed = elim (is_positive client.sockfd) [
  | true ↦ closed ++ client.sockfd ∷ []
  | false ↦ closed
]

-- The defaulted move constructor: the new object and what it leaves. The texts move, and the numbers
-- are copied.
unfoldable pub move_client : ClientConnection → ClientConnection × ClientConnection
move_client client =
    (client, record { id = []; sockfd = client.sockfd; ip = []; port = client.port })

-- `~HttpConnection`, and then the destructor of its member `client_`.
unfoldable pub drop_connection : ClientConnection → List ℤ → List ℤ
unfolding close_connection drop_client
drop_connection client closed =
    let (sockfd, closed') = close_connection client.sockfd closed in
    drop_client (record { id = client.id; sockfd = sockfd; ip = client.ip; port = client.port })
      closed'

-- `~HttpsConnection`, whose result of `SSL_shutdown` is only logged, and then `~HttpConnection`, on the
-- number of its `SSL` object: the objects that are freed, and the calls of `close`.
unfoldable pub drop_tls_connection : ℕ → ClientConnection → List ℕ → List ℤ → List ℕ × List ℤ
unfolding drop_connection
drop_tls_connection ssl client freed closed = (freed ++ ssl ∷ [], drop_connection client closed)

-- A round of `clientIntakeCycle` in the child, from `fork` to `_exit`: the server's descriptor is
-- closed, a connection is made of the client, and it is destroyed. `_exit` runs no destructor, so what
-- the move has left of the client is not destroyed.
unfoldable pub closed_by_child : ℤ → ClientConnection → List ℤ
unfolding move_client drop_connection
closed_by_child server_fd client =
    let (member, left) = move_client client in drop_connection member (server_fd ∷ [])

-- The same round in the parent: the client's scope ends.
unfoldable pub closed_by_parent : ClientConnection → List ℤ
unfolding drop_client
closed_by_parent client = drop_client client []

-- Destroying a connection closes its descriptor once, where it is above 0, and no other.
pub drop_connection_once :
    (client : ClientConnection) (closed : List ℤ)
    → drop_connection client closed
      ≡ (if is_positive client.sockfd then closed ++ client.sockfd ∷ [] else closed)
unfolding drop_connection close_connection drop_client
drop_connection_once client closed = ground arith

-- With a client's descriptor above 0, the child calls `close` on the server's descriptor and then
-- once on the client's, and the parent once on the client's, and neither on any other.
pub fork_closes :
    (server_fd : ℤ) (client : ClientConnection)
    → is_positive client.sockfd ≡ true
    → (closed_by_child server_fd client ≡ server_fd ∷ client.sockfd ∷ [])
      × (closed_by_parent client ≡ client.sockfd ∷ [])
unfolding closed_by_child closed_by_parent move_client drop_client
fork_closes server_fd client h =
    (drop_connection_once client (server_fd ∷ []) ∙ ground arith, ground arith)
