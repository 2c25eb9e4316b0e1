-- ===== src/Server/Life/Descriptors.antt =====
-- What a server closes in its life, and what the constructor of a TLS server leaves.
use https_http_server.Shared.{
  ℕ, zero, suc, ◌≡◌, refl, ap, ◌∙◌, List, [], ◌∷◌, ◌++◌, true, false, if◌then◌else◌, ◌&&◌,
  Bool-cases, arith, inl, inr,
}
use https_http_server.Connection.Descriptor.{ℤ, is_positive, invalid_socket, empty_descriptor}
use https_http_server.Server.Binding.{HttpServer, close_connection}
use https_http_server.Server.Life.{
  stop_listen, drop_server, TlsCalls, constructed, thrown, new_https_server,
}

-- Any number of calls of `stopListen`, and then the destructor: the calls of `close`.
abbrev pub closes : ℕ → HttpServer → List ℤ → List ℤ
closes zero server closed = (drop_server server closed).1
closes (suc n) server closed =
    let (server', closed') = stop_listen server closed in closes n server' closed'

close_none :
    (sockfd : ℤ) (closed : List ℤ)
    → is_positive sockfd ≡ false
    → close_connection sockfd closed ≡ (invalid_socket, closed)
unfolding close_connection
close_none sockfd closed h = rw (h, close_connection) refl

close_some :
    (sockfd : ℤ) (closed : List ℤ)
    → is_positive sockfd ≡ true
    → close_connection sockfd closed ≡ (empty_descriptor, closed ++ sockfd ∷ [])
unfolding close_connection
close_some sockfd closed h = rw (h, close_connection) refl

closed_already :
    (n : ℕ) (server : HttpServer) (closed : List ℤ)
    → is_positive server.sockfd ≡ false
    → closes n server closed ≡ closed
unfolding drop_server stop_listen
closed_already zero server closed h = ap (λ x. x.1) (close_none server.sockfd closed h)
closed_already (suc n) server closed h =
    ap (λ x. closes n (record server { sockfd = x.0 }) x.1) (close_none server.sockfd closed h)
    ∙ closed_already n (record server { sockfd = invalid_socket }) closed refl

closed_first :
    (n : ℕ) (server : HttpServer)
    → is_positive server.sockfd ≡ true
    → closes n server [] ≡ server.sockfd ∷ []
unfolding drop_server stop_listen
closed_first zero server h = ap (λ x. x.1) (close_some server.sockfd [] h)
closed_first (suc n) server h =
    ap (λ x. closes n (record server { sockfd = x.0 }) x.1) (close_some server.sockfd [] h)
    ∙ closed_already n (record server { sockfd = empty_descriptor }) (server.sockfd ∷ []) refl

-- However often a server is stopped before it is destroyed, it closes its socket once, if it has one.
pub closes_once :
    (n : ℕ) (server : HttpServer)
    → closes n server [] ≡ (if is_positive server.sockfd then server.sockfd ∷ [] else [])
closes_once n server = elim (Bool-cases (is_positive server.sockfd)) [
  | inl y ↦ closed_first n server y ∙ simp (y) refl
  | inr k ↦ closed_already n server [] k ∙ simp (k) refl
]

-- The constructor of `HttpsServer` gives a server exactly if its four calls succeed; and where it
-- throws, a context that was made is not freed.
pub new_https_server_lem :
    (calls : TlsCalls)
    → new_https_server calls ≡ (
        if calls.created && (calls.certificate && (calls.private_key && calls.matches))
        then constructed
        else thrown calls.created)
unfolding new_https_server
new_https_server_lem calls = ground arith
