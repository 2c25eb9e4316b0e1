-- ===== src/Connection/Socket.antt =====
-- What the operating system and OpenSSL tell a connection, call by call, and the constants of
-- src/server/include/project/server/http/http_constants.h. A call that no event of the list answers
-- blocks: the connection is then `waiting`.
use https_http_server.Shared.{ℕ, ◌*◌, List, Text, Bool}
use https_http_server.Status.RetCodes.{RetCode}

abbrev pub reception_buf_size : ℕ
reception_buf_size = 1024

abbrev pub reception_buf_limit : ℕ
reception_buf_limit = 8 * reception_buf_size

-- What `::recv` gives: -1, or the bytes that it puts in the buffer, none of them when the peer has
-- disconnected.
pub data Receipt : Type 0 where
  failed : Receipt
  bytes : Text → Receipt

pub data Errno : Type 0 where
  eintr eagain ewouldblock other : Errno

-- What `::send` gives: -1 with `errno`, or the bytes that it takes, at most as many as the number
-- here.
pub data Sending : Type 0 where
  refused : Errno → Sending
  sent : ℕ → Sending

-- `SSL_get_error`.
pub data SslError : Type 0 where
  want_read want_write zero_return other : SslError

-- What `SSL_read` gives: one or more bytes, or an error.
pub data TlsRead : Type 0 where
  got : ℕ → Text → TlsRead
  read_error : SslError → TlsRead

-- What `SSL_write` gives: it takes at least one byte, and at most one more than the number here; or an
-- error.
pub data TlsWrite : Type 0 where
  wrote : ℕ → TlsWrite
  write_error : SslError → TlsWrite

-- How a call of the connection ends: it returns, it blocks, it has read beyond a buffer, or an
-- exception has left a `noexcept` function.
pub data Ended : Type 0 where
  returned : Bool → Ended
  waiting undefined terminated : Ended

-- How a call that sends ends: what it returns, the bytes on the wire, and the events that are left.
pub record Sent {ℓ} (E : Type ℓ) : Type ℓ where
  pub result : Ended
  pub wire : Text
  pub left : List E

-- How the loop that receives ends: with a request and the events that are left, with `return false`
-- where the peer is gone, with an error that is answered, with a call that blocks, or with a read
-- beyond the buffer.
pub data Received {ℓ} (E : Type ℓ) : Type ℓ where
  complete : Text → List E → Received E
  disconnected : Received E
  erroneous : RetCode → Received E
  blocked : Received E
  undefined : Received E
