-- ===== src/Connection.antt =====
-- The connections of src/server/src/http/http_connection.cc (`Http`) and https_connection.cc
-- (`Https`), over the sockets of `Socket`; `Descriptor` is the ownership of the file descriptor.
pub mod Socket
pub mod Http
pub mod Https
pub mod Descriptor
mod Examples
