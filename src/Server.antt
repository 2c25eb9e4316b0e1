-- ===== src/Server.antt =====
-- The servers of src/server/src/http/http_server.cc and https_server.cc: `Binding` makes the socket
-- that listens, and `Intake` takes the clients.
pub mod Binding
pub mod Intake
pub mod Address
pub mod Life
pub mod Children
pub mod Processes
mod Examples
