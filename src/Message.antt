-- ===== src/Message.antt =====
-- Requests and responses: src/server/include/project/server/http/http_message.h and
-- src/server/src/http/http_message.cc. `Method` has the request methods, `Fields` the
-- case-insensitive header map, `Envelope` the two structs and `makeResp`.
pub mod Method
pub mod Fields
pub mod Envelope
