-- ===== src/Codec.antt =====
-- `HttpCodec`, of src/server/src/http/http_codec.cc: `Parse` reads a request, `Serialize` prints a
-- response, and `Process` joins the two around the router.
pub mod Parse
pub mod Serialize
pub mod Process
mod Examples
