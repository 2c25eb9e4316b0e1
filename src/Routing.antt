-- ===== src/Routing.antt =====
-- Routing, of src/routing: `Tree` is the tree of handlers, `Router` and `Manager` the classes over
-- it. The proofs stand in the modules that are named for what they prove.
pub mod Hash
pub mod Tree
pub mod Router
mod Examples
