-- ===== src/Rpc.antt =====
-- crates/node/src/rpc: the messages between the nodes, and the routes that they take.
pub mod Protocol
pub mod Router
pub mod Reconnect
pub mod Codec
pub mod Framing
