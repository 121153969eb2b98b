-- ===== src/Config.antt =====
-- crates/config/src/types: the types that the crates share.
pub mod Runtime
pub mod Env
pub mod Resolved
