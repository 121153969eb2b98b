-- ===== src/Watchdog.antt =====
-- crates/node/src/primary/watchdog.rs: the background check of the nodes and of the services.
pub mod Restarts
pub mod Backoff
pub mod Heartbeats
pub mod Silence
