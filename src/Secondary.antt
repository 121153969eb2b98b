-- ===== src/Secondary.antt =====
-- crates/node/src/secondary: what a node keeps of its own allocations, and how it runs them.
pub mod Logs
pub mod Allocations
pub mod Runner
pub mod Metrics
pub mod Beat
pub mod Reconcile
pub mod Reporting
