-- ===== src/Primary.antt =====
-- crates/node/src/primary: what the leader of the cluster does.
pub mod Health
pub mod World
pub mod Resolve
pub mod Start
pub mod Rollout
pub mod Rolling
pub mod Tasks
pub mod Watcher
pub mod Nodes
pub mod Dns
pub mod Reports
pub mod Processor
