-- ===== src/Deploy.antt =====
-- crates/node/src/primary/deploy: what a deploy changes, and what it refuses.
pub mod Equality
pub mod Diff
pub mod Partition
pub mod Validate
pub mod Secrets
