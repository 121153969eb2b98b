-- ===== src/Fsm.antt =====
-- crates/raft/src/fsm: the replicated state machine. `State` and `Command` are its data,
-- `Apply` is `apply_command`, and the other modules prove what it keeps.
pub mod State
pub mod Command
pub mod Apply
pub mod Errors
pub mod Valid
pub mod Heartbeat
pub mod Removal
pub mod Resources
