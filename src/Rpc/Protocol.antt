-- ===== src/Rpc/Protocol.antt =====
-- crates/node/src/rpc/protocol.rs, and `LogLine` of crates/containerd/src/containerd.rs as its text.
use mill.Prelude.{Option, List, ℕ, String, string_key, nat_key, Map}
use mill.Config.Runtime.{
  NodeId, AllocId, AllocStatus, ContainerSpec, ContainerStats, NodeResources, SocketAddr,
}
use mill.Prelude.Int.{ℤ}

pub record RegistryCredentials : Type 0 where
  pub username : String
  pub password : String

pub data NodeCommand : Type 0 where
  run : AllocId → ContainerSpec → Option RegistryCredentials → NodeCommand
  stop : AllocId → NodeCommand
  pull : String → Option RegistryCredentials → NodeCommand
  log_tail : AllocId → ℕ → NodeCommand
  log_follow : AllocId → NodeCommand
  log_unfollow : AllocId → NodeCommand

pub record VolumeInfo : Type 0 where
  pub name : String
  pub size_bytes : ℕ
  pub alloc_id : Option AllocId

pub record Heartbeat : Type 0 where
  pub node_id : NodeId
  pub alloc_statuses : Map AllocId AllocStatus
  pub resources : NodeResources
  pub stats : List ContainerStats
  pub volumes : List VolumeInfo

pub data NodeReport : Type 0 where
  heartbeat : Heartbeat → NodeReport
  run_started : AllocId → Option ℕ → Option SocketAddr → NodeReport
  stopped : AllocId → ℤ → NodeReport
  run_failed : AllocId → String → NodeReport
  pull_complete : String → NodeReport
  pull_failed : String → String → NodeReport
  log_lines : AllocId → List String → NodeReport
  status_update : AllocId → AllocStatus → NodeReport
