-- ===== src/Fsm/Command.antt =====
-- crates/raft/src/fsm/command.rs
use mill.Prelude.{ℕ, String, Option, List, Map}
use mill.Config.Runtime.{
  NodeId, AllocId, SocketAddr, NodeResources, AllocKind, AllocStatus, AllocResources,
}
use mill.Config.Resolved.{ClusterConfig}

-- The fields of `NodeRegister`.
pub record Registration : Type 0 where
  pub id : ℕ
  pub mill_id : NodeId
  pub address : SocketAddr
  pub resources : NodeResources
  pub wireguard_pubkey : Option String
  pub instance_id : Option String
  pub rpc_address : Option SocketAddr
  pub advertise_addr : Option String

-- The fields of `AllocScheduled`.
pub record Placement : Type 0 where
  pub alloc_id : AllocId
  pub node_id : ℕ
  pub name : String
  pub kind : AllocKind
  pub address : Option SocketAddr
  pub resources : AllocResources

pub data Command : Type 0 where
  deploy : ClusterConfig → Command
  node_register : Registration → Command
  node_heartbeat : ℕ → Map AllocId AllocStatus → Command
  node_down : ℕ → Command
  alloc_scheduled : Placement → Command
  alloc_status : AllocId → AllocStatus → Command
  alloc_running : AllocId → Option SocketAddr → Option ℕ → Command
  secret_set : String → List ℕ → List ℕ → Command
  secret_delete : String → Command
  volume_created : String → String → Command
  volume_attached : String → ℕ → Command
  volume_detached : String → Command
  volume_destroyed : String → Command
  node_drain : ℕ → Command
  node_remove : ℕ → Command

pub data Response : Type 0 where
  ok : Response
  error : String → Response
