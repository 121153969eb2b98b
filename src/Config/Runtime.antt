-- ===== src/Config/Runtime.antt =====
-- crates/config/src/types/runtime.rs and interface.rs. The newtypes over `String` are the text;
-- a `Duration`, an `Instant` and a `SystemTime` are numbers of nanoseconds; a `ByteSize` is a
-- number of bytes.
use mill.Prelude.{ℕ, String, Bool, true, false, Option, List, Map}
use mill.Prelude.Float.{F64}
use mill.Prelude.Int.{ℤ}

abbrev pub NodeId : Type 0
NodeId = String

abbrev pub AllocId : Type 0
AllocId = String

pub data IpAddr : Type 0 where
  v4 : ℕ → IpAddr
  v6 : ℕ → IpAddr

pub record SocketAddr : Type 0 where
  pub ip : IpAddr
  pub port : ℕ

pub record NodeResources : Type 0 where
  pub cpu_total : F64
  pub cpu_available : F64
  pub memory_total : ℕ
  pub memory_available : ℕ

pub data NodeStatus : Type 0 where
  ready draining down : NodeStatus

pub data AllocKind : Type 0 where
  service task : AllocKind

pub data AllocStatus : Type 0 where
  pulling starting running healthy : AllocStatus
  stopped : ℤ → AllocStatus
  failed : String → AllocStatus

-- Running or Healthy.
abbrev pub is_active : AllocStatus → Bool
is_active running = true
is_active healthy = true
is_active _ = false

-- Stopped or Failed.
abbrev pub is_terminal : AllocStatus → Bool
is_terminal (stopped exit_code) = true
is_terminal (failed reason) = true
is_terminal _ = false

-- `==` on the two enums without data.
abbrev pub is_ready : NodeStatus → Bool
is_ready ready = true
is_ready _ = false

abbrev pub is_down : NodeStatus → Bool
is_down down = true
is_down _ = false

abbrev pub is_service : AllocKind → Bool
is_service service = true
is_service task = false

abbrev pub is_task : AllocKind → Bool
is_task task = true
is_task service = false

pub record AllocResources : Type 0 where
  pub cpu : F64
  pub memory : ℕ

pub record Alloc : Type 0 where
  pub id : AllocId
  pub node : NodeId
  pub name : String
  pub kind : AllocKind
  pub status : AllocStatus
  pub address : Option SocketAddr
  pub resources : AllocResources
  pub started_at : Option ℕ

pub data VolumeState : Type 0 where
  ready : VolumeState
  attached : NodeId → VolumeState

pub record ContainerVolume : Type 0 where
  pub name : String
  pub path : String
  pub ephemeral : Bool

pub record ContainerSpec : Type 0 where
  pub alloc_id : AllocId
  pub kind : AllocKind
  pub timeout : Option ℕ
  pub command : Option (List String)
  pub image : String
  pub env : Map String String
  pub port : Option ℕ
  pub host_port : Option ℕ
  pub cpu : F64
  pub memory : ℕ
  pub volumes : List ContainerVolume

pub record ProxyRoute : Type 0 where
  pub hostname : String
  pub path : String
  pub backend : SocketAddr
  pub websocket : Bool

pub record DnsRecord : Type 0 where
  pub name : String
  pub addresses : List SocketAddr

pub record ContainerStats : Type 0 where
  pub alloc_id : AllocId
  pub cpu_usage : F64
  pub memory_usage : ℕ
