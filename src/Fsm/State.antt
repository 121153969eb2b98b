-- ===== src/Fsm/State.antt =====
-- crates/raft/src/fsm/state.rs
use mill.Prelude.{
  string_key, nat_key, ℕ, ◌+◌, ◌-◌, ◌%◌, ◌^◌, String, Option, none, List, [], ◌∷◌, Map, keys,
  values, lookup, filterb, find_first, str_eq, and_then, option_map, if◌then◌else◌,
}
use mill.Prelude.Float.{F64, Float}
use mill.Config.Runtime.{
  NodeId, AllocId, SocketAddr, NodeResources, NodeStatus, AllocKind, AllocStatus, AllocResources,
  Alloc, VolumeState, is_terminal,
}
use mill.Config.Resolved.{ClusterConfig}

pub record FsmNode : Type 0 where
  pub raft_id : ℕ
  pub mill_id : NodeId
  pub address : SocketAddr
  pub resources : NodeResources
  pub status : NodeStatus
  pub wireguard_pubkey : Option String
  pub instance_id : Option String
  pub rpc_address : Option SocketAddr
  pub advertise_addr : Option String

pub record EncryptedSecret : Type 0 where
  pub encrypted_value : List ℕ
  pub nonce : List ℕ

pub record FsmVolume : Type 0 where
  pub cloud_id : String
  pub state : VolumeState

pub record FsmState : Type 0 where
  pub config : Option ClusterConfig
  pub nodes : Map ℕ FsmNode
  pub allocs : Map AllocId Alloc
  pub secrets : Map String EncryptedSecret
  pub volumes : Map String FsmVolume

-- `#[derive(Default)]`
abbrev pub default_state : FsmState
default_state = record { config = none; nodes = []; allocs = []; secrets = []; volumes = [] }

abbrev pub list_nodes : FsmState → List FsmNode
list_nodes s = values s.nodes

abbrev pub list_allocs : FsmState → List Alloc
list_allocs s = values s.allocs

abbrev pub list_service_allocs : FsmState → String → List Alloc
list_service_allocs s name = filterb (λ a. str_eq a.name name) (values s.allocs)

abbrev pub get_secret : FsmState → String → Option EncryptedSecret
get_secret s name = lookup name s.secrets

abbrev pub list_secret_names : FsmState → List String
list_secret_names s = keys s.secrets

abbrev pub list_volumes : FsmState → List (String × FsmVolume)
list_volumes s = s.volumes

abbrev pub u64_mod : ℕ
u64_mod = 2 ^ 64

-- The loop over the allocations: the sums of `cpu` and `memory` so far, the second a `u64`.
unfoldable pub sum_used : Float → NodeId → F64 → ℕ → List Alloc → F64 × ℕ
sum_used f mill_id cpu_used mem_used [] = (cpu_used, mem_used)
sum_used f mill_id cpu_used mem_used (a ∷ as') =
    let counts = str_eq a.node mill_id in
    let skip = is_terminal a.status in
    let rest =
      sum_used f mill_id
        (if counts
          then (if skip then cpu_used else Float.add f cpu_used a.resources.cpu)
          else cpu_used)
        (if counts
          then (if skip then mem_used else (mem_used + a.resources.memory) % u64_mod)
          else mem_used)
        as' in
    rest

unfoldable pub available_on : Float → FsmState → FsmNode → NodeResources
unfolding sum_used
available_on f s node =
    let (cpu_used, mem_used) = sum_used f node.mill_id (Float.zero_f64 f) 0 (values s.allocs) in
    record {
      cpu_total = node.resources.cpu_total;
      cpu_available = Float.sub f node.resources.cpu_total cpu_used;
      memory_total = node.resources.memory_total;
      memory_available = node.resources.memory_total - mem_used;
    }

unfoldable pub node_available_resources : Float → FsmState → ℕ → Option NodeResources
unfolding available_on
node_available_resources f s node_id = option_map (available_on f s) (lookup node_id s.nodes)

abbrev pub instance_id_for : FsmState → ℕ → Option String
instance_id_for s raft_id = and_then (lookup raft_id s.nodes) (λ n. n.instance_id)

abbrev pub raft_id_for : FsmState → NodeId → Option ℕ
raft_id_for s mill_id =
    option_map (λ n. n.raft_id) (find_first (λ n. str_eq n.mill_id mill_id) (values s.nodes))

abbrev pub make_alloc :
    AllocId → NodeId → String → AllocKind → Option SocketAddr → AllocResources → Alloc
make_alloc alloc_id node_mill_id name kind address resources = record {
  id = alloc_id;
  node = node_mill_id;
  name = name;
  kind = kind;
  status = AllocStatus.pulling;
  address = address;
  resources = resources;
  started_at = none;
}
