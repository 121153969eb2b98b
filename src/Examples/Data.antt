-- ===== src/Examples/Data.antt =====
-- The inputs that the examples share.
use mill.Prelude.{
  ◌/◌, none, some, false, ◌∷◌, [], ℕ, ◌+◌, ◌-◌, ltb, leb, ◌==◌, String, string_key, nat_key, max,
}
use mill.Prelude.Float.{Float}
use mill.Config.Runtime.{
  IpAddr, SocketAddr, NodeResources, NodeStatus, AllocKind, AllocStatus, Alloc, NodeId,
}
use mill.Config.Resolved.{ServiceDef, ClusterConfig}
use mill.Fsm.State.{FsmNode, FsmState}
use mill.Fsm.Command.{Registration, Placement}

-- Whole numbers for floats.
abbrev pub whole : Float
whole = record {
  zero_f64 = 0;
  add = λ a b. a + b;
  sub = λ a b. a - b;
  div = λ a b. a / b;
  eq = λ a b. a == b;
  lt = ltb;
  le = leb;
  f64_max = max;
  of_u64 = λ n. n;
}

abbrev pub addr : ℕ → SocketAddr
addr port = record { ip = IpAddr.v4 2130706433; port = port }

abbrev pub total : NodeResources
total = record { cpu_total = 4; cpu_available = 4; memory_total = 8000; memory_available = 8000 }

abbrev pub node_of : ℕ → NodeId → FsmNode
node_of id name = record {
  raft_id = id;
  mill_id = name;
  address = addr 4400;
  resources = total;
  status = NodeStatus.ready;
  wireguard_pubkey = none;
  instance_id = none;
  rpc_address = none;
  advertise_addr = none;
}

abbrev pub alloc_of : String → NodeId → AllocStatus → Alloc
alloc_of id node status = record {
  id = id;
  node = node;
  name = "web";
  kind = AllocKind.service;
  status = status;
  address = some (addr 50000);
  resources = record { cpu = 1; memory = 500 };
  started_at = none;
}

abbrev pub web_def : ServiceDef
web_def = record {
  image = "web:1";
  port = 80;
  replicas = 2;
  resources = record { cpu = 1; memory = 500 };
  env = [];
  command = none;
  health = none;
  routes = record { hostname = "a.b"; path = "/api"; websocket = false } ∷ [];
  volumes = [];
}

abbrev pub config : ClusterConfig
config = record { services = ("web", web_def) ∷ []; tasks = [] }

-- Two nodes, an allocation that runs on the first and one that has stopped on the second.
abbrev pub cluster : FsmState
cluster = record {
  config = some config;
  nodes = (1, node_of 1 "n1") ∷ (2, node_of 2 "n2") ∷ [];
  allocs =
      ("web-1", alloc_of "web-1" "n1" AllocStatus.running)
      ∷ ("web-2", alloc_of "web-2" "n2" (AllocStatus.failed "oom"))
      ∷ [];
  secrets = [];
  volumes = [];
}

abbrev pub registration : Registration
registration = record {
  id = 1;
  mill_id = "n1";
  address = addr 4400;
  resources = total;
  wireguard_pubkey = none;
  instance_id = none;
  rpc_address = none;
  advertise_addr = none;
}

abbrev pub placement : Placement
placement = record {
  alloc_id = "web-3";
  node_id = 1;
  name = "web";
  kind = AllocKind.service;
  address = none;
  resources = record { cpu = 1; memory = 500 };
}
