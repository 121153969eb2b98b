-- ===== src/Fsm/Apply.antt =====
-- crates/raft/src/fsm/apply.rs: one function for each arm of `apply_command`.
use mill.Prelude.{
  string_key, nat_key, ℕ, String, Bool, true, false, not, ◌&&◌, Option, none, some, List, [], ◌∷◌,
  Map, values, lookup, insert, remove, retain, any, str_eq, is_some, display, ◌<>◌, if◌then◌else◌,
}
use mill.Config.Runtime.{
  NodeId, AllocId, SocketAddr, NodeStatus, AllocStatus, Alloc, VolumeState, is_down, is_terminal,
}
use mill.Fsm.State.{FsmNode, FsmState, make_alloc}
use mill.Fsm.Command.{
  Registration, Placement, Command, deploy, node_register, node_heartbeat, node_down,
  alloc_scheduled, alloc_status, alloc_running, secret_set, secret_delete, volume_created,
  volume_attached, volume_detached, volume_destroyed, node_drain, node_remove, Response, ok, error,
}

unknown_node : ℕ → Response
unknown_node id = error ("unknown node " <> display id)

unknown_alloc : AllocId → Response
unknown_alloc id = error ("unknown alloc " <> id)

unknown_secret : String → Response
unknown_secret name = error ("unknown secret " <> name)

unknown_volume : String → Response
unknown_volume name = error ("unknown volume " <> name)

has_active_allocs : ℕ → Response
has_active_allocs id = error ("node " <> display id <> " still has active allocations")

new_node : Registration → FsmNode
new_node r = record {
  raft_id = r.id;
  mill_id = r.mill_id;
  address = r.address;
  resources = r.resources;
  status = NodeStatus.ready;
  wireguard_pubkey = r.wireguard_pubkey;
  instance_id = r.instance_id;
  rpc_address = r.rpc_address;
  advertise_addr = r.advertise_addr;
}

abbrev pub put_node : FsmState → ℕ → FsmNode → FsmState
put_node s id n = record s { nodes = insert id n s.nodes }

abbrev pub put_alloc : FsmState → AllocId → Alloc → FsmState
put_alloc s id a = record s { allocs = insert id a s.allocs }

unfoldable pub apply_node_register : FsmState → Registration → FsmState × Response
unfolding new_node
apply_node_register s r = (put_node s r.id (new_node r), ok)

-- A heartbeat says Running of an allocation that a probe has found Healthy.
abbrev pub is_downgrade : AllocStatus → AllocStatus → Bool
is_downgrade AllocStatus.healthy AllocStatus.running = true
is_downgrade _ _ = false

abbrev pub report_status : AllocStatus → Alloc → Alloc
report_status status a = if is_downgrade a.status status then a else record a { status = status }

-- One round of the loop over the reported statuses.
unfoldable pub report_one : Map AllocId Alloc → AllocId → AllocStatus → Map AllocId Alloc
report_one allocs id status = elim (lookup id allocs) [
  | none ↦ allocs
  | some a ↦
      if is_downgrade a.status status
      then allocs
      else insert id (record a { status = status }) allocs
]

unfoldable pub report_all : Map AllocId Alloc → Map AllocId AllocStatus → Map AllocId Alloc
report_all allocs [] = allocs
report_all allocs ((id, status) ∷ rest) = report_all (report_one allocs id status) rest

abbrev pub revive : FsmNode → FsmNode
revive n = if is_down n.status then record n { status = NodeStatus.ready } else n

unfoldable pub apply_node_heartbeat : FsmState → ℕ → Map AllocId AllocStatus → FsmState × Response
unfolding unknown_node
apply_node_heartbeat s id statuses = elim (lookup id s.nodes) [
  | none ↦ (s, unknown_node id)
  | some n ↦
      (record s { nodes = insert id (revive n) s.nodes; allocs = report_all s.allocs statuses }, ok)
]

unfoldable pub apply_node_down : FsmState → ℕ → FsmState × Response
unfolding unknown_node
apply_node_down s id = elim (lookup id s.nodes) [
  | none ↦ (s, unknown_node id)
  | some n ↦ (put_node s id (record n { status = NodeStatus.down }), ok)
]

unfoldable pub apply_alloc_scheduled : FsmState → Placement → FsmState × Response
unfolding unknown_node
apply_alloc_scheduled s p = elim (lookup p.node_id s.nodes) [
  | none ↦ (s, unknown_node p.node_id)
  | some n ↦ (
    put_alloc s p.alloc_id (make_alloc p.alloc_id n.mill_id p.name p.kind p.address p.resources),
    ok,
  )
]

unfoldable pub apply_alloc_status : FsmState → AllocId → AllocStatus → FsmState × Response
unfolding unknown_alloc
apply_alloc_status s id status = elim (lookup id s.allocs) [
  | none ↦ (s, unknown_alloc id)
  | some a ↦ (put_alloc s id (record a { status = status }), ok)
]

abbrev pub is_pending : AllocStatus → Bool
is_pending AllocStatus.pulling = true
is_pending AllocStatus.starting = true
is_pending _ = false

unfoldable pub apply_alloc_running :
    FsmState → AllocId → Option SocketAddr → Option ℕ → FsmState × Response
unfolding unknown_alloc
apply_alloc_running s id address started_at = elim (lookup id s.allocs) [
  | none ↦ (s, unknown_alloc id)
  | some a ↦ (
    if is_pending a.status
        then put_alloc s id
            (record a { status = AllocStatus.running; address = address; started_at = started_at })
        else s,
    ok,
  )
]

unfoldable pub apply_secret_delete : FsmState → String → FsmState × Response
unfolding unknown_secret
apply_secret_delete s name =
    if is_some (lookup name s.secrets)
    then (record s { secrets = remove name s.secrets }, ok)
    else (s, unknown_secret name)

unfoldable pub apply_volume_attached : FsmState → String → ℕ → FsmState × Response
unfolding unknown_node unknown_volume
apply_volume_attached s name node = elim (lookup node s.nodes) [
  | none ↦ (s, unknown_node node)
  | some n ↦ elim (lookup name s.volumes) [
    | none ↦ (s, unknown_volume name)
    | some v ↦ (
      record s {
        volumes = insert name (record v { state = VolumeState.attached n.mill_id }) s.volumes;
      },
      ok,
    )
  ]
]

unfoldable pub apply_volume_detached : FsmState → String → FsmState × Response
unfolding unknown_volume
apply_volume_detached s name = elim (lookup name s.volumes) [
  | none ↦ (s, unknown_volume name)
  | some v ↦
      (record s { volumes = insert name (record v { state = VolumeState.ready }) s.volumes }, ok)
]

unfoldable pub apply_node_drain : FsmState → ℕ → FsmState × Response
unfolding unknown_node
apply_node_drain s id = elim (lookup id s.nodes) [
  | none ↦ (s, unknown_node id)
  | some n ↦ (put_node s id (record n { status = NodeStatus.draining }), ok)
]

-- The allocation stands on the node and is neither stopped nor failed.
abbrev pub is_active_on : NodeId → Alloc → Bool
is_active_on mill_id a = str_eq a.node mill_id && not (is_terminal a.status)

unfoldable pub apply_node_remove : FsmState → ℕ → FsmState × Response
unfolding unknown_node has_active_allocs
apply_node_remove s id = elim (lookup id s.nodes) [
  | none ↦ (s, unknown_node id)
  | some n ↦ if any (is_active_on n.mill_id) (values s.allocs) then (s, has_active_allocs id) else (
    record s {
      allocs = retain (λ k a. not (str_eq a.node n.mill_id)) s.allocs;
      nodes = remove id s.nodes;
    },
    ok,
  )
]

unfoldable pub apply_command : FsmState → Command → FsmState × Response
apply_command s (deploy config) = (record s { config = some config }, ok)
apply_command s (node_register r) = apply_node_register s r
apply_command s (node_heartbeat id statuses) = apply_node_heartbeat s id statuses
apply_command s (node_down id) = apply_node_down s id
apply_command s (alloc_scheduled p) = apply_alloc_scheduled s p
apply_command s (alloc_status id status) = apply_alloc_status s id status
apply_command s (alloc_running id address started_at) = apply_alloc_running s id address started_at
apply_command s (secret_set name encrypted_value nonce) = (
  record s {
    secrets = insert name (record { encrypted_value = encrypted_value; nonce = nonce }) s.secrets;
  },
  ok,
)
apply_command s (secret_delete name) = apply_secret_delete s name
apply_command s (volume_created name cloud_id) = (
  record s {
    volumes = insert name (record { cloud_id = cloud_id; state = VolumeState.ready }) s.volumes;
  },
  ok,
)
apply_command s (volume_attached name node) = apply_volume_attached s name node
apply_command s (volume_detached name) = apply_volume_detached s name
apply_command s (volume_destroyed name) = (record s { volumes = remove name s.volumes }, ok)
apply_command s (node_drain id) = apply_node_drain s id
apply_command s (node_remove id) = apply_node_remove s id

-- The commands of a log, in order.
unfoldable pub run_commands : FsmState → List Command → FsmState
run_commands s [] = s
run_commands s (c ∷ cs) = run_commands (apply_command s c).0 cs
