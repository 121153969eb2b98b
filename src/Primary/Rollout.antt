-- ===== src/Primary/Rollout.antt =====
-- crates/node/src/primary/deploy/mod.rs: volumes, the replicas of a service, and a whole deploy. The
-- events for the client of the HTTP interface are left out.
pub mod Stops
use mill.Prelude.{
  inr, inl, Option-cases, Bool-cases, ◌≤◌, ◌<◌, ap, ◌⊎◌, arith, ◌∙◌, sym, subst, refl, none, some,
  ◌≡◌, Option, Bool, true, false, ◌∷◌, [], List, ℕ, zero, suc, ◌+◌, ◌-◌, ◌*◌, ◌%◌, ◌&&◌, ◌||◌, not,
  ltb, leb, ◌==◌, if◌then◌else◌, and_then, option_map, is_some, String, str_eq, str_eq_iff,
  string_key, nat_key, Map, lookup, insert, remove, retain, keys, values, Distinct, map, ◌++◌, ◌<>◌,
  display, any, filterb, find_first, length, In, any-true, any-false, In-filterb, filterb-In,
  lookup-insert, lookup-remove, lookup-retain, ite, max, ℕ_discrete, string_discrete, ◌↔◌, ◌≢◌,
}
use mill.Prelude.Exec.{Result, ok, pure, ◌>>=◌, ◌>>◌}
use mill.Config.Resolved.{ServiceDef, VolumeDef}
use mill.Config.Runtime.{NodeId, AllocId, VolumeState, Alloc, is_ready}
use mill.Fsm.State.{FsmState, FsmNode, FsmVolume, instance_id_for, list_service_allocs}
use mill.Fsm.Command
use mill.Rpc.Protocol.{NodeCommand}
use mill.Primary.World.{
  Env, Volumes, StorageError, DeployError, Event, Task, advance, called, read_state, propose,
  send_command,
}
use mill.Primary.Resolve.{ok_or}
use mill.Primary.Start.{start_alloc}

-- `ByteSize::gib(10)`
abbrev pub default_size : ℕ
default_size = 10737418240

abbrev pub size_or_default : Option ℕ → ℕ
size_or_default none = default_size
size_or_default (some size) = size

-- The raft id of the first node that is ready.
abbrev pub first_ready : FsmState → Option ℕ
first_ready fsm =
    option_map (λ n. FsmNode.raft_id n) (find_first (λ n. is_ready n.status) (values fsm.nodes))

-- The allocations of a service, each with its node.
abbrev pub targets : String → FsmState → List (AllocId × NodeId)
targets name fsm = map (λ a. (Alloc.id a, Alloc.node a)) (list_service_allocs fsm name)

abbrev pub is_target : NodeId → Option NodeId → Bool
is_target node none = false
is_target node (some target) = str_eq node target

-- The outcome of a task as a value.
unfoldable pub attempt : {A : Type 0} → Task A → Task (Result DeployError A)
attempt m w = (ok (m w).0, (m w).1)

module _ (e : Env) where
  unfoldable pub call_driver :
      {A : Type 0} → Event → (Volumes → ℕ → Result StorageError A) → Volumes → Task A
  unfolding advance called
  call_driver ev f driver w = called ev (f driver w.tick) (advance e w)

  -- The attachment in the cloud; a node without an instance id is skipped.
  unfoldable pub attach_cloud : String → ℕ → Option Volumes → Task Unit
  unfolding call_driver
  attach_cloud name raft_node_id none = pure tt
  attach_cloud name raft_node_id (some driver) = do
    iid ← read_state e (λ fsm. instance_id_for fsm raft_node_id)
    elim iid [
      | none ↦ pure tt
      | some id ↦ call_driver (Event.attached name) (λ d t. Volumes.attach d t name id) driver
    ]

  unfoldable pub attach_volume : String → ℕ → Task Unit
  unfolding attach_cloud
  attach_volume name raft_node_id = do
    attach_cloud name raft_node_id (Env.volumes e)
    propose e (Command.volume_attached name raft_node_id)
    pure tt

  unfoldable pub detach_cloud : String → Option Volumes → Task Unit
  unfolding call_driver
  detach_cloud name none = pure tt
  detach_cloud name (some driver) =
      call_driver (Event.detached name) (λ d t. Volumes.detach d t name) driver

  -- Without a driver, a volume that does not exist yet is not made.
  unfoldable pub create_volume : VolumeDef → ℕ → Option Volumes → Task Unit
  unfolding call_driver attach_volume
  create_volume vol raft_node_id none = pure tt
  create_volume vol raft_node_id (some driver) = do
    cloud_id ←
        call_driver (Event.created vol.name)
          (λ d t. Volumes.create d t vol.name (size_or_default vol.size)) driver
    propose e (Command.volume_created vol.name cloud_id)
    attach_volume vol.name raft_node_id

  unfoldable pub prepare_volume : VolumeDef → ℕ → Option VolumeState → Option NodeId → Task Unit
  unfolding create_volume attach_volume detach_cloud
  prepare_volume vol raft_node_id none target = create_volume vol raft_node_id (Env.volumes e)
  prepare_volume vol raft_node_id (some VolumeState.ready) target =
      attach_volume vol.name raft_node_id
  prepare_volume vol raft_node_id (some (VolumeState.attached node)) target =
      if is_target node target then pure tt else do
        detach_cloud vol.name (Env.volumes e)
        propose e (Command.volume_detached vol.name)
        attach_volume vol.name raft_node_id

  unfoldable pub create_volumes_if_needed : List VolumeDef → ℕ → Task Unit
  unfolding prepare_volume
  create_volumes_if_needed [] raft_node_id = pure tt
  create_volumes_if_needed (vol ∷ vols) raft_node_id =
      if vol.ephemeral then create_volumes_if_needed vols raft_node_id else do
        vol_state ←
            read_state e (λ fsm. option_map (λ v. FsmVolume.state v) (lookup vol.name fsm.volumes))
        target ←
            read_state e
              (λ fsm. option_map (λ n. FsmNode.mill_id n) (lookup raft_node_id fsm.nodes))
        prepare_volume vol raft_node_id vol_state target
        create_volumes_if_needed vols raft_node_id

  unfoldable pub stop_each : List (AllocId × NodeId) → Task Unit
  stop_each [] = pure tt
  stop_each ((alloc_id, node_id) ∷ allocs) = do
    send_command e node_id (NodeCommand.stop alloc_id)
    stop_each allocs

  unfoldable pub stop_service : String → Task Unit
  unfolding stop_each
  stop_service name = do allocs ← read_state e (targets name); stop_each allocs

  unfoldable pub start_numbered : String → ServiceDef → ℕ → ℕ → Task Unit
  start_numbered name def zero replica = pure tt
  start_numbered name def (suc n) replica = do
    start_alloc e name def (name <> "-" <> display replica) replica
    start_numbered name def n (replica + 1)

  unfoldable pub deploy_service : String → ServiceDef → Task Unit
  unfolding create_volumes_if_needed start_numbered
  deploy_service name def = do
    found ← read_state e first_ready
    raft_node_id ← ok_or (DeployError.scheduling_failed name 0) found
    create_volumes_if_needed def.volumes raft_node_id
    start_numbered name def def.replicas 0
