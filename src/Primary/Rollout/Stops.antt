-- ===== src/Primary/Rollout/Stops.antt =====
-- Starting replicas and making volumes stops no allocation.
use mill.Prelude.{none, some, Option, ◌∷◌, [], List, ℕ, zero, suc, ◌+◌, String, string_key, nat_key}
use mill.Prelude.Exec.{Result, Keeps, Keeps-pure, Keeps-if, Keeps-bind, keeps_rules, pure}
use mill.Config.Resolved.{ServiceDef, VolumeDef}
use mill.Config.Runtime.{NodeId, AllocId, VolumeState}
use mill.Rpc.Protocol.{NodeCommand}
use mill.Primary.World.{World, Env, Event, Task, StorageError, Volumes, advance}
use mill.Primary.World.Events.{Every, Keeps-read_state, Keeps-propose, Keeps-called}
use mill.Primary.Start.{start_alloc}
use mill.Primary.Start.Frame.{Keeps-ok_or, Keeps-start_alloc}
use mill.Primary.Rollout.{
  attempt, call_driver, attach_cloud, attach_volume, detach_cloud, create_volume, prepare_volume,
  create_volumes_if_needed, start_numbered, deploy_service,
}

-- Only allocations with the property are stopped.
abbrev pub StopsOnly : (AllocId → Type 0) → Event → Type 0
StopsOnly Q (Event.sent node_id (NodeCommand.stop alloc_id)) = Q alloc_id
StopsOnly Q _ = Unit

module _ {A : Type 0} {P : World → Type 0} where
  pub Keeps-attempt : (m : Task A) → Keeps P m → Keeps P (attempt m)
  unfolding attempt
  Keeps-attempt m k = record { at = λ w h. Keeps.at k w h }

module _ (e : Env) (Q : AllocId → Type 0) where
  pub start_alloc-StopsOnly :
      (name : String) (def : ServiceDef) (alloc_id : AllocId) (replica : ℕ)
      → Keeps (Every (StopsOnly Q)) (start_alloc e name def alloc_id replica)
  start_alloc-StopsOnly name def alloc_id replica =
      Keeps-start_alloc e (StopsOnly Q) alloc_id
        (record { placement = λ p h. tt; status = λ s. tt; runs = λ n spec auth. tt }) name def
        replica

  call_driver-StopsOnly :
      {A : Type 0} (ev : Event) (f : Volumes → ℕ → Result StorageError A) (driver : Volumes)
      → StopsOnly Q ev
      → Keeps (Every (StopsOnly Q)) (call_driver e ev f driver)
  unfolding call_driver
  call_driver-StopsOnly ev f driver h = record {
    at = λ w k. Keeps.at (Keeps-called (StopsOnly Q) ev (f driver w.tick) h) (advance e w) k;
  }

  ruleset volume_rules = (keeps_rules, Keeps-read_state, Keeps-propose, call_driver-StopsOnly)

  attach_cloud-StopsOnly :
      (name : String) (raft_node_id : ℕ) (v : Option Volumes)
      → Keeps (Every (StopsOnly Q)) (attach_cloud e name raft_node_id v)
  unfolding attach_cloud
  attach_cloud-StopsOnly name raft_node_id none = search volume_rules
  attach_cloud-StopsOnly name raft_node_id (some driver) =
      Keeps-bind _ _ (Keeps-read_state e _ _) go
    where
      go :
          (iid : Option String)
          → Keeps (Every (StopsOnly Q)) (elim iid as (λ _. Task Unit) [
            | none ↦ pure tt
            | some id ↦
                call_driver e (Event.attached name) (λ d t. Volumes.attach d t name id) driver
          ])
      go none = Keeps-pure tt
      go (some id) =
          call_driver-StopsOnly (Event.attached name) (λ d t. Volumes.attach d t name id) driver tt

  attach_volume-StopsOnly :
      (name : String) (raft_node_id : ℕ)
      → Keeps (Every (StopsOnly Q)) (attach_volume e name raft_node_id)
  unfolding attach_volume
  attach_volume-StopsOnly name raft_node_id = search (volume_rules, attach_cloud-StopsOnly) depth 20

  detach_cloud-StopsOnly :
      (name : String) (v : Option Volumes) → Keeps (Every (StopsOnly Q)) (detach_cloud e name v)
  unfolding detach_cloud
  detach_cloud-StopsOnly name none = search volume_rules
  detach_cloud-StopsOnly name (some driver) = search volume_rules

  create_volume-StopsOnly :
      (vol : VolumeDef) (raft_node_id : ℕ) (v : Option Volumes)
      → Keeps (Every (StopsOnly Q)) (create_volume e vol raft_node_id v)
  unfolding create_volume
  create_volume-StopsOnly vol raft_node_id none = search volume_rules
  create_volume-StopsOnly vol raft_node_id (some driver) =
      search (volume_rules, attach_volume-StopsOnly) depth 20

  prepare_volume-StopsOnly :
      (vol : VolumeDef) (raft_node_id : ℕ) (s : Option VolumeState) (target : Option NodeId)
      → Keeps (Every (StopsOnly Q)) (prepare_volume e vol raft_node_id s target)
  unfolding prepare_volume
  prepare_volume-StopsOnly vol raft_node_id none target = create_volume-StopsOnly vol raft_node_id _
  prepare_volume-StopsOnly vol raft_node_id (some VolumeState.ready) target =
      attach_volume-StopsOnly vol.name raft_node_id
  prepare_volume-StopsOnly vol raft_node_id (some (VolumeState.attached node)) target =
      search (volume_rules, attach_volume-StopsOnly, detach_cloud-StopsOnly) depth 20

  pub create_volumes_if_needed-StopsOnly :
      (vols : List VolumeDef) (raft_node_id : ℕ)
      → Keeps (Every (StopsOnly Q)) (create_volumes_if_needed e vols raft_node_id)
  unfolding create_volumes_if_needed
  create_volumes_if_needed-StopsOnly [] raft_node_id = Keeps-pure tt
  create_volumes_if_needed-StopsOnly (vol ∷ vols) raft_node_id =
      Keeps-if vol.ephemeral _ _ (create_volumes_if_needed-StopsOnly vols raft_node_id) (
        Keeps-bind _ _ (Keeps-read_state e _ _) λ s. Keeps-bind _ _ (Keeps-read_state e _ _) λ t.
          Keeps-bind _ _ (prepare_volume-StopsOnly vol raft_node_id s t)
            λ u. create_volumes_if_needed-StopsOnly vols raft_node_id)

  start_numbered-StopsOnly :
      (name : String) (def : ServiceDef) (n replica : ℕ)
      → Keeps (Every (StopsOnly Q)) (start_numbered e name def n replica)
  unfolding start_numbered
  start_numbered-StopsOnly name def zero replica = Keeps-pure tt
  start_numbered-StopsOnly name def (suc n) replica =
      Keeps-bind _ _ (start_alloc-StopsOnly name def _ replica)
        λ u. start_numbered-StopsOnly name def n (replica + 1)

  deploy_service-StopsOnly :
      (name : String) (def : ServiceDef) → Keeps (Every (StopsOnly Q)) (deploy_service e name def)
  unfolding deploy_service
  deploy_service-StopsOnly name def =
      search
        (
          keeps_rules, Keeps-read_state, Keeps-ok_or, create_volumes_if_needed-StopsOnly,
          start_numbered-StopsOnly,
        )
        depth 20

  -- Deploying a new service stops nothing, whether it returns or fails: if only allocations with some
  -- property had been stopped before, this is so after it.
  pub deploy_service_stops_none :
      (name : String) (def : ServiceDef) (w : World)
      → Every (StopsOnly Q) w
      → Every (StopsOnly Q) (deploy_service e name def w).1
  deploy_service_stops_none name def w h = Keeps.at (deploy_service-StopsOnly name def) w h
