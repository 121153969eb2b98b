-- ===== src/Primary/Nodes.antt =====
-- crates/node/src/primary/nodes.rs, without the events for the client of the HTTP interface.
pub mod Drain
use mill.Prelude.{
  inr, inl, Option-cases, Bool-cases, ◌≤◌, ◌<◌, ap, ◌⊎◌, arith, ◌∙◌, sym, subst, refl, none, some,
  ◌≡◌, Option, Bool, true, false, ◌∷◌, [], List, ℕ, zero, suc, ◌+◌, ◌-◌, ◌*◌, ◌%◌, ◌&&◌, ◌||◌, not,
  ltb, leb, ◌==◌, if◌then◌else◌, and_then, option_map, is_some, String, str_eq, str_eq_iff,
  string_key, nat_key, Map, lookup, insert, remove, retain, keys, values, Distinct, map, ◌++◌, ◌<>◌,
  display, any, filterb, find_first, length, In, any-true, any-false, In-filterb, filterb-In,
  lookup-insert, lookup-remove, lookup-retain, ite, max, ℕ_discrete, string_discrete, ◌↔◌, ◌≢◌,
}
use mill.Prelude.Exec.{ok, err, pure, raise, ◌>>=◌, ◌>>◌}
use mill.Config.Resolved.{ClusterConfig}
use mill.Config.Runtime.{AllocId, AllocKind, Alloc, NodeId, VolumeState}
use mill.Fsm.State.{FsmState, FsmNode, FsmVolume, list_volumes}
use mill.Fsm.Command
use mill.Fsm.Command.{Response}
use mill.Fsm.Apply.{is_active_on}
use mill.Rpc.Protocol.{NodeCommand}
use mill.Rpc.Router.{NodeError}
use mill.Primary.World.{Env, DeployError, Task, read_state, propose, send_command, suffix}
use mill.Primary.Start.{start_alloc}
use mill.Primary.Rollout.{attempt, detach_cloud}

-- A command that the state machine refuses is an error.
unfoldable pub accepted : Response → Task Unit
accepted Response.ok = pure tt
accepted (Response.error text) = raise (DeployError.node (NodeError.raft_rejected text))

abbrev pub attached_to : NodeId → VolumeState → Bool
attached_to mill_id VolumeState.ready = false
attached_to mill_id (VolumeState.attached node) = str_eq node mill_id

abbrev pub mill_id_or_empty : ℕ → FsmState → NodeId
mill_id_or_empty id fsm = elim (lookup id fsm.nodes) [ none ↦ "" | some n ↦ FsmNode.mill_id n ]

abbrev pub attached_volumes : NodeId → FsmState → List String
attached_volumes mill_id fsm =
    map (λ v. v.0) (filterb (λ v. attached_to mill_id (FsmVolume.state v.1)) (list_volumes fsm))

-- What is left to move or to stop, and the name of the node.
abbrev pub left_on : FsmState → Option FsmNode → List (AllocId × String × AllocKind) × NodeId
left_on fsm none = ([], "")
left_on fsm (some n) = (
  map (λ a. (Alloc.id a, Alloc.name a, Alloc.kind a))
      (filterb (is_active_on n.mill_id) (values fsm.allocs)),
  n.mill_id,
)

abbrev pub active_allocs : ℕ → FsmState → List (AllocId × String × AllocKind) × NodeId
active_allocs id fsm = left_on fsm (lookup id fsm.nodes)

module _ (e : Env) where
  unfoldable pub detach_each : List String → Task Unit
  unfolding attempt
  detach_each [] = pure tt
  detach_each (name ∷ names) = do
    attempt (detach_cloud e name (Env.volumes e))
    attempt (propose e (Command.volume_detached name))
    detach_each names

  -- Whether the old allocation may be stopped: a service that is still configured needs a
  -- replacement first.
  unfoldable pub replace : String → AllocKind → Task Bool
  unfolding attempt
  replace name AllocKind.task = pure true
  replace name AllocKind.service = do
    found ← read_state e (λ fsm. and_then fsm.config (λ c. lookup name (ClusterConfig.services c)))
    elim found [
      | none ↦ pure true
      | some def ↦ do
        s ← suffix e
        outcome ← attempt (start_alloc e name def (name <> "-" <> s) 0)
        elim outcome [ ok u ↦ pure true | err x ↦ pure false ]
    ]

  unfoldable pub move_each : NodeId → List (AllocId × String × AllocKind) → Task Unit
  unfolding attempt replace
  move_each mill_id [] = pure tt
  move_each mill_id ((alloc_id, name, kind) ∷ allocs) = do
    replaced ← replace name kind
    if replaced
        then (do
          attempt (send_command e mill_id (NodeCommand.stop alloc_id))
          move_each mill_id allocs)
        else move_each mill_id allocs

  unfoldable pub drain_node : ℕ → Task Unit
  unfolding accepted detach_each move_each
  drain_node node_id = do
    resp ← propose e (Command.node_drain node_id)
    accepted resp
    mill_id ← read_state e (mill_id_or_empty node_id)
    names ← read_state e (attached_volumes mill_id)
    detach_each names
    work ← read_state e (active_allocs node_id)
    move_each work.1 work.0

  unfoldable pub remove_node : ℕ → Task Unit
  unfolding accepted
  remove_node node_id = do resp ← propose e (Command.node_remove node_id); accepted resp
