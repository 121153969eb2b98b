-- ===== src/Primary/Rolling.antt =====
-- crates/node/src/primary/deploy/mod.rs: rolling updates, whole deploys and restarts.
pub mod Updates
pub mod Refused
pub mod Replaced
use mill.Prelude.{
  inr, inl, Option-cases, Bool-cases, ◌≤◌, ◌<◌, ap, ◌⊎◌, arith, ◌∙◌, sym, subst, refl, none, some,
  ◌≡◌, Option, Bool, true, false, ◌∷◌, [], List, ℕ, zero, suc, ◌+◌, ◌-◌, ◌*◌, ◌%◌, ◌&&◌, ◌||◌, not,
  ltb, leb, ◌==◌, if◌then◌else◌, and_then, option_map, is_some, String, str_eq, str_eq_iff,
  string_key, nat_key, Map, lookup, insert, remove, retain, keys, values, Distinct, map, ◌++◌, ◌<>◌,
  display, any, filterb, find_first, length, In, any-true, any-false, In-filterb, filterb-In,
  lookup-insert, lookup-remove, lookup-retain, ite, max, ℕ_discrete, string_discrete, ◌↔◌, ◌≢◌,
}
use mill.Prelude.Exec.{Result, ok, err, pure, raise, ◌>>=◌, ◌>>◌}
use mill.Config.Resolved.{ServiceDef, ClusterConfig}
use mill.Config.Runtime.{NodeId, AllocId, Alloc, NodeResources, is_ready}
use mill.Fsm.State.{FsmState, FsmNode, list_secret_names, list_nodes}
use mill.Fsm.Command
use mill.Rpc.Protocol.{NodeCommand}
use mill.Rpc.Router.{NodeError}
use mill.Deploy.Diff.{DeployPlan, diff_config}
use mill.Deploy.Validate.{
  Validation, valid, unknown_secrets, no_ready_nodes, oversized, validate_secret_refs,
  validate_resource_capacity,
}
use mill.Primary.World.{
  Env, DeployError, Task, read_state, propose, send_command, broadcast_command, suffix,
}
use mill.Primary.Resolve.{ok_or}
use mill.Primary.Start.{start_alloc}
use mill.Primary.Rollout.{
  first_ready, targets, attempt, create_volumes_if_needed, stop_service, deploy_service,
}

-- `Option::get_or_insert`
abbrev pub get_or_insert : Option DeployError → DeployError → Option DeployError
get_or_insert none x = some x
get_or_insert (some y) x = some y

abbrev pub is_err : {A : Type 0} → Result DeployError A → Bool
is_err (ok a) = false
is_err (err x) = true

-- `push` if the node is known.
abbrev pub push_started :
    AllocId → Option NodeId → List (AllocId × NodeId) → List (AllocId × NodeId)
push_started alloc_id none started = started
push_started alloc_id (some node_id) started = started ++ (alloc_id, node_id) ∷ []

-- `slice::join`
unfoldable pub join : String → List String → String
join sep [] = ""
join sep (s ∷ []) = s
join sep (s ∷ t ∷ ts) = s <> sep <> join sep (t ∷ ts)

unfoldable pub validated : Validation → Task Unit
unfolding join
validated valid = pure tt
validated (unknown_secrets missing) =
    raise (DeployError.validation_failed ("unknown secrets: " <> join ", " missing))
validated no_ready_nodes = raise (DeployError.validation_failed "no ready nodes in cluster")
validated (oversized names) =
    raise (
      DeployError.validation_failed ("resources exceed largest node capacity: " <> join ", " names))

abbrev pub node_capacities : FsmState → List NodeResources
node_capacities fsm =
    map (λ n. FsmNode.resources n) (filterb (λ n. is_ready n.status) (list_nodes fsm))

-- `HashSet<&str>`: each image once.
unfoldable pub unique : List String → List String
unique [] = []
unique (s ∷ ss) = let rest = unique ss in if any (str_eq s) rest then rest else s ∷ rest

abbrev pub images : DeployPlan → List String
images plan = unique (map (λ d. ServiceDef.image d) (values plan.added ++ values plan.changed))

unfoldable pub finish : Option DeployError → Task Unit
finish none = pure tt
finish (some x) = raise x

module _ (e : Env) where
  -- Stops what was started, and goes on where a node cannot be reached.
  unfoldable pub stop_started : List (AllocId × NodeId) → Task Unit
  unfolding attempt
  stop_started [] = pure tt
  stop_started ((alloc_id, node_id) ∷ started) = do
    attempt (send_command e node_id (NodeCommand.stop alloc_id))
    stop_started started

  -- The loop over the replicas, with those left and those started.
  unfoldable pub start_replicas :
      String → ServiceDef → ℕ → ℕ → List (AllocId × NodeId) → Task (List (AllocId × NodeId))
  unfolding attempt stop_started
  start_replicas name def zero replica started = pure started
  start_replicas name def (suc n) replica started = do
    s ← suffix e
    outcome ← attempt (start_alloc e name def (name <> "-" <> s) replica)
    elim outcome [
      | ok u ↦ do
        node_id ←
            read_state e
              (λ fsm. option_map (λ a. Alloc.node a) (lookup (name <> "-" <> s) fsm.allocs))
        start_replicas name def n (replica + 1) (push_started (name <> "-" <> s) node_id started)
      | err x ↦ do stop_started started; raise x
    ]

  -- The loop over the old allocations, with the first error.
  unfoldable pub stop_old : List (AllocId × NodeId) → Option DeployError → Task (Option DeployError)
  unfolding attempt
  stop_old [] stop_err = pure stop_err
  stop_old ((old_id, node_id) ∷ olds) stop_err = do
    outcome ← attempt (send_command e node_id (NodeCommand.stop old_id))
    elim outcome [
      | ok u ↦ stop_old olds stop_err
      | err x ↦ stop_old olds (get_or_insert stop_err x)
    ]

  unfoldable pub rolling_update : String → ServiceDef → Task Unit
  unfolding start_replicas stop_old finish
  rolling_update name def = do
    found ← read_state e first_ready
    raft_node_id ← ok_or (DeployError.scheduling_failed name 0) found
    create_volumes_if_needed e def.volumes raft_node_id
    old_allocs ← read_state e (targets name)
    new_allocs ← start_replicas name def def.replicas 0 []
    stop_err ← stop_old old_allocs none
    finish stop_err

  unfoldable pub pull_each : List String → Task Unit
  unfolding attempt
  pull_each [] = pure tt
  pull_each (image ∷ rest) = do
    attempt (broadcast_command e (NodeCommand.pull image none))
    pull_each rest

  unfoldable pub eager_pull : DeployPlan → Task Unit
  unfolding pull_each
  eager_pull plan = pull_each (images plan)

  unfoldable pub stop_removed : List String → Task Unit
  stop_removed [] = pure tt
  stop_removed (name ∷ names) = do stop_service e name; stop_removed names

  -- The loops over the added and over the changed services, with whether one has failed.
  unfoldable pub deploy_added : Map String ServiceDef → Bool → Task Bool
  unfolding attempt
  deploy_added [] has_failures = pure has_failures
  deploy_added ((name, def) ∷ rest) has_failures = do
    outcome ← attempt (deploy_service e name def)
    deploy_added rest (is_err outcome || has_failures)

  unfoldable pub update_changed : Map String ServiceDef → Bool → Task Bool
  unfolding attempt
  update_changed [] has_failures = pure has_failures
  update_changed ((name, def) ∷ rest) has_failures = do
    outcome ← attempt (rolling_update name def)
    update_changed rest (is_err outcome || has_failures)

  -- The old configuration is proposed again, whatever becomes of that.
  unfoldable pub rollback : Bool → Option ClusterConfig → Task Unit
  unfolding attempt
  rollback false old = pure tt
  rollback true none = pure tt
  rollback true (some old) = do attempt (propose e (Command.deploy old)); pure tt

  -- What follows the validation.
  unfoldable pub carry_out : DeployPlan → Option ClusterConfig → ClusterConfig → Task Unit
  unfolding eager_pull stop_removed deploy_added update_changed rollback
  carry_out plan old_config new_config = do
    eager_pull plan
    propose e (Command.deploy new_config)
    stop_removed plan.removed
    failed ← deploy_added plan.added false
    has_failures ← update_changed plan.changed failed
    rollback has_failures old_config

  unfoldable pub run_deploy : ClusterConfig → Task Unit
  unfolding carry_out validated
  run_deploy new_config = do
    old_config ← read_state e (λ fsm. FsmState.config fsm)
    known_secrets ← read_state e list_secret_names
    validated (validate_secret_refs new_config known_secrets)
    capacities ← read_state e node_capacities
    validated (validate_resource_capacity (Env.float e) new_config capacities)
    carry_out (diff_config (Env.float e) old_config new_config) old_config new_config

  unfoldable pub run_restart : String → Task Unit
  run_restart service_name = do
    found ←
        read_state e
          (λ fsm. and_then fsm.config (λ c. lookup service_name (ClusterConfig.services c)))
    def ← ok_or (DeployError.node (NodeError.service_not_found service_name)) found
    rolling_update service_name def
