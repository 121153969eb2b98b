-- ===== src/Primary/Tasks.antt =====
-- crates/node/src/primary/tasks.rs
pub mod Kill
pub mod Leftover
use mill.Prelude.{
  none, some, Option, Bool, true, false, ◌∷◌, [], List, ℕ, zero, suc, and_then, option_map, String,
  string_key, nat_key, Map, lookup, insert, map, ◌<>◌,
}
use mill.Prelude.Exec.{Result, ok, pure, raise, ◌>>=◌, ◌>>◌}
use mill.Prelude.Float.{F64}
use mill.Config.Env.{EnvValue}
use mill.Config.Resolved.{TaskDef, ClusterConfig, Resources, alloc_resources}
use mill.Config.Runtime.{AllocId, AllocKind, Alloc, NodeId, ContainerSpec, is_task}
use mill.Fsm.State.{FsmState, list_nodes, list_allocs, node_available_resources, raft_id_for}
use mill.Fsm.Command
use mill.Fsm.Command.{Placement}
use mill.Rpc.Protocol.{NodeCommand}
use mill.Rpc.Router.{NodeError}
use mill.Scheduler.{schedule}
use mill.Primary.World.{Env, DeployError, Event, Task, read_state, propose, send_command, suffix}
use mill.Primary.Resolve.{ok_or, from_result, resolve_env}
use mill.Primary.Start.{existing, wait_for_status, address_of}

pub record SpawnTaskRequest : Type 0 where
  pub task : Option String
  pub image : Option String
  pub cpu : F64
  pub memory : String
  pub env : Map String String
  pub timeout : Option String

pub record SpawnTaskResponse : Type 0 where
  pub id : AllocId
  pub node : NodeId
  pub status : String
  pub address : Option String

-- The parsers of bytesize and humantime, with the texts of their errors.
pub record Parsers : Type 0 where
  pub parse_bytesize : String → Result String ℕ
  pub parse_duration : String → Result String ℕ

-- The tuple that the request is resolved to.
pub record TaskPlan : Type 0 where
  pub name : String
  pub image : String
  pub resources : Resources
  pub env : Map String EnvValue
  pub timeout : Option ℕ
  pub command : Option (List String)

abbrev pub nonzero : ℕ → Option ℕ
nonzero zero = none
nonzero (suc n) = some (suc n)

abbrev pub plan_of_def : String → TaskDef → TaskPlan
plan_of_def template def = record {
  name = template;
  image = def.image;
  resources = def.resources;
  env = def.env;
  timeout = nonzero def.timeout;
  command = def.command;
}

-- The loop of the overrides.
unfoldable pub override_env : Map String String → Map String EnvValue → Map String EnvValue
override_env [] env_defs = env_defs
override_env ((k, v) ∷ env) env_defs = override_env env (insert k (EnvValue.literal v) env_defs)

abbrev pub literal_env : Map String String → Map String EnvValue
literal_env env = map (λ kv. (kv.0, EnvValue.literal kv.1)) env

unfoldable pub task_spec : TaskPlan → AllocId → Option ℕ → Map String String → ContainerSpec
task_spec plan alloc_id timeout env = record {
  alloc_id = alloc_id;
  kind = AllocKind.task;
  timeout = timeout;
  command = plan.command;
  image = plan.image;
  env = env;
  port = none;
  host_port = none;
  cpu = plan.resources.cpu;
  memory = plan.resources.memory;
  volumes = [];
}

abbrev pub task_placement : TaskPlan → AllocId → ℕ → Placement
task_placement plan alloc_id raft_node_id = record {
  alloc_id = alloc_id;
  node_id = raft_node_id;
  name = plan.name;
  kind = AllocKind.task;
  address = none;
  resources = alloc_resources plan.resources;
}

abbrev pub kind_and_node : Alloc → Bool × NodeId
kind_and_node a = (is_task a.kind, a.node)

unfoldable pub note : Event → Task Unit
note ev w = (ok tt, record w { events = ev ∷ w.events })

module _ (e : Env) where
  unfoldable pub choose_task_node : TaskPlan → FsmState → Option NodeId
  choose_task_node plan fsm =
      schedule (Env.float e)
        (record { need = plan.resources; name = plan.name; kind = AllocKind.task; volume = none })
        (list_nodes fsm) (map existing (list_allocs fsm)) []
        (node_available_resources (Env.float e) fsm)

  unfoldable pub plan_inline : Parsers → SpawnTaskRequest → String → Task TaskPlan
  plan_inline p request image = do
    memory ←
        from_result (λ x. DeployError.env_resolution ("invalid memory: " <> x))
          (Parsers.parse_bytesize p request.memory)
    s ← suffix e
    pure (record {
      name = "task-" <> s;
      image = image;
      resources = record { cpu = request.cpu; memory = memory };
      env = literal_env request.env;
      timeout = none;
      command = none;
    })

  unfoldable pub plan_template : String → Task TaskPlan
  plan_template template = do
    found ← read_state e (λ fsm. and_then fsm.config (λ c. lookup template (ClusterConfig.tasks c)))
    def ← ok_or (DeployError.node (NodeError.service_not_found template)) found
    pure (plan_of_def template def)

  unfoldable pub resolve_request :
      Parsers → SpawnTaskRequest → Option String → Option String → Task TaskPlan
  unfolding plan_inline plan_template
  resolve_request p request (some template) none = plan_template template
  resolve_request p request none (some image) = plan_inline p request image
  resolve_request p request _ _ =
      raise
        (DeployError.node (NodeError.bad_request "must specify exactly one of 'task' or 'image'"))

  unfoldable pub effective_timeout : Parsers → Option String → Option ℕ → Task (Option ℕ)
  effective_timeout p none def_timeout = pure def_timeout
  effective_timeout p (some s) def_timeout = do
    dur ←
        from_result (λ x. DeployError.env_resolution ("invalid timeout: " <> x))
          (Parsers.parse_duration p s)
    pure (some dur)

  unfoldable pub start_timer : Option ℕ → AllocId → Task Unit
  unfolding note
  start_timer none alloc_id = pure tt
  start_timer (some dur) alloc_id = note (Event.kill_after dur alloc_id)

  -- What follows the proposal of the allocation.
  unfoldable pub run_task :
      TaskPlan → Option ℕ → AllocId → NodeId → Map String EnvValue → Task SpawnTaskResponse
  unfolding note start_timer task_spec
  run_task plan timeout alloc_id node_id env_defs = do
    note (Event.spawn_recorded plan.name)
    env ← resolve_env e env_defs []
    send_command e node_id (NodeCommand.run alloc_id (task_spec plan alloc_id timeout env) none)
    wait_for_status e alloc_id
    start_timer timeout alloc_id
    address ← read_state e (address_of alloc_id)
    pure (record {
      id = alloc_id;
      node = node_id;
      status = "running";
      address = option_map (Env.addr_to_string e) address;
    })

  unfoldable pub spawn_task : Parsers → SpawnTaskRequest → Task SpawnTaskResponse
  unfolding resolve_request effective_timeout override_env choose_task_node run_task
  spawn_task p request = do
    plan ← resolve_request p request request.task request.image
    timeout ← effective_timeout p request.timeout plan.timeout
    s ← suffix e
    chosen ← read_state e (choose_task_node plan)
    node_id ← ok_or (DeployError.scheduling_failed plan.name 0) chosen
    found ← read_state e (λ fsm. raft_id_for fsm node_id)
    raft_node_id ← ok_or (DeployError.scheduling_failed plan.name 0) found
    propose e (Command.alloc_scheduled (task_placement plan (plan.name <> "-" <> s) raft_node_id))
    run_task plan timeout (plan.name <> "-" <> s) node_id (override_env request.env plan.env)

  unfoldable pub kill_task : AllocId → Task Unit
  kill_task alloc_id = do
    alloc_info ← read_state e (λ fsm. option_map kind_and_node (lookup alloc_id fsm.allocs))
    elim alloc_info [
      | some (true, node_id) ↦ send_command e node_id (NodeCommand.stop alloc_id)
      | some (false, node_id) ↦ raise (DeployError.node (NodeError.not_a_task alloc_id))
      | none ↦ raise (DeployError.node (NodeError.alloc_not_found alloc_id))
    ]
