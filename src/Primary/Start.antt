-- ===== src/Primary/Start.antt =====
-- crates/node/src/primary/deploy/mod.rs: `start_alloc` and what it waits for. The events that it
-- sends to the client of the HTTP interface, and the time that they report, are left out.
pub mod Kept
pub mod Frame
pub mod Outcome
use mill.Primary.Resolve.{error_text, ok_or, resolve_env}
use mill.Primary.Health.{wait_healthy, wait_tcp_ready}
use mill.Scheduler.{schedule}
use mill.Prelude.{
  inr, inl, Option-cases, Bool-cases, ◌≤◌, ◌<◌, ap, ◌⊎◌, arith, ◌∙◌, sym, subst, refl, none, some,
  ◌≡◌, Option, Bool, true, false, ◌∷◌, [], List, ℕ, zero, suc, ◌+◌, ◌-◌, ◌*◌, ◌%◌, ◌&&◌, ◌||◌, not,
  ltb, leb, ◌==◌, if◌then◌else◌, and_then, option_map, is_some, String, str_eq, str_eq_iff,
  string_key, nat_key, Map, lookup, insert, remove, retain, keys, values, Distinct, map, ◌++◌, ◌<>◌,
  display, any, filterb, find_first, length, In, any-true, any-false, In-filterb, filterb-In,
  lookup-insert, lookup-remove, lookup-retain, ite, max, ℕ_discrete, string_discrete, ◌↔◌, ◌≢◌,
}
use mill.Prelude.Exec.{Result, ok, err, pure, raise, ◌>>=◌, ◌>>◌}
use mill.Config.Resolved.{alloc_resources, ServiceDef, VolumeDef, HealthCheck}
use mill.Config.Runtime.{
  AllocKind, AllocStatus, Alloc, NodeId, AllocId, ContainerSpec, ContainerVolume, SocketAddr,
}
use mill.Fsm.State.{
  node_available_resources, list_volumes, list_allocs, raft_id_for, list_nodes, FsmState,
}
use mill.Fsm.Command.{Command, Placement}
use mill.Rpc.Protocol.{NodeCommand}
use mill.Rpc.Router.{NodeError}
use mill.Primary.World.{send_command, propose, advance, read_state, Env, DeployError, Task, World}

-- What `wait_for_status` does about a status; `later` is the rest of its loop.
unfoldable pub settle : AllocId → Option AllocStatus → Task Unit → Task Unit
settle alloc_id none later = later
settle alloc_id (some AllocStatus.pulling) later = later
settle alloc_id (some AllocStatus.starting) later = later
settle alloc_id (some AllocStatus.running) later = pure tt
settle alloc_id (some AllocStatus.healthy) later = pure tt
settle alloc_id (some (AllocStatus.stopped exit_code)) later = pure tt
settle alloc_id (some (AllocStatus.failed reason)) later =
    raise (DeployError.node (NodeError.deploy_failed alloc_id reason))

abbrev pub status_of : AllocId → FsmState → Option AllocStatus
status_of alloc_id fsm = option_map (λ a. Alloc.status a) (lookup alloc_id fsm.allocs)

abbrev pub address_of : AllocId → FsmState → Option SocketAddr
address_of alloc_id fsm = and_then (lookup alloc_id fsm.allocs) (λ a. Alloc.address a)

-- The answer of a readiness loop; without one, what it says at its deadline.
abbrev pub said_ready : Option (Bool × ℕ) → Bool
said_ready none = false
said_ready (some (up, now)) = up

abbrev pub container_volume : VolumeDef → ContainerVolume
container_volume v = record { name = v.name; path = v.path; ephemeral = v.ephemeral }

unfoldable pub container_spec : ServiceDef → AllocId → Map String String → ContainerSpec
container_spec def alloc_id env = record {
  alloc_id = alloc_id;
  kind = AllocKind.service;
  timeout = none;
  command = def.command;
  image = def.image;
  env = env;
  port = some def.port;
  host_port = none;
  cpu = def.resources.cpu;
  memory = def.resources.memory;
  volumes = map container_volume def.volumes;
}

unfoldable pub first_volume : List VolumeDef → Option String
first_volume [] = none
first_volume (v ∷ vs) = some v.name

abbrev pub existing : Alloc → NodeId × String × AllocKind
existing a = (a.node, a.name, a.kind)

abbrev pub placement_of : String → ServiceDef → AllocId → ℕ → Placement
placement_of name def alloc_id raft_node_id = record {
  alloc_id = alloc_id;
  node_id = raft_node_id;
  name = name;
  kind = AllocKind.service;
  address = none;
  resources = alloc_resources def.resources;
}

module _ (e : Env) where
  -- The loop of `wait_for_status`, with the changes left before the deadline.
  unfoldable pub await_status : ℕ → AllocId → Task Unit
  unfolding settle
  await_status zero alloc_id = do
    status ← read_state e (status_of alloc_id)
    settle alloc_id status (raise (DeployError.health_check_timeout alloc_id))
  await_status (suc n) alloc_id = do
    status ← read_state e (status_of alloc_id)
    settle alloc_id status (await_status n alloc_id)

  unfoldable pub wait_for_status : AllocId → Task Unit
  unfolding await_status
  wait_for_status alloc_id w = await_status (Env.changes e w.tick) alloc_id w

  -- The loop of `poll_for_address`, with the changes left before the deadline.
  unfoldable pub await_address : ℕ → AllocId → Task (Option SocketAddr)
  await_address zero alloc_id = read_state e (address_of alloc_id)
  await_address (suc n) alloc_id = do
    addr ← read_state e (address_of alloc_id)
    if is_some addr then pure addr else await_address n alloc_id

  unfoldable pub poll_for_address : AllocId → Task (Option SocketAddr)
  unfolding await_address
  poll_for_address alloc_id w = await_address (Env.changes e w.tick) alloc_id w

  -- The HTTP probe if one is configured, and a TCP connection otherwise.
  unfoldable pub is_ready_at : SocketAddr → Option HealthCheck → ℕ → Option (Bool × ℕ)
  is_ready_at addr none now =
      wait_tcp_ready (Env.network e) addr (Env.tcp_ready_poll_interval e) (Env.health_timeout e) now
  is_ready_at addr (some hc) now = wait_healthy (Env.network e) addr hc (Env.health_timeout e) now

  unfoldable pub check_ready : String → SocketAddr → Option HealthCheck → Task Unit
  unfolding advance is_ready_at
  check_ready name addr health w =
      if said_ready (is_ready_at addr health (Env.clock e w.tick))
      then (ok tt, advance e w)
      else (err (DeployError.health_check_timeout name), advance e w)

  unfoldable pub run_scheduled_alloc : String → ServiceDef → AllocId → NodeId → Task Unit
  unfolding resolve_env container_spec wait_for_status poll_for_address check_ready
  run_scheduled_alloc name def alloc_id node_id = do
    env ← resolve_env e def.env []
    send_command e node_id (NodeCommand.run alloc_id (container_spec def alloc_id env) none)
    wait_for_status alloc_id
    found ← poll_for_address alloc_id
    addr ← ok_or (DeployError.health_check_timeout name) found
    check_ready name addr def.health
    answer ← propose e (Command.alloc_status alloc_id AllocStatus.healthy)
    pure tt

  -- The choice of a node in the state as it is read.
  unfoldable pub choose_node : String → ServiceDef → FsmState → Option NodeId
  unfolding first_volume
  choose_node name def fsm =
      schedule (Env.float e)
        (record {
          need = def.resources;
          name = name;
          kind = AllocKind.service;
          volume = first_volume def.volumes;
        })
        (list_nodes fsm) (map existing (list_allocs fsm)) (list_volumes fsm)
        (node_available_resources (Env.float e) fsm)

  -- `let _ =`: the outcome does not matter.
  unfoldable pub ignore : {A : Type 0} → Task A → World → World
  ignore m w = (m w).1

  -- An allocation that fails after it was scheduled is marked failed; the error stays.
  unfoldable pub mark_failed : AllocId → Result DeployError Unit → Task Unit
  mark_failed alloc_id (ok u) w = (ok u, w)
  mark_failed alloc_id (err x) w =
      (err x, (propose e (Command.alloc_status alloc_id (AllocStatus.failed (error_text x))) w).1)

  unfoldable pub run_or_fail : String → ServiceDef → AllocId → NodeId → Task Unit
  unfolding run_scheduled_alloc mark_failed
  run_or_fail name def alloc_id node_id w =
      let (r, w') = run_scheduled_alloc name def alloc_id node_id w in mark_failed alloc_id r w'

  unfoldable pub start_alloc : String → ServiceDef → AllocId → ℕ → Task Unit
  unfolding choose_node run_or_fail
  start_alloc name def alloc_id replica = do
    chosen ← read_state e (choose_node name def)
    node_id ← ok_or (DeployError.scheduling_failed name replica) chosen
    found ← read_state e (λ fsm. raft_id_for fsm node_id)
    raft_node_id ← ok_or (DeployError.scheduling_failed name replica) found
    propose e (Command.alloc_scheduled (placement_of name def alloc_id raft_node_id))
    run_or_fail name def alloc_id node_id
