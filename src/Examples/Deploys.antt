-- ===== src/Examples/Deploys.antt =====
-- The theorems about deploys, tasks, nodes, readiness and routes of commands.
use mill.Prelude.{
  ◌⊎◌, arith, refl, none, some, ◌≡◌, true, false, ◌∷◌, [], ◌+◌, ◌%◌, leb, string_key, nat_key,
  lookup, insert, ℕ_discrete, string_discrete, ◌≢◌,
}
use mill.Prelude.Exec.{ok, err}
use mill.Config.Runtime.{AllocStatus}
use mill.Config.Resolved.{HealthCheck, ServiceDef}
use mill.Fsm.State.{FsmState}
use mill.Fsm.Command
use mill.Rpc.Protocol.{NodeCommand}
use mill.Rpc.Router.{NodeError, CommandRouter, send, wire_connection, writer_ended, new_router}
use mill.Rpc.Router.Routes.{is_open, writer_ended_takes_newer}
use mill.Primary.Health.{Network, wait_healthy, wait_tcp_ready}
use mill.Primary.Health.Readiness.{IsPrompt, EndsBy, wait_healthy_ends, wait_tcp_ready_ends}
use mill.Primary.World.{Env, World, DeployError}
use mill.Primary.World.Events.{Every}
use mill.Primary.Start.{start_alloc}
use mill.Primary.Start.Outcome.{Outcome, start_alloc-Outcome}
use mill.Primary.Rollout.Stops.{StopsOnly}
use mill.Primary.Rolling.{rolling_update, run_deploy}
use mill.Primary.Rolling.Updates.{Safe, Started, rolling_update_keeps_old}
use mill.Primary.Rolling.Replaced.{Replaced, update_read, rolling_update-Replaced}
use mill.Primary.Tasks.{spawn_task, Parsers, SpawnTaskRequest}
use mill.Primary.Nodes.{drain_node}
use mill.Primary.Nodes.Drain.{moves_read, StopsActive, drain_node-StopsActive}
use mill.Fsm.Apply.{
  run_commands, apply_command, apply_alloc_running, apply_alloc_scheduled, apply_alloc_status,
}
use mill.Fsm.State.{node_available_resources, available_on, sum_used}
use mill.Primary.World.{read_state, suffix, propose, send_command, advance}
use mill.Primary.Rollout.{create_volumes_if_needed, attempt}
use mill.Scheduler.{schedule, min_from, bin_pack, bin_pack_score, filter_nodes, spread, volume_node}
use mill.Rpc.Router.{send_to}
use mill.Primary.Health.{healthy_loop, tcp_loop, wait_until}
use mill.Primary.Resolve.{resolve_env}
use mill.Primary.Rolling.{finish, start_replicas, stop_old}
use mill.Primary.Start.{
  await_address, await_status, check_ready, choose_node, container_spec, first_volume, is_ready_at,
  mark_failed, poll_for_address, run_or_fail, run_scheduled_alloc, settle, wait_for_status,
}
use mill.Prelude.{lookup, insert, string_discrete, ℕ_discrete}
use mill.Prelude.Exec.{◌>>=◌}
use mill.Primary.Rolling.{carry_out, node_capacities, run_deploy}
use mill.Primary.Rolling.Refused.{run_deploy_cases, secrets_read, capacities_read}
use mill.Deploy.Validate.{valid, validate_secret_refs, validate_resource_capacity}
use mill.Deploy.Diff.{diff_config}
use mill.Primary.Tasks.{spawn_task, Parsers, SpawnTaskRequest}
use mill.Primary.Tasks.Leftover.{OnlyPlaces, spawn_task-OnlyPlaces}
use mill.Primary.Nodes.{drain_node}
use mill.Primary.Nodes.Drain.{moves_read, StopsActive, drain_node-StopsActive}
use mill.Rpc.Router.{NodeError, send, wire_connection, writer_ended}
use mill.Rpc.Router.Routes.{is_open, writer_ended_takes_newer}
use mill.Rpc.Protocol.{NodeCommand}
use mill.Fsm.State.{list_secret_names}
use mill.Examples.Data.{node_of, alloc_of, whole, addr, web_def, config, cluster}

-- Every request is answered within a second; a sleep is late by a tenth at most.
abbrev network : Network
network = record {
  probe = λ t a path. (leb 30 t, 1);
  connect = λ t a. (leb 30 t, 1);
  oversleep = λ t. t % 2;
}

network-IsPrompt : IsPrompt network 1 1
network-IsPrompt = record {
  probes = λ t a path. omega arith;
  connects = λ t a. omega arith;
  sleeps = λ t. omega arith;
}

abbrev health : HealthCheck
health = record { path = "/health"; interval = 10; failure_threshold = 5 }

wait_healthy_ends_example :
    EndsBy 107 (wait_healthy network (addr 80) health 100 5)
    × EndsBy 107 (healthy_loop network (addr 80) health (5 + 100) 5 0 5)
wait_healthy_ends_example =
    wait_healthy_ends network (addr 80) 1 1 network-IsPrompt health 100 5 5 (omega arith)
      (omega arith) (omega arith)

wait_tcp_ready_ends_example : EndsBy 107 (wait_tcp_ready network (addr 80) 10 100 5)
wait_tcp_ready_ends_example =
    wait_tcp_ready_ends network (addr 80) 1 1 network-IsPrompt 10 100 5 (omega arith)

ready_at : wait_healthy network (addr 80) health 100 5 ≡ some (true, 41)
unfolding wait_healthy
ready_at = refl

-- Both nodes are connected.
abbrev routes : CommandRouter
routes = record new_router {
  inner = ("n1", 1) ∷ ("n2", 2) ∷ [];
  connections = ("n2", 7) ∷ [];
  channels =
      (1, record { closed = false; queue = [] }) ∷ (2, record { closed = false; queue = [] }) ∷ [];
}

abbrev env : Env
env = record {
  float = whole;
  others = λ t. Command.alloc_running "web-x" (some (addr 80)) none ∷ [];
  write_error = λ t. none;
  router = λ t. routes;
  volumes = none;
  network = network;
  tcp_ready_poll_interval = 10;
  health_timeout = 100;
  clock = λ t. 40 + t;
  changes = λ t. 1;
  rand_suffix = λ t. "x";
  decrypt_secret = λ c n. ok c;
  from_utf8 = λ b. ok "";
  addr_to_string = λ a. "addr";
}

abbrev one_node : FsmState
one_node = record cluster {
  nodes = (1, node_of 1 "n1") ∷ [];
  allocs = ("web-1", alloc_of "web-1" "n1" AllocStatus.running) ∷ [];
}

abbrev world : World
world = record { fsm = one_node; tick = 0; events = [] }

abbrev one_def : ServiceDef
one_def = record web_def { replicas = 1 }

start_alloc-Outcome_example :
    Outcome env "web-x" "web" web_def world (start_alloc env "web" web_def "web-x" 0 world)
start_alloc-Outcome_example = start_alloc-Outcome env "web-x" (λ t. refl) "web" web_def 0 world

-- Nothing is stopped.
abbrev NoStops : World → Type 0
NoStops = Every (StopsOnly (λ id. ⊥))

rolling_update_keeps_old_example :
    Safe env "web" (rolling_update env "web" one_def world).1
    ⊎ Started env "web" one_def (rolling_update env "web" one_def world)
rolling_update_keeps_old_example = rolling_update_keeps_old env "web" one_def world tt

updated : (rolling_update env "web" one_def world).0 ≡ ok tt
unfolding rolling_update ◌>>=◌ read_state run_commands apply_command apply_alloc_running lookup
    string_discrete create_volumes_if_needed suffix start_alloc schedule node_available_resources
    ℕ_discrete min_from propose send_command send apply_alloc_scheduled apply_alloc_status
    available_on sum_used insert healthy_loop tcp_loop wait_tcp_ready wait_until resolve_env finish
    start_replicas stop_old attempt await_address await_status check_ready choose_node
    container_spec first_volume is_ready_at mark_failed poll_for_address run_or_fail
    run_scheduled_alloc settle wait_for_status advance send_to bin_pack bin_pack_score filter_nodes
    spread volume_node
updated = refl

rolling_update-Replaced_example :
    Replaced env "web" one_def
      (update_read env "web" one_def world)
      (rolling_update env "web" one_def world).1
rolling_update-Replaced_example = rolling_update-Replaced env "web" one_def world updated

abbrev read_capacities : World
read_capacities = capacities_read env world

run_deploy_cases_example :
    (((validate_secret_refs config (list_secret_names (secrets_read env world).fsm) ≢ valid)
        ⊎ (validate_resource_capacity whole config (node_capacities read_capacities.fsm) ≢ valid))
      × ((x : DeployError) × ((run_deploy env config world).0 ≡ err x))
      × ((run_deploy env config world).1.events ≡ []))
    ⊎ ((validate_secret_refs config (list_secret_names (secrets_read env world).fsm) ≡ valid)
        × (validate_resource_capacity whole config (node_capacities read_capacities.fsm) ≡ valid)
        × (run_deploy env config world
            ≡ carry_out env
                (diff_config whole (advance env world).fsm.config config)
                (advance env world).fsm.config
                config
                read_capacities))
run_deploy_cases_example = run_deploy_cases env config world

abbrev parsers : Parsers
parsers = record { parse_bytesize = λ s. ok 100; parse_duration = λ s. err "no duration" }

abbrev request : SpawnTaskRequest
request = record {
  task = none;
  image = some "job:1";
  cpu = 1;
  memory = "100";
  env = [];
  timeout = none;
}

spawn_task-OnlyPlaces_example : Every OnlyPlaces (spawn_task env parsers request world).1
spawn_task-OnlyPlaces_example = spawn_task-OnlyPlaces env parsers request world tt

drain_node-StopsActive_example :
    Every (StopsActive 1 (moves_read env 1 world)) (drain_node env 1 world).1
drain_node-StopsActive_example = drain_node-StopsActive env 1 world refl

n1_route : lookup "n1" routes.inner ≡ some 1
unfolding lookup string_discrete
n1_route = refl

n1_open : is_open routes 1 ≡ true
unfolding lookup ℕ_discrete
n1_open = refl

writer_ended_takes_newer_example :
    ((send "n2"
        (NodeCommand.stop "web-1")
        (writer_ended "n2" 2 true (wire_connection "n2" 3 8 routes))).0
      ≡ err (NodeError.node_unreachable "n2"))
    × (is_open (writer_ended "n2" 2 true (wire_connection "n2" 3 8 routes)) 3 ≡ true)
writer_ended_takes_newer_example =
    writer_ended_takes_newer "n2" 2 3 8 (NodeCommand.stop "web-1") routes (omega arith)
