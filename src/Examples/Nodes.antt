-- ===== src/Examples/Nodes.antt =====
-- The watchdog, and what a node keeps of its allocations.
use mill.Prelude.{
  arith, refl, none, some, ◌≡◌, true, ◌∷◌, [], List, ℕ, option_map, string_key, nat_key, lookup,
  insert, remove, retain, Distinct, ℕ_discrete, string_discrete,
}
use mill.Prelude.Int.{pos}
use mill.Watchdog.Heartbeats.{
  forget_gone, discover, mark_each, mark_node_allocs_failed, check_node, check_nodes, Watch,
  check_heartbeats,
}
use mill.Watchdog.Silence.{lookup-check_heartbeats}
use mill.Config.Runtime.{NodeStatus, AllocKind, AllocStatus, ContainerSpec}
use mill.Config.Resolved.{ServiceDef}
use mill.Fsm.State.{FsmNode, FsmState}
use mill.Fsm.Apply.{apply_alloc_status, apply_node_down, apply_command}
use mill.Watchdog.Restarts.{Backoff, restart_one, count_active, count_non_terminal}
use mill.Watchdog.Backoff.{restart_one_waits}
use mill.Secondary.Allocations.{LocalAlloc, AllocationMap}
use mill.Examples.Data.{cluster, web_def, alloc_of, node_of}

-- One replica runs, one is being pulled, and a third is missing.
abbrev behind : FsmState
behind = record cluster {
  allocs =
      ("web-1", alloc_of "web-1" "n1" AllocStatus.running)
      ∷ ("web-2", alloc_of "web-2" "n2" AllocStatus.pulling)
      ∷ [];
}

abbrev three : ServiceDef
three = record web_def { replicas = 3 }

abbrev backoff : Backoff
backoff = ("web", record { attempts = 0; last_attempt_at = 0 }) ∷ []

starts_two : (restart_one 2000000000 behind backoff "web" three).1 ≡ some 2
unfolding restart_one count_active count_non_terminal lookup string_discrete
starts_two = refl

-- What the first check leaves.
abbrev checked : Backoff
checked = (restart_one 2000000000 behind backoff "web" three).0

restart_one_waits_example : (restart_one 2900000000 behind checked "web" three).1 ≡ none
restart_one_waits_example =
    restart_one_waits 2000000000 2900000000 behind behind backoff "web" three three 2 starts_two
      (omega arith)

abbrev lines : List ℕ
lines = 1 ∷ 2 ∷ 3 ∷ []

abbrev last_two : List ℕ
last_two = 2 ∷ 3 ∷ []

abbrev spec : ContainerSpec
spec = record {
  alloc_id = "web-1";
  kind = AllocKind.service;
  timeout = none;
  command = none;
  image = "web:1";
  env = [];
  port = none;
  host_port = none;
  cpu = 1;
  memory = 500;
  volumes = [];
}

abbrev local : LocalAlloc
local = record {
  alloc_id = "web-1";
  spec = spec;
  status = AllocStatus.stopped (pos 0);
  host_port = none;
  log_buffer = 0;
}

abbrev locals : AllocationMap
locals = ("web-1", local) ∷ []

abbrev no_locals : AllocationMap
no_locals = []

one-Distinct : Distinct locals
unfolding lookup
one-Distinct = (refl, tt)

node_known : lookup 1 cluster.nodes ≡ some (node_of 1 "n1")
unfolding lookup ℕ_discrete
node_known = refl

none_there : lookup "web-1" no_locals ≡ none
unfolding lookup
none_there = refl

-- The first node was heard at time 5, the second never.
abbrev watch : Watch
watch = record {
  fsm = cluster;
  tracker = (1, 5) ∷ [];
  node_discovered = (2, 0) ∷ [];
  restart_backoff = backoff;
}

heard_at : lookup 1 watch.tracker ≡ some 5
unfolding lookup ℕ_discrete
heard_at = refl

lookup-check_heartbeats_example :
    lookup 1 (check_heartbeats (λ c. true) 12 10 watch).fsm.nodes ≡ lookup 1 cluster.nodes
lookup-check_heartbeats_example =
    lookup-check_heartbeats (λ c. true) 12 10 watch 1 5 refl heard_at (omega arith)

second_down :
    option_map
      (λ n. FsmNode.status n)
      (lookup 2 (check_heartbeats (λ c. true) 12 10 watch).fsm.nodes)
    ≡ some NodeStatus.down
unfolding check_heartbeats check_nodes check_node mark_node_allocs_failed mark_each discover
    forget_gone lookup insert retain remove ℕ_discrete string_discrete apply_command apply_node_down
    apply_alloc_status
second_down = refl
