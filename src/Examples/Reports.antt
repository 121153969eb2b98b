-- ===== src/Examples/Reports.antt =====
-- The theorems about reports, DNS records and the containers of a node.
use mill.Config.Runtime.{AllocId}
use mill.Secondary.Reconcile.{Managed, is_in, reconcile}
use mill.Secondary.Reconcile.Restored.{is_restorable, reconcile_exact}
use mill.Secondary.Runner.Exits.{exit_waiter_takes_port}
use mill.Secondary.Allocations.{remove_alloc, LocalAlloc, insert_alloc}
use mill.Prelude.{
  arith, refl, none, some, ◌≡◌, true, false, ◌∷◌, [], List, ℕ, ◌&&◌, ◌||◌, not, is_some, String,
  str_eq_iff, string_key, nat_key, lookup, insert, remove, values, display, In, ℕ_discrete,
  string_discrete, ◌↔◌, ◌/◌,
}
use mill.Prelude.Float.{F64}
use mill.Prelude.Int.{pos}
use mill.Config.Runtime.{AllocStatus, ContainerSpec, AllocKind}
use mill.Fsm.Heartbeat.{reported}
use mill.Rpc.Protocol.{NodeReport, Heartbeat}
use mill.Ports.{with_range, ports_from, remove_ports, allocate, release}
use mill.Prelude.Sorted.{first, delete, put}
use mill.Ports.Invariant.{with_range-IsValid}
use mill.Prelude.Exec.{ok}
use mill.Primary.Reports.{new_metrics, new_histogram, snapshot_of}
use mill.Primary.Reports.Durations.{record_all, Rises, snapshot_of-Rises}
use mill.Primary.Processor.{Processor, Clock, process_report}
use mill.Primary.Processor.Effects.{process_heartbeat}
use mill.Primary.Dns.{set_records, compute_dns_records}
use mill.Primary.Dns.Records.{entry, active_addresses, lookup-set_records}
use mill.Secondary.Runner.{
  exit_waiter, stop_container, with_host_port, launch, RunContext, Containers, run_container,
}
use mill.Secondary.Runner.Ports.{stop_container-IsHeld, IsHeld, run_container-IsHeld}
use mill.Examples.Data.{whole, total, node_of, alloc_of, cluster}

-- The bounds of the buckets, the last one above every duration here.
abbrev bounds : List F64
bounds = 1 ∷ 5 ∷ 30 ∷ 1000000 ∷ []

abbrev durations : List F64
durations = 3 ∷ 700 ∷ 5 ∷ []

snapshot_of-Rises_example :
    let s =
      snapshot_of whole bounds "job"
        (record_all whole bounds durations (new_histogram whole bounds)) in
    (s.count ≡ 3) × Rises 0 3 s.buckets
snapshot_of-Rises_example =
    snapshot_of-Rises whole bounds "job" durations (refl, (refl, (refl, tt))) (omega arith)

abbrev clock : Clock
clock = record { float = whole; bounds = bounds; as_secs_f64 = λ n. n / 1000000000 }

abbrev processor : Processor
processor = record {
  fsm = record cluster {
    nodes = (1, node_of 1 "n1") ∷ [];
    allocs = ("web-1", alloc_of "web-1" "n1" AllocStatus.pulling) ∷ [];
  };
  heartbeat_tracker = [];
  live_metrics = new_metrics;
  log_subscribers = [];
}

abbrev beat : Heartbeat
beat = record {
  node_id = "n1";
  alloc_statuses = ("web-1", AllocStatus.running) ∷ [];
  resources = total;
  stats = [];
  volumes = [];
}

process_heartbeat_example :
    (lookup 1
        (process_report clock 7 [] true (NodeReport.heartbeat beat) processor).heartbeat_tracker
      ≡ some 7)
    × (lookup "web-1"
          (process_report clock 7 [] true (NodeReport.heartbeat beat) processor).fsm.allocs
        ≡ reported (lookup "web-1" processor.fsm.allocs) (lookup "web-1" beat.alloc_statuses))
unfolding lookup
process_heartbeat_example =
    process_heartbeat clock 7 beat processor 1 (node_of 1 "n1") "web-1" (refl, tt) (refl, tt) refl

abbrev stranger : Heartbeat
stranger = record beat { node_id = "n9" }

is_there : lookup "web-1" processor.fsm.allocs ≡ some (alloc_of "web-1" "n1" AllocStatus.pulling)
unfolding lookup string_discrete
is_there = refl

lookup-set_records_example :
    lookup "web" (set_records (compute_dns_records cluster) [])
    ≡ entry (active_addresses "web" (values cluster.allocs))
lookup-set_records_example = lookup-set_records cluster [] "web"

abbrev containerd : Containers
containerd = record { is_image_cached = true; pull_image = none; run = none; stop = ok (pos 0) }

abbrev spec : ContainerSpec
spec = record {
  alloc_id = "web-1";
  kind = AllocKind.service;
  timeout = none;
  command = none;
  image = "web:1";
  env = [];
  port = some 80;
  host_port = none;
  cpu = 1;
  memory = 500;
  volumes = [];
}

abbrev idle : RunContext
idle = record { ports = with_range [] 50000 50003; allocs = []; reports = []; waiters = [] }

idle-IsHeld : IsHeld idle.ports idle.allocs
unfolding lookup
idle-IsHeld = record { pool = with_range-IsValid [] 50000 50003; owned = λ id a p l k. cc }

run_container-IsHeld_example :
    IsHeld
      (run_container containerd "web-1" spec none 0 idle).1.ports
      (run_container containerd "web-1" spec none 0 idle).1.allocs
run_container-IsHeld_example = run_container-IsHeld containerd "web-1" spec none 0 idle idle-IsHeld

-- A container is run and stopped, and another one is run, before the waiter of the first fires.
abbrev ran : RunContext
ran = (run_container containerd "web-1" spec none 0 idle).1

abbrev stopped_then_ran : RunContext
stopped_then_ran =
    (run_container containerd "web-2" spec none 1 (stop_container containerd "web-1" ran).1).1

abbrev held : ℕ → String → LocalAlloc
held buffer id = record {
  alloc_id = id;
  spec = record spec { host_port = some 50000; env = ("PORT", "50000") ∷ [] };
  status = AllocStatus.running;
  host_port = some 50000;
  log_buffer = buffer;
}

stop_container-IsHeld_example :
    IsHeld
      (stop_container containerd "web-1" ran).1.ports
      (stop_container containerd "web-1" ran).1.allocs
    × (lookup "web-1" (stop_container containerd "web-1" ran).1.allocs ≡ none)
stop_container-IsHeld_example =
    stop_container-IsHeld containerd "web-1" ran run_container-IsHeld_example

ran_web_1 : lookup "web-1" ran.allocs ≡ some (held 0 "web-1")
unfolding run_container with_host_port launch allocate insert_alloc with_range ports_from
    remove_ports first insert lookup string_discrete display
ran_web_1 = refl

ran_web_2 : lookup "web-2" stopped_then_ran.allocs ≡ some (held 1 "web-2")
unfolding run_container stop_container with_host_port launch allocate release delete put remove
    remove_alloc insert_alloc with_range ports_from remove_ports first insert lookup string_discrete
    ℕ_discrete display
ran_web_2 = refl

exit_waiter_takes_port_example :
    (lookup "web-2" (exit_waiter "web-1" (some 50000) (pos 0) stopped_then_ran).allocs
      ≡ some (held 1 "web-2"))
    × (lookup 50000 (exit_waiter "web-1" (some 50000) (pos 0) stopped_then_ran).ports.allocated
        ≡ none)
exit_waiter_takes_port_example =
    exit_waiter_takes_port "web-1" "web-2" (held 1 "web-2") 50000 (pos 0) stopped_then_ran ran_web_2
      refl (λ h. let k : false ≡ true = (str_eq_iff "web-1" "web-2").1 h in cc)

-- The container of web-1 runs and is expected, that of web-8 is not, and web-9 has died.
abbrev managed : Managed
managed = record {
  list_managed = some ("web-1" ∷ "web-8" ∷ []);
  recover_info = λ id. some (record {
    alloc_id = id;
    kind = AllocKind.service;
    timeout = none;
    command = none;
    host_port = some 50001;
    cpu = 1;
    memory = 500;
    image = "web:1";
    volumes = [];
  });
  log_buffer = λ id. 0;
}

abbrev expected : List AllocId
expected = "web-1" ∷ "web-9" ∷ []

reconcile_exact_example :
    (is_some (lookup "web-1" (reconcile managed expected none idle).0.allocs)
      ≡ is_some (lookup "web-1" idle.allocs)
        || (is_in expected "web-1" && is_restorable managed ("web-1" ∷ "web-8" ∷ []) "web-1"))
    × ((In {A = AllocId} "web-1" (reconcile managed expected none idle).1) ↔ (
        In {A = AllocId} "web-1" ("web-1" ∷ "web-8" ∷ []) × (not (is_in expected "web-1") ≡ true)))
reconcile_exact_example =
    reconcile_exact managed expected ("web-1" ∷ "web-8" ∷ []) none "web-1" idle refl
