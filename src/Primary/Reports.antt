-- ===== src/Primary/Reports.antt =====
-- crates/node/src/primary/report.rs: what the reports of the nodes change. Closed channels are known
-- by their number; the time is an argument.
pub mod Durations
use mill.Prelude.{
  inr, inl, Option-cases, Bool-cases, ◌≤◌, ◌<◌, ap, ◌⊎◌, arith, ◌∙◌, sym, subst, refl, none, some,
  ◌≡◌, Option, Bool, true, false, ◌∷◌, [], List, ℕ, zero, suc, ◌+◌, ◌-◌, ◌*◌, ◌%◌, ◌&&◌, ◌||◌, not,
  ltb, leb, ◌==◌, if◌then◌else◌, and_then, option_map, is_some, String, str_eq, str_eq_iff,
  string_key, nat_key, Map, lookup, insert, remove, retain, keys, values, Distinct, map, ◌++◌, ◌<>◌,
  display, any, filterb, find_first, length, In, any-true, any-false, In-filterb, filterb-In,
  lookup-insert, lookup-remove, lookup-retain, ite, max, ℕ_discrete, string_discrete, ◌↔◌, ◌≢◌, ◌^◌,
}
use mill.Prelude.Int.{ℤ}
use mill.Prelude.Float.{F64, Float}
use mill.Config.Runtime.{
  NodeId, AllocId, AllocStatus, Alloc, NodeResources, ContainerStats, SocketAddr, is_task,
}
use mill.Fsm.State.{FsmState, FsmNode}
use mill.Fsm.Command
use mill.Fsm.Command.{Command}
use mill.Rpc.Protocol.{NodeReport, Heartbeat}
use mill.Watchdog.Heartbeats.{HeartbeatTracker, record_heartbeat}

pub record NodeMetricsSnapshot : Type 0 where
  pub resources : NodeResources
  pub container_stats : List ContainerStats

-- The counts, one for each bucket of `TASK_DURATION_BUCKETS`.
pub record DurationHistogram : Type 0 where
  pub count : ℕ
  pub sum_seconds : F64
  pub buckets : List ℕ

pub record DurationHistogramSnapshot : Type 0 where
  pub name : String
  pub count : ℕ
  pub sum_seconds : F64
  pub buckets : List (F64 × ℕ)

pub record LiveMetrics : Type 0 where
  pub node_metrics : Map NodeId NodeMetricsSnapshot
  pub restart_counts : Map String ℕ
  pub task_spawn_counts : Map String ℕ
  pub task_durations : Map String DurationHistogram

abbrev pub u64_max : ℕ
u64_max = 2 ^ 64

abbrev pub zeros : List F64 → List ℕ
zeros [] = []
zeros (b ∷ bs) = 0 ∷ zeros bs

module _ (f : Float) where
  -- The loop of `record` with its `break`: the first bucket that holds the duration.
  unfoldable pub bump_bucket : F64 → List F64 → List ℕ → List ℕ
  bump_bucket secs [] buckets = buckets
  bump_bucket secs (b ∷ bs) [] = []
  bump_bucket secs (b ∷ bs) (n ∷ ns) =
      let rest = bump_bucket secs bs ns in
      if Float.le f secs b then (n + 1) % u64_max ∷ ns else n ∷ rest

-- The loop of a snapshot, with the sum so far.
unfoldable pub cumulate : ℕ → List F64 → List ℕ → List (F64 × ℕ)
cumulate cumulative [] ns = []
cumulate cumulative (b ∷ bs) [] = []
cumulate cumulative (b ∷ bs) (n ∷ ns) =
    (b, (cumulative + n) % u64_max) ∷ cumulate ((cumulative + n) % u64_max) bs ns

module _ (f : Float) (bounds : List F64) where
  -- `bounds` is `TASK_DURATION_BUCKETS`, whose last bound is infinite.
  unfoldable pub new_histogram : DurationHistogram
  new_histogram = record { count = 0; sum_seconds = Float.zero_f64 f; buckets = zeros bounds }

  unfoldable pub record_duration : F64 → DurationHistogram → DurationHistogram
  unfolding bump_bucket
  record_duration secs h = record {
    count = (h.count + 1) % u64_max;
    sum_seconds = Float.add f h.sum_seconds secs;
    buckets = bump_bucket f secs bounds h.buckets;
  }

  unfoldable pub snapshot_of : String → DurationHistogram → DurationHistogramSnapshot
  unfolding cumulate
  snapshot_of name h = record {
    name = name;
    count = h.count;
    sum_seconds = h.sum_seconds;
    buckets = cumulate 0 bounds h.buckets;
  }

  unfoldable pub task_duration_snapshots : LiveMetrics → List DurationHistogramSnapshot
  unfolding snapshot_of
  task_duration_snapshots m = map (λ e. snapshot_of e.0 e.1) m.task_durations

  unfoldable pub record_task_duration : String → F64 → LiveMetrics → LiveMetrics
  unfolding new_histogram record_duration
  record_task_duration task_name secs m = record m {
    task_durations =
        insert task_name
          (record_duration secs
            (elim (lookup task_name m.task_durations) [ none ↦ new_histogram | some h ↦ h ]))
          m.task_durations;
  }

abbrev pub new_metrics : LiveMetrics
new_metrics = record {
  node_metrics = [];
  restart_counts = [];
  task_spawn_counts = [];
  task_durations = [];
}

unfoldable pub update_metrics :
    NodeId → NodeResources → List ContainerStats → LiveMetrics → LiveMetrics
update_metrics node_id resources stats m = record m {
  node_metrics =
      insert node_id (record { resources = resources; container_stats = stats }) m.node_metrics;
}

-- `*entry.or_insert(0) += 1`
unfoldable pub increment : String → Map String ℕ → Map String ℕ
increment name counts =
    insert name ((elim (lookup name counts) [ none ↦ 0 | some n ↦ n ] + 1) % u64_max) counts

unfoldable pub record_restart : String → LiveMetrics → LiveMetrics
unfolding increment
record_restart name m = record m { restart_counts = increment name m.restart_counts }

unfoldable pub record_task_spawn : String → LiveMetrics → LiveMetrics
unfolding increment
record_task_spawn name m = record m { task_spawn_counts = increment name m.task_spawn_counts }
