-- ===== src/Secondary/Metrics.antt =====
-- crates/node/src/secondary/metrics.rs: the CPU rates of the containers. `Duration::as_secs_f64` is
-- a parameter; the files of the Linux host are read outside.
pub mod Rates
use mill.Prelude.{
  inr, inl, Option-cases, Bool-cases, ◌≤◌, ◌<◌, ap, ◌⊎◌, arith, ◌∙◌, sym, subst, refl, none, some,
  ◌≡◌, Option, Bool, true, false, ◌∷◌, [], List, ℕ, zero, suc, ◌+◌, ◌-◌, ◌*◌, ◌%◌, ◌&&◌, ◌||◌, not,
  ltb, leb, ◌==◌, if◌then◌else◌, and_then, option_map, is_some, String, str_eq, str_eq_iff,
  string_key, nat_key, Map, lookup, insert, remove, retain, keys, values, Distinct, map, ◌++◌, ◌<>◌,
  display, any, filterb, find_first, length, In, any-true, any-false, In-filterb, filterb-In,
  lookup-insert, lookup-remove, lookup-retain, ite, max, ℕ_discrete, string_discrete, ◌↔◌, ◌≢◌,
}
use mill.Prelude.Float.{F64, Float}
use mill.Config.Runtime.{AllocId, ContainerStats, NodeResources}

-- The reading before of each container, in CPU seconds, with its time.
abbrev pub Readings : Type 0
Readings = Map AllocId (F64 × ℕ)

abbrev pub is_reported : List ContainerStats → AllocId → Bool
is_reported stats id = any (λ s. str_eq (ContainerStats.alloc_id s) id) stats

unfoldable pub rate : Float → (ℕ → F64) → F64 → ℕ → Option (F64 × ℕ) → F64
rate f as_secs usage now none = Float.zero_f64 f
rate f as_secs usage now (some (before, time)) =
    let elapsed = as_secs (now - time) in
    if Float.lt f (Float.zero_f64 f) elapsed
    then Float.f64_max f (Float.div f (Float.sub f usage before) elapsed) (Float.zero_f64 f)
    else Float.zero_f64 f

-- The closure of `map`, over the containers in order.
unfoldable pub rates_each :
    Float → (ℕ → F64) → ℕ → List ContainerStats → Readings → List ContainerStats × Readings
unfolding rate lookup insert
rates_each f as_secs now [] prev = ([], prev)
rates_each f as_secs now (s ∷ stats) prev =
    let here = rate f as_secs s.cpu_usage now (lookup s.alloc_id prev) in
    let (later, all) = rates_each f as_secs now stats (insert s.alloc_id (s.cpu_usage, now) prev) in
    (record s { cpu_usage = here } ∷ later, all)

unfoldable pub compute_cpu_rates :
    Float → (ℕ → F64) → List ContainerStats → Readings → ℕ → List ContainerStats × Readings
unfolding rates_each retain
compute_cpu_rates f as_secs stats prev now =
    rates_each f as_secs now stats (retain (λ id r. is_reported stats id) prev)

-- The cache, and a tick of the loop; without an answer of the runtime there are no containers.
pub record Collector : Type 0 where
  pub cache : NodeResources × List ContainerStats
  pub prev_cpu : Readings

unfoldable pub new_collector : Float → Collector
new_collector f = record {
  cache = (
    record {
      cpu_total = Float.zero_f64 f;
      cpu_available = Float.zero_f64 f;
      memory_total = 0;
      memory_available = 0;
    },
    [],
  );
  prev_cpu = [];
}

abbrev pub stats_or_none : Option (List ContainerStats) → List ContainerStats
stats_or_none none = []
stats_or_none (some l) = l

unfoldable pub poll :
    Float → (ℕ → F64) → NodeResources → Option (List ContainerStats) → ℕ → Collector → Collector
unfolding compute_cpu_rates
poll f as_secs resources stats_all now c =
    let (rates, prev) = compute_cpu_rates f as_secs (stats_or_none stats_all) c.prev_cpu now in
    record { cache = (resources, rates); prev_cpu = prev }
