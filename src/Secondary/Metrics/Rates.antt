-- ===== src/Secondary/Metrics/Rates.antt =====
-- What the collector reports and remembers.
use mill.Prelude.{
  ap, arith, ◌∙◌, refl, ◌≡◌, ◌∷◌, [], List, ℕ, ◌||◌, is_some, str_eq_iff, string_key, nat_key,
  lookup, insert, Distinct, map, lookup-insert, lookup-retain,
}
use mill.Prelude.Float.{F64, Float}
use mill.Config.Runtime.{AllocId, ContainerStats}
use mill.Secondary.Metrics.{Readings, is_reported, rates_each, compute_cpu_rates}

module _ (f : Float) (as_secs : ℕ → F64) (now : ℕ) where
  abbrev ids : List ContainerStats → List AllocId
  ids = map (λ s. ContainerStats.alloc_id s)

  ids-rates_each :
      (stats : List ContainerStats) (prev : Readings)
      → ids (rates_each f as_secs now stats prev).0 ≡ ids stats
  unfolding rates_each
  ids-rates_each [] prev = refl
  ids-rates_each (s ∷ stats) prev = ap (λ l. ContainerStats.alloc_id s ∷ l) (ids-rates_each stats _)

  lookup-rates_each :
      (stats : List ContainerStats) (prev : Readings) (id : AllocId)
      → is_some (lookup id (rates_each f as_secs now stats prev).1)
        ≡ (is_reported stats id || is_some (lookup id prev))
  unfolding rates_each
  lookup-rates_each [] prev id = refl
  lookup-rates_each (s ∷ stats) prev id = ground (
    arith,
    lookup-rates_each stats (insert s.alloc_id (s.cpu_usage, now) prev) id,
    lookup-insert s.alloc_id id (s.cpu_usage, now) prev,
    str_eq_iff s.alloc_id id,
  )

-- The collector reports on the containers that run, in their order, and remembers readings of
-- exactly these: a container that is gone is forgotten.
pub compute_cpu_rates_exact :
    (f : Float) (as_secs : ℕ → F64) (stats : List ContainerStats) (prev : Readings) (now : ℕ)
    (id : AllocId)
    → Distinct prev
    → (map (λ s. ContainerStats.alloc_id s) (compute_cpu_rates f as_secs stats prev now).0
        ≡ map (λ s. ContainerStats.alloc_id s) stats)
      × (is_some (lookup id (compute_cpu_rates f as_secs stats prev now).1) ≡ is_reported stats id)
unfolding compute_cpu_rates
compute_cpu_rates_exact f as_secs stats prev now id d = (
  ids-rates_each f as_secs now stats _,
  lookup-rates_each f as_secs now stats _ id
      ∙ ground (arith, lookup-retain (λ i r. is_reported stats i) id prev d),
)
