-- ===== src/Secondary/Runner/Exits.antt =====
-- The exit waiters of containers: in time, and after the allocation was stopped.
use mill.Prelude.{
  inr, inl, Option-cases, arith, ◌∙◌, sym, refl, none, some, ◌≡◌, ℕ, string_key, nat_key, lookup,
  insert, remove, lookup-insert, lookup-remove, ◌≢◌,
}
use mill.Prelude.Int.{ℤ}
use mill.Config.Runtime.{AllocId, AllocStatus}
use mill.Ports.{PortPool, release}
use mill.Secondary.Allocations.{LocalAlloc, AllocationMap, set_status, remove_alloc}
use mill.Secondary.Runner.{RunContext, exit_waiter, final_status}
use mill.Secondary.Runner.Ports.{IsHeld, lookup-release, release-IsHeld, remove-IsHeld}

lookup-set_status :
    (m : AllocationMap) (id c : AllocId) (s : AllocStatus)
    → lookup c (remove id (set_status m id s)) ≡ lookup c (remove id m)
unfolding set_status
lookup-set_status m id c s = elim (Option-cases (lookup id m)) [
  | inl e ↦ rw (e, set_status) refl
  | inr (a, e) ↦ ground (
    arith,
    lookup-remove id c m,
    lookup-remove id c (insert id (record a { status = s }) m),
    lookup-insert id c (record a { status = s }) m,
  )
]

same_lookups-IsHeld :
    (ports : PortPool) (m m' : AllocationMap)
    → ((c : AllocId) → lookup c m' ≡ lookup c m)
    → IsHeld ports m
    → IsHeld ports m'
same_lookups-IsHeld ports m m' same v = record {
  pool = v.pool;
  owned = λ id a p l k. v.owned id a p (sym (same id) ∙ l) k;
}

-- If each allocation of a node owns its port and the pool is valid, this is so after the exit waiter
-- of one that is there, with its port.
pub exit_waiter-IsHeld :
    (id : AllocId) (a : LocalAlloc) (code : ℤ) (ctx : RunContext)
    → IsHeld ctx.ports ctx.allocs
    → lookup id ctx.allocs ≡ some a
    → IsHeld
        (exit_waiter id a.host_port code ctx).ports
        (exit_waiter id a.host_port code ctx).allocs
unfolding exit_waiter remove_alloc
exit_waiter-IsHeld id a code ctx v h = elim (Option-cases a.host_port) [
  | inl k ↦
      rw (k, exit_waiter)
        (same_lookups-IsHeld ctx.ports (remove id ctx.allocs) _
          (λ c. lookup-set_status ctx.allocs id c (final_status code))
          (remove-IsHeld ctx.ports ctx.allocs id v))
  | inr (p, k) ↦
      rw (k, exit_waiter)
        (same_lookups-IsHeld (release ctx.ports p) (remove id ctx.allocs) _
          (λ c. lookup-set_status ctx.allocs id c (final_status code))
          (release-IsHeld ctx.ports ctx.allocs id p v (v.owned id a p h k)))
]

-- If the exit waiter of one allocation fires with a port that another allocation of the node has by
-- now, this one stays on the node with the port, which nobody owns any more.
pub exit_waiter_takes_port :
    (id b : AllocId) (held : LocalAlloc) (p : ℕ) (code : ℤ) (ctx : RunContext)
    → lookup b ctx.allocs ≡ some held
    → held.host_port ≡ some p
    → id ≢ b
    → (lookup b (exit_waiter id (some p) code ctx).allocs ≡ some held)
      × (lookup p (exit_waiter id (some p) code ctx).ports.allocated ≡ none)
unfolding exit_waiter remove_alloc
exit_waiter_takes_port id b held p code ctx h k ne = (
  lookup-set_status ctx.allocs id b (final_status code)
      ∙ ground (arith, lookup-remove id b ctx.allocs),
  ground (arith, lookup-release ctx.ports p p),
)
