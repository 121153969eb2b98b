-- ===== src/Secondary/Runner/Ports.antt =====
-- The ports of the containers of a node.
use mill.Prelude.{
  inr, inl, Option-cases, arith, refl, none, some, ◌≡◌, Option, ℕ, ◌==◌, if◌then◌else◌, string_key,
  nat_key, lookup, remove, lookup-insert, lookup-remove,
}
use mill.Config.Runtime.{AllocId, ContainerSpec, IpAddr}
use mill.Ports.{PortPool, allocate, release}
use mill.Ports.Invariant.{IsValid, allocate-IsValid, release-IsValid}
use mill.Ports.Ownership.{handed}
use mill.Secondary.Allocations.{LocalAlloc, AllocationMap, insert_alloc, remove_alloc}
use mill.Secondary.Runner.{
  RunContext, Containers, release_port, launch, with_host_port, run_container, stop_container,
  pull_failure,
}

-- The pool is valid, and each allocation of the node owns its port.
pub record IsHeld (ports : PortPool) (allocs : AllocationMap) : Type 0 where
  pub pool : IsValid ports
  pub owned :
      (id : AllocId) (a : LocalAlloc) (p : ℕ)
      → lookup id allocs ≡ some a
      → a.host_port ≡ some p
      → lookup p ports.allocated ≡ some id

allocate-IsHeld :
    (ports : PortPool) (allocs : AllocationMap) (id : AllocId) (p : ℕ)
    → IsHeld ports allocs
    → (allocate ports id).1 ≡ some p
    → IsHeld (allocate ports id).0 allocs × (lookup p (allocate ports id).0.allocated ≡ some id)
allocate-IsHeld ports allocs id p v h =
    let (g, least) = handed ports id p v.pool h in
    (
      record {
        pool = allocate-IsValid ports id v.pool;
        owned = λ id' a q l k. ground (arith, g.owners_after q, g.was_unowned, v.owned id' a q l k);
      },
      ground (arith, g.owners_after p),
    )

pub lookup-release :
    (ports : PortPool) (p q : ℕ)
    → lookup q (release ports p).allocated ≡ (if p == q then none else lookup q ports.allocated)
unfolding release
lookup-release ports p q = elim (Option-cases (lookup p ports.allocated)) [
  | inl e ↦ ground arith
  | inr (x, e) ↦ ground (arith, lookup-remove p q ports.allocated)
]

-- The port of an allocation that is taken out goes back.
pub release-IsHeld :
    (ports : PortPool) (allocs : AllocationMap) (id : AllocId) (p : ℕ)
    → IsHeld ports allocs
    → lookup p ports.allocated ≡ some id
    → IsHeld (release ports p) (remove id allocs)
release-IsHeld ports allocs id p v h = record {
  pool = release-IsValid ports p v.pool;
  owned = λ id' a q l k.
      ground (arith, lookup-release ports p q, lookup-remove id id' allocs, v.owned id' a q);
}

pub remove-IsHeld :
    (ports : PortPool) (allocs : AllocationMap) (id : AllocId)
    → IsHeld ports allocs
    → IsHeld ports (remove id allocs)
remove-IsHeld ports allocs id v = record {
  pool = v.pool;
  owned = λ id' a q l k. ground (arith, lookup-remove id id' allocs, v.owned id' a q);
}

release_absent :
    (ports : PortPool) (allocs : AllocationMap) (id : AllocId) (p : ℕ)
    → IsHeld ports allocs
    → lookup p ports.allocated ≡ some id
    → lookup id allocs ≡ none
    → IsHeld (release ports p) allocs
release_absent ports allocs id p v h n = record {
  pool = release-IsValid ports p v.pool;
  owned = λ id' a q l k. ground (arith, lookup-release ports p q, v.owned id' a q);
}

-- An allocation that is put in with a port that it owns, or without one.
insert-IsHeld :
    (ports : PortPool) (allocs : AllocationMap) (a : LocalAlloc)
    → IsHeld ports allocs
    → ((p : ℕ) → a.host_port ≡ some p → lookup p ports.allocated ≡ some a.alloc_id)
    → IsHeld ports (insert_alloc allocs a).0
unfolding insert_alloc
insert-IsHeld ports allocs a v h = record {
  pool = v.pool;
  owned =
      λ id' b q l k. ground (arith, lookup-insert a.alloc_id id' a allocs, v.owned id' b q, h q);
}

launch-IsHeld :
    (c : Containers) (id : AllocId) (spec : ContainerSpec) (ip : Option IpAddr) (buffer : ℕ)
    (port : Option ℕ) (ctx : RunContext)
    → IsHeld ctx.ports ctx.allocs
    → ((p : ℕ) → port ≡ some p → lookup p ctx.ports.allocated ≡ some id)
    → lookup id ctx.allocs ≡ none
    → let r = (launch c id spec ip buffer port ctx).1 in IsHeld r.ports r.allocs
unfolding launch
launch-IsHeld c id spec ip buffer port ctx v h n = elim (Option-cases c.run) [
  | inl e ↦ rw (e, launch) (insert-IsHeld ctx.ports ctx.allocs _ v h)
  | inr (x, e) ↦ rw (e, launch) (freed port h)
]
  where
    freed :
        (port : Option ℕ)
        → ((p : ℕ) → port ≡ some p → lookup p ctx.ports.allocated ≡ some id)
        → IsHeld (release_port port ctx).ports (release_port port ctx).allocs
    freed none h = v
    freed (some p) h = release_absent ctx.ports ctx.allocs id p v (h p refl) n

with_host_port-IsHeld :
    (c : Containers) (id : AllocId) (spec : ContainerSpec) (ip : Option IpAddr) (buffer : ℕ)
    (ctx : RunContext)
    → IsHeld ctx.ports ctx.allocs
    → lookup id ctx.allocs ≡ none
    → let r = (with_host_port c id spec ip buffer ctx).1 in IsHeld r.ports r.allocs
unfolding with_host_port
with_host_port-IsHeld c id spec ip buffer ctx v n = elim (Option-cases spec.port) [
  | inl e ↦ rw (e, with_host_port) (launch-IsHeld c id spec ip buffer none ctx v (λ p h. cc) n)
  | inr (cp, e) ↦ elim (Option-cases (allocate ctx.ports id).1) [
    | inl k ↦ rw (e, with_host_port, k) v
    | inr (p, k) ↦
        let (v', o) = allocate-IsHeld ctx.ports ctx.allocs id p v k in
        rw (e, with_host_port, k)
          (launch-IsHeld c id spec ip buffer (some p)
            (record ctx { ports = (allocate ctx.ports id).0 }) v' (λ q h. ground arith) n)
  ]
]

-- If each allocation of a node owns its port and the pool is valid, this is so after a container was
-- run, also where that fails.
pub run_container-IsHeld :
    (c : Containers) (id : AllocId) (spec : ContainerSpec) (ip : Option IpAddr) (buffer : ℕ)
    (ctx : RunContext)
    → IsHeld ctx.ports ctx.allocs
    → IsHeld
        (run_container c id spec ip buffer ctx).1.ports
        (run_container c id spec ip buffer ctx).1.allocs
unfolding run_container
run_container-IsHeld c id spec ip buffer ctx v = elim (Option-cases (lookup id ctx.allocs)) [
  | inr (a, e) ↦ rw (e, run_container) v
  | inl e ↦ elim (Option-cases (pull_failure c)) [
    | inr (x, k) ↦ rw (e, run_container, k) v
    | inl k ↦ rw (e, run_container, k) (with_host_port-IsHeld c id spec ip buffer _ v e)
  ]
]

-- If each allocation of a node owns its port and the pool is valid, this is so after one was stopped,
-- whatever containerd answers, and the node does not have that one any more.
pub stop_container-IsHeld :
    (c : Containers) (id : AllocId) (ctx : RunContext)
    → IsHeld ctx.ports ctx.allocs
    → IsHeld (stop_container c id ctx).1.ports (stop_container c id ctx).1.allocs
      × (lookup id (stop_container c id ctx).1.allocs ≡ none)
unfolding stop_container remove_alloc
stop_container-IsHeld c id ctx v = elim (Option-cases (lookup id ctx.allocs)) [
  | inl e ↦
      rw (e, stop_container)
        (remove-IsHeld ctx.ports ctx.allocs id v, ground (arith, lookup-remove id id ctx.allocs))
  | inr (a, e) ↦ elim (Option-cases a.host_port) [
    | inl k ↦
        rw (e, stop_container, k)
          (remove-IsHeld ctx.ports ctx.allocs id v, ground (arith, lookup-remove id id ctx.allocs))
    | inr (p, k) ↦
        rw (e, stop_container, k)
          (
            release-IsHeld ctx.ports ctx.allocs id p v (v.owned id a p e k),
            ground (arith, lookup-remove id id ctx.allocs),
          )
  ]
]
