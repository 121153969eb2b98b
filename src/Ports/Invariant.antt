-- ===== src/Ports/Invariant.antt =====
-- About crates/net/src/ports.rs: when a pool is consistent, with a lemma for each operation.
use mill.Prelude.{
  ◌+◌, lookup-remove, ltb, refl, lookup-insert, ◌&&◌, [], leb, ◌∷◌, ◌-◌, if◌then◌else◌, inr, zero,
  nat_key, suc, inl, Option-cases, List, ◌≡◌, ◌≤◌, arith, Map, some, none, lookup, ℕ,
}
use mill.Prelude.Sorted.{
  at-put, delete, put-Above, at-delete, first_least, first, delete-Above, Sorted, at, Above,
}
use mill.Config.Runtime.{AllocId}
use mill.Ports.{
  mem_port, PortPool, with_range, ports_from, remove_ports, allocate, allocate_specific, release,
  restore, reserve,
}

pub record IsValid (pool : PortPool) : Type 0 where
  pub ascending : Above 0 pool.available
  pub free_in_range : (p : ℕ) → at p pool.available ≡ some tt → (pool.start ≤ p) × (p ≤ pool.end)
  pub owned_in_range :
      (p : ℕ) (a : AllocId) → lookup p pool.allocated ≡ some a → (pool.start ≤ p) × (p ≤ pool.end)
  pub disjoint :
      (p : ℕ) (a : AllocId) → lookup p pool.allocated ≡ some a → at p pool.available ≡ none

at-ports_from :
    (n s p : ℕ) → at p (ports_from n s) ≡ (if leb s p && ltb p (s + n) then some tt else none)
unfolding ports_from at
at-ports_from zero s p = ground arith
at-ports_from (suc n) s p = ground (arith, at-ports_from n (suc s) p)

ports_from-Above : (n s b : ℕ) → b ≤ s → Above b (ports_from n s)
unfolding ports_from
ports_from-Above zero s b h = tt
ports_from-Above (suc n) s b h = (h, ports_from-Above n (suc s) (suc s) (omega arith))

at-remove_ports :
    (ps : List ℕ) (p : ℕ) (m : Sorted (Unit {0}))
    → at p (remove_ports ps m) ≡ (if mem_port p ps then none else at p m)
unfolding remove_ports
at-remove_ports [] p m = refl
at-remove_ports (q ∷ ps) p m = ground (arith, at-remove_ports ps p (delete q m), at-delete q p m)

remove_ports-Above :
    (ps : List ℕ) (b : ℕ) (m : Sorted (Unit {0})) → Above b m → Above b (remove_ports ps m)
unfolding remove_ports
remove_ports-Above [] b m a = a
remove_ports-Above (q ∷ ps) b m a = remove_ports-Above ps b (delete q m) (delete-Above b q m a)

-- A fresh pool offers exactly the range's ports that the host does not use.
pub at-with_range :
    (in_use : List ℕ) (s e p : ℕ)
    → at p (with_range in_use s e).available
      ≡ (if mem_port p in_use then none else if leb s p && leb p e then some tt else none)
unfolding with_range
at-with_range in_use s e p =
    ground
      (arith, at-remove_ports in_use p (ports_from (suc e - s) s), at-ports_from (suc e - s) s p)

pub with_range-IsValid : (in_use : List ℕ) (s e : ℕ) → IsValid (with_range in_use s e)
unfolding with_range lookup
with_range-IsValid in_use s e = record {
  ascending =
      remove_ports-Above in_use 0 (ports_from (suc e - s) s)
        (ports_from-Above (suc e - s) s 0 (omega arith));
  free_in_range = λ p h. ground (arith, at-with_range in_use s e p);
  owned_in_range = λ p a h. cc;
  disjoint = λ p a h. cc;
}

reserve-IsValid :
    (pool : PortPool) (p : ℕ) (a : AllocId)
    → pool.start ≤ p
    → p ≤ pool.end
    → IsValid pool
    → IsValid (reserve pool p a)
reserve-IsValid pool p a l u v = record {
  ascending = delete-Above 0 p pool.available v.ascending;
  free_in_range = λ q h. ground (arith, at-delete p q pool.available, v.free_in_range q);
  owned_in_range =
      λ q b h. ground (arith, lookup-insert p q a pool.allocated, v.owned_in_range q b);
  disjoint = λ q b h.
      ground
        (arith, lookup-insert p q a pool.allocated, at-delete p q pool.available, v.disjoint q b);
}

pub allocate-IsValid : (pool : PortPool) (a : AllocId) → IsValid pool → IsValid (allocate pool a).0
unfolding allocate
allocate-IsValid pool a v = elim (Option-cases (first pool.available)) [
  | inl e ↦ rw (e, allocate) v
  | inr (x, e) ↦
      let (here, least) = first_least 0 pool.available x v.ascending e in
      let (l, u) = v.free_in_range x.0 here in rw (e, allocate) (reserve-IsValid pool x.0 a l u v)
]

pub allocate_specific-IsValid :
    (pool : PortPool) (a : AllocId) (p : ℕ) → IsValid pool → IsValid (allocate_specific pool a p).0
unfolding allocate_specific
allocate_specific-IsValid pool a p v = ground (arith, reserve-IsValid pool p a)

pub release-IsValid : (pool : PortPool) (p : ℕ) → IsValid pool → IsValid (release pool p)
unfolding release
release-IsValid pool p v = elim (Option-cases (lookup p pool.allocated)) [
  | inl e ↦ rw e v
  | inr (x, e) ↦ rw e (record {
    ascending = put-Above 0 p tt pool.available (omega arith) v.ascending;
    free_in_range = λ q h.
        ground (arith, at-put p q tt pool.available, v.free_in_range q, v.owned_in_range p x e);
    owned_in_range =
        λ q b h. ground (arith, lookup-remove p q pool.allocated, v.owned_in_range q b);
    disjoint = λ q b h.
        ground
          (arith, lookup-remove p q pool.allocated, at-put p q tt pool.available, v.disjoint q b);
  })
]

pub restore-IsValid :
    (in_use : List ℕ) (snapshot : Map ℕ AllocId) (pool : PortPool)
    → IsValid pool
    → IsValid (restore in_use pool snapshot)
unfolding restore
restore-IsValid in_use [] pool v = v
restore-IsValid in_use ((p, a) ∷ rest) pool v =
    restore-IsValid in_use rest _ (ground (arith, reserve-IsValid pool p a))
