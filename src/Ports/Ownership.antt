-- ===== src/Ports/Ownership.antt =====
-- Which ports the operations hand out and take back.
use mill.Prelude.{
  lookup-remove, ◌∙◌, subst, ap, refl, lookup-insert_self, false, true, inr, nat_key, lookup-insert,
  ◌==◌, inl, Option-cases, if◌then◌else◌, ◌⊎◌, ◌≡◌, ◌≤◌, arith, some, none, lookup, ℕ,
}
use mill.Prelude.Sorted.{at-put, first_least, first-none, first, at-delete, at}
use mill.Config.Runtime.{AllocId}
use mill.Ports.{release, allocate_specific, PortPool, allocate, reserve}
use mill.Ports.Invariant.{allocate-IsValid, release-IsValid, IsValid}

-- The pool after a port is handed to an owner.
pub record IsHanded (pool : PortPool) (a : AllocId) (p : ℕ) (pool' : PortPool) : Type 0 where
  pub was_free : at p pool.available ≡ some tt
  pub was_unowned : lookup p pool.allocated ≡ none
  pub free_after : (q : ℕ) → at q pool'.available ≡ (if q == p then none else at q pool.available)
  pub owners_after :
      (q : ℕ) → lookup q pool'.allocated ≡ (if q == p then some a else lookup q pool.allocated)

reserve-IsHanded :
    (pool : PortPool) (a : AllocId) (p : ℕ)
    → at p pool.available ≡ some tt
    → lookup p pool.allocated ≡ none
    → IsHanded pool a p (reserve pool p a)
reserve-IsHanded pool a p h u = record {
  was_free = h;
  was_unowned = u;
  free_after = λ q. at-delete p q pool.available;
  owners_after = λ q. ground (arith, lookup-insert p q a pool.allocated);
}

free_unowned :
    (pool : PortPool) (p : ℕ)
    → IsValid pool
    → at p pool.available ≡ some tt
    → lookup p pool.allocated ≡ none
free_unowned pool p v h = elim (Option-cases (lookup p pool.allocated)) [
  | inl e ↦ e
  | inr (x, e) ↦ ground (arith, v.disjoint p x)
]

-- On a valid pool, `allocate` either leaves the pool and gives none where no port is free, or
-- hands the least free port, which nobody owned, to the allocation and changes no other port.
pub allocate_exact :
    (pool : PortPool) (a : AllocId)
    → IsValid pool
    → ((allocate pool a ≡ (pool, none)) × ((p : ℕ) → at p pool.available ≡ none))
      ⊎ ((p : ℕ) × ((allocate pool a).1 ≡ some p)
          × IsHanded pool a p (allocate pool a).0
          × ((q : ℕ) → at q pool.available ≡ some tt → p ≤ q))
unfolding allocate
allocate_exact pool a v = elim (Option-cases (first pool.available)) [
  | inl e ↦ inl (rw (e, allocate) refl, first-none pool.available e)
  | inr (x, e) ↦
      let (here, least) = first_least 0 pool.available x v.ascending e in
      inr (
        x.0,
        rw (e, allocate) refl,
        rw (e, allocate) (reserve-IsHanded pool a x.0 here (free_unowned pool x.0 v here)),
        λ q. least q tt,
      )
]

-- `allocate_specific` reserves exactly the ports of the range that nobody owns, and the last owner
-- stands; whether the port was free does not matter.
pub allocate_specific_exact :
    (pool : PortPool) (a : AllocId) (p : ℕ)
    → ((allocate_specific pool a p).1 ≡ true
        → (pool.start ≤ p)
          × (p ≤ pool.end)
          × (lookup p pool.allocated ≡ none)
          × (lookup p (allocate_specific pool a p).0.allocated ≡ some a)
          × (at p (allocate_specific pool a p).0.available ≡ none))
      × ((allocate_specific pool a p).1 ≡ false → (allocate_specific pool a p).0 ≡ pool)
unfolding allocate_specific
allocate_specific_exact pool a p = (
  λ h. ground (
    arith,
    lookup-insert_self p a pool.allocated,
    at-delete p p pool.available,
    Option-cases (lookup p pool.allocated),
  ),
  λ h. ground arith,
)

release-handed :
    (pool : PortPool) (a : AllocId) (p : ℕ) (pool' : PortPool) (q : ℕ)
    → IsHanded pool a p pool'
    → (at q (release pool' p).available ≡ at q pool.available)
      × (lookup q (release pool' p).allocated ≡ lookup q pool.allocated)
unfolding release
release-handed pool a p pool' q g = ground (
  arith,
  g.owners_after p,
  g.owners_after q,
  g.free_after q,
  g.was_free,
  g.was_unowned,
  at-put p q tt pool'.available,
  lookup-remove p q pool'.allocated,
)

pub handed :
    (pool : PortPool) (a : AllocId) (p : ℕ)
    → IsValid pool
    → (allocate pool a).1 ≡ some p
    → IsHanded pool a p (allocate pool a).0 × ((q : ℕ) → at q pool.available ≡ some tt → p ≤ q)
handed pool a p v h = elim (allocate_exact pool a v) [
  | inl (e, f) ↦ ground (arith, ap (λ x. x.1) e)
  | inr (r, e, g, l) ↦
      let is_p : r ≡ p = ground arith in
      subst
        (λ x.
          IsHanded pool a x (allocate pool a).0 × ((q : ℕ) → at q pool.available ≡ some tt → x ≤ q))
        is_p (g, l)
]

-- Releasing what was just allocated from a valid pool restores every port's owner and freedom.
pub release-allocate :
    (pool : PortPool) (a : AllocId) (p q : ℕ)
    → IsValid pool
    → (allocate pool a).1 ≡ some p
    → (at q (release (allocate pool a).0 p).available ≡ at q pool.available)
      × (lookup q (release (allocate pool a).0 p).allocated ≡ lookup q pool.allocated)
release-allocate pool a p q v h =
    release-handed pool a p (allocate pool a).0 q (handed pool a p v h).0

-- If a port that a valid pool gave to one allocation is released, the next allocation gets the
-- same port; a second release then leaves the port without an owner and free, though the second
-- allocation never gave it back.
pub release_twice :
    (pool : PortPool) (a b : AllocId) (p : ℕ)
    → IsValid pool
    → (allocate pool a).1 ≡ some p
    → ((allocate (release (allocate pool a).0 p) b).1 ≡ some p)
      × (lookup p (allocate (release (allocate pool a).0 p) b).0.allocated ≡ some b)
      × (lookup p (release (allocate (release (allocate pool a).0 p) b).0 p).allocated ≡ none)
      × (at p (release (allocate (release (allocate pool a).0 p) b).0 p).available ≡ some tt)
release_twice pool a b p v h =
    let (g, least) = handed pool a p v h in
    again (release (allocate pool a).0 p)
      (release-IsValid (allocate pool a).0 p (allocate-IsValid pool a v))
      (λ q. release-handed pool a p (allocate pool a).0 q g) g least
  where
    again :
        (pool1 : PortPool)
        → IsValid pool1
        → ((q : ℕ)
            → (at q pool1.available ≡ at q pool.available)
              × (lookup q pool1.allocated ≡ lookup q pool.allocated))
        → IsHanded pool a p (allocate pool a).0
        → ((q : ℕ) → at q pool.available ≡ some tt → p ≤ q)
        → ((allocate pool1 b).1 ≡ some p)
          × (lookup p (allocate pool1 b).0.allocated ≡ some b)
          × (lookup p (release (allocate pool1 b).0 p).allocated ≡ none)
          × (at p (release (allocate pool1 b).0 p).available ≡ some tt)
    again pool1 w same g least = elim (allocate_exact pool1 b w) [
      | inl (e, f) ↦ ground (arith, f p, (same p).0, g.was_free)
      | inr (r, e, k, l) ↦
          let is_p : r ≡ p =
            ground (arith, l p, least r, (same r).0, (same p).0, k.was_free, g.was_free) in
          let k' = subst (λ x. IsHanded pool1 b x (allocate pool1 b).0) is_p k in
          let (free, owner) = release-handed pool1 b p (allocate pool1 b).0 p k' in
          (
            e ∙ ap some is_p,
            ground (arith, k'.owners_after p),
            owner ∙ k'.was_unowned,
            free ∙ k'.was_free,
          )
    ]
