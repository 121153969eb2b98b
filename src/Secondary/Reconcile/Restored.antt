-- ===== src/Secondary/Reconcile/Restored.antt =====
-- Which allocations a node has after it was reconciled.
use mill.Prelude.{
  inr, inl, Option-cases, Bool-cases, arith, ◌∙◌, sym, subst, refl, some, ◌≡◌, Option, Bool, true,
  false, ◌∷◌, [], List, ◌&&◌, ◌||◌, not, is_some, str_eq, str_eq_iff, string_key, nat_key, lookup,
  In, In-filterb, filterb-In, lookup-insert, ◌↔◌,
}
use mill.Config.Runtime.{AllocId, IpAddr}
use mill.Secondary.Allocations.{insert_alloc}
use mill.Secondary.Runner.{RunContext}
use mill.Secondary.Reconcile.{
  RecoveredContainer, Managed, is_in, rehydrate, recovered_alloc, reconcile_one, reconcile_each,
  reconcile,
}

-- The container runs and containerd knows about it.
abbrev pub is_restorable : Managed → List AllocId → AllocId → Bool
is_restorable m running id = is_in running id && is_some (Managed.recover_info m id)

lookup-rehydrate :
    (m : Managed) (ip : Option IpAddr) (id c : AllocId) (r : RecoveredContainer) (ctx : RunContext)
    → is_some (lookup c (rehydrate m ip id r ctx).allocs)
      ≡ is_some (lookup c ctx.allocs) || str_eq id c
unfolding rehydrate insert_alloc
lookup-rehydrate m ip id c r ctx = elim (Option-cases (lookup id ctx.allocs)) [
  | inl e ↦ ground (
    arith,
    lookup-insert id c (recovered_alloc id r (Managed.log_buffer m id)) ctx.allocs,
    str_eq_iff id c,
  )
  | inr (a, e) ↦ ground (arith, str_eq_iff id c)
]

reconcile_one_same :
    (m : Managed) (running : List AllocId) (ip : Option IpAddr) (c : AllocId) (ctx : RunContext)
    → is_some (lookup c (reconcile_one m running ip c ctx).allocs)
      ≡ is_some (lookup c ctx.allocs) || is_restorable m running c
unfolding reconcile_one
reconcile_one_same m running ip c ctx = elim (Bool-cases (is_in running c)) [
  | inr k ↦ rw (k, reconcile_one) (ground arith)
  | inl k ↦ elim (Option-cases (Managed.recover_info m c)) [
    | inl e ↦ rw (k, reconcile_one, e) (ground arith)
    | inr (r, e) ↦
        rw (k, reconcile_one, e) (ground (arith, lookup-rehydrate m ip c c r ctx, str_eq_iff c c))
  ]
]

reconcile_one_other :
    (m : Managed) (running : List AllocId) (ip : Option IpAddr) (id c : AllocId) (ctx : RunContext)
    → str_eq id c ≡ false
    → is_some (lookup c (reconcile_one m running ip id ctx).allocs) ≡ is_some (lookup c ctx.allocs)
unfolding reconcile_one
reconcile_one_other m running ip id c ctx h = elim (Bool-cases (is_in running id)) [
  | inr k ↦ rw (k, reconcile_one) refl
  | inl k ↦ elim (Option-cases (Managed.recover_info m id)) [
    | inl e ↦ rw (k, reconcile_one, e) refl
    | inr (r, e) ↦ rw (k, reconcile_one, e) (ground (arith, lookup-rehydrate m ip id c r ctx))
  ]
]

lookup-reconcile_one :
    (m : Managed) (running : List AllocId) (ip : Option IpAddr) (id c : AllocId) (ctx : RunContext)
    → is_some (lookup c (reconcile_one m running ip id ctx).allocs)
      ≡ is_some (lookup c ctx.allocs) || (str_eq id c && is_restorable m running c)
lookup-reconcile_one m running ip id c ctx = elim (Bool-cases (str_eq id c)) [
  | inl h ↦ rw h (
      subst
        (λ x.
          is_some (lookup c (reconcile_one m running ip x ctx).allocs)
          ≡ is_some (lookup c ctx.allocs) || is_restorable m running c)
        (sym ((str_eq_iff id c).0 h)) (reconcile_one_same m running ip c ctx))
  | inr h ↦ rw h (reconcile_one_other m running ip id c ctx h ∙ ground arith)
]

lookup-reconcile_each :
    (m : Managed) (running : List AllocId) (ip : Option IpAddr) (ids : List AllocId) (c : AllocId)
    (ctx : RunContext)
    → is_some (lookup c (reconcile_each m running ip ids ctx).allocs)
      ≡ is_some (lookup c ctx.allocs) || (is_in ids c && is_restorable m running c)
unfolding reconcile_each
lookup-reconcile_each m running ip [] c ctx = ground arith
lookup-reconcile_each m running ip (id ∷ ids) c ctx = ground (
  arith,
  lookup-reconcile_each m running ip ids c (reconcile_one m running ip id ctx),
  lookup-reconcile_one m running ip id c ctx,
)

-- If containerd lists its containers, a node that is reconciled has, beside the allocations that it
-- had before, exactly those that are expected and run and that containerd knows about; stopped are
-- exactly the containers that run and are not expected.
pub reconcile_exact :
    (m : Managed) (expected running : List AllocId) (ip : Option IpAddr) (c : AllocId)
    (ctx : RunContext)
    → m.list_managed ≡ some running
    → (is_some (lookup c (reconcile m expected ip ctx).0.allocs)
        ≡ is_some (lookup c ctx.allocs) || (is_in expected c && is_restorable m running c))
      × ((In c (reconcile m expected ip ctx).1) ↔ (In c running × (not (is_in expected c) ≡ true)))
unfolding reconcile
reconcile_exact m expected running ip c ctx h = (
  rw (h, reconcile) (lookup-reconcile_each m running ip expected c ctx),
  rw (h, reconcile)
      (
        In-filterb (λ id. not (is_in expected id)) running c,
        λ (k, n). filterb-In (λ id. not (is_in expected id)) running c k n,
      ),
)
