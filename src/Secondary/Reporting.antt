-- ===== src/Secondary/Reporting.antt =====
-- What a node reports of its allocations, and what the cluster's state makes of the report.
use mill.Prelude.{
  inr, inl, Option-cases, Bool-cases, ap, arith, ◌∙◌, refl, none, some, ◌≡◌, ◌∷◌, [], ℕ, ◌&&◌,
  if◌then◌else◌, option_map, is_some, str_eq, str_eq_iff, string_key, nat_key, lookup, insert,
  remove, Distinct, lookup-insert, lookup-remove, lookup-insert_self,
}
use mill.Config.Runtime.{AllocId, AllocStatus}
use mill.Fsm.State.{FsmState, FsmNode}
use mill.Fsm.Command.{node_heartbeat}
use mill.Fsm.Apply.{apply_command}
use mill.Fsm.Heartbeat.{reported, lookup-heartbeat}
use mill.Secondary.Allocations.{
  LocalAlloc, AllocationMap, insert_alloc, remove_alloc, all_statuses, set_status,
}

pub lookup-all_statuses :
    (m : AllocationMap) (id : AllocId)
    → lookup id (all_statuses m) ≡ option_map (λ a. LocalAlloc.status a) (lookup id m)
unfolding all_statuses lookup
lookup-all_statuses [] id = refl
lookup-all_statuses ((k, a) ∷ m) id = ground (arith, lookup-all_statuses m id)

pub all_statuses-Distinct : (m : AllocationMap) → Distinct m → Distinct (all_statuses m)
unfolding all_statuses
all_statuses-Distinct [] d = tt
all_statuses-Distinct ((k, a) ∷ m) d = (
  lookup-all_statuses m k ∙ ap (option_map (λ a. LocalAlloc.status a)) d.0,
  all_statuses-Distinct m d.1,
)

-- After `set_status` of an allocation that the node has, a heartbeat reports the new status for it
-- and the old ones for the others; for an allocation that it has not, nothing changes.
pub set_status-reported :
    (m : AllocationMap) (id c : AllocId) (status : AllocStatus)
    → lookup c (all_statuses (set_status m id status))
      ≡ (if str_eq id c && is_some (lookup id m) then some status else lookup c (all_statuses m))
unfolding set_status
set_status-reported m id c status = elim (Option-cases (lookup id m)) [
  | inl e ↦ rw (e, set_status) (ground (arith, Bool-cases (str_eq id c)))
  | inr (a, e) ↦
      rw (e, set_status)
        (ground (
          arith,
          lookup-all_statuses (insert id (record a { status = status }) m) c,
          lookup-all_statuses m c,
          lookup-insert id c (record a { status = status }) m,
          str_eq_iff id c,
        ))
]

-- A heartbeat of a known node carries the node's view into the cluster's state: each allocation
-- that both know has the node's status there, except that Running leaves a Healthy one as it is;
-- one that only the state knows is unchanged, and one that only the node knows is not made. The
-- node knows no identifier twice.
pub heartbeat_carries :
    (s : FsmState) (raft_id : ℕ) (n : FsmNode) (m : AllocationMap) (c : AllocId)
    → Distinct m
    → lookup raft_id s.nodes ≡ some n
    → lookup c (apply_command s (node_heartbeat raft_id (all_statuses m))).0.allocs
      ≡ reported (lookup c s.allocs) (option_map (λ a. LocalAlloc.status a) (lookup c m))
heartbeat_carries s raft_id n m c d h =
    lookup-heartbeat s raft_id (all_statuses m) n c (all_statuses-Distinct m d) h
    ∙ ap (reported (lookup c s.allocs)) (lookup-all_statuses m c)

-- An allocation with a new identifier is put in once: another one under that identifier is refused
-- and leaves the first; a removal gives the first back and takes its status out of the report.
pub insert_alloc_once :
    (m : AllocationMap) (a b : LocalAlloc)
    → lookup a.alloc_id m ≡ none
    → a.alloc_id ≡ b.alloc_id
    → (insert_alloc (insert_alloc m a).0 b ≡ ((insert_alloc m a).0, some b.alloc_id))
      × ((remove_alloc (insert_alloc m a).0 a.alloc_id).1 ≡ some a)
      × (lookup a.alloc_id (all_statuses (remove_alloc (insert_alloc m a).0 a.alloc_id).0) ≡ none)
unfolding insert_alloc remove_alloc
insert_alloc_once m a b h e = ground (
  arith,
  h,
  e,
  lookup-insert_self a.alloc_id a m,
  lookup-remove a.alloc_id a.alloc_id (insert a.alloc_id a m),
  lookup-all_statuses (remove a.alloc_id (insert a.alloc_id a m)) a.alloc_id,
)
