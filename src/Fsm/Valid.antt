-- ===== src/Fsm/Valid.antt =====
-- The state's own consistency: each node stands under its `raft_id` and each allocation under its
-- `id`, and no key stands twice. The child goes through the
-- commands.
pub mod Commands
use mill.Prelude.{
  ◌∙◌, Option-cases, inr, inl, Bool-cases, retain, insert, remove, Bool, if◌then◌else◌, string_key,
  nat_key, ℕ, ◌≡◌, some, [], ◌∷◌, Map, Distinct, lookup, lookup-insert, lookup-remove,
  lookup-retain, insert-Distinct, remove-Distinct, retain-Distinct, arith,
}
use mill.Config.Runtime.{AllocId, AllocStatus, Alloc}
use mill.Fsm.State.{EncryptedSecret, FsmVolume, FsmNode, FsmState}
use mill.Fsm.Apply.{is_downgrade, report_one, report_all}

pub record NodesValid (m : Map ℕ FsmNode) : Type 0 where
  pub distinct : Distinct m
  pub raft_ids : (id : ℕ) (n : FsmNode) → lookup id m ≡ some n → n.raft_id ≡ id

pub record AllocsValid (m : Map AllocId Alloc) : Type 0 where
  pub distinct : Distinct m
  pub ids : (id : AllocId) (a : Alloc) → lookup id m ≡ some a → a.id ≡ id

pub record IsValid (s : FsmState) : Type 0 where
  pub nodes_valid : NodesValid s.nodes
  pub allocs_valid : AllocsValid s.allocs
  pub secrets_distinct : Distinct s.secrets
  pub volumes_distinct : Distinct s.volumes

insert-NodesValid :
    (m : Map ℕ FsmNode) (id : ℕ) (n : FsmNode)
    → NodesValid m
    → n.raft_id ≡ id
    → NodesValid (insert id n m)
insert-NodesValid m id n v e = record {
  distinct = insert-Distinct id n m v.distinct;
  raft_ids = λ j x h. ground (arith, lookup-insert id j n m, v.raft_ids j x);
}

remove-NodesValid : (m : Map ℕ FsmNode) (id : ℕ) → NodesValid m → NodesValid (remove id m)
remove-NodesValid m id v = record {
  distinct = remove-Distinct id m v.distinct;
  raft_ids = λ j x h. ground (arith, lookup-remove id j m, v.raft_ids j x);
}

insert-AllocsValid :
    (m : Map AllocId Alloc) (id : AllocId) (a : Alloc)
    → AllocsValid m
    → a.id ≡ id
    → AllocsValid (insert id a m)
insert-AllocsValid m id a v e = record {
  distinct = insert-Distinct id a m v.distinct;
  ids = λ j x h. ground (arith, lookup-insert id j a m, v.ids j x);
}

retain-AllocsValid :
    (p : AllocId → Alloc → Bool) (m : Map AllocId Alloc) → AllocsValid m → AllocsValid (retain p m)
retain-AllocsValid p m v = record {
  distinct = retain-Distinct p m v.distinct;
  ids = λ j x h. ground (arith, lookup-retain p j m v.distinct, v.ids j x);
}

report_one-AllocsValid :
    (m : Map AllocId Alloc) (id : AllocId) (status : AllocStatus)
    → AllocsValid m
    → AllocsValid (report_one m id status)
unfolding report_one
report_one-AllocsValid m id status v = elim (Option-cases (lookup id m)) [
  | inl e ↦ rw (e, report_one) v
  | inr (a, e) ↦ rw (e, report_one) (keep a e)
]
  where
    keep :
        (a : Alloc)
        → lookup id m ≡ some a
        → AllocsValid
            (if is_downgrade a.status status then m else insert id (record a { status = status }) m)
    keep a e = elim (Bool-cases (is_downgrade a.status status)) [
      | inl t ↦ rw t v
      | inr f ↦ rw f (insert-AllocsValid m id _ v (v.ids id a e))
    ]

report_all-AllocsValid :
    (m : Map AllocId Alloc) (statuses : Map AllocId AllocStatus)
    → AllocsValid m
    → AllocsValid (report_all m statuses)
unfolding report_all
report_all-AllocsValid m [] v = v
report_all-AllocsValid m ((id, status) ∷ rest) v =
    report_all-AllocsValid (report_one m id status) rest (report_one-AllocsValid m id status v)

-- A change of a known node that leaves its `raft_id` alone.
change-NodesValid :
    (s : FsmState) (id : ℕ) (n n' : FsmNode)
    → NodesValid s.nodes
    → lookup id s.nodes ≡ some n
    → n'.raft_id ≡ n.raft_id
    → NodesValid (insert id n' s.nodes)
change-NodesValid s id n n' v h e = insert-NodesValid s.nodes id n' v (e ∙ v.raft_ids id n h)

change-AllocsValid :
    (s : FsmState) (id : AllocId) (a a' : Alloc)
    → AllocsValid s.allocs
    → lookup id s.allocs ≡ some a
    → a'.id ≡ a.id
    → AllocsValid (insert id a' s.allocs)
change-AllocsValid s id a a' v h e = insert-AllocsValid s.allocs id a' v (e ∙ v.ids id a h)
