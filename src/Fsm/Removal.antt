-- ===== src/Fsm/Removal.antt =====
-- When a node may be removed, and what its removal leaves.
use mill.Prelude.{
  not, string_key, nat_key, ℕ, ◌≡◌, ◌≢◌, ◌↔◌, none, some, Distinct, lookup, lookup-remove,
  lookup-retain, any-values-false, any-values-true, values, any, arith, true, false, Bool-cases,
  Option-cases, inl, inr, str_eq_iff, str_eq,
}
use mill.Config.Runtime.{AllocId, NodeId, Alloc, is_terminal}
use mill.Fsm.State.{FsmNode, FsmState}
use mill.Fsm.Command.{node_remove, ok}
use mill.Fsm.Apply.{is_active_on, apply_node_remove, apply_command}

-- All that runs on the node has ended.
abbrev pub Drained : FsmState → NodeId → Type 0
Drained s mill_id =
    (c : AllocId) (a : Alloc)
    → lookup c s.allocs ≡ some a
    → a.node ≡ mill_id
    → is_terminal a.status ≡ true

Drained-any :
    (s : FsmState) (mill_id : NodeId)
    → any (is_active_on mill_id) (values s.allocs) ≡ false
    → Drained s mill_id
Drained-any s mill_id h c a e n =
    ground
      (arith, any-values-false (is_active_on mill_id) s.allocs c a h e, str_eq_iff a.node mill_id)

any-Drained :
    (s : FsmState) (mill_id : NodeId)
    → Distinct s.allocs
    → Drained s mill_id
    → any (is_active_on mill_id) (values s.allocs) ≡ false
any-Drained s mill_id d h = elim (Bool-cases (any (is_active_on mill_id) (values s.allocs))) [
  | inl t ↦
      let (c, a, e, active) = any-values-true (is_active_on mill_id) s.allocs d t in
      ground (arith, h c a e, str_eq_iff a.node mill_id)
  | inr f ↦ f
]

-- Where no allocation's identifier stands twice, a node is removed exactly if it is known and all
-- its allocations are stopped or failed.
pub node_remove_iff :
    (s : FsmState) (id : ℕ)
    → Distinct s.allocs
    → ((apply_command s (node_remove id)).1 ≡ ok)
      ↔ ((n : FsmNode) × (lookup id s.nodes ≡ some n) × Drained s n.mill_id)
unfolding apply_command apply_node_remove
node_remove_iff s id d = (to, from)
  where
    to :
        (apply_node_remove s id).1 ≡ ok
        → (n : FsmNode) × (lookup id s.nodes ≡ some n) × Drained s n.mill_id
    to h = elim (Option-cases (lookup id s.nodes)) [
      | inl e ↦ absurd (ground arith)
      | inr (n, e) ↦ (n, e, Drained-any s n.mill_id (ground arith))
    ]

    from :
        ((n : FsmNode) × (lookup id s.nodes ≡ some n) × Drained s n.mill_id)
        → (apply_node_remove s id).1 ≡ ok
    from (n, e, h) = ground (arith, any-Drained s n.mill_id d h)

-- Where no allocation's identifier stands twice, an accepted removal of a node takes away the node
-- and the allocations on it. Every other node, every other allocation and all volumes stay, those
-- attached to the node too.
pub node_remove_effect :
    (s : FsmState) (id : ℕ) (n : FsmNode)
    → Distinct s.allocs
    → lookup id s.nodes ≡ some n
    → (apply_command s (node_remove id)).1 ≡ ok
    → let t = (apply_command s (node_remove id)).0 in
      (lookup id t.nodes ≡ none)
      × ((j : ℕ) → j ≢ id → lookup j t.nodes ≡ lookup j s.nodes)
      × ((c : AllocId) (a : Alloc) → lookup c t.allocs ≡ some a → a.node ≢ n.mill_id)
      × ((c : AllocId) (a : Alloc)
          → lookup c s.allocs ≡ some a
          → a.node ≢ n.mill_id
          → lookup c t.allocs ≡ some a)
      × (t.volumes ≡ s.volumes)
unfolding apply_command apply_node_remove
node_remove_effect s id n d e h = (
  ground (arith, lookup-remove id id s.nodes),
  λ j ne. ground (arith, lookup-remove id j s.nodes),
  λ c a k. ground (
    arith,
    lookup-retain (λ k a. not (str_eq a.node n.mill_id)) c s.allocs d,
    str_eq_iff a.node n.mill_id,
  ),
  λ c a k ne. ground (
    arith,
    lookup-retain (λ k a. not (str_eq a.node n.mill_id)) c s.allocs d,
    str_eq_iff a.node n.mill_id,
  ),
  ground arith,
)
