-- ===== src/Fsm/Resources.antt =====
-- The memory that a node has left.
use mill.Fsm.Command.{alloc_scheduled, Placement}
use mill.Fsm.Apply.{apply_alloc_scheduled, apply_command}
use mill.Prelude.{
  str_eq_iff, ◌≤◌, ◌-◌, none, values, some, Map, insert, lookup, inr, inl, Bool-cases, string_key,
  nat_key, ℕ, ◌+◌, ◌%◌, ◌<◌, ◌≡◌, List, [], ◌∷◌, arith, if◌then◌else◌, str_eq,
}
use mill.Prelude.Float.{F64, Float}
use mill.Config.Runtime.{NodeResources, AllocId, NodeId, Alloc, is_terminal}
use mill.Fsm.State.{
  make_alloc, available_on, FsmNode, FsmState, node_available_resources, u64_mod, sum_used,
}

-- The memory of the allocations on the node that have not ended.
unfoldable pub memory_on : NodeId → List Alloc → ℕ
memory_on mill_id [] = 0
memory_on mill_id (a ∷ as') =
    let rest = memory_on mill_id as' in
    if str_eq a.node mill_id
    then (if is_terminal a.status then rest else a.resources.memory + rest)
    else rest

sum_used-memory_on :
    (f : Float) (mill_id : NodeId) (cpu : F64) (mem : ℕ) (l : List Alloc)
    → mem + memory_on mill_id l < u64_mod
    → (sum_used f mill_id cpu mem l).1 ≡ mem + memory_on mill_id l
unfolding sum_used memory_on
sum_used-memory_on f mill_id cpu mem [] h = omega arith
sum_used-memory_on f mill_id cpu mem (a ∷ as') h = elim (Bool-cases (str_eq a.node mill_id)) [
  | inl here ↦ elim (Bool-cases (is_terminal a.status)) [
    | inl over ↦ ground (arith, sum_used-memory_on f mill_id cpu mem as')
    | inr lives ↦ ground (
      arith,
      sum_used-memory_on f mill_id (Float.add f cpu a.resources.cpu)
          ((mem + a.resources.memory) % u64_mod) as',
    )
  ]
  | inr away ↦ ground (arith, sum_used-memory_on f mill_id cpu mem as')
]

memory_on-insert :
    (mill_id : NodeId) (id : AllocId) (a : Alloc) (m : Map AllocId Alloc)
    → lookup id m ≡ none
    → memory_on mill_id (values (insert id a m))
      ≡ memory_on mill_id (values m) + memory_on mill_id (a ∷ [])
unfolding memory_on lookup insert
memory_on-insert mill_id id a [] h = ground arith
memory_on-insert mill_id id a ((j, b) ∷ m) h = ground (arith, memory_on-insert mill_id id a m)

-- While the sum of what runs on a node fits a `u64`, the memory that is reported as available and
-- the memory in use make up the total, and nothing is available on a node in overuse.
pub memory_available_exact :
    (f : Float) (s : FsmState) (id : ℕ) (n : FsmNode)
    → lookup id s.nodes ≡ some n
    → memory_on n.mill_id (values s.allocs) < u64_mod
    → (r : NodeResources) × (node_available_resources f s id ≡ some r)
      × (r.memory_available ≡ n.resources.memory_total - memory_on n.mill_id (values s.allocs))
unfolding node_available_resources
memory_available_exact f s id n e h = (
  available_on f s n,
  ground arith,
  ground (arith, sum_used-memory_on f n.mill_id (Float.zero_f64 f) 0 (values s.allocs)),
)

-- Placing a new allocation whose memory fits what is available on a known node never overcommits
-- the node: if what runs there fitted its total, which a `u64` holds, it does so afterwards.
pub scheduled_no_overcommit :
    (f : Float) (s : FsmState) (p : Placement) (n : FsmNode) (r : NodeResources)
    → lookup p.node_id s.nodes ≡ some n
    → lookup p.alloc_id s.allocs ≡ none
    → memory_on n.mill_id (values s.allocs) ≤ n.resources.memory_total
    → n.resources.memory_total < u64_mod
    → node_available_resources f s p.node_id ≡ some r
    → p.resources.memory ≤ r.memory_available
    → memory_on n.mill_id (values (apply_command s (alloc_scheduled p)).0.allocs)
      ≤ n.resources.memory_total
unfolding apply_command apply_alloc_scheduled memory_on
scheduled_no_overcommit f s p n r e fresh fits total avail need =
    let (r', e', exact) = memory_available_exact f s p.node_id n e (omega arith) in
    ground (
      arith,
      memory_on-insert n.mill_id p.alloc_id
          (make_alloc p.alloc_id n.mill_id p.name p.kind p.address p.resources) s.allocs,
      str_eq_iff n.mill_id n.mill_id,
    )
