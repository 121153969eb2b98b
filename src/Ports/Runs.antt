-- ===== src/Ports/Runs.antt =====
-- The pool after any sequence of its operations.
use mill.Prelude.{◌∷◌, [], List, ℕ, string_key, nat_key, Map}
use mill.Config.Runtime.{AllocId}
use mill.Ports.{PortPool, with_range, allocate, allocate_specific, release, restore}
use mill.Ports.Invariant.{
  IsValid, with_range-IsValid, allocate-IsValid, allocate_specific-IsValid, release-IsValid,
  restore-IsValid,
}

pub data PoolOp : Type 0 where
  op_allocate : AllocId → PoolOp
  op_allocate_specific : AllocId → ℕ → PoolOp
  op_release : ℕ → PoolOp
  op_restore : List ℕ → Map ℕ AllocId → PoolOp

abbrev pub step_pool : PortPool → PoolOp → PortPool
step_pool pool (op_allocate a) = (allocate pool a).0
step_pool pool (op_allocate_specific a p) = (allocate_specific pool a p).0
step_pool pool (op_release p) = release pool p
step_pool pool (op_restore in_use snapshot) = restore in_use pool snapshot

unfoldable pub run_pool : PortPool → List PoolOp → PortPool
run_pool pool [] = pool
run_pool pool (op ∷ ops) = run_pool (step_pool pool op) ops

step_pool-IsValid : (pool : PortPool) (op : PoolOp) → IsValid pool → IsValid (step_pool pool op)
step_pool-IsValid pool (op_allocate a) v = allocate-IsValid pool a v
step_pool-IsValid pool (op_allocate_specific a p) v = allocate_specific-IsValid pool a p v
step_pool-IsValid pool (op_release p) v = release-IsValid pool p v
step_pool-IsValid pool (op_restore in_use snapshot) v = restore-IsValid in_use snapshot pool v

run-IsValid : (ops : List PoolOp) (pool : PortPool) → IsValid pool → IsValid (run_pool pool ops)
unfolding run_pool
run-IsValid [] pool v = v
run-IsValid (op ∷ ops) pool v = run-IsValid ops (step_pool pool op) (step_pool-IsValid pool op v)

-- From a fresh pool on, whatever is allocated, reserved, released and restored, a free port is not
-- owned, both free and owned ports lie in the range, and the free ones stand in ascending order.
pub run_pool-IsValid :
    (in_use : List ℕ) (start end : ℕ) (ops : List PoolOp)
    → IsValid (run_pool (with_range in_use start end) ops)
run_pool-IsValid in_use start end ops =
    run-IsValid ops (with_range in_use start end) (with_range-IsValid in_use start end)
