-- ===== src/Examples/Pools.antt =====
-- The pool of ports.
use mill.Prelude.{refl, some, ◌≡◌, ◌∷◌, [], List, string_key, nat_key}
use mill.Prelude.Sorted.{delete, first}
use mill.Ports.{remove_ports, ports_from, PortPool, with_range, allocate}
use mill.Ports.Invariant.{IsValid, with_range-IsValid}
use mill.Ports.Runs.{
  PoolOp, op_allocate, op_allocate_specific, op_release, op_restore, run_pool, run_pool-IsValid,
}

-- Ports 10 to 13, of which the host uses 11.
abbrev pool : PortPool
pool = with_range (11 ∷ []) 10 13

pool-IsValid : IsValid pool
pool-IsValid = with_range-IsValid (11 ∷ []) 10 13

abbrev ops : List PoolOp
ops =
    op_allocate "a"
    ∷ op_allocate_specific "b" 13
    ∷ op_release 10
    ∷ op_restore [] ((12, "c") ∷ [])
    ∷ []

run_pool-IsValid_example : IsValid (run_pool pool ops)
run_pool-IsValid_example = run_pool-IsValid (11 ∷ []) 10 13 ops

gives_ten : (allocate pool "a").1 ≡ some 10
unfolding allocate with_range ports_from remove_ports first delete
gives_ten = refl
