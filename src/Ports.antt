-- ===== src/Ports.antt =====
-- crates/net/src/ports.rs: the pool of host ports. The ports in use on the host are an argument,
-- and so is a line of `/proc/net/tcp` or of `ss` after it is cut into fields.
pub mod Invariant
pub mod Ownership
pub mod Runs
use mill.Prelude.{
  zero, none, some, true, remove, ◌||◌, ◌==◌, lookup, any, false, ◌-◌, is_some, nat_key, ltb,
  if◌then◌else◌, insert, ◌∷◌, suc, [], Bool, List, ℕ, Option, Map,
}
use mill.Config.Runtime.{AllocId}
use mill.Prelude.Sorted.{last, Sorted, put, delete, at, first}

pub record PortPool : Type 0 where
  pub start : ℕ
  pub end : ℕ
  pub available : Sorted (Unit {0})
  pub allocated : Map ℕ AllocId

-- `(start..=end).collect()`, by the number of ports and the first.
unfoldable pub ports_from : ℕ → ℕ → Sorted (Unit {0})
ports_from zero p = []
ports_from (suc n) p = (p, tt) ∷ ports_from n (suc p)

unfoldable pub remove_ports : List ℕ → Sorted (Unit {0}) → Sorted (Unit {0})
remove_ports [] m = m
remove_ports (p ∷ ps) m = remove_ports ps (delete p m)

unfoldable pub with_range : List ℕ → ℕ → ℕ → PortPool
unfolding ports_from remove_ports
with_range in_use start end = record {
  start = start;
  end = end;
  available = remove_ports in_use (ports_from (suc end - start) start);
  allocated = [];
}

-- `PortAllocator::new`
abbrev pub new_pool : List ℕ → PortPool
new_pool in_use = with_range in_use 49152 65535

unfoldable pub allocate : PortPool → AllocId → PortPool × Option ℕ
allocate pool alloc_id = elim (first pool.available) [
  | none ↦ (pool, none)
  | some e ↦ (
    record pool {
      available = delete e.0 pool.available;
      allocated = insert e.0 alloc_id pool.allocated;
    },
    some e.0,
  )
]

abbrev pub out_of_range : PortPool → ℕ → Bool
out_of_range pool port = ltb port pool.start || ltb pool.end port

abbrev pub reserve : PortPool → ℕ → AllocId → PortPool
reserve pool port alloc_id = record pool {
  available = delete port pool.available;
  allocated = insert port alloc_id pool.allocated;
}

unfoldable pub allocate_specific : PortPool → AllocId → ℕ → PortPool × Bool
allocate_specific pool alloc_id port =
    if out_of_range pool port
    then (pool, false)
    else if is_some (lookup port pool.allocated)
    then (pool, false)
    else (reserve pool port alloc_id, true)

unfoldable pub release : PortPool → ℕ → PortPool
release pool port =
    if is_some (lookup port pool.allocated)
    then record pool {
      allocated = remove port pool.allocated;
      available = put port tt pool.available;
    }
    else pool

abbrev pub snapshot : PortPool → Map ℕ AllocId
snapshot pool = pool.allocated

abbrev pub mem_port : ℕ → List ℕ → Bool
mem_port p = any (λ q. q == p)

unfoldable pub restore : List ℕ → PortPool → Map ℕ AllocId → PortPool
restore in_use pool [] = pool
restore in_use pool ((port, alloc_id) ∷ rest) =
    restore in_use
      (if out_of_range pool port
        then pool
        else if mem_port port in_use
        then pool
        else reserve pool port alloc_id)
      rest
