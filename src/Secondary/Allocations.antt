-- ===== src/Secondary/Allocations.antt =====
-- crates/node/src/secondary/state.rs: the allocations of a node. The lock makes each operation one
-- step. A log buffer is shared; here an allocation holds it by its name.
use mill.Prelude.{
  none, some, Option, Bool, ◌∷◌, [], List, ℕ, ◌+◌, ◌%◌, if◌then◌else◌, and_then, option_map,
  is_some, string_key, nat_key, Map, lookup, insert, remove, ◌++◌, ◌^◌,
}
use mill.Prelude.Float.{F64, Float}
use mill.Rpc.Protocol.{VolumeInfo}
use mill.Config.Runtime.{AllocId, AllocStatus, ContainerSpec, ContainerVolume}

pub record LocalAlloc : Type 0 where
  pub alloc_id : AllocId
  pub spec : ContainerSpec
  pub status : AllocStatus
  pub host_port : Option ℕ
  pub log_buffer : ℕ

abbrev pub AllocationMap : Type 0
AllocationMap = Map AllocId LocalAlloc

abbrev pub new_allocations : AllocationMap
new_allocations = []

-- The second component is the identifier that is refused.
unfoldable pub insert_alloc : AllocationMap → LocalAlloc → AllocationMap × Option AllocId
insert_alloc m a =
    if is_some (lookup a.alloc_id m) then (m, some a.alloc_id) else (insert a.alloc_id a m, none)

unfoldable pub remove_alloc : AllocationMap → AllocId → AllocationMap × Option LocalAlloc
remove_alloc m id = (remove id m, lookup id m)

abbrev pub log_buffer : AllocationMap → AllocId → Option ℕ
log_buffer m id = option_map (λ a. LocalAlloc.log_buffer a) (lookup id m)

abbrev pub host_port : AllocationMap → AllocId → Option ℕ
host_port m id = and_then (lookup id m) (λ a. a.host_port)

unfoldable pub all_statuses : AllocationMap → Map AllocId AllocStatus
all_statuses [] = []
all_statuses ((k, a) ∷ m) = (k, a.status) ∷ all_statuses m

abbrev pub contains : AllocationMap → AllocId → Bool
contains m id = is_some (lookup id m)

unfoldable pub set_status : AllocationMap → AllocId → AllocStatus → AllocationMap
set_status m id status = elim (lookup id m) [
  | none ↦ m
  | some a ↦ insert id (record a { status = status }) m
]

unfoldable pub total_reserved_cpu : Float → F64 → AllocationMap → F64
total_reserved_cpu f sum [] = sum
total_reserved_cpu f sum ((k, a) ∷ m) = total_reserved_cpu f (Float.add f sum a.spec.cpu) m

-- A sum of `u64`s, which wraps in a release build.
unfoldable pub total_reserved_memory : ℕ → AllocationMap → ℕ
total_reserved_memory sum [] = sum
total_reserved_memory sum ((k, a) ∷ m) = total_reserved_memory ((sum + a.spec.memory) % 2 ^ 64) m

unfoldable pub volumes_of : AllocId → List ContainerVolume → List VolumeInfo
volumes_of id [] = []
volumes_of id (v ∷ vs) =
    let rest = volumes_of id vs in
    if v.ephemeral
    then rest
    else record { name = v.name; size_bytes = 0; alloc_id = some id } ∷ rest

unfoldable pub volume_info : AllocationMap → List VolumeInfo
unfolding volumes_of
volume_info [] = []
volume_info ((k, a) ∷ m) = volumes_of a.alloc_id a.spec.volumes ++ volume_info m
