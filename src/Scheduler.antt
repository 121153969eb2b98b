-- ===== src/Scheduler.antt =====
-- crates/node/src/primary/scheduler.rs: the choice of a node for an allocation. `available_fn` is
-- an argument, as it is there; its caller passes `node_available_resources`.
pub mod Candidates
pub mod Placement
pub mod Spread
pub mod Packing
pub mod Choice
use mill.Config.Resolved.{Resources}
use mill.Prelude.{
  leb, not, false, find_first, ◌&&◌, filterb, [], and_then, if◌then◌else◌, str_eq, ℕ, String, Bool,
  Option, none, some, List, ◌∷◌, any,
}
use mill.Prelude.Float.{F64, Float}
use mill.Config.Runtime.{VolumeState, is_ready, is_service, NodeId, AllocKind, NodeResources}
use mill.Fsm.State.{FsmNode, FsmVolume}

pub record ScheduleRequest : Type 0 where
  pub need : Resources
  pub name : String
  pub kind : AllocKind
  pub volume : Option String

abbrev pub Candidate : Type 0
Candidate = FsmNode × NodeResources

abbrev pub ExistingAlloc : Type 0
ExistingAlloc = NodeId × String × AllocKind

abbrev pub has_capacity : Float → Option NodeResources → Resources → Bool
has_capacity f none need = false
has_capacity f (some avail) need =
    Float.le f need.cpu avail.cpu_available && leb need.memory avail.memory_available

-- `ByteSize::gib(1)`
abbrev pub gib : ℕ
gib = 1073741824

unfoldable pub bin_pack_score : Float → NodeResources → F64
bin_pack_score f avail =
    Float.add f avail.cpu_available
      (Float.div f (Float.of_u64 f avail.memory_available) (Float.of_u64 f gib))

-- The node that an attached volume binds the request to.
unfoldable pub volume_node : ScheduleRequest → List (String × FsmVolume) → Option NodeId
volume_node request volumes = and_then request.volume (λ vol_name.
    and_then (find_first (λ v. str_eq v.0 vol_name) volumes)
      (λ v. elim v.1.state [ VolumeState.ready ↦ none | VolumeState.attached node ↦ some node ]))

abbrev pub fits_on : Float → (ℕ → Option NodeResources) → Resources → NodeId → FsmNode → Bool
fits_on f available_fn need node n =
    str_eq n.mill_id node && is_ready n.status && has_capacity f (available_fn n.raft_id) need

unfoldable pub filter_nodes :
    Float → (ℕ → Option NodeResources) → Resources → List FsmNode → List Candidate
filter_nodes f available_fn need [] = []
filter_nodes f available_fn need (n ∷ ns) =
    let rest = filter_nodes f available_fn need ns in
    if is_ready n.status
    then elim (available_fn n.raft_id) [
      | none ↦ rest
      | some avail ↦ if has_capacity f (some avail) need then (n, avail) ∷ rest else rest
    ]
    else rest

-- The node is one of `nodes_with_same`.
abbrev pub has_same : String → List ExistingAlloc → FsmNode → Bool
has_same name allocs n = any (λ a. str_eq a.1 name && is_service a.2 && str_eq a.0 n.mill_id) allocs

abbrev pub spread_over : ScheduleRequest → List ExistingAlloc → List Candidate → List Candidate
spread_over request allocs candidates =
    filterb (λ c. not (has_same request.name allocs c.0)) candidates

unfoldable pub spread : ScheduleRequest → List ExistingAlloc → List Candidate → List Candidate
spread request allocs candidates =
    if is_service request.kind
    then elim (spread_over request allocs candidates) [ [] ↦ candidates | c ∷ cs ↦ c ∷ cs ]
    else candidates

-- `min_by`: of two candidates the earlier one stays unless its score is greater.
unfoldable pub min_from : Float → Candidate → List Candidate → Candidate
unfolding bin_pack_score
min_from f best [] = best
min_from f best (c ∷ cs) =
    min_from f (if Float.lt f (bin_pack_score f c.1) (bin_pack_score f best.1) then c else best) cs

unfoldable pub bin_pack : Float → List Candidate → Option NodeId
bin_pack f [] = none
bin_pack f (c ∷ cs) = some (FsmNode.mill_id (min_from f c cs).0)

unfoldable pub schedule :
    Float
    → ScheduleRequest
    → List FsmNode
    → List ExistingAlloc
    → List (String × FsmVolume)
    → (ℕ → Option NodeResources)
    → Option NodeId
unfolding bin_pack spread filter_nodes volume_node
schedule f request nodes allocs volumes available_fn = elim (volume_node request volumes) [
  | some node ↦ if any (fits_on f available_fn request.need node) nodes then some node else none
  | none ↦ bin_pack f (spread request allocs (filter_nodes f available_fn request.need nodes))
]
