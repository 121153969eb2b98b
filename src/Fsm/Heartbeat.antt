-- ===== src/Fsm/Heartbeat.antt =====
-- What a heartbeat and a start report do to the allocations.
use mill.Prelude.{
  inr, inl, Option-cases, string_key, nat_key, ℕ, ◌≡◌, Option, none, some, [], ◌∷◌, Map, Distinct,
  lookup, lookup-insert, lookup-insert_self, arith, ite, string_discrete, true,
}
use mill.Config.Runtime.{AllocId, AllocStatus, Alloc, SocketAddr, is_terminal}
use mill.Fsm.State.{FsmNode, FsmState}
use mill.Fsm.Command.{node_heartbeat, alloc_running}
use mill.Fsm.Apply.{
  report_status, report_one, report_all, apply_node_heartbeat, apply_alloc_running, apply_command,
}

-- What becomes of an allocation under its reported status, if there is one.
abbrev pub reported : Option Alloc → Option AllocStatus → Option Alloc
reported none status = none
reported (some a) none = some a
reported (some a) (some status) = some (report_status status a)

lookup-report_one :
    (m : Map AllocId Alloc) (id c : AllocId) (status : AllocStatus)
    → lookup c (report_one m id status)
      ≡ ite (string_discrete id c) (reported (lookup c m) (some status)) (lookup c m)
unfolding report_one
lookup-report_one m id c status = elim (Option-cases (lookup id m)) [
  | inl e ↦ rw (e, report_one) (ground arith)
  | inr (a, e) ↦
      rw (e, report_one) (ground (arith, lookup-insert id c (record a { status = status }) m))
]

lookup-report_all :
    (m : Map AllocId Alloc) (statuses : Map AllocId AllocStatus) (c : AllocId)
    → Distinct statuses
    → lookup c (report_all m statuses) ≡ reported (lookup c m) (lookup c statuses)
unfolding report_all lookup
lookup-report_all m [] c d = ground arith
lookup-report_all m ((id, status) ∷ rest) c d =
    ground (
      arith,
      lookup-report_all (report_one m id status) rest c d.1,
      lookup-report_one m id c status,
    )

-- A heartbeat of a known node that names no allocation twice gives each allocation the status that
-- it reports, and changes no other: only Running does not replace Healthy, and an unknown
-- allocation is not made.
pub lookup-heartbeat :
    (s : FsmState) (id : ℕ) (statuses : Map AllocId AllocStatus) (n : FsmNode) (c : AllocId)
    → Distinct statuses
    → lookup id s.nodes ≡ some n
    → lookup c (apply_command s (node_heartbeat id statuses)).0.allocs
      ≡ reported (lookup c s.allocs) (lookup c statuses)
unfolding apply_command apply_node_heartbeat
lookup-heartbeat s id statuses n c d h =
    rw (h, apply_node_heartbeat) (lookup-report_all s.allocs statuses c d)

-- The order in which the reported statuses are gone through does not show: two reports that name
-- no allocation twice and have the same status for each leave the same allocations.
pub heartbeat_order :
    (s : FsmState) (id : ℕ) (statuses statuses' : Map AllocId AllocStatus)
    → Distinct statuses
    → Distinct statuses'
    → ((c : AllocId) → lookup c statuses ≡ lookup c statuses')
    → (c : AllocId)
    → lookup c (apply_command s (node_heartbeat id statuses)).0.allocs
      ≡ lookup c (apply_command s (node_heartbeat id statuses')).0.allocs
unfolding apply_command apply_node_heartbeat
heartbeat_order s id statuses statuses' d d' same c = ground (
  arith,
  same c,
  lookup-report_all s.allocs statuses c d,
  lookup-report_all s.allocs statuses' c d',
)

-- A heartbeat of a known node that names no allocation twice and reports Running for a stopped or
-- failed allocation makes it Running again.
pub heartbeat_revives :
    (s : FsmState) (id : ℕ) (statuses : Map AllocId AllocStatus) (n : FsmNode) (c : AllocId)
    (a : Alloc)
    → Distinct statuses
    → lookup id s.nodes ≡ some n
    → lookup c s.allocs ≡ some a
    → is_terminal a.status ≡ true
    → lookup c statuses ≡ some AllocStatus.running
    → lookup c (apply_command s (node_heartbeat id statuses)).0.allocs
      ≡ some (record a { status = AllocStatus.running })
heartbeat_revives s id statuses n c a d hn ha t hs =
    ground (arith, lookup-heartbeat s id statuses n c d hn)

-- A second start report of an allocation changes nothing: the address and the start time of the
-- first stay.
pub alloc_running_idem :
    (s : FsmState) (id : AllocId) (address address' : Option SocketAddr) (t t' : Option ℕ)
    → (apply_command
        (apply_command s (alloc_running id address t)).0
        (alloc_running id address' t')).0
      ≡ (apply_command s (alloc_running id address t)).0
unfolding apply_command apply_alloc_running
alloc_running_idem s id address address' t t' = elim (Option-cases (lookup id s.allocs)) [
  | inl e ↦ ground arith
  | inr (a, e) ↦ ground (
    arith,
    lookup-insert_self id
        (record a { status = AllocStatus.running; address = address; started_at = t }) s.allocs,
  )
]
