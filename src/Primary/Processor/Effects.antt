-- ===== src/Primary/Processor/Effects.antt =====
-- What a heartbeat and a start report change on the primary.
use mill.Prelude.{
  inr, inl, Bool-cases, arith, refl, none, some, ◌≡◌, Option, Bool, true, ◌∷◌, [], ℕ, str_eq,
  string_key, nat_key, Map, lookup, Distinct, find_first, lookup-insert_self,
}
use mill.Config.Runtime.{AllocId, AllocStatus, Alloc, SocketAddr}
use mill.Fsm.State.{FsmNode}
use mill.Fsm.Command
use mill.Fsm.Apply.{apply_command, run_commands, apply_alloc_running, is_pending}
use mill.Fsm.Heartbeat.{reported, lookup-heartbeat}
use mill.Rpc.Protocol.{NodeReport, Heartbeat}
use mill.Watchdog.Heartbeats.{record_heartbeat}
use mill.Primary.Reports.{update_metrics}
use mill.Primary.Processor.{
  Processor, Clock, raft_id_of, prepare, finish_report, process_report, started_address,
}

-- The first entry that passes a test is the one under its key.
find_first-lookup :
    {V : Type 0} (p : ℕ × V → Bool) (m : Map ℕ V) (k : ℕ) (v : V)
    → Distinct m
    → find_first p m ≡ some (k, v)
    → lookup k m ≡ some v
unfolding lookup
find_first-lookup p [] k v d h = cc
find_first-lookup p ((j, w) ∷ m) k v d h = elim (Bool-cases (p (j, w))) [
  | inl e ↦ ground arith
  | inr e ↦ ground (arith, find_first-lookup p m k v d.1)
]

prepare_known :
    (c : Clock) (now : ℕ) (hb : Heartbeat) (p : Processor) (id : ℕ) (n : FsmNode)
    → find_first (λ kn. str_eq (FsmNode.mill_id kn.1) hb.node_id) p.fsm.nodes ≡ some (id, n)
    → prepare c now (NodeReport.heartbeat hb) p ≡ (
      some (Command.node_heartbeat id hb.alloc_statuses),
      record p {
        heartbeat_tracker = record_heartbeat p.heartbeat_tracker now id;
        live_metrics = update_metrics hb.node_id hb.resources hb.stats p.live_metrics;
      },
    )
unfolding prepare
prepare_known c now hb p id n h = rw (h, prepare) refl

prepare_unknown :
    (c : Clock) (now : ℕ) (hb : Heartbeat) (p : Processor)
    → raft_id_of hb.node_id p.fsm ≡ none
    → prepare c now (NodeReport.heartbeat hb) p ≡ (none, p)
unfolding prepare
prepare_unknown c now hb p h = rw (h, prepare) refl

-- A heartbeat from a known node, by whose name it is found, that names no allocation twice and whose
-- proposal is committed at once: the tracker has its time, and each allocation the status that it
-- reports, as `reported` says.
pub process_heartbeat :
    (c : Clock) (now : ℕ) (hb : Heartbeat) (p : Processor) (id : ℕ) (n : FsmNode) (a : AllocId)
    → Distinct p.fsm.nodes
    → Distinct hb.alloc_statuses
    → find_first (λ kn. str_eq (FsmNode.mill_id kn.1) hb.node_id) p.fsm.nodes ≡ some (id, n)
    → (lookup id (process_report c now [] true (NodeReport.heartbeat hb) p).heartbeat_tracker
        ≡ some now)
      × (lookup a (process_report c now [] true (NodeReport.heartbeat hb) p).fsm.allocs
          ≡ reported (lookup a p.fsm.allocs) (lookup a hb.alloc_statuses))
unfolding process_report finish_report record_heartbeat run_commands
process_heartbeat c now hb p id n a d d' h =
    let known : lookup id p.fsm.nodes ≡ some n =
      find_first-lookup (λ kn. str_eq (FsmNode.mill_id kn.1) hb.node_id) p.fsm.nodes id n d h in
    rw (prepare_known c now hb p id n h, process_report)
      (
        lookup-insert_self id now p.heartbeat_tracker,
        lookup-heartbeat p.fsm id hb.alloc_statuses n a d' known,
      )

-- A heartbeat from a node that is not known changes nothing.
pub process_heartbeat_unknown :
    (c : Clock) (now : ℕ) (hb : Heartbeat) (p : Processor) (committed : Bool)
    → raft_id_of hb.node_id p.fsm ≡ none
    → process_report c now [] committed (NodeReport.heartbeat hb) p ≡ p
unfolding process_report finish_report
process_heartbeat_unknown c now hb p committed h =
    rw (prepare_unknown c now hb p h, process_report) refl

-- A start report of an allocation that is being pulled or started and whose proposal is committed
-- makes it Running since then, at the address that was reported, or else at its node's with the
-- port of the host; what others had committed before is kept.
pub process_started :
    (c : Clock) (now : ℕ) (p : Processor) (id : AllocId) (port : Option ℕ)
    (address : Option SocketAddr) (a : Alloc)
    → lookup id p.fsm.allocs ≡ some a
    → is_pending a.status ≡ true
    → lookup id (process_report c now [] true (NodeReport.run_started id port address) p).fsm.allocs
      ≡ some (record a {
        status = AllocStatus.running;
        address = started_address p.fsm id port address;
        started_at = some now;
      })
unfolding process_report prepare finish_report run_commands apply_command apply_alloc_running
process_started c now p id port address a h k =
    rw (h, process_report, finish_report, prepare, apply_command, apply_alloc_running, k)
      (lookup-insert_self id
        (record a {
          status = AllocStatus.running;
          address = started_address p.fsm id port address;
          started_at = some now;
        })
        p.fsm.allocs)
