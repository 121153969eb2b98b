-- ===== src/Primary/Processor.antt =====
-- crates/node/src/primary/report.rs: `process_report`. Between its reading of the state and its
-- proposal, other commands may be committed; these, the time and the answer of openraft are arguments.
pub mod Effects
use mill.Prelude.{
  none, some, Option, Bool, ◌∷◌, [], List, ℕ, ◌-◌, not, ltb, leb, if◌then◌else◌, and_then,
  option_map, String, str_eq, string_key, nat_key, Map, lookup, insert, values, map, ◌++◌, filterb,
  find_first, length,
}
use mill.Prelude.Float.{F64, Float}
use mill.Config.Runtime.{NodeId, AllocId, AllocStatus, Alloc, SocketAddr, is_task}
use mill.Fsm.State.{FsmState, FsmNode}
use mill.Fsm.Command.{Command}
use mill.Fsm.Apply.{apply_command, run_commands}
use mill.Rpc.Protocol.{NodeReport}
use mill.Watchdog.Heartbeats.{HeartbeatTracker, record_heartbeat}
use mill.Primary.Reports.{LiveMetrics, update_metrics, record_task_duration}

-- A subscriber's channel: `try_send` drops what does not fit.
pub record Subscriber : Type 0 where
  pub closed : Bool
  pub capacity : ℕ
  pub queue : List (List String)

pub record Processor : Type 0 where
  pub fsm : FsmState
  pub heartbeat_tracker : HeartbeatTracker
  pub live_metrics : LiveMetrics
  pub log_subscribers : Map AllocId (List Subscriber)

pub record Clock : Type 0 where
  pub float : Float
  pub bounds : List F64
  pub as_secs_f64 : ℕ → F64

abbrev pub node_named : NodeId → FsmState → Option FsmNode
node_named mill_id fsm = find_first (λ n. str_eq n.mill_id mill_id) (values fsm.nodes)

-- The address of the node of the allocation, with the port of the host.
unfoldable pub rebuilt_address : FsmState → AllocId → ℕ → Option SocketAddr
rebuilt_address fsm alloc_id port = and_then (lookup alloc_id fsm.allocs) (λ a.
    option_map (λ n. record { ip = SocketAddr.ip (FsmNode.address n); port = port })
      (node_named (Alloc.node a) fsm))

unfoldable pub started_address :
    FsmState → AllocId → Option ℕ → Option SocketAddr → Option SocketAddr
unfolding rebuilt_address
started_address fsm alloc_id host_port (some address) = some address
started_address fsm alloc_id host_port none = and_then host_port (rebuilt_address fsm alloc_id)

-- The name and the age of a task that has started.
unfoldable pub task_age : ℕ → FsmState → AllocId → Option (String × ℕ)
task_age now fsm alloc_id = and_then (lookup alloc_id fsm.allocs) (λ a.
    if is_task a.kind
    then and_then a.started_at
        (λ started. if leb started now then some (a.name, now - started) else none)
    else none)

unfoldable pub record_end : Clock → ℕ → AllocId → Processor → LiveMetrics
unfolding task_age
record_end c now alloc_id p = elim (task_age now p.fsm alloc_id) [
  | none ↦ p.live_metrics
  | some na ↦
      record_task_duration (Clock.float c) (Clock.bounds c) na.0 (Clock.as_secs_f64 c na.1)
        p.live_metrics
]

abbrev pub offer : List String → Subscriber → Subscriber
offer lines s =
    if ltb (length s.queue) s.capacity then record s { queue = s.queue ++ lines ∷ [] } else s

-- The closed channels are removed, and the lines are offered to the others.
unfoldable pub forward : AllocId → List String → Processor → Processor
forward alloc_id lines p = elim (lookup alloc_id p.log_subscribers) [
  | none ↦ p
  | some subscribers ↦ record p {
    log_subscribers =
        insert alloc_id (map (offer lines) (filterb (λ s. not (Subscriber.closed s)) subscribers))
          p.log_subscribers;
  }
]

-- The raft id of the first node entry with the name.
abbrev pub raft_id_of : NodeId → FsmState → Option ℕ
raft_id_of mill_id fsm =
    option_map (λ kn. kn.0) (find_first (λ kn. str_eq (FsmNode.mill_id kn.1) mill_id) fsm.nodes)

-- What a report comes to: the command to propose, if any, beside what it changes at once.
unfoldable pub prepare : Clock → ℕ → NodeReport → Processor → Option Command × Processor
unfolding started_address record_end forward
prepare c now (NodeReport.run_started alloc_id host_port address) p = (
  some (
      Command.alloc_running alloc_id (started_address p.fsm alloc_id host_port address) (some now)),
  p,
)
prepare c now (NodeReport.run_failed alloc_id reason) p =
    (some (Command.alloc_status alloc_id (AllocStatus.failed reason)), p)
prepare c now (NodeReport.stopped alloc_id exit_code) p = (
  some (Command.alloc_status alloc_id (AllocStatus.stopped exit_code)),
  record p { live_metrics = record_end c now alloc_id p },
)
prepare c now (NodeReport.status_update alloc_id status) p =
    (some (Command.alloc_status alloc_id status), p)
prepare c now (NodeReport.heartbeat hb) p = elim (raft_id_of hb.node_id p.fsm) [
  | none ↦ (none, p)
  | some id ↦ (
    some (Command.node_heartbeat id hb.alloc_statuses),
    record p {
      heartbeat_tracker = record_heartbeat p.heartbeat_tracker now id;
      live_metrics = update_metrics hb.node_id hb.resources hb.stats p.live_metrics;
    },
  )
]
prepare c now (NodeReport.log_lines alloc_id lines) p = (none, forward alloc_id lines p)
prepare c now (NodeReport.pull_complete image) p = (none, p)
prepare c now (NodeReport.pull_failed image reason) p = (none, p)

-- The proposal, after the commands of others; whether it is committed is an argument.
unfoldable pub finish_report : List Command → Bool → Option Command → Processor → Processor
finish_report others committed none p = p
finish_report others committed (some cmd) p =
    let fsm = run_commands p.fsm others in
    record p { fsm = if committed then (apply_command fsm cmd).0 else fsm }

unfoldable pub process_report : Clock → ℕ → List Command → Bool → NodeReport → Processor → Processor
unfolding prepare finish_report
process_report c now others committed report p =
    let (cmd, p') = prepare c now report p in finish_report others committed cmd p'
