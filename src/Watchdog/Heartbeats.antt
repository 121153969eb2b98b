-- ===== src/Watchdog/Heartbeats.antt =====
-- `HeartbeatTracker`, `check_heartbeats` and `mark_node_allocs_failed`. Whether a proposal reaches
-- the log is an argument; one that does is applied at once. The WireGuard peers are left out.
use mill.Prelude.{
  none, some, Option, Bool, ◌∷◌, [], List, ℕ, ◌-◌, ◌&&◌, not, ltb, ◌==◌, if◌then◌else◌, is_some,
  str_eq, string_key, nat_key, Map, lookup, insert, remove, retain, any, filterb,
}
use mill.Config.Runtime.{NodeId, AllocStatus, Alloc, is_ready, is_service, is_terminal}
use mill.Fsm.State.{FsmState, FsmNode, list_nodes, list_allocs}
use mill.Fsm.Command.{Command, node_down, alloc_status}
use mill.Fsm.Apply.{apply_command}
use mill.Watchdog.Restarts.{Backoff}

abbrev pub HeartbeatTracker : Type 0
HeartbeatTracker = Map ℕ ℕ

unfoldable pub record_heartbeat : HeartbeatTracker → ℕ → ℕ → HeartbeatTracker
record_heartbeat t now raft_id = insert raft_id now t

abbrev pub last_seen : HeartbeatTracker → ℕ → Option ℕ
last_seen t raft_id = lookup raft_id t

abbrev pub forget : HeartbeatTracker → ℕ → HeartbeatTracker
forget t raft_id = remove raft_id t

pub record Watch : Type 0 where
  pub fsm : FsmState
  pub tracker : HeartbeatTracker
  pub node_discovered : Map ℕ ℕ
  pub restart_backoff : Backoff

-- What a proposal leaves, and whether it reached the log.
abbrev pub propose : (Command → Bool) → FsmState → Command → FsmState
propose accepts s c = if accepts c then (apply_command s c).0 else s

unfoldable pub discover : ℕ → Map ℕ ℕ → List FsmNode → Map ℕ ℕ
discover now discovered [] = discovered
discover now discovered (n ∷ ns) =
    discover now
      (if is_some (lookup n.raft_id discovered)
        then discovered
        else insert n.raft_id now discovered)
      ns

abbrev pub is_current : List FsmNode → ℕ → Bool
is_current nodes id = any (λ n. FsmNode.raft_id n == id) nodes

-- The side effect of the closure that `retain` runs.
unfoldable pub forget_gone : List FsmNode → Map ℕ ℕ → HeartbeatTracker → HeartbeatTracker
forget_gone nodes [] tracker = tracker
forget_gone nodes ((id, t) ∷ rest) tracker =
    forget_gone nodes rest (if is_current nodes id then tracker else forget tracker id)

unfoldable pub mark_each : (Command → Bool) → FsmState → Backoff → List Alloc → FsmState × Backoff
mark_each accepts s backoff [] = (s, backoff)
mark_each accepts s backoff (a ∷ as') =
    mark_each accepts (propose accepts s (alloc_status a.id (AllocStatus.failed "node down")))
      (if is_service a.kind then remove a.name backoff else backoff) as'

unfoldable pub mark_node_allocs_failed : (Command → Bool) → Watch → NodeId → Watch
unfolding mark_each
mark_node_allocs_failed accepts w mill_id =
    let allocs =
      filterb (λ a. str_eq (Alloc.node a) mill_id && not (is_terminal (Alloc.status a)))
        (list_allocs w.fsm) in
    let (s, b) = mark_each accepts w.fsm w.restart_backoff allocs in
    record w { fsm = s; restart_backoff = b }

abbrev pub or_else : Option ℕ → ℕ → ℕ
or_else none d = d
or_else (some t) d = t

-- The heartbeat, or the time of the discovery.
abbrev pub effective : Watch → ℕ → ℕ → ℕ
effective w now raft_id =
    or_else (last_seen w.tracker raft_id) (or_else (lookup raft_id w.node_discovered) now)

-- One node of the snapshot that the tick has read.
unfoldable pub check_node : (Command → Bool) → ℕ → ℕ → Watch → FsmNode → Watch
unfolding mark_node_allocs_failed
check_node accepts now timeout w n =
    if not (is_ready n.status)
    then w
    else if ltb (now - effective w now n.raft_id) timeout
    then w
    else if accepts (node_down n.raft_id)
    then mark_node_allocs_failed accepts
        (record w { fsm = (apply_command w.fsm (node_down n.raft_id)).0 }) n.mill_id
    else w

unfoldable pub check_nodes : (Command → Bool) → ℕ → ℕ → Watch → List FsmNode → Watch
unfolding check_node
check_nodes accepts now timeout w [] = w
check_nodes accepts now timeout w (n ∷ ns) =
    check_nodes accepts now timeout (check_node accepts now timeout w n) ns

unfoldable pub check_heartbeats : (Command → Bool) → ℕ → ℕ → Watch → Watch
unfolding check_nodes discover forget_gone
check_heartbeats accepts now timeout w =
    let nodes = list_nodes w.fsm in
    let discovered = discover now w.node_discovered nodes in
    check_nodes accepts now timeout
      (record w {
        tracker = forget_gone nodes discovered w.tracker;
        node_discovered = retain (λ id t. is_current nodes id) discovered;
      })
      nodes
