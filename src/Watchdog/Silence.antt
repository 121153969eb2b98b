-- ===== src/Watchdog/Silence.antt =====
-- Which nodes the watchdog takes down.
use mill.Prelude.{
  inr, inl, Option-cases, Bool-cases, ◌<◌, ap, arith, ◌∙◌, sym, subst, refl, some, ◌≡◌, Bool, true,
  false, ◌∷◌, [], List, ℕ, ◌-◌, ◌&&◌, not, ltb, if◌then◌else◌, str_eq, string_key, nat_key, Map,
  lookup, remove, retain, filterb, lookup-insert, lookup-remove, ◌≢◌,
}
use mill.Config.Runtime.{is_terminal, NodeId, AllocId, NodeStatus, AllocStatus, Alloc, is_ready}
use mill.Fsm.State.{list_nodes, list_allocs, FsmState, FsmNode}
use mill.Fsm.Command.{Command, node_down, alloc_status}
use mill.Fsm.Apply.{apply_command, apply_node_down, apply_alloc_status}
use mill.Watchdog.Heartbeats.{
  is_current, forget_gone, discover, check_heartbeats, or_else, propose, Watch, mark_each,
  mark_node_allocs_failed, check_node, check_nodes, effective,
}
use mill.Watchdog.Restarts.{Backoff}

nodes-alloc_status :
    (accepts : Command → Bool) (s : FsmState) (id : AllocId) (status : AllocStatus)
    → (propose accepts s (alloc_status id status)).nodes ≡ s.nodes
unfolding apply_command apply_alloc_status
nodes-alloc_status accepts s id status = elim (Bool-cases (accepts (alloc_status id status))) [
  | inr f ↦ ground (arith, f)
  | inl a ↦ elim (Option-cases (lookup id s.allocs)) [
    | inl e ↦ ground (arith, a, e)
    | inr (x, e) ↦ ground (arith, a, e)
  ]
]

nodes-mark_each :
    (accepts : Command → Bool) (l : List Alloc) (s : FsmState) (b : Backoff)
    → (mark_each accepts s b l).0.nodes ≡ s.nodes
unfolding mark_each
nodes-mark_each accepts [] s b = refl
nodes-mark_each accepts (a ∷ as') s b =
    nodes-mark_each accepts as' _ _
    ∙ nodes-alloc_status accepts s a.id (AllocStatus.failed "node down")

-- What the check of one node leaves alone.
pub record Spares (id : ℕ) (w w' : Watch) : Type 0 where
  pub node : lookup id w'.fsm.nodes ≡ lookup id w.fsm.nodes
  pub tracker : w'.tracker ≡ w.tracker
  pub node_discovered : w'.node_discovered ≡ w.node_discovered

mark_node_allocs_failed-Spares :
    (accepts : Command → Bool) (w : Watch) (mill_id : NodeId) (id : ℕ)
    → Spares id w (mark_node_allocs_failed accepts w mill_id)
unfolding mark_node_allocs_failed
mark_node_allocs_failed-Spares accepts w mill_id id = record {
  node = ap (lookup id) (
      nodes-mark_each accepts
        (filterb (λ a. str_eq (Alloc.node a) mill_id && not (is_terminal (Alloc.status a)))
          (list_allocs w.fsm))
        w.fsm w.restart_backoff);
  tracker = refl;
  node_discovered = refl;
}

lookup-node_down :
    (s : FsmState) (j id : ℕ)
    → j ≢ id
    → lookup id (apply_command s (node_down j)).0.nodes ≡ lookup id s.nodes
unfolding apply_command apply_node_down
lookup-node_down s j id ne = elim (Option-cases (lookup j s.nodes)) [
  | inl e ↦ ground (arith, e)
  | inr (n, e) ↦
      ground (arith, e, lookup-insert j id (record n { status = NodeStatus.down }) s.nodes)
]

check_node-Spares :
    (accepts : Command → Bool) (now timeout : ℕ) (w : Watch) (n : FsmNode) (id : ℕ)
    → now - effective w now id < timeout
    → Spares id w (check_node accepts now timeout w n)
unfolding check_node
check_node-Spares accepts now timeout w n id h =
    go (not (is_ready n.status)) (ltb (now - effective w now n.raft_id) timeout)
      (accepts (node_down n.raft_id)) refl
  where
    go :
        (idle heard ok : Bool)
        → ltb (now - effective w now n.raft_id) timeout ≡ heard
        → Spares id w (
            if idle
            then w
            else if heard
            then w
            else if ok
            then mark_node_allocs_failed accepts
                (record w { fsm = (apply_command w.fsm (node_down n.raft_id)).0 })
                n.mill_id
            else w)
    go true heard ok e = record { node = refl; tracker = refl; node_discovered = refl }
    go false true ok e = record { node = refl; tracker = refl; node_discovered = refl }
    go false false false e = record { node = refl; tracker = refl; node_discovered = refl }
    go false false true e =
        let m =
          mark_node_allocs_failed-Spares accepts
            (record w { fsm = (apply_command w.fsm (node_down n.raft_id)).0 }) n.mill_id id in
        record {
          node = m.node ∙ lookup-node_down w.fsm n.raft_id id (silent e);
          tracker = m.tracker;
          node_discovered = m.node_discovered;
        }
      where
        silent : ltb (now - effective w now n.raft_id) timeout ≡ false → n.raft_id ≢ id
        silent e q =
            ground (arith, subst (λ k. ltb (now - effective w now k) timeout ≡ false) q e, h)

lookup-check_nodes :
    (accepts : Command → Bool) (now timeout : ℕ) (ns : List FsmNode) (w : Watch) (id : ℕ)
    → now - effective w now id < timeout
    → lookup id (check_nodes accepts now timeout w ns).fsm.nodes ≡ lookup id w.fsm.nodes
unfolding check_nodes
lookup-check_nodes accepts now timeout [] w id h = refl
lookup-check_nodes accepts now timeout (n ∷ ns) w id h =
    let s = check_node-Spares accepts now timeout w n id h in
    lookup-check_nodes accepts now timeout ns (check_node accepts now timeout w n) id (still s)
    ∙ s.node
  where
    still :
        Spares id w (check_node accepts now timeout w n)
        → now - effective (check_node accepts now timeout w n) now id < timeout
    still s =
        subst
          (λ t.
            now
              - or_else (lookup id t)
                  (or_else (lookup id (check_node accepts now timeout w n).node_discovered) now)
            < timeout)
          (sym s.tracker)
          (subst (λ d. now - or_else (lookup id w.tracker) (or_else (lookup id d) now) < timeout)
            (sym s.node_discovered) h)

lookup-forget_gone :
    (nodes : List FsmNode) (m : Map ℕ ℕ) (tracker : Map ℕ ℕ) (id : ℕ)
    → is_current nodes id ≡ true
    → lookup id (forget_gone nodes m tracker) ≡ lookup id tracker
unfolding forget_gone
lookup-forget_gone nodes [] tracker id h = refl
lookup-forget_gone nodes ((k, t) ∷ m) tracker id h =
    lookup-forget_gone nodes m (if is_current nodes k then tracker else remove k tracker) id h
    ∙ kept (is_current nodes k) refl
  where
    kept :
        (b : Bool)
        → is_current nodes k ≡ b
        → lookup id (if b then tracker else remove k tracker) ≡ lookup id tracker
    kept true e = refl
    kept false e =
        ground
          (arith, lookup-remove k id tracker, λ (q : k ≡ id). sym e ∙ ap (is_current nodes) q ∙ h)

-- A tick leaves every node of the cluster as it is that was heard less than the timeout ago,
-- whatever the other nodes are and whichever proposals fail.
pub lookup-check_heartbeats :
    (accepts : Command → Bool) (now timeout : ℕ) (w : Watch) (id t : ℕ)
    → is_current (list_nodes w.fsm) id ≡ true
    → lookup id w.tracker ≡ some t
    → now - t < timeout
    → lookup id (check_heartbeats accepts now timeout w).fsm.nodes ≡ lookup id w.fsm.nodes
unfolding check_heartbeats
lookup-check_heartbeats accepts now timeout w id t c e h =
    lookup-check_nodes accepts now timeout (list_nodes w.fsm) _ id (
      subst
        (λ o.
          now
            - or_else o (
                or_else
                  (lookup id (
                    retain (λ k t. is_current (list_nodes w.fsm) k)
                      (discover now w.node_discovered (list_nodes w.fsm))))
                  now)
          < timeout)
        (sym (
          lookup-forget_gone (list_nodes w.fsm) (discover now w.node_discovered (list_nodes w.fsm))
            w.tracker id c
          ∙ e))
        h)
