-- ===== src/Primary/Start/Outcome.antt =====
-- How `start_alloc` leaves its allocation.
use mill.Prelude.Exec.{Keeps}
use mill.Primary.Start.Kept.{Keeps-run_scheduled_alloc}
use mill.Primary.World.{Event}
use mill.Primary.Start.{placement_of}
use mill.Prelude.{
  inr, inl, Option-cases, ap, ◌⊎◌, arith, refl, none, some, ◌≡◌, Option, ◌∷◌, [], List, ℕ, ◌+◌,
  String, string_key, nat_key, lookup, ◌++◌, lookup-insert_self,
}
use mill.Prelude.Exec.{Yields-discard, Yields, Yields-bind, Result, ok, err, ◌>>=◌}
use mill.Config.Resolved.{ServiceDef}
use mill.Config.Runtime.{NodeId, AllocId, AllocStatus, Alloc}
use mill.Fsm.State.{FsmState, raft_id_for}
use mill.Fsm.Command.{Command}
use mill.Fsm.Apply.{apply_command, apply_alloc_status}
use mill.Primary.World.{Env, World, DeployError, advance, read_state, propose}
use mill.Primary.Resolve.{error_text}
use mill.Primary.Start.{run_scheduled_alloc, mark_failed, run_or_fail, start_alloc, choose_node}

-- The allocation, if it is known, has the status.
abbrev pub Marked : AllocStatus → Option Alloc → Type 0
Marked s none = Unit
Marked s (some a) = a.status ≡ s

apply_alloc_status-Marked :
    (fsm : FsmState) (id : AllocId) (s : AllocStatus)
    → Marked s (lookup id (apply_command fsm (Command.alloc_status id s)).0.allocs)
unfolding apply_command apply_alloc_status
apply_alloc_status-Marked fsm id s = elim (Option-cases (lookup id fsm.allocs)) [
  | inl h ↦ rw (h, apply_alloc_status) (rw h tt)
  | inr (a, h) ↦
      rw (h, apply_alloc_status)
        (rw (lookup-insert_self id (record a { status = s }) fsm.allocs) refl)
]

-- The first of the events, which is the last one that happened.
abbrev pub IsLast : Event → List Event → Type 0
IsLast ev [] = ⊥
IsLast ev (x ∷ l) = x ≡ ev

-- What the events are when others have happened after some.
abbrev pub After : List Event → List Event → Type 0
After base l = (new : List Event) × (l ≡ new ++ base)

After-cons : (base : List Event) (ev : Event) (l : List Event) → After base l → After base (ev ∷ l)
After-cons base ev l (new, h) = (ev ∷ new, ap (λ m. ev ∷ m) h)

module _ (e : Env) (alloc_id : AllocId) where
  -- The proposal of a status is the last thing that was done, and the allocation has the status, if
  -- it is known.
  abbrev pub MarkedLast : AllocStatus → World → Type 0
  MarkedLast s w =
      IsLast (Event.proposed (Command.alloc_status alloc_id s)) w.events
      × Marked s (lookup alloc_id w.fsm.allocs)

  propose-Marked :
      (s : AllocStatus) (w : World)
      → Env.write_error e w.tick ≡ none
      → MarkedLast s (propose e (Command.alloc_status alloc_id s) w).1
  unfolding propose
  propose-Marked s w h =
      rw (h, propose) (refl, apply_alloc_status-Marked (advance e w).fsm alloc_id s)

  Yields-propose :
      (s : AllocStatus) → Yields (λ r. MarkedLast s) (propose e (Command.alloc_status alloc_id s))
  unfolding propose
  Yields-propose s = record {
    at = λ w r h. elim (Option-cases (Env.write_error e w.tick)) [
      | inl k ↦ propose-Marked s w k
      | inr (t, k) ↦ ground arith
    ];
  }

  Yields-run_scheduled_alloc :
      (name : String) (def : ServiceDef) (node_id : NodeId)
      → Yields
          (λ r. MarkedLast AllocStatus.healthy)
          (run_scheduled_alloc e name def alloc_id node_id)
  unfolding run_scheduled_alloc
  Yields-run_scheduled_alloc name def node_id = Yields-bind _ _ λ env. Yields-bind _ _ λ u.
      Yields-bind _ _ λ u. Yields-bind _ _ λ found.
        Yields-bind _ _
          λ addr. Yields-bind _ _ λ u. Yields-discard _ tt (Yields-propose AllocStatus.healthy)

  -- The allocation was scheduled, on the node that was chosen, before everything else.
  abbrev pub Scheduled : String → ServiceDef → World → World → Type 0
  Scheduled name def w w' =
      (node_id : NodeId) × (raft_node_id : ℕ) × (choose_node e name def (advance e w).fsm
        ≡ some node_id)
      × (raft_id_for (advance e (advance e w)).fsm node_id ≡ some raft_node_id)
      × After
          (Event.proposed (Command.alloc_scheduled (placement_of name def alloc_id raft_node_id))
            ∷ w.events)
          w'.events

  -- A return comes after the allocation was scheduled and marked Healthy; an error leaves no event,
  -- or comes after it was scheduled and marked Failed with the text of the error.
  abbrev pub Outcome : String → ServiceDef → World → Result DeployError Unit × World → Type 0
  Outcome name def w (ok u, w') = Scheduled name def w w' × MarkedLast AllocStatus.healthy w'
  Outcome name def w (err x, w') =
      (w'.events ≡ w.events)
      ⊎ (Scheduled name def w w' × MarkedLast (AllocStatus.failed (error_text x)) w')

  module _ (committed : (t : ℕ) → Env.write_error e t ≡ none) where
    mark-After :
        (s : AllocStatus) (base : List Event) (w : World)
        → After base w.events
        → After base (propose e (Command.alloc_status alloc_id s) w).1.events
    unfolding propose
    mark-After s base w h = rw (committed w.tick, propose) (After-cons base _ w.events h)

    module _ (name : String) (def : ServiceDef) (node_id : NodeId) where
      -- What is said of the outcome, for the events before the run.
      abbrev Finished : List Event → Result DeployError Unit × World → Type 0
      Finished base (ok u, w') = After base w'.events × MarkedLast AllocStatus.healthy w'
      Finished base (err x, w') =
          After base w'.events × MarkedLast (AllocStatus.failed (error_text x)) w'

      run_or_fail-Finished :
          (w : World) → Finished w.events (run_or_fail e name def alloc_id node_id w)
      unfolding run_or_fail mark_failed
      run_or_fail-Finished w = go (run_scheduled_alloc e name def alloc_id node_id w).0 refl (
          Keeps.at
            (Keeps-run_scheduled_alloc e (After w.events) alloc_id
              (λ n spec auth. After-cons w.events _) (After-cons w.events _) name def node_id)
            w ([], refl))
        where
          go :
              (r : Result DeployError Unit)
              → (run_scheduled_alloc e name def alloc_id node_id w).0 ≡ r
              → After w.events (run_scheduled_alloc e name def alloc_id node_id w).1.events
              → Finished w.events
                  (mark_failed e alloc_id r (run_scheduled_alloc e name def alloc_id node_id w).1)
          go (ok u) h a = (a, Yields.at (Yields-run_scheduled_alloc name def node_id) w u h)
          go (err x) h a = (mark-After _ _ _ a, propose-Marked _ _ (committed _))

      finished :
          (raft_node_id : ℕ) (w : World) (o : Result DeployError Unit × World)
          → choose_node e name def (advance e w).fsm ≡ some node_id
          → raft_id_for (advance e (advance e w)).fsm node_id ≡ some raft_node_id
          → Finished
              (Event.proposed
                  (Command.alloc_scheduled (placement_of name def alloc_id raft_node_id))
                ∷ w.events)
              o
          → Outcome name def w o
      finished raft_node_id w (ok u, w') h k (a, m) = ((node_id, raft_node_id, h, k, a), m)
      finished raft_node_id w (err x, w') h k (a, m) = inr ((node_id, raft_node_id, h, k, a), m)

    -- If every write to the log is committed, starting an allocation either succeeds, fails without
    -- an event, or fails with one. Where it succeeds, its first event is the proposal of the placement
    -- of the allocation on the node that was chosen, its last event the proposal of Healthy, and the
    -- allocation is Healthy if it is known then; where it fails with an event, the first is the same,
    -- and the last and the status are Failed with the error for a reason.
    pub start_alloc-Outcome :
        (name : String) (def : ServiceDef) (replica : ℕ) (w : World)
        → Outcome name def w (start_alloc e name def alloc_id replica w)
    unfolding start_alloc ◌>>=◌ read_state propose
    start_alloc-Outcome name def replica w =
        elim (Option-cases (choose_node e name def (advance e w).fsm)) [
          | inl h ↦ rw (h, start_alloc) (inl refl)
          | inr (node_id, h) ↦
              elim (Option-cases (raft_id_for (advance e (advance e w)).fsm node_id)) [
                | inl k ↦ rw (h, start_alloc, k) (inl refl)
                | inr (raft_node_id, k) ↦ finished name def node_id raft_node_id w _ h k (
                    rw (h, start_alloc, k)
                      (rw (committed (w.tick + 1 + 1), propose)
                        (run_or_fail-Finished name def node_id _)))
              ]
        ]
