-- ===== src/Primary/Nodes/Drain.antt =====
-- Which allocations the drain of a node stops.
use mill.Prelude.{
  inr, inl, arith, ◌∙◌, sym, subst, refl, none, some, ◌≡◌, Option, Bool, true, false, ◌∷◌, [], List,
  ℕ, String, str_eq_iff, string_key, nat_key, lookup, values, map, ◌<>◌, filterb, In, In-filterb,
}
use mill.Prelude.Exec.{
  Result, ok, err, Keeps, Keeps-pure, Keeps-raise, Keeps-if, Keeps-bind, ◌>>=◌, pure,
}
use mill.Config.Resolved.{ServiceDef}
use mill.Config.Runtime.{AllocId, AllocKind}
use mill.Fsm.State.{FsmState}
use mill.Fsm.Command.{Response}
use mill.Rpc.Protocol.{NodeCommand}
use mill.Primary.World.{World, Env, Event, Task, DeployError, Volumes, advance, read_state, suffix}
use mill.Primary.World.Events.{
  Every, Keeps-read_state, Keeps-suffix, Keeps-propose, Keeps-send_command, Keeps-called,
}
use mill.Primary.Start.{start_alloc}
use mill.Primary.Start.Frame.{Keeps-start_alloc}
use mill.Primary.Rollout.{attempt, call_driver, detach_cloud}
use mill.Primary.Rollout.Stops.{Keeps-attempt}
use mill.Prelude.{All, subst, sym, ◌∙◌}
use mill.Prelude.Exec.{bind_assoc, bind_split, ◌>>◌}
use mill.Fsm.Command.{Command}
use mill.Prelude.{lookup, values, filterb, In-filterb, str_eq_iff}
use mill.Fsm.State.{FsmNode}
use mill.Fsm.Apply.{is_active_on}
use mill.Config.Runtime.{Alloc, NodeId, is_terminal}
use mill.Primary.Nodes.{
  left_on, propose, mill_id_or_empty, attached_volumes, accepted, active_allocs, detach_each,
  replace, move_each, drain_node,
}

-- In the state, the allocation is known, is on the node, which has this name, and is not stopped or
-- failed.
abbrev pub IsLeft : ℕ → FsmState → NodeId → AllocId → Type 0
IsLeft id fsm node_id alloc_id =
    (n : FsmNode) × (a : Alloc) × (lookup id fsm.nodes ≡ some n)
    × (n.mill_id ≡ node_id)
    × In a (values fsm.allocs)
    × (a.id ≡ alloc_id)
    × (a.node ≡ node_id)
    × (is_terminal a.status ≡ false)

-- A Stop goes to the node, for an allocation that is left on it.
abbrev pub StopsActive : ℕ → FsmState → Event → Type 0
StopsActive id fsm (Event.sent node_id (NodeCommand.stop alloc_id)) = IsLeft id fsm node_id alloc_id
StopsActive id fsm _ = Unit

abbrev work_of : Alloc → AllocId × String × AllocKind
work_of a = (a.id, a.name, a.kind)

In-ids :
    (allocs : List Alloc) (x : AllocId)
    → In x (map (λ a. a.0) (map work_of allocs))
    → (a : Alloc) × In a allocs × (a.id ≡ x)
In-ids [] x m = absurd m
In-ids (a ∷ allocs) x (inl e) = (a, inl refl, e)
In-ids (a ∷ allocs) x (inr m) = let (b, k, e) = In-ids allocs x m in (b, inr k, e)

is_active_on-IsLeft :
    (mill_id : NodeId) (a : Alloc)
    → is_active_on mill_id a ≡ true
    → (a.node ≡ mill_id) × (is_terminal a.status ≡ false)
is_active_on-IsLeft mill_id a h = ground (arith, h, str_eq_iff a.node mill_id)

active_allocs-IsLeft :
    (id : ℕ) (fsm : FsmState) (x : AllocId)
    → In x (map (λ a. a.0) (active_allocs id fsm).0)
    → IsLeft id fsm (active_allocs id fsm).1 x
active_allocs-IsLeft id fsm x = go (lookup id fsm.nodes) refl
  where
    go :
        (found : Option FsmNode)
        → lookup id fsm.nodes ≡ found
        → In x (map (λ a. a.0) (left_on fsm found).0)
        → IsLeft id fsm (left_on fsm found).1 x
    go none e m = absurd m
    go (some n) e m =
        let (a, k, h) = In-ids (filterb (is_active_on n.mill_id) (values fsm.allocs)) x m in
        let (known, active) = In-filterb (is_active_on n.mill_id) (values fsm.allocs) a k in
        let (on, left) = is_active_on-IsLeft n.mill_id a active in
        (n, a, e, refl, known, h, on, left)

module _ (e : Env) (id : ℕ) where
  -- What the drain does before and after it reads what is left on the node.
  unfoldable pub before_moves : Task Unit
  unfolding accepted detach_each
  before_moves = do
    resp ← propose e (Command.node_drain id)
    accepted resp
    mill_id ← read_state e (mill_id_or_empty id)
    names ← read_state e (attached_volumes mill_id)
    detach_each e names

  abbrev moves : Task Unit
  moves = do work ← read_state e (active_allocs id); move_each e work.1 work.0

  drain_node_splits : before_moves >> moves ≡ drain_node e id
  unfolding drain_node before_moves
  drain_node_splits = bind_assoc _ _ _ ∙ λ i. propose e (Command.node_drain id) >>= λ resp.
      (bind_assoc (accepted resp) _ _ ∙ λ j. accepted resp >>= λ u.
      (bind_assoc (read_state e (mill_id_or_empty id)) _ _ ∙ λ k.
      read_state e (mill_id_or_empty id) >>= λ mill_id.
      bind_assoc (read_state e (attached_volumes mill_id)) (detach_each e) (λ u. moves) k)
        j)
        i

  -- The state in which the drain reads what is left on the node.
  abbrev pub moves_read : World → FsmState
  moves_read w = (advance e (before_moves w).1).fsm

module _ (e : Env) (id : ℕ) (fsm : FsmState) where
  Keeps-detach_cloud :
      (name : String) (v : Option Volumes)
      → Keeps (Every (StopsActive id fsm)) (detach_cloud e name v)
  unfolding detach_cloud call_driver
  Keeps-detach_cloud name none = Keeps-pure tt
  Keeps-detach_cloud name (some driver) = record {
    at = λ w h.
        Keeps.at
          (Keeps-called (StopsActive id fsm) (Event.detached name)
            (Volumes.detach driver w.tick name) tt)
          (advance e w) h;
  }

  detach_each-StopsActive :
      (names : List String) → Keeps (Every (StopsActive id fsm)) (detach_each e names)
  unfolding detach_each
  detach_each-StopsActive [] = Keeps-pure tt
  detach_each-StopsActive (name ∷ names) =
      Keeps-bind _ _ (Keeps-attempt _ (Keeps-detach_cloud name _)) λ r.
        Keeps-bind _ _ (Keeps-attempt _ (Keeps-propose e _ _ tt)) λ r. detach_each-StopsActive names

  start-StopsActive :
      (name : String) (def : ServiceDef) (alloc_id : AllocId)
      → Keeps (Every (StopsActive id fsm)) (start_alloc e name def alloc_id 0)
  start-StopsActive name def alloc_id =
      Keeps-start_alloc e (StopsActive id fsm) alloc_id
        (record { placement = λ p h. tt; status = λ s. tt; runs = λ n spec auth. tt }) name def 0

  replace-StopsActive :
      (name : String) (kind : AllocKind) → Keeps (Every (StopsActive id fsm)) (replace e name kind)
  unfolding replace
  replace-StopsActive name AllocKind.task = Keeps-pure true
  replace-StopsActive name AllocKind.service = Keeps-bind _ _ (Keeps-read_state e _ _) go
    where
      said :
          (outcome : Result DeployError Unit)
          → Keeps
              (Every (StopsActive id fsm))
              (elim outcome as (λ _. Task Bool) [ ok u ↦ pure true | err x ↦ pure false ])
      said (ok u) = Keeps-pure true
      said (err x) = Keeps-pure false

      go :
          (found : Option ServiceDef)
          → Keeps (Every (StopsActive id fsm)) (elim found as (λ _. Task Bool) [
            | none ↦ pure true
            | some def ↦ suffix e >>= λ s.
                attempt (start_alloc e name def (name <> "-" <> s) 0) >>= λ outcome.
                elim outcome as (λ _. Task Bool) [ ok u ↦ pure true | err x ↦ pure false ]
          ])
      go none = Keeps-pure true
      go (some def) =
          Keeps-bind _ _ (Keeps-suffix e _)
            λ s. Keeps-bind _ _ (Keeps-attempt _ (start-StopsActive name def _)) said

  move_each-StopsActive :
      (node_id : NodeId) (allocs : List (AllocId × String × AllocKind))
      → ((a : AllocId) → In a (map (λ a. a.0) allocs) → IsLeft id fsm node_id a)
      → Keeps (Every (StopsActive id fsm)) (move_each e node_id allocs)
  unfolding move_each
  move_each-StopsActive node_id [] h = Keeps-pure tt
  move_each-StopsActive node_id ((alloc_id, name, kind) ∷ allocs) h =
      Keeps-bind _ _ (replace-StopsActive name kind) λ replaced.
        Keeps-if replaced _ _
          (Keeps-bind _ _
            (Keeps-attempt _
              (Keeps-send_command e _ _ (NodeCommand.stop alloc_id) (h alloc_id (inl refl))))
            λ u. move_each-StopsActive node_id allocs (λ a m. h a (inr m)))
          (move_each-StopsActive node_id allocs (λ a m. h a (inr m)))

  Keeps-accepted : (r : Response) → Keeps (Every (StopsActive id fsm)) (accepted r)
  unfolding accepted
  Keeps-accepted Response.ok = Keeps-pure tt
  Keeps-accepted (Response.error text) = Keeps-raise _

  Keeps-before_moves : Keeps (Every (StopsActive id fsm)) (before_moves e id)
  unfolding before_moves
  Keeps-before_moves = Keeps-bind _ _ (Keeps-propose e _ _ tt) λ resp.
      Keeps-bind _ _ (Keeps-accepted resp) λ u.
        Keeps-bind _ _ (Keeps-read_state e _ _)
          λ mill_id. Keeps-bind _ _ (Keeps-read_state e _ _) detach_each-StopsActive

module _ (e : Env) (id : ℕ) where
  moves-StopsActive :
      (w : World)
      → Every (StopsActive id (advance e w).fsm) w
      → Every (StopsActive id (advance e w).fsm) (moves e id w).1
  unfolding read_state ◌>>=◌
  moves-StopsActive w h =
      Keeps.at
        (move_each-StopsActive e id (advance e w).fsm _ _
          (active_allocs-IsLeft id (advance e w).fsm))
        (advance e w) h

  parts-StopsActive :
      (w : World)
      → Every (StopsActive id (moves_read e id w)) w
      → Every (StopsActive id (moves_read e id w)) ((before_moves e id >> moves e id) w).1
  parts-StopsActive w h =
      let begun = Keeps.at (Keeps-before_moves e id (moves_read e id w)) w h in
      elim (bind_split (before_moves e id) (λ u. moves e id) w) [
        | inl (x, g, r) ↦ subst (λ o. Every (StopsActive id (moves_read e id w)) o.1) (sym r) begun
        | inr (u, g, r) ↦
            subst (λ o. Every (StopsActive id (moves_read e id w)) o.1) (sym r)
              (moves-StopsActive (before_moves e id w).1 begun)
      ]

  -- The drain of a node stops only allocations that, in the state in which it reads what is left on
  -- the node, after its proposal and the detaching of volumes, are on this node and neither stopped
  -- nor failed; and it sends these Stops to this node; whether it returns or fails.
  pub drain_node-StopsActive :
      (w : World) → w.events ≡ [] → Every (StopsActive id (moves_read e id w)) (drain_node e id w).1
  drain_node-StopsActive w h =
      subst (λ m. Every (StopsActive id (moves_read e id w)) (m w).1) (drain_node_splits e id)
        (parts-StopsActive w (subst (All (StopsActive id (moves_read e id w))) (sym h) tt))
