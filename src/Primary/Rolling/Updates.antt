-- ===== src/Primary/Rolling/Updates.antt =====
-- What a rolling update stops.
use mill.Primary.Start.Frame.{Keeps-ok_or}
use mill.Prelude.{
  inr, inl, ◌⊎◌, sym, subst, refl, none, some, ◌≡◌, Option, ◌∷◌, [], List, ℕ, zero, suc, ◌+◌,
  option_map, String, string_key, nat_key, lookup, ◌<>◌, All,
}
use mill.Prelude.Exec.{
  Ends, Ends-bind, bind_split, Result, ok, err, Keeps, Keeps-pure, Keeps-raise, Keeps-bind, raise,
  ◌>>=◌,
}
use mill.Config.Resolved.{ServiceDef}
use mill.Config.Runtime.{Alloc, NodeId, AllocId}
use mill.Rpc.Protocol.{NodeCommand}
use mill.Primary.World.{advance, Env, World, Task, DeployError, read_state}
use mill.Primary.World.Events.{Every, Keeps-read_state, Keeps-suffix, Keeps-send_command}
use mill.Primary.Rollout.Stops.{
  Keeps-attempt, create_volumes_if_needed-StopsOnly, StopsOnly, start_alloc-StopsOnly,
}
use mill.Primary.Rolling.{
  finish, first_ready, targets, stop_old, rolling_update, stop_started, start_replicas,
  push_started,
}

-- The names that a rolling update gives to the replicas that it starts.
abbrev pub IsReplica : String → AllocId → Type 0
IsReplica name alloc_id = (s : String) × (alloc_id ≡ name <> "-" <> s)

module _ (e : Env) (name : String) where
  abbrev pub Safe : World → Type 0
  Safe = Every (StopsOnly (IsReplica name))

  stop_started-Safe :
      (started : List (AllocId × NodeId))
      → All (λ t. IsReplica name t.0) started
      → Keeps Safe (stop_started e started)
  unfolding stop_started
  stop_started-Safe [] h = Keeps-pure tt
  stop_started-Safe ((alloc_id, node_id) ∷ started) h =
      Keeps-bind _ _
        (Keeps-attempt _ (Keeps-send_command e _ node_id (NodeCommand.stop alloc_id) h.0))
        λ u. stop_started-Safe started h.1

  push_started-All :
      (alloc_id : AllocId) (node_id : Option NodeId) (started : List (AllocId × NodeId))
      → IsReplica name alloc_id
      → All (λ t. IsReplica name t.0) started
      → All (λ t. IsReplica name t.0) (push_started alloc_id node_id started)
  push_started-All alloc_id none started r h = h
  push_started-All alloc_id (some n) [] r h = (r, tt)
  push_started-All alloc_id (some n) (t ∷ started) r h =
      (h.0, push_started-All alloc_id (some n) started r h.1)

  start_replicas-Safe :
      (def : ServiceDef) (n replica : ℕ) (started : List (AllocId × NodeId))
      → All (λ t. IsReplica name t.0) started
      → Keeps Safe (start_replicas e name def n replica started)
  unfolding start_replicas
  start_replicas-Safe def zero replica started h = Keeps-pure started
  start_replicas-Safe def (suc n) replica started h = Keeps-bind _ _ (Keeps-suffix e _) λ s.
      Keeps-bind _ _ (Keeps-attempt _ (start_alloc-StopsOnly e _ name def _ replica))
        (go s λ started' h'. start_replicas-Safe def n (replica + 1) started' h')
    where
      go :
          (s : String)
          → ((started' : List (AllocId × NodeId))
              → All (λ t. IsReplica name t.0) started'
              → Keeps Safe (start_replicas e name def n (replica + 1) started'))
          → (outcome : Result DeployError Unit)
          → Keeps Safe (elim outcome as (λ _. Task (List (AllocId × NodeId))) [
            | ok u ↦
                read_state e
                  (λ fsm. option_map (λ a. Alloc.node a) (lookup (name <> "-" <> s) fsm.allocs))
                >>= λ node_id.
                    start_replicas e name def n
                      (replica + 1)
                      (push_started (name <> "-" <> s) node_id started)
            | err x ↦ stop_started e started >>= λ u. raise x
          ])
      go s rec (ok u) =
          Keeps-bind _ _ (Keeps-read_state e _ _)
            λ node_id. rec _ (push_started-All _ node_id started (s, refl) h)
      go s rec (err x) = Keeps-bind _ _ (stop_started-Safe started h) λ u. Keeps-raise x

  -- From the world, in which the old allocations were read, all replicas were started, and the rest
  -- of the update is to stop the old ones.
  pub record Started (def : ServiceDef) (r : Result DeployError Unit × World) : Type 0 where
    pub read : World
    pub replicas : List (AllocId × NodeId)
    pub started : (start_replicas e name def def.replicas 0 [] read).0 ≡ ok replicas
    pub rest :
        r
        ≡ (stop_old e (targets name read.fsm) none >>= finish)
            (start_replicas e name def def.replicas 0 [] read).1

  -- The update from the state on in which the old allocations were read.
  abbrev replace_old : ServiceDef → Task Unit
  replace_old def w =
      (start_replicas e name def def.replicas 0 [] >>= λ news.
      stop_old e (targets name w.fsm) none >>= finish)
        w

  Ends-replace_old :
      (def : ServiceDef)
      → Ends Safe (Started def) (
          read_state e (targets name) >>= λ olds.
          start_replicas e name def def.replicas 0 [] >>= λ news. stop_old e olds none >>= finish)
  unfolding read_state ◌>>=◌
  Ends-replace_old def = record {
    at = λ w h.
        go (advance e w) h
          (bind_split (start_replicas e name def def.replicas 0 []) _ (advance e w));
  }
    where
      go :
          (w : World)
          → Safe w
          → ((x : DeployError) × ((start_replicas e name def def.replicas 0 [] w).0 ≡ err x)
              × (replace_old def w ≡ (err x, (start_replicas e name def def.replicas 0 [] w).1)))
            ⊎ ((news : List (AllocId × NodeId)) × ((start_replicas e name def def.replicas 0 [] w).0
                  ≡ ok news)
                × (replace_old def w
                    ≡ (stop_old e (targets name w.fsm) none >>= finish)
                        (start_replicas e name def def.replicas 0 [] w).1))
          → Safe (replace_old def w).1 ⊎ Started def (replace_old def w)
      go w h (inl (x, g, r)) =
          inl (subst (λ o. Safe o.1) (sym r) (Keeps.at (start_replicas-Safe def _ 0 [] tt) w h))
      go w h (inr (news, g, r)) = inr (record { read = w; replicas = news; started = g; rest = r })

  rolling_update-Ends : (def : ServiceDef) → Ends Safe (Started def) (rolling_update e name def)
  unfolding rolling_update
  rolling_update-Ends def = Ends-bind _ _ (Keeps-read_state e _ first_ready) λ found.
      Ends-bind _ _ (Keeps-ok_or e _ _ found) λ raft_node_id.
        Ends-bind _ _ (create_volumes_if_needed-StopsOnly e _ def.volumes raft_node_id)
          λ u. Ends-replace_old def

  pub rolling_update_keeps_old :
      (def : ServiceDef) (w : World)
      → Safe w
      → Safe (rolling_update e name def w).1 ⊎ Started def (rolling_update e name def w)
  rolling_update_keeps_old def w h = Ends.at (rolling_update-Ends def) w h
