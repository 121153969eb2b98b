-- ===== src/Primary/Rolling/Replaced.antt =====
-- What a rolling update that returns has done.
use mill.Prelude.{
  ap, arith, ◌∙◌, sym, subst, refl, none, some, ◌≡◌, Option, ◌∷◌, [], List, String, string_key,
  nat_key, In, All,
}
use mill.Prelude.Exec.{Result, ok, err, bind_ok, ◌>>=◌}
use mill.Config.Resolved.{ServiceDef}
use mill.Config.Runtime.{NodeId, AllocId}
use mill.Rpc.Protocol.{NodeCommand}
use mill.Primary.World.{Env, Event, World, Task, DeployError, advance, read_state, send_command}
use mill.Primary.Rollout.{attempt, targets}
use mill.Primary.Resolve.{ok_or}
use mill.Prelude.Exec.{bind_assoc, ◌>>◌}
use mill.Primary.Rolling.{
  first_ready, create_volumes_if_needed, start_replicas, stop_old, finish, rolling_update,
  get_or_insert,
}

module _ (e : Env) where
  send_command_sent :
      (node_id : NodeId) (cmd : NodeCommand) (w : World)
      → (send_command e node_id cmd w).0 ≡ ok tt
      → (send_command e node_id cmd w).1.events ≡ Event.sent node_id cmd ∷ w.events
  unfolding send_command
  send_command_sent node_id cmd w h = ground arith

  send_command_grows :
      (node_id : NodeId) (cmd : NodeCommand) (w : World) (ev : Event)
      → In ev w.events
      → In ev (send_command e node_id cmd w).1.events
  unfolding send_command
  send_command_grows node_id cmd w ev h = ground arith

  -- The error that is kept after a command.
  abbrev kept : Result DeployError Unit → Option DeployError → Option DeployError
  kept (ok u) o = o
  kept (err x) o = get_or_insert o x

  stop_old_cons :
      (id : AllocId) (n : NodeId) (olds : List (AllocId × NodeId)) (o : Option DeployError)
      (w : World)
      → stop_old e ((id, n) ∷ olds) o w
        ≡ stop_old e olds
            (kept (send_command e n (NodeCommand.stop id) w).0 o)
            (send_command e n (NodeCommand.stop id) w).1
  unfolding stop_old attempt ◌>>=◌
  stop_old_cons id n olds o w =
      go (send_command e n (NodeCommand.stop id) w).0 (send_command e n (NodeCommand.stop id) w).1
    where
      go :
          (r : Result DeployError Unit) (w' : World)
          → (elim r as (λ _. Task (Option DeployError)) [
            | ok u ↦ stop_old e olds o
            | err x ↦ stop_old e olds (get_or_insert o x)
          ])
              w'
            ≡ stop_old e olds (kept r o) w'
      go (ok u) w' = refl
      go (err x) w' = refl

  stop_old_grows :
      (olds : List (AllocId × NodeId)) (o : Option DeployError) (w : World) (ev : Event)
      → In ev w.events
      → In ev (stop_old e olds o w).1.events
  unfolding stop_old
  stop_old_grows [] o w ev h = h
  stop_old_grows ((id, n) ∷ olds) o w ev h =
      rw (stop_old_cons id n olds o w)
        (stop_old_grows olds _ _ ev (send_command_grows n (NodeCommand.stop id) w ev h))

  kept-some : (r : Result DeployError Unit) (x : DeployError) → kept r (some x) ≡ some x
  kept-some (ok u) x = refl
  kept-some (err y) x = refl

  stop_old-some :
      (olds : List (AllocId × NodeId)) (x : DeployError) (w : World)
      → (stop_old e olds (some x) w).0 ≡ ok (some x)
  unfolding stop_old
  stop_old-some [] x w = refl
  stop_old-some ((id, n) ∷ olds) x w =
      rw
        (
          stop_old_cons id n olds (some x) w,
          kept-some (send_command e n (NodeCommand.stop id) w).0 x,
        )
        (stop_old-some olds x (send_command e n (NodeCommand.stop id) w).1)

  some_is_not_none :
      (r : Result DeployError (Option DeployError)) (x : DeployError)
      → r ≡ ok (some x)
      → r ≡ ok none
      → ⊥
  some_is_not_none r x h k = cc

  -- Without an error, each command was sent.
  stop_old-All :
      (olds : List (AllocId × NodeId)) (w : World)
      → (stop_old e olds none w).0 ≡ ok none
      → All (λ t. In (Event.sent t.1 (NodeCommand.stop t.0)) (stop_old e olds none w).1.events) olds
  unfolding stop_old
  stop_old-All [] w h = tt
  stop_old-All ((id, n) ∷ olds) w h =
      subst
        (λ o.
          All (λ t. In (Event.sent t.1 (NodeCommand.stop t.0)) (World.events o.1)) ((id, n) ∷ olds))
        (sym (stop_old_cons id n olds none w))
        (go (send_command e n (NodeCommand.stop id) w).0 refl
          (sym (ap (λ o. o.0) (stop_old_cons id n olds none w)) ∙ h)
          (stop_old-All olds (send_command e n (NodeCommand.stop id) w).1))
    where
      go :
          (r : Result DeployError Unit)
          → (send_command e n (NodeCommand.stop id) w).0 ≡ r
          → (stop_old e olds (kept r none) (send_command e n (NodeCommand.stop id) w).1).0 ≡ ok none
          → ((stop_old e olds none (send_command e n (NodeCommand.stop id) w).1).0 ≡ ok none
              → All
                  (λ t.
                    In
                      (Event.sent t.1 (NodeCommand.stop t.0))
                      (stop_old e olds none (send_command e n (NodeCommand.stop id) w).1).1.events)
                  olds)
          → All
              (λ t.
                In
                  (Event.sent t.1 (NodeCommand.stop t.0))
                  (stop_old e olds
                    (kept r none)
                    (send_command e n (NodeCommand.stop id) w).1).1.events)
              ((id, n) ∷ olds)
      go (ok u) g k f = (
        stop_old_grows olds none _ _
            (ground (arith, send_command_sent n (NodeCommand.stop id) w g)),
        f k,
      )
      go (err x) g k f = absurd (some_is_not_none _ x (stop_old-some olds x _) k)

  finish_ok :
      (o : Option DeployError) (w : World) (u : Unit)
      → (finish o w).0 ≡ ok u
      → (o ≡ none) × ((finish o w).1 ≡ w)
  unfolding finish
  finish_ok none w u h = (refl, refl)
  finish_ok (some x) w u h = cc

  module _ (name : String) (def : ServiceDef) where
    -- What the update does before and after it reads the old allocations.
    unfoldable pub before_update : Task Unit
    before_update = do
      found ← read_state e first_ready
      raft_node_id ← ok_or (DeployError.scheduling_failed name 0) found
      create_volumes_if_needed e def.volumes raft_node_id

    abbrev update : Task Unit
    update = do
      olds ← read_state e (targets name)
      news ← start_replicas e name def def.replicas 0 []
      stop_err ← stop_old e olds none
      finish stop_err

    rolling_update_splits : before_update >> update ≡ rolling_update e name def
    unfolding rolling_update before_update
    rolling_update_splits =
        bind_assoc (read_state e first_ready)
          (λ found.
            ok_or (DeployError.scheduling_failed name 0) found
            >>= create_volumes_if_needed e def.volumes)
          (λ u. update)
        ∙ λ i. read_state e first_ready >>= λ found.
            bind_assoc (ok_or (DeployError.scheduling_failed name 0) found)
              (create_volumes_if_needed e def.volumes) (λ u. update) i

    -- The state of the update when it reads the old allocations.
    abbrev pub update_read : World → World
    update_read w = advance e (before_update w).1

    -- From the state in which the old allocations were read, all replicas were started, then each of
    -- the old allocations was sent a Stop, and nothing else was done.
    pub record Replaced (read w : World) : Type 0 where
      pub replicas : List (AllocId × NodeId)
      pub started : (start_replicas e name def def.replicas 0 [] read).0 ≡ ok replicas
      pub stopped :
          All (λ t. In (Event.sent t.1 (NodeCommand.stop t.0)) w.events) (targets name read.fsm)
      pub ends :
          w
          ≡ (stop_old e
              (targets name read.fsm)
              none
              (start_replicas e name def def.replicas 0 [] read).1).1

    update-Replaced :
        (w : World) (u : Unit) → (update w).0 ≡ ok u → Replaced (advance e w) (update w).1
    unfolding read_state ◌>>=◌ finish
    update-Replaced w u h =
        let (news, g, k, v) =
          bind_ok (start_replicas e name def def.replicas 0 [])
            (λ news. stop_old e (targets name (advance e w).fsm) none >>= finish) (advance e w) u
            h in
        let (o, g', k', v') =
          bind_ok (stop_old e (targets name (advance e w).fsm) none) finish
            (start_replicas e name def def.replicas 0 [] (advance e w)).1 u k in
        let (none', same) = finish_ok o _ u k' in
        record {
          replicas = news;
          started = g;
          stopped =
              subst
                (λ w'.
                  All (λ t. In (Event.sent t.1 (NodeCommand.stop t.0)) (World.events w'))
                    (targets name (advance e w).fsm))
                (sym (v ∙ v' ∙ same)) (stop_old-All _ _ (g' ∙ ap ok none'));
          ends = v ∙ v' ∙ same;
        }

    parts-Replaced :
        (w : World)
        → ((before_update >> update) w).0 ≡ ok tt
        → Replaced (update_read w) ((before_update >> update) w).1
    parts-Replaced w h =
        let (u, g, k, v) = bind_ok before_update (λ u. update) w tt h in
        subst (Replaced (update_read w)) (sym v) (update-Replaced (before_update w).1 tt k)

  pub rolling_update-Replaced :
      (name : String) (def : ServiceDef) (w : World)
      → (rolling_update e name def w).0 ≡ ok tt
      → Replaced name def (update_read name def w) (rolling_update e name def w).1
  rolling_update-Replaced name def w h =
      let same = rolling_update_splits name def in
      subst (λ m. Replaced name def (update_read name def w) (m w).1) same
        (parts-Replaced name def w (ap (λ m. (m w).0) same ∙ h))
