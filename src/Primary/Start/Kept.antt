-- ===== src/Primary/Start/Kept.antt =====
-- What holds of the events is kept through `start_alloc` where it is kept by each event of it.
use mill.Rpc.Protocol.{RegistryCredentials}
use mill.Config.Runtime.{ContainerSpec, NodeId, AllocStatus, SocketAddr, AllocId}
use mill.Primary.Start.{
  World, NodeCommand, HealthCheck, ServiceDef, Task, Command, run_scheduled_alloc, await_address,
  settle, poll_for_address, check_ready, await_status, wait_for_status,
}
use mill.Prelude.{
  inr, inl, Option-cases, arith, none, some, Option, ◌∷◌, [], List, ℕ, zero, suc, is_some, String,
  string_key, nat_key, Map, insert,
}
use mill.Prelude.Exec.{
  Keeps-if, Keeps-bind, Result, ok, err, Keeps, Keeps-pure, Keeps-raise, keeps_rules,
}
use mill.Config.Env.{EnvValue, EnvPart}
use mill.Fsm.State.{FsmState}
use mill.Primary.World.{read_state, propose, send_command, World, Env, Event, DeployError}
use mill.Primary.Resolve.{
  resolve_env_value, resolve_env, ok_or, from_result, resolve_part, resolve_parts,
}

-- The property holds of the events so far.
abbrev pub Holds : (List Event → Type 0) → World → Type 0
Holds Q w = Q w.events

module _ (e : Env) (Q : List Event → Type 0) where
  -- The property goes on to hold when the event is added.
  abbrev Grows : Event → Type 0
  Grows ev = (l : List Event) → Q l → Q (ev ∷ l)

  Keeps-read_state : {A : Type 0} (f : FsmState → A) → Keeps (Holds Q) (read_state e f)
  unfolding read_state
  Keeps-read_state f = record { at = λ w h. h }

  Keeps-propose : (c : Command) → Grows (Event.proposed c) → Keeps (Holds Q) (propose e c)
  unfolding propose
  Keeps-propose c p = record {
    at = λ w h. elim (Option-cases (Env.write_error e w.tick)) [
      | inl x ↦ rw (x, propose) (p w.events h)
      | inr (t, x) ↦ rw (x, propose) h
    ];
  }

  Keeps-send_command :
      (node_id : NodeId) (cmd : NodeCommand)
      → Grows (Event.sent node_id cmd)
      → Keeps (Holds Q) (send_command e node_id cmd)
  unfolding send_command
  Keeps-send_command node_id cmd p = record { at = λ w h. ground (arith, p w.events h) }

  pub Keeps-ok_or : {A : Type 0} (x : DeployError) (o : Option A) → Keeps (Holds Q) (ok_or x o)
  Keeps-ok_or x none = Keeps-raise x
  Keeps-ok_or x (some a) = Keeps-pure a

  pub Keeps-from_result :
      {A : Type 0} (f : String → DeployError) (r : Result String A)
      → Keeps (Holds Q) (from_result f r)
  Keeps-from_result f (ok a) = Keeps-pure a
  Keeps-from_result f (err x) = Keeps-raise (f x)

  ruleset quiet_rules = (keeps_rules, Keeps-read_state, Keeps-ok_or, Keeps-from_result)

  Keeps-resolve_part : (part : EnvPart) → Keeps (Holds Q) (resolve_part e part)
  unfolding resolve_part
  Keeps-resolve_part (EnvPart.literal s) = search quiet_rules
  Keeps-resolve_part (EnvPart.service_address s) = search quiet_rules
  Keeps-resolve_part (EnvPart.secret s) = search quiet_rules

  Keeps-resolve_parts :
      (parts : List EnvPart) (result : String) → Keeps (Holds Q) (resolve_parts e parts result)
  unfolding resolve_parts
  Keeps-resolve_parts [] result = search quiet_rules
  Keeps-resolve_parts (part ∷ parts) result =
      search (quiet_rules, Keeps-resolve_part, Keeps-resolve_parts parts)

  Keeps-resolve_env_value : (value : EnvValue) → Keeps (Holds Q) (resolve_env_value e value)
  unfolding resolve_env_value
  Keeps-resolve_env_value (EnvValue.literal s) = search quiet_rules
  Keeps-resolve_env_value (EnvValue.interpolated parts) = Keeps-resolve_parts parts ""

  pub Keeps-resolve_env :
      (env : Map String EnvValue) (resolved : Map String String)
      → Keeps (Holds Q) (resolve_env e env resolved)
  unfolding resolve_env
  Keeps-resolve_env [] resolved = search quiet_rules
  Keeps-resolve_env ((key, value) ∷ env) resolved =
      Keeps-bind _ _ (Keeps-resolve_env_value value)
        (λ val. Keeps-resolve_env env (insert key val resolved))

  Keeps-settle :
      (alloc_id : AllocId) (status : Option AllocStatus) (later : Task Unit)
      → Keeps (Holds Q) later
      → Keeps (Holds Q) (settle alloc_id status later)
  unfolding settle
  Keeps-settle alloc_id none later k = k
  Keeps-settle alloc_id (some AllocStatus.pulling) later k = k
  Keeps-settle alloc_id (some AllocStatus.starting) later k = k
  Keeps-settle alloc_id (some _) later k = search quiet_rules

  Keeps-await_status : (n : ℕ) (alloc_id : AllocId) → Keeps (Holds Q) (await_status e n alloc_id)
  unfolding await_status
  Keeps-await_status zero alloc_id = search (quiet_rules, Keeps-settle)
  Keeps-await_status (suc n) alloc_id =
      Keeps-bind _ _ (Keeps-read_state _)
        (λ status. Keeps-settle alloc_id status _ (Keeps-await_status n alloc_id))

  pub Keeps-wait_for_status : (alloc_id : AllocId) → Keeps (Holds Q) (wait_for_status e alloc_id)
  unfolding wait_for_status
  Keeps-wait_for_status alloc_id = record {
    at = λ w h. Keeps.at (Keeps-await_status (Env.changes e w.tick) alloc_id) w h;
  }

  Keeps-await_address : (n : ℕ) (alloc_id : AllocId) → Keeps (Holds Q) (await_address e n alloc_id)
  unfolding await_address
  Keeps-await_address zero alloc_id = search quiet_rules
  Keeps-await_address (suc n) alloc_id =
      Keeps-bind _ _ (Keeps-read_state _)
        (λ addr. Keeps-if (is_some addr) _ _ (Keeps-pure addr) (Keeps-await_address n alloc_id))

  pub Keeps-poll_for_address : (alloc_id : AllocId) → Keeps (Holds Q) (poll_for_address e alloc_id)
  unfolding poll_for_address
  Keeps-poll_for_address alloc_id = record {
    at = λ w h. Keeps.at (Keeps-await_address (Env.changes e w.tick) alloc_id) w h;
  }

  Keeps-check_ready :
      (name : String) (addr : SocketAddr) (health : Option HealthCheck)
      → Keeps (Holds Q) (check_ready e name addr health)
  unfolding check_ready
  Keeps-check_ready name addr health = record { at = λ w h. ground arith }

  -- A start does nothing but send Run and propose Healthy.
  pub Keeps-run_scheduled_alloc :
      (alloc_id : AllocId)
      → ((node_id : NodeId) (spec : ContainerSpec) (auth : Option RegistryCredentials)
          → Grows (Event.sent node_id (NodeCommand.run alloc_id spec auth)))
      → Grows (Event.proposed (Command.alloc_status alloc_id AllocStatus.healthy))
      → (name : String) (def : ServiceDef) (node_id : NodeId)
      → Keeps (Holds Q) (run_scheduled_alloc e name def alloc_id node_id)
  unfolding run_scheduled_alloc
  Keeps-run_scheduled_alloc alloc_id runs healthy name def node_id =
      search
        (
          quiet_rules, Keeps-resolve_env, Keeps-send_command, Keeps-wait_for_status,
          Keeps-poll_for_address, Keeps-check_ready, Keeps-propose, runs, healthy,
        )
        depth 20
