-- ===== src/Primary/Start/Frame.antt =====
-- What `start_alloc` may do: it proposes its placement and statuses of its allocation, and sends its
-- Run command.
use mill.Rpc.Protocol.{RegistryCredentials}
use mill.Config.Runtime.{ContainerSpec, NodeId, AllocStatus, AllocId}
use mill.Primary.Start.{
  World, start_alloc, mark_failed, run_or_fail, NodeCommand, ServiceDef, Command,
  run_scheduled_alloc, Placement, poll_for_address, wait_for_status,
}
use mill.Primary.Start.Kept
use mill.Prelude.{◌≡◌, Option, ℕ, String, string_key, nat_key, Map, All}
use mill.Prelude.Exec.{Result, ok, err, Keeps, keeps_rules}
use mill.Config.Env.{EnvValue}
use mill.Primary.World.{World, Env, Event, DeployError}
use mill.Primary.World.Events.{Keeps-propose, Every, Keeps-read_state}
use mill.Primary.Resolve.{resolve_env, ok_or, from_result}

module _ (e : Env) (P : Event → Type 0) where
  pub Keeps-ok_or : {A : Type 0} (x : DeployError) (o : Option A) → Keeps (Every P) (ok_or x o)
  Keeps-ok_or x o = Kept.Keeps-ok_or e (All P) x o

  pub Keeps-from_result :
      {A : Type 0} (f : String → DeployError) (r : Result String A)
      → Keeps (Every P) (from_result f r)
  Keeps-from_result f r = Kept.Keeps-from_result e (All P) f r

  ruleset quiet_rules = (keeps_rules, Keeps-read_state, Keeps-ok_or, Keeps-from_result)

  pub Keeps-resolve_env :
      (env : Map String EnvValue) (resolved : Map String String)
      → Keeps (Every P) (resolve_env e env resolved)
  Keeps-resolve_env env resolved = Kept.Keeps-resolve_env e (All P) env resolved

  pub Keeps-wait_for_status : (alloc_id : AllocId) → Keeps (Every P) (wait_for_status e alloc_id)
  Keeps-wait_for_status alloc_id = Kept.Keeps-wait_for_status e (All P) alloc_id

  pub Keeps-poll_for_address : (alloc_id : AllocId) → Keeps (Every P) (poll_for_address e alloc_id)
  Keeps-poll_for_address alloc_id = Kept.Keeps-poll_for_address e (All P) alloc_id

  -- What `start_alloc` does is allowed of its allocation.
  pub record Allows (alloc_id : AllocId) : Type 0 where
    pub placement :
        (p : Placement) → p.alloc_id ≡ alloc_id → P (Event.proposed (Command.alloc_scheduled p))
    pub status : (s : AllocStatus) → P (Event.proposed (Command.alloc_status alloc_id s))
    pub runs :
        (node_id : NodeId) (spec : ContainerSpec) (auth : Option RegistryCredentials)
        → P (Event.sent node_id (NodeCommand.run alloc_id spec auth))

  module _ (alloc_id : AllocId) (a : Allows alloc_id) where
    Keeps-run_scheduled_alloc :
        (name : String) (def : ServiceDef) (node_id : NodeId)
        → Keeps (Every P) (run_scheduled_alloc e name def alloc_id node_id)
    Keeps-run_scheduled_alloc name def node_id =
        Kept.Keeps-run_scheduled_alloc e (All P) alloc_id
          (λ n spec auth l h. (Allows.runs a n spec auth, h)) (λ l h. (Allows.status a _, h)) name
          def node_id

    Keeps-mark_failed : (r : Result DeployError Unit) → Keeps (Every P) (mark_failed e alloc_id r)
    unfolding mark_failed
    Keeps-mark_failed (ok u) = record { at = λ w h. h }
    Keeps-mark_failed (err x) = record {
      at = λ w h.
          Keeps.at (Keeps-propose e P (Command.alloc_status alloc_id _) (Allows.status a _)) w h;
    }

    Keeps-run_or_fail :
        (name : String) (def : ServiceDef) (node_id : NodeId)
        → Keeps (Every P) (run_or_fail e name def alloc_id node_id)
    unfolding run_or_fail
    Keeps-run_or_fail name def node_id = record {
      at = λ w h.
          Keeps.at (Keeps-mark_failed (run_scheduled_alloc e name def alloc_id node_id w).0)
            (run_scheduled_alloc e name def alloc_id node_id w).1
            (Keeps.at (Keeps-run_scheduled_alloc name def node_id) w h);
    }

    pub Keeps-start_alloc :
        (name : String) (def : ServiceDef) (replica : ℕ)
        → Keeps (Every P) (start_alloc e name def alloc_id replica)
    unfolding start_alloc
    Keeps-start_alloc name def replica =
        search (quiet_rules, Keeps-propose, Allows.placement a, Keeps-run_or_fail) depth 20

    -- Starting an allocation does nothing but propose its placement and statuses of this
    -- allocation, and send its Run command: what is allowed of all of these, and holds of all
    -- events before it, holds of all events after it, also where it fails.
    pub start_alloc_frame :
        (name : String) (def : ServiceDef) (replica : ℕ) (w : World)
        → Every P w
        → Every P (start_alloc e name def alloc_id replica w).1
    start_alloc_frame name def replica w h = Keeps.at (Keeps-start_alloc name def replica) w h
