-- ===== src/Primary/Tasks/Leftover.antt =====
-- What a spawned task leaves behind where it fails.
use mill.Prelude.{none, some, Option, ℕ, String, string_key, nat_key, Map}
use mill.Prelude.Exec.{Keeps, keeps_rules}
use mill.Config.Env.{EnvValue}
use mill.Config.Runtime.{AllocId, NodeId}
use mill.Fsm.Command.{Command}
use mill.Primary.World.{World, Env, Event}
use mill.Primary.World.Events.{
  Every, Keeps-read_state, Keeps-suffix, Keeps-propose, Keeps-send_command,
}
use mill.Primary.Start.Frame.{
  Keeps-ok_or, Keeps-from_result, Keeps-resolve_env, Keeps-wait_for_status,
}
use mill.Primary.Tasks.{
  Parsers, SpawnTaskRequest, TaskPlan, note, plan_inline, plan_template, resolve_request,
  effective_timeout, start_timer, run_task, spawn_task,
}

-- Placements are proposed, and nothing else.
abbrev pub OnlyPlaces : Event → Type 0
OnlyPlaces (Event.proposed (Command.alloc_scheduled p)) = Unit
OnlyPlaces (Event.proposed c) = ⊥
OnlyPlaces _ = Unit

module _ (e : Env) where
  note-OnlyPlaces : (ev : Event) → OnlyPlaces ev → Keeps (Every OnlyPlaces) (note ev)
  unfolding note
  note-OnlyPlaces ev h = record { at = λ w k. (h, k) }

  ruleset task_rules = (
    keeps_rules, Keeps-read_state, Keeps-suffix, Keeps-propose, Keeps-send_command, Keeps-ok_or,
    Keeps-from_result, note-OnlyPlaces,
  )

  resolve_request-OnlyPlaces :
      (p : Parsers) (request : SpawnTaskRequest) (task image : Option String)
      → Keeps (Every OnlyPlaces) (resolve_request e p request task image)
  unfolding resolve_request plan_template plan_inline
  resolve_request-OnlyPlaces p request (some template) none = search task_rules depth 20
  resolve_request-OnlyPlaces p request none (some image) = search task_rules depth 20
  resolve_request-OnlyPlaces p request none none = search task_rules
  resolve_request-OnlyPlaces p request (some t) (some image) = search task_rules

  effective_timeout-OnlyPlaces :
      (p : Parsers) (s : Option String) (t : Option ℕ)
      → Keeps (Every OnlyPlaces) (effective_timeout e p s t)
  unfolding effective_timeout
  effective_timeout-OnlyPlaces p none t = search task_rules
  effective_timeout-OnlyPlaces p (some s) t = search task_rules depth 20

  start_timer-OnlyPlaces :
      (t : Option ℕ) (alloc_id : AllocId) → Keeps (Every OnlyPlaces) (start_timer e t alloc_id)
  unfolding start_timer
  start_timer-OnlyPlaces none alloc_id = search task_rules
  start_timer-OnlyPlaces (some t) alloc_id = search task_rules

  run_task-OnlyPlaces :
      (plan : TaskPlan) (t : Option ℕ) (alloc_id : AllocId) (node_id : NodeId)
      (env : Map String EnvValue)
      → Keeps (Every OnlyPlaces) (run_task e plan t alloc_id node_id env)
  unfolding run_task
  run_task-OnlyPlaces plan t alloc_id node_id env =
      search (task_rules, Keeps-resolve_env, Keeps-wait_for_status, start_timer-OnlyPlaces) depth 30

  Keeps-spawn_task :
      (p : Parsers) (request : SpawnTaskRequest) → Keeps (Every OnlyPlaces) (spawn_task e p request)
  unfolding spawn_task
  Keeps-spawn_task p request =
      search
        (task_rules, resolve_request-OnlyPlaces, effective_timeout-OnlyPlaces, run_task-OnlyPlaces)
        depth 30

  -- Spawning a task proposes nothing but placements, whether it returns or fails: if nothing else had
  -- been proposed before, this is so after it. An allocation whose start fails after it was placed
  -- is not marked failed by it.
  pub spawn_task-OnlyPlaces :
      (p : Parsers) (request : SpawnTaskRequest) (w : World)
      → Every OnlyPlaces w
      → Every OnlyPlaces (spawn_task e p request w).1
  spawn_task-OnlyPlaces p request w h = Keeps.at (Keeps-spawn_task p request) w h
