-- ===== src/Primary/Tasks/Kill.antt =====
-- Killing a task, and what a spawned task leaves behind.
use mill.Prelude.{
  inr, inl, Option-cases, Bool-cases, refl, none, some, ◌≡◌, Option, if◌then◌else◌, string_key,
  nat_key, lookup,
}
use mill.Prelude.Exec.{Result, err, ◌>>=◌}
use mill.Config.Runtime.{AllocId, Alloc, is_task}
use mill.Rpc.Router.{NodeError}
use mill.Rpc.Protocol.{NodeCommand}
use mill.Primary.World.{Env, World, DeployError, advance, read_state, send_command}
use mill.Primary.Tasks.{kill_task}

module _ (e : Env) where
  -- What killing an allocation comes to, by the allocation in the state that is read.
  abbrev pub Killed : AllocId → World → Option Alloc → Result DeployError Unit × World → Type 0
  Killed alloc_id w none r =
      r ≡ (err (DeployError.node (NodeError.alloc_not_found alloc_id)), advance e w)
  Killed alloc_id w (some a) r =
      if is_task a.kind
      then r ≡ send_command e a.node (NodeCommand.stop alloc_id) (advance e w)
      else r ≡ (err (DeployError.node (NodeError.not_a_task alloc_id)), advance e w)

  -- Killing sends one Stop to the node of the allocation if this is a task; of a service, and of an
  -- unknown allocation, it fails and sends nothing.
  pub kill_task_exact :
      (alloc_id : AllocId) (w : World)
      → Killed alloc_id w (lookup alloc_id (advance e w).fsm.allocs) (kill_task e alloc_id w)
  unfolding kill_task read_state ◌>>=◌
  kill_task_exact alloc_id w = elim (Option-cases (lookup alloc_id (advance e w).fsm.allocs)) [
    | inl h ↦ rw (h, kill_task) refl
    | inr (a, h) ↦ elim (Bool-cases (is_task a.kind)) [
      | inl k ↦ rw (h, kill_task, k) refl
      | inr k ↦ rw (h, kill_task, k) refl
    ]
  ]
