-- ===== src/Primary/World.antt =====
-- What the primary's tasks act on: the replicated state, the router and the cloud's volumes, as
-- crates/raft/src/lib.rs, crates/node/src/rpc/router.rs and crates/node/src/storage/mod.rs offer them.
-- Other tasks act in between: before each action, the commands that were committed meanwhile are
-- applied, and the answers of everything outside are taken at the number of the action.
pub mod Events
use mill.Prelude.{
  inr, inl, Option-cases, Bool-cases, ◌≤◌, ◌<◌, ap, ◌⊎◌, arith, ◌∙◌, sym, subst, refl, none, some,
  ◌≡◌, Option, Bool, true, false, ◌∷◌, [], List, ℕ, zero, suc, ◌+◌, ◌-◌, ◌*◌, ◌%◌, ◌&&◌, ◌||◌, not,
  ltb, leb, ◌==◌, if◌then◌else◌, and_then, option_map, is_some, String, str_eq, str_eq_iff,
  string_key, nat_key, Map, lookup, insert, remove, retain, keys, values, Distinct, map, ◌++◌, ◌<>◌,
  display, any, filterb, find_first, length, In, any-true, any-false, In-filterb, filterb-In,
  lookup-insert, lookup-remove, lookup-retain, ite, max, ℕ_discrete, string_discrete, ◌↔◌, ◌≢◌,
}
use mill.Prelude.Float.{Float}
use mill.Prelude.Exec.{Result, ok, err, Exec}
use mill.Config.Runtime.{AllocId, NodeId, SocketAddr}
use mill.Fsm.State.{FsmState}
use mill.Fsm.Command.{Command, Response}
use mill.Fsm.Apply.{apply_command, run_commands}
use mill.Rpc.Protocol.{NodeCommand}
use mill.Rpc.Router
use mill.Rpc.Router.{NodeError, CommandRouter}
use mill.Primary.Health.{Network}

pub data StorageError : Type 0 where
  not_found already_exists attached api http : String → StorageError

-- `dyn Volumes`: the answers of the cloud.
pub record Volumes : Type 0 where
  pub create : ℕ → String → ℕ → Result StorageError String
  pub attach : ℕ → String → String → Result StorageError Unit
  pub detach : ℕ → String → Result StorageError Unit

pub record Env : Type 0 where
  pub float : Float
  pub others : ℕ → List Command
  -- openraft's `client_write`: the text of its error, or none if the command is committed.
  pub write_error : ℕ → Option String
  pub router : ℕ → CommandRouter
  pub volumes : Option Volumes
  pub network : Network
  pub clock : ℕ → ℕ
  pub tcp_ready_poll_interval : ℕ
  pub health_timeout : ℕ
  -- How many changes of the state wake a wait that starts now before its deadline ends it.
  pub changes : ℕ → ℕ
  pub rand_suffix : ℕ → String
  pub decrypt_secret : List ℕ → List ℕ → Result String (List ℕ)
  pub from_utf8 : List ℕ → Result String String
  pub addr_to_string : SocketAddr → String

pub data DeployError : Type 0 where
  scheduling_failed : String → ℕ → DeployError
  health_check_timeout env_resolution validation_failed : String → DeployError
  node : NodeError → DeployError
  storage : StorageError → DeployError

-- What a task has done.
pub data Event : Type 0 where
  proposed : Command → Event
  sent : NodeId → NodeCommand → Event
  broadcast : NodeCommand → Event
  created attached detached : String → Event
  -- `record_task_spawn`, and the timer that kills a task.
  spawn_recorded : String → Event
  kill_after : ℕ → AllocId → Event

-- The latest event stands first.
pub record World : Type 0 where
  pub fsm : FsmState
  pub tick : ℕ
  pub events : List Event

abbrev pub Task : Type 0 → Type 0
Task A = Exec DeployError World A

abbrev pub record_event : Event → World → World
record_event ev w = record w { events = ev ∷ w.events }

module _ (e : Env) where
  -- What the other tasks have committed since the last action.
  unfoldable pub advance : World → World
  advance w = record w { fsm = run_commands w.fsm (Env.others e w.tick); tick = w.tick + 1 }

  unfoldable pub read_state : {A : Type 0} → (FsmState → A) → Task A
  unfolding advance
  read_state f w = let w' = advance w in (ok (f w'.fsm), w')

  unfoldable pub propose : Command → Task Response
  unfolding advance
  propose c w =
      let w' = advance w in
      elim (Env.write_error e w.tick) [
        | some text ↦ (err (DeployError.node (NodeError.raft ("raft error: " <> text))), w')
        | none ↦
            let (s, r) = apply_command w'.fsm c in
            (ok r, record_event (Event.proposed c) (record w' { fsm = s }))
      ]

  unfoldable pub send_command : NodeId → NodeCommand → Task Unit
  unfolding advance
  send_command node_id cmd w =
      let w' = advance w in
      elim (Router.send node_id cmd (Env.router e w.tick)).0 [
        | err x ↦ (err (DeployError.node x), w')
        | ok u ↦ (ok u, record_event (Event.sent node_id cmd) w')
      ]

  unfoldable pub broadcast_command : NodeCommand → Task Unit
  unfolding advance
  broadcast_command cmd w =
      let w' = record_event (Event.broadcast cmd) (advance w) in
      elim (Router.broadcast cmd (Env.router e w.tick)).0 [
        | err x ↦ (err (DeployError.node x), w')
        | ok u ↦ (ok u, w')
      ]

  unfoldable pub suffix : Task String
  unfolding advance
  suffix w = (ok (Env.rand_suffix e w.tick), advance w)

-- A call of the cloud, with the event of one that succeeds.
unfoldable pub called : {A : Type 0} → Event → Result StorageError A → Task A
called ev (ok a) w = (ok a, record_event ev w)
called ev (err x) w = (err (DeployError.storage x), w)
