-- ===== src/Primary/World/Events.antt =====
-- What holds of all events is kept by each action whose own events it holds of.
use mill.Prelude.{inr, inl, Option-cases, arith, string_key, nat_key, All}
use mill.Prelude.Exec.{ok, err, err, Result, Keeps}
use mill.Config.Runtime.{NodeId}
use mill.Fsm.State.{FsmState}
use mill.Fsm.Command.{Command}
use mill.Rpc.Protocol.{NodeCommand}
use mill.Primary.World.{
  StorageError, broadcast_command, called, Env, Event, World, read_state, propose, send_command,
  suffix,
}

abbrev pub Every : (Event → Type 0) → World → Type 0
Every P w = All P w.events

module _ (e : Env) (P : Event → Type 0) where
  pub Keeps-read_state : {A : Type 0} (f : FsmState → A) → Keeps (Every P) (read_state e f)
  unfolding read_state
  Keeps-read_state f = record { at = λ w h. h }

  pub Keeps-suffix : Keeps (Every P) (suffix e)
  unfolding suffix
  Keeps-suffix = record { at = λ w h. h }

  pub Keeps-propose : (c : Command) → P (Event.proposed c) → Keeps (Every P) (propose e c)
  unfolding propose
  Keeps-propose c p = record {
    at = λ w h. elim (Option-cases (Env.write_error e w.tick)) [
      | inl x ↦ rw (x, propose) (p, h)
      | inr (t, x) ↦ rw (x, propose) h
    ];
  }

  pub Keeps-send_command :
      (node_id : NodeId) (cmd : NodeCommand)
      → P (Event.sent node_id cmd)
      → Keeps (Every P) (send_command e node_id cmd)
  unfolding send_command
  Keeps-send_command node_id cmd p = record { at = λ w h. ground arith }

  pub Keeps-broadcast_command :
      (cmd : NodeCommand) → P (Event.broadcast cmd) → Keeps (Every P) (broadcast_command e cmd)
  unfolding broadcast_command
  Keeps-broadcast_command cmd p = record { at = λ w h. ground arith }

module _ (P : Event → Type 0) where
  pub Keeps-called :
      {A : Type 0} (ev : Event) (r : Result StorageError A) → P ev → Keeps (Every P) (called ev r)
  unfolding called
  Keeps-called ev (ok a) p = record { at = λ w h. (p, h) }
  Keeps-called ev (err x) p = record { at = λ w h. h }
