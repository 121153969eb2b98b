-- ===== src/Rpc/Router/Routes.antt =====
-- Where commands go, and what a lost connection does to the routes.
use mill.Prelude.{
  inr, inl, Option-cases, arith, ◌∙◌, refl, none, some, ◌≡◌, Option, Bool, true, false, ◌∷◌, [],
  List, ℕ, not, ◌==◌, if◌then◌else◌, string_key, nat_key, lookup, ◌++◌, lookup-insert,
  lookup-remove, ◌↔◌, ◌≢◌, lookup-insert_self,
}
use mill.Prelude.Exec.{ok, err}
use mill.Config.Runtime.{NodeId}
use mill.Rpc.Protocol.{NodeCommand}
use mill.Rpc.Router.{
  NodeError, CommandRouter, send_to, deregister, send, disconnect, wire_connection, close,
  writer_ended,
}

-- The channel is there and its receiver is not gone.
abbrev pub is_open : CommandRouter → ℕ → Bool
is_open r tx = elim (lookup tx r.channels) [ none ↦ false | some c ↦ not c.closed ]

abbrev pub queue_of : CommandRouter → ℕ → List NodeCommand
queue_of r tx = elim (lookup tx r.channels) [ none ↦ [] | some c ↦ c.queue ]

-- What a send does to the channels.
queue_of-send_to :
    (r r' : CommandRouter) (tx c : ℕ) (cmd : NodeCommand)
    → send_to r tx cmd ≡ some r'
    → (is_open r' c ≡ is_open r c)
      × (queue_of r' c ≡ (if tx == c then queue_of r tx ++ cmd ∷ [] else queue_of r c))
      × (is_open r tx ≡ true)
unfolding send_to
queue_of-send_to r r' tx c cmd h = elim (Option-cases (lookup tx r.channels)) [
  | inl e ↦ ground arith
  | inr (ch, e) ↦
      ground (arith, lookup-insert tx c (record ch { queue = ch.queue ++ cmd ∷ [] }) r.channels)
]

send_to-none :
    (r : CommandRouter) (tx : ℕ) (cmd : NodeCommand)
    → (send_to r tx cmd ≡ none) ↔ (is_open r tx ≡ false)
unfolding send_to
send_to-none r tx cmd = elim (Option-cases (lookup tx r.channels)) [
  | inl e ↦ ground arith
  | inr (ch, e) ↦ ground arith
]

-- A command to a registered node whose channel is open arrives, behind what was sent before.
pub send_arrives :
    (node_id : NodeId) (cmd : NodeCommand) (r : CommandRouter) (tx : ℕ)
    → lookup node_id r.inner ≡ some tx
    → is_open r tx ≡ true
    → ((send node_id cmd r).0 ≡ ok tt)
      × (queue_of (send node_id cmd r).1 tx ≡ queue_of r tx ++ cmd ∷ [])
unfolding send
send_arrives node_id cmd r tx h o = elim (Option-cases (send_to r tx cmd)) [
  | inl e ↦ let k : is_open r tx ≡ false = (send_to-none r tx cmd).0 e in cc
  | inr (r', e) ↦ rw (h, send, e) (refl, ground (arith, queue_of-send_to r r' tx tx cmd e))
]

send_unregistered :
    (node_id : NodeId) (cmd : NodeCommand) (r : CommandRouter)
    → lookup node_id r.inner ≡ none
    → (send node_id cmd r).0 ≡ err (NodeError.node_unreachable node_id)
unfolding send
send_unregistered node_id cmd r h = rw (h, send) refl

deregistered :
    (node_id : NodeId) (cmd : NodeCommand) (r : CommandRouter)
    → (send node_id cmd (deregister node_id r)).0 ≡ err (NodeError.node_unreachable node_id)
unfolding deregister
deregistered node_id cmd r =
    send_unregistered node_id cmd (deregister node_id r)
      (ground (arith, lookup-remove node_id node_id r.inner))

-- The tokens that are cancelled once the connection of a node is.
abbrev pub cancelled_with : Option ℕ → List ℕ → List ℕ
cancelled_with none cancelled = cancelled
cancelled_with (some token) cancelled = token ∷ cancelled

-- After a node is disconnected, a command to it is refused as unreachable, and the token of its
-- connection, if it has one, is cancelled beside those that were before.
pub disconnect_unreachable :
    (node_id : NodeId) (cmd : NodeCommand) (r : CommandRouter)
    → ((send node_id cmd (disconnect node_id r)).0 ≡ err (NodeError.node_unreachable node_id))
      × ((disconnect node_id r).cancelled
          ≡ cancelled_with (lookup node_id r.connections) r.cancelled)
unfolding disconnect deregister
disconnect_unreachable node_id cmd r = elim (Option-cases (lookup node_id r.connections)) [
  | inl e ↦ (rw (e, disconnect) (deregistered node_id cmd r), rw (e, disconnect) refl)
  | inr (t, e) ↦ (rw (e, disconnect) (deregistered node_id cmd _), rw (e, disconnect) refl)
]

is_open-close :
    (r : CommandRouter) (old new : ℕ) → old ≢ new → is_open (close old r) new ≡ is_open r new
unfolding close
is_open-close r old new h = elim (Option-cases (lookup old r.channels)) [
  | inl e ↦ rw (e, close) refl
  | inr (c, e) ↦ ground (arith, lookup-insert old new (record c { closed = true }) r.channels)
]

-- If the write of one connection of a node fails after a newer one with another channel was made,
-- commands to the node are refused as unreachable, although the newer channel is open.
pub writer_ended_takes_newer :
    (node_id : NodeId) (old new token : ℕ) (cmd : NodeCommand) (r : CommandRouter)
    → old ≢ new
    → ((send node_id cmd (writer_ended node_id old true (wire_connection node_id new token r))).0
        ≡ err (NodeError.node_unreachable node_id))
      × (is_open (writer_ended node_id old true (wire_connection node_id new token r)) new ≡ true)
unfolding writer_ended wire_connection deregister
writer_ended_takes_newer node_id old new token cmd r h = (
  deregistered node_id cmd (close old (wire_connection node_id new token r)),
  is_open-close (wire_connection node_id new token r) old new h
      ∙ ground (arith, lookup-insert_self new (record { closed = false; queue = [] }) r.channels),
)
