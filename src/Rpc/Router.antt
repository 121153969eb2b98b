-- ===== src/Rpc/Router.antt =====
-- crates/node/src/rpc/router.rs: the senders to the nodes, and error.rs. A channel is a number; the
-- channels themselves, tokio's, are kept beside the router with what was put in them.
pub mod Routes
use mill.Config.Runtime.{NodeId}
use mill.Rpc.Protocol.{NodeCommand}
use mill.Prelude.{
  none, some, Option, Bool, true, false, ◌∷◌, [], List, ℕ, if◌then◌else◌, String, string_key,
  nat_key, Map, lookup, insert, remove, values, ◌++◌, ◌<>◌, length,
}
use mill.Prelude.Exec.{Result, ok, err}

-- An error of another crate is the text that it displays.
pub data NodeError : Type 0 where
  containerd net raft : String → NodeError
  bind : String → NodeError
  port_exhaustion : NodeError
  alloc_not_found service_not_found not_a_task raft_rejected bad_request : String → NodeError
  alloc_already_exists node_unreachable io internal : String → NodeError
  channel_closed : NodeError
  deploy_failed : String → String → NodeError

-- The `Display` that `thiserror` derives.
unfoldable pub node_error_text : NodeError → String
node_error_text (NodeError.containerd e) = e
node_error_text (NodeError.net e) = e
node_error_text (NodeError.raft e) = e
node_error_text (NodeError.bind address) = "failed to bind " <> address
node_error_text NodeError.port_exhaustion = "no ports available"
node_error_text (NodeError.alloc_not_found id) = "allocation not found: " <> id
node_error_text (NodeError.service_not_found name) = "service not found: " <> name
node_error_text (NodeError.not_a_task id) = "allocation " <> id <> " is not a task"
node_error_text (NodeError.raft_rejected e) = "raft rejected: " <> e
node_error_text (NodeError.bad_request e) = "bad request: " <> e
node_error_text (NodeError.alloc_already_exists id) = "allocation already exists: " <> id
node_error_text (NodeError.node_unreachable node) = "node unreachable: " <> node
node_error_text (NodeError.io e) = "i/o error: " <> e
node_error_text (NodeError.internal e) = "internal error: " <> e
node_error_text NodeError.channel_closed = "channel closed"
node_error_text (NodeError.deploy_failed service reason) =
    "deploy failed for " <> service <> ": " <> reason

-- tokio's `mpsc` channel of commands: whether its receiver is gone, and what was sent.
pub record Channel : Type 0 where
  pub closed : Bool
  pub queue : List NodeCommand

-- `connections` has the token of each remote connection, `cancelled` the tokens that are cancelled.
pub record CommandRouter : Type 0 where
  pub inner : Map NodeId ℕ
  pub connections : Map NodeId ℕ
  pub channels : Map ℕ Channel
  pub cancelled : List ℕ

abbrev pub new_router : CommandRouter
new_router = record { inner = []; connections = []; channels = []; cancelled = [] }

-- `tx.send(cmd).await` fails if the receiver is gone.
unfoldable pub send_to : CommandRouter → ℕ → NodeCommand → Option CommandRouter
send_to r tx cmd = elim (lookup tx r.channels) [
  | none ↦ none
  | some c ↦
      if c.closed
      then none
      else some
          (record r { channels = insert tx (record c { queue = c.queue ++ cmd ∷ [] }) r.channels })
]

unfoldable pub register : NodeId → ℕ → CommandRouter → CommandRouter
register node_id tx r = record r { inner = insert node_id tx r.inner }

unfoldable pub deregister : NodeId → CommandRouter → CommandRouter
deregister node_id r = record r { inner = remove node_id r.inner }

unfoldable pub send : NodeId → NodeCommand → CommandRouter → Result NodeError Unit × CommandRouter
unfolding send_to
send node_id cmd r = elim (lookup node_id r.inner) [
  | none ↦ (err (NodeError.node_unreachable node_id), r)
  | some tx ↦ elim (send_to r tx cmd) [
    | none ↦ (err NodeError.channel_closed, r)
    | some r' ↦ (ok tt, r')
  ]
]

-- The loop of `broadcast`, with whether a channel was closed so far.
unfoldable pub broadcast_each : List ℕ → NodeCommand → Bool → CommandRouter → Bool × CommandRouter
unfolding send_to
broadcast_each [] cmd failed r = (failed, r)
broadcast_each (tx ∷ txs) cmd failed r = elim (send_to r tx cmd) [
  | none ↦ broadcast_each txs cmd true r
  | some r' ↦ broadcast_each txs cmd failed r'
]

unfoldable pub broadcast : NodeCommand → CommandRouter → Result NodeError Unit × CommandRouter
unfolding broadcast_each
broadcast cmd r =
    let (failed, r') = broadcast_each (values r.inner) cmd false r in
    (if failed then err NodeError.channel_closed else ok tt, r')

unfoldable pub route_count : CommandRouter → ℕ
route_count r = length r.inner

unfoldable pub disconnect : NodeId → CommandRouter → CommandRouter
unfolding deregister
disconnect node_id r = elim (lookup node_id r.connections) [
  | none ↦ deregister node_id r
  | some token ↦
      deregister node_id
        (record r { connections = remove node_id r.connections; cancelled = token ∷ r.cancelled })
]

-- `wire_connection`, with the numbers of the channel and of the token that it makes.
unfoldable pub wire_connection : NodeId → ℕ → ℕ → CommandRouter → CommandRouter
wire_connection node_id cmd_tx conn_cancel r = record r {
  channels = insert cmd_tx (record { closed = false; queue = [] }) r.channels;
  inner = insert node_id cmd_tx r.inner;
  connections = insert node_id conn_cancel r.connections;
}

-- The writer's receiver is dropped when its loop ends. After a failed write the node is deregistered
-- and the reconnect loop starts.
unfoldable pub close : ℕ → CommandRouter → CommandRouter
close tx r = elim (lookup tx r.channels) [
  | none ↦ r
  | some c ↦ record r { channels = insert tx (record c { closed = true }) r.channels }
]

unfoldable pub writer_ended : NodeId → ℕ → Bool → CommandRouter → CommandRouter
unfolding close deregister
writer_ended node_id cmd_tx disconnected r =
    if disconnected then deregister node_id (close cmd_tx r) else close cmd_tx r
