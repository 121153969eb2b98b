-- ===== src/Primary/Watcher.antt =====
-- crates/node/src/primary/mod.rs: the task that connects to the nodes of the replicated state and
-- disconnects from those that are gone. A set of nodes is a list. What each dial meets in a round is
-- given by the node, and so are the numbers of the channel and the token.
pub mod Rounds
use mill.Prelude.{
  inr, inl, Option-cases, Bool-cases, ◌≤◌, ◌<◌, ap, ◌⊎◌, arith, ◌∙◌, sym, subst, refl, none, some,
  ◌≡◌, Option, Bool, true, false, ◌∷◌, [], List, ℕ, zero, suc, ◌+◌, ◌-◌, ◌*◌, ◌%◌, ◌&&◌, ◌||◌, not,
  ltb, leb, ◌==◌, if◌then◌else◌, and_then, option_map, is_some, String, str_eq, str_eq_iff,
  string_key, nat_key, Map, lookup, insert, remove, retain, keys, values, Distinct, map, ◌++◌, ◌<>◌,
  display, any, filterb, find_first, length, In, any-true, any-false, In-filterb, filterb-In,
  lookup-insert, lookup-remove, lookup-retain, ite, max, ℕ_discrete, string_discrete, ◌↔◌, ◌≢◌,
}
use mill.Config.Runtime.{NodeId, SocketAddr}
use mill.Fsm.State.{FsmState, FsmNode}
use mill.Rpc.Router.{CommandRouter, disconnect}
use mill.Rpc.Reconnect.{ConnParams, Dial, connect, is_ok}

pub record Dials : Type 0 where
  pub dial : NodeId → Dial
  pub addr_text : SocketAddr → String
  pub cmd_tx : NodeId → ℕ
  pub conn_cancel : NodeId → ℕ

pub record Watch : Type 0 where
  pub router : CommandRouter
  pub connected : List NodeId

abbrev pub has : List NodeId → NodeId → Bool
has l id = any (λ x. str_eq x id) l

abbrev pub add_to : List NodeId → NodeId → List NodeId
add_to l id = if has l id then l else l ++ (id ∷ [])

abbrev pub is_local : Option NodeId → NodeId → Bool
is_local none id = false
is_local (some local) id = str_eq id local

abbrev pub rpc_or : Option SocketAddr → SocketAddr → SocketAddr
rpc_or none a = a
rpc_or (some r) a = r

-- the closure `reconcile`
unfoldable pub current_nodes : FsmState → Option NodeId → List (NodeId × SocketAddr)
current_nodes fsm local_node_id =
    map (λ n. (FsmNode.mill_id n, rpc_or (FsmNode.rpc_address n) (FsmNode.address n)))
      (filterb (λ n. not (is_local local_node_id (FsmNode.mill_id n))) (values fsm.nodes))

abbrev pub params_of : Dials → NodeId × SocketAddr → ConnParams
params_of d n = record {
  node_id = n.0;
  addr = Dials.addr_text d n.1;
  cmd_tx = Dials.cmd_tx d n.0;
  conn_cancel = Dials.conn_cancel d n.0;
}

unfoldable pub connect_to : Dials → NodeId × SocketAddr → Watch → Watch
unfolding connect
connect_to d n w =
    let (result, router) = connect (params_of d n) (Dials.dial d n.0) w.router in
    record {
      router = router;
      connected = if is_ok result then add_to w.connected n.0 else w.connected;
    }

-- the loop before the first change
unfoldable pub connect_all : Dials → List (NodeId × SocketAddr) → Watch → Watch
unfolding connect_to
connect_all d [] w = w
connect_all d (n ∷ ns) w = connect_all d ns (connect_to d n w)

unfoldable pub join_one : Dials → NodeId × SocketAddr → Watch → Watch
unfolding connect_to
join_one d n w = if has w.connected n.0 then w else connect_to d n w

unfoldable pub connect_new : Dials → List (NodeId × SocketAddr) → Watch → Watch
unfolding join_one
connect_new d [] w = w
connect_new d (n ∷ ns) w = connect_new d ns (join_one d n w)

unfoldable pub disconnect_each : List NodeId → CommandRouter → CommandRouter
unfolding disconnect
disconnect_each [] r = r
disconnect_each (id ∷ ids) r = disconnect_each ids (disconnect id r)

-- what is done after each change
unfoldable pub watch_round : Dials → List (NodeId × SocketAddr) → Watch → Watch
unfolding connect_new disconnect_each
watch_round d current w =
    let ids = map (λ n. n.0) current in
    let joined = connect_new d current w in
    record {
      router = disconnect_each (filterb (λ id. not (has ids id)) joined.connected) joined.router;
      connected = filterb (λ id. has ids id) joined.connected;
    }
