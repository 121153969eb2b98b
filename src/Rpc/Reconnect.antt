-- ===== src/Rpc/Reconnect.antt =====
-- crates/node/src/rpc/router.rs: how a connection to a node is made, and made again after it was
-- lost. What the network answers to each attempt is given. Times are nanoseconds.
pub mod Backoff
use mill.Prelude.{
  inr, inl, Option-cases, Bool-cases, ◌≤◌, ◌<◌, ap, ◌⊎◌, arith, ◌∙◌, sym, subst, refl, none, some,
  ◌≡◌, Option, Bool, true, false, ◌∷◌, [], List, ℕ, zero, suc, ◌+◌, ◌-◌, ◌*◌, ◌%◌, ◌&&◌, ◌||◌, not,
  ltb, leb, ◌==◌, if◌then◌else◌, and_then, option_map, is_some, String, str_eq, str_eq_iff,
  string_key, nat_key, Map, lookup, insert, remove, retain, keys, values, Distinct, map, ◌++◌, ◌<>◌,
  display, any, filterb, find_first, length, In, any-true, any-false, In-filterb, filterb-In,
  lookup-insert, lookup-remove, lookup-retain, ite, max, ℕ_discrete, string_discrete, ◌↔◌, ◌≢◌,
}
use mill.Prelude.Exec.{Result, ok, err}
use mill.Config.Runtime.{NodeId}
use mill.Rpc.Router.{NodeError, CommandRouter, wire_connection}

-- What becomes of the request to authenticate: an error of a write or a read, a clean end of the
-- stream, or a response.
pub data Handshake : Type 0 where
  unwritten unread : String → Handshake
  hung_up : Handshake
  answered : Bool → Handshake

-- What becomes of the TCP connection within its timeout.
pub data Dial : Type 0 where
  timed_out refused : Dial
  dialed : Handshake → Dial

unfoldable pub do_auth : Handshake → Result NodeError Unit
do_auth (unwritten e) = err (NodeError.bad_request ("rpc auth write: " <> e))
do_auth (unread e) = err (NodeError.bad_request ("rpc auth read: " <> e))
do_auth hung_up = err (NodeError.bad_request "rpc: connection closed during auth")
do_auth (answered true) = ok tt
do_auth (answered false) = err (NodeError.bad_request "rpc: auth rejected")

-- The connection's address as text, and the numbers of the channel and the token that it makes.
pub record ConnParams : Type 0 where
  pub node_id : NodeId
  pub addr : String
  pub cmd_tx : ℕ
  pub conn_cancel : ℕ

abbrev pub wire : ConnParams → CommandRouter → CommandRouter
wire p = wire_connection p.node_id p.cmd_tx p.conn_cancel

abbrev pub wired_if :
    Result NodeError Unit → ConnParams → CommandRouter → Result NodeError Unit × CommandRouter
wired_if (ok u) p r = (ok tt, wire p r)
wired_if (err e) p r = (err e, r)

unfoldable pub connect : ConnParams → Dial → CommandRouter → Result NodeError Unit × CommandRouter
unfolding do_auth wire_connection
connect p timed_out r = (err (NodeError.bind p.addr), r)
connect p refused r = (err (NodeError.bind p.addr), r)
connect p (dialed h) r = wired_if (do_auth h) p r

abbrev pub second : ℕ
second = 1000000000

abbrev pub max_delay : ℕ
max_delay = 30 * second

abbrev pub min : ℕ → ℕ → ℕ
min a b = if ltb a b then a else b

-- The sleeps so far, and the router with whether the loop made a connection.
pub record Reconnected : Type 0 where
  pub slept : List ℕ
  pub connected : Bool
  pub router : CommandRouter

abbrev pub is_ok : Result NodeError Unit → Bool
is_ok (ok u) = true
is_ok (err e) = false

unfoldable pub reaches : Dial → Bool
unfolding do_auth
reaches timed_out = false
reaches refused = false
reaches (dialed h) = is_ok (do_auth h)

-- Whether the token is cancelled during the n-th sleep, and what the n-th attempt meets.
pub record Attempts : Type 0 where
  pub cancelled : ℕ → Bool
  pub dial : ℕ → Dial

-- The loop from the n-th sleep on; `none` where the fuel does not suffice.
unfoldable pub reconnect_from :
    ℕ → Attempts → ConnParams → ℕ → ℕ → List ℕ → CommandRouter → Option Reconnected
unfolding wire_connection reaches
reconnect_from zero a p n delay slept r = none
reconnect_from (suc fuel) a p n delay slept r =
    let again =
      reconnect_from fuel a p (n + 1) (min (delay * 2) max_delay) (slept ++ (delay ∷ [])) r in
    if Attempts.cancelled a n
    then some (record { slept = slept; connected = false; router = r })
    else if reaches (Attempts.dial a n)
    then some (record { slept = slept ++ (delay ∷ []); connected = true; router = wire p r })
    else again

unfoldable pub reconnect_loop : ℕ → Attempts → ConnParams → CommandRouter → Option Reconnected
unfolding reconnect_from
reconnect_loop fuel a p r = reconnect_from fuel a p 0 second [] r
