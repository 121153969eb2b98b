-- ===== src/Primary/Health.antt =====
-- crates/node/src/primary/health/mod.rs. Requests and connections are parameters: what they answer
-- at a time, and how long that takes. A sleep lasts as long as it is asked to, or longer.
pub mod Readiness
use mill.Prelude.{
  inr, inl, Option-cases, Bool-cases, ◌≤◌, ◌<◌, ap, ◌⊎◌, arith, ◌∙◌, sym, subst, refl, none, some,
  ◌≡◌, Option, Bool, true, false, ◌∷◌, [], List, ℕ, zero, suc, ◌+◌, ◌-◌, ◌*◌, ◌%◌, ◌&&◌, ◌||◌, not,
  ltb, leb, ◌==◌, if◌then◌else◌, and_then, option_map, is_some, String, str_eq, str_eq_iff,
  string_key, nat_key, Map, lookup, insert, remove, retain, keys, values, Distinct, map, ◌++◌, ◌<>◌,
  display, any, filterb, find_first, length, In, any-true, any-false, In-filterb, filterb-In,
  lookup-insert, lookup-remove, lookup-retain, ite, max, ℕ_discrete, string_discrete, ◌↔◌, ◌≢◌, ◌/◌,
  ◌^◌,
}
use mill.Config.Resolved.{HealthCheck}
use mill.Config.Runtime.{SocketAddr}

pub record Network : Type 0 where
  pub probe : ℕ → SocketAddr → String → Bool × ℕ
  pub connect : ℕ → SocketAddr → Bool × ℕ
  pub oversleep : ℕ → ℕ

abbrev pub u32_mod : ℕ
u32_mod = 2 ^ 32

abbrev pub min : ℕ → ℕ → ℕ
min a b = if leb a b then a else b

-- The time after a wait of an interval that is cut off at the deadline.
unfoldable pub wait_until : Network → ℕ → ℕ → ℕ → ℕ
wait_until n interval deadline now = now + min interval (deadline - now) + Network.oversleep n now

-- The loop of `wait_healthy`, on fuel: the answer and the time then.
unfoldable pub healthy_loop : Network → SocketAddr → HealthCheck → ℕ → ℕ → ℕ → ℕ → Option (Bool × ℕ)
unfolding wait_until
healthy_loop n address health deadline zero failures now = none
healthy_loop n address health deadline (suc fuel) failures now =
    let (up, took) = Network.probe n now address health.path in
    let probed = now + took in
    let failed = (failures + 1) % u32_mod in
    let woken = wait_until n health.interval deadline probed in
    let rest = healthy_loop n address health deadline fuel failed woken in
    if up
    then some (true, probed)
    else if leb health.failure_threshold failed
    then some (false, probed)
    else if leb deadline probed
    then some (false, probed)
    else if leb deadline woken
    then some (false, woken)
    else rest

unfoldable pub wait_healthy : Network → SocketAddr → HealthCheck → ℕ → ℕ → Option (Bool × ℕ)
unfolding healthy_loop
wait_healthy n address health timeout now =
    healthy_loop n address health (now + timeout) (health.failure_threshold - 1 + 1) 0 now

-- The loop of `wait_tcp_ready`, on fuel.
unfoldable pub tcp_loop : Network → SocketAddr → ℕ → ℕ → ℕ → ℕ → Option (Bool × ℕ)
unfolding wait_until
tcp_loop n address interval deadline zero now = none
tcp_loop n address interval deadline (suc fuel) now =
    let (up, took) = Network.connect n now address in
    let tried = now + took in
    let woken = wait_until n interval deadline tried in
    let rest = tcp_loop n address interval deadline fuel woken in
    if up then some (true, tried) else if leb deadline tried then some (false, tried) else rest

-- `interval` is `tcp_ready_poll_interval()`.
unfoldable pub wait_tcp_ready : Network → SocketAddr → ℕ → ℕ → ℕ → Option (Bool × ℕ)
unfolding tcp_loop
wait_tcp_ready n address interval timeout now =
    tcp_loop n address interval (now + timeout) (suc (timeout / interval + 1)) now
