-- ===== src/Rpc/Reconnect/Backoff.antt =====
-- When a lost connection is back.
use mill.Prelude.{
  inr, inl, Bool-cases, ◌≤◌, ◌<◌, ap, arith, refl, none, some, ◌≡◌, Option, true, false, ◌∷◌, [],
  List, ℕ, zero, suc, ◌+◌, ◌*◌, string_key, nat_key, lookup, ◌++◌, length, ◌≢◌, All,
}
use mill.Prelude.{lookup-insert_self}
use mill.Rpc.Router.{CommandRouter, wire_connection}
use mill.Rpc.Reconnect.{
  min, ConnParams, wire, second, max_delay, Reconnected, reaches, Attempts, reconnect_from,
  reconnect_loop,
}

abbrev InBounds : ℕ → Type 0
InBounds d = (second ≤ d) × (d ≤ max_delay)

abbrev AllInBounds : List ℕ → Type 0
AllInBounds l = All InBounds l

abbrev pub Connects : ConnParams → CommandRouter → ℕ → Option Reconnected → Type 0
Connects p r most none = ⊥
Connects p r most (some x) =
    (x.connected ≡ true) × (x.router ≡ wire p r) × (length x.slept ≤ most) × AllInBounds x.slept

snoc-AllInBounds : (l : List ℕ) (d : ℕ) → AllInBounds l → InBounds d → AllInBounds (l ++ (d ∷ []))
snoc-AllInBounds [] d h k = (k, tt)
snoc-AllInBounds (x ∷ l) d h k = (h.0, snoc-AllInBounds l d h.1 k)

length-snoc : (l : List ℕ) (d : ℕ) → length (l ++ (d ∷ [])) ≡ length l + 1
length-snoc [] d = refl
length-snoc (x ∷ l) d = ground (arith, length-snoc l d)

double-InBounds : (d : ℕ) → InBounds d → InBounds (min (d * 2) max_delay)
double-InBounds d h = ground (arith, h)

module _ (a : Attempts) (p : ConnParams) (r : CommandRouter) where
  from-Connects :
      (fuel n t delay : ℕ) (slept : List ℕ)
      → n ≤ t
      → t < n + fuel
      → ((i : ℕ) → i ≤ t → Attempts.cancelled a i ≡ false)
      → reaches (Attempts.dial a t) ≡ true
      → length slept ≡ n
      → InBounds delay
      → AllInBounds slept
      → Connects p r (t + 1) (reconnect_from fuel a p n delay slept r)
  unfolding reconnect_from
  from-Connects zero n t delay slept le lt alive met count b l = absurd (omega (arith, le, lt))
  from-Connects (suc fuel) n t delay slept le lt alive met count b l =
      elim (Bool-cases (reaches (Attempts.dial a n))) [
        | inl e ↦
            rw (alive n le, e, reconnect_from, Connects)
              (
                refl,
                refl,
                omega (arith, length-snoc slept delay, count, le),
                snoc-AllInBounds slept delay l b,
              )
        | inr e ↦
            let later : n ≢ t = λ q. cc (e, met, ap (λ i. reaches (Attempts.dial a i)) q) in
            rw (alive n le, e, reconnect_from, Connects)
              (from-Connects fuel (n + 1) t (min (delay * 2) max_delay) (slept ++ (delay ∷ []))
                (ground (arith, later, le)) (omega (arith, lt)) alive met
                (omega (arith, length-snoc slept delay, count)) (double-InBounds delay b)
                (snoc-AllInBounds slept delay l b))
      ]

-- A lost connection comes back: if the node accepts the attempt with some number, and the token is
-- not cancelled in a sleep up to it, the loop ends connected, after at most one sleep more than that
-- number, each from 1 to 30 seconds long, and with the node's commands going to the new channel.
pub reconnect_loop-Connects :
    (a : Attempts) (p : ConnParams) (r : CommandRouter) (t : ℕ)
    → ((i : ℕ) → i ≤ t → Attempts.cancelled a i ≡ false)
    → reaches (Attempts.dial a t) ≡ true
    → Connects p r (t + 1) (reconnect_loop (t + 1) a p r)
      × (lookup p.node_id (CommandRouter.inner (wire p r)) ≡ some p.cmd_tx)
unfolding reconnect_loop wire_connection
reconnect_loop-Connects a p r t alive met = (
  from-Connects a p r (t + 1) 0 t second [] (omega arith) (omega arith) alive met refl
      (omega arith, omega arith) tt,
  lookup-insert_self p.node_id p.cmd_tx r.inner,
)
