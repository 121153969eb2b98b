-- ===== src/Watchdog/Backoff.antt =====
-- When the watchdog starts replicas, and how many.
use mill.Prelude.{
  inr, inl, Option-cases, Bool-cases, ◌≤◌, ◌<◌, arith, refl, none, some, ◌≡◌, Option, ℕ, zero, suc,
  ◌+◌, ◌-◌, ltb, leb, String, string_key, nat_key, lookup, lookup-insert_self,
}
use mill.Config.Resolved.{ServiceDef}
use mill.Fsm.State.{FsmState}
use mill.Watchdog.Restarts.{
  RestartState, Backoff, delay, restart_one, count_active, count_non_terminal,
}

-- A service is under-replicated, its pipeline does not fill the gap, and its delay is over.
pub record IsDue (now : ℕ) (fsm : FsmState) (backoff : Backoff) (name : String) (def : ServiceDef)
    : Type 0 where
  pub few_active : count_active fsm name < def.replicas
  pub few_alive : count_non_terminal fsm name < def.replicas
  pub entry : RestartState
  pub known : lookup name backoff ≡ some entry
  pub over : delay entry.attempts ≤ now - entry.last_attempt_at

-- Where replicas are started, the service is due; they are as many as are missing of the active
-- ones, and the attempt is counted with its time.
pub restart_one-started :
    (now : ℕ) (fsm : FsmState) (backoff : Backoff) (name : String) (def : ServiceDef) (needed : ℕ)
    → (restart_one now fsm backoff name def).1 ≡ some needed
    → (d : IsDue now fsm backoff name def) × (needed + count_active fsm name ≡ def.replicas)
      × (lookup name (restart_one now fsm backoff name def).0
          ≡ some (record { attempts = suc (IsDue.entry d).attempts; last_attempt_at = now }))
unfolding restart_one
restart_one-started now fsm backoff name def needed h =
    elim (Bool-cases (leb def.replicas (count_active fsm name))) [
      | inl a ↦ ground (arith, a, h)
      | inr a ↦ elim (Bool-cases (leb def.replicas (count_non_terminal fsm name))) [
        | inl b ↦ ground (arith, a, b, h)
        | inr b ↦ elim (Option-cases (lookup name backoff)) [
          | inl e ↦ ground (arith, a, b, e, h)
          | inr (s, e) ↦ elim (Bool-cases (ltb (now - s.last_attempt_at) (delay s.attempts))) [
            | inl w ↦ ground (arith, a, b, e, w, h)
            | inr w ↦ (
              record {
                few_active = ground (arith, a);
                few_alive = ground (arith, b);
                entry = s;
                known = e;
                over = ground (arith, w);
              },
              ground (arith, a, b, e, w, h),
              ground (
                arith,
                a,
                b,
                e,
                w,
                lookup-insert_self name
                    (record { attempts = suc s.attempts; last_attempt_at = now }) backoff,
              ),
            )
          ]
        ]
      ]
    ]

pub due-started :
    (now : ℕ) (fsm : FsmState) (backoff : Backoff) (name : String) (def : ServiceDef)
    → IsDue now fsm backoff name def
    → (restart_one now fsm backoff name def).1 ≡ some (def.replicas - count_active fsm name)
unfolding restart_one
due-started now fsm backoff name def d = ground (arith, d.few_active, d.few_alive, d.known, d.over)

delay_least : (n : ℕ) → 1000000000 ≤ delay n
delay_least zero = omega arith
delay_least (suc zero) = omega arith
delay_least (suc (suc zero)) = omega arith
delay_least (suc (suc (suc n))) = omega arith

-- After a check of a service has started replicas, the next check of this service, if it comes before
-- a second has passed, starts none, whatever the state of the cluster and the definition of the
-- service are then.
pub restart_one_waits :
    (now now' : ℕ) (fsm fsm' : FsmState) (backoff : Backoff) (name : String) (def def' : ServiceDef)
    (needed : ℕ)
    → (restart_one now fsm backoff name def).1 ≡ some needed
    → now' < now + 1000000000
    → (restart_one now' fsm' (restart_one now fsm backoff name def).0 name def').1 ≡ none
restart_one_waits now now' fsm fsm' backoff name def def' needed h t =
    let (d, n, e) = restart_one-started now fsm backoff name def needed h in
    go (restart_one now' fsm' (restart_one now fsm backoff name def).0 name def').1 refl
      (delay_least (suc (IsDue.entry d).attempts)) e
  where
    go :
        {n : ℕ} (o : Option ℕ)
        → (restart_one now' fsm' (restart_one now fsm backoff name def).0 name def').1 ≡ o
        → 1000000000 ≤ delay n
        → lookup name (restart_one now fsm backoff name def).0
          ≡ some (record { attempts = n; last_attempt_at = now })
        → (restart_one now' fsm' (restart_one now fsm backoff name def).0 name def').1 ≡ none
    go none r l e = r
    go {n} (some k) r l e =
        let (d', m, e') =
          restart_one-started now' fsm' (restart_one now fsm backoff name def).0 name def' k r in
        absurd (late n d' l e)
      where
        late :
            (n : ℕ) (d' : IsDue now' fsm' (restart_one now fsm backoff name def).0 name def')
            → 1000000000 ≤ delay n
            → lookup name (restart_one now fsm backoff name def).0
              ≡ some (record { attempts = n; last_attempt_at = now })
            → ⊥
        late n d' l e = ground (arith, t, d'.known, d'.over, l, e)
