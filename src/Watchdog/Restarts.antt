-- ===== src/Watchdog/Restarts.antt =====
-- `check_service_restarts`: what a tick decides for each service. The tasks that it spawns are the
-- number of replicas that it starts; the log and the metrics are left out.
use mill.Prelude.{
  none, some, Option, ◌∷◌, [], List, ℕ, zero, suc, ◌-◌, ◌%◌, not, ltb, leb, if◌then◌else◌, is_some,
  String, string_key, nat_key, Map, lookup, insert, remove, retain, filterb, length,
}
use mill.Config.Runtime.{Alloc, is_active, is_terminal}
use mill.Config.Resolved.{ServiceDef, ClusterConfig}
use mill.Fsm.State.{FsmState, list_service_allocs}

pub record RestartState : Type 0 where
  pub attempts : ℕ
  pub last_attempt_at : ℕ

-- `env::restart_backoff`, in nanoseconds.
abbrev pub delays : List ℕ
delays = 1000000000 ∷ 5000000000 ∷ 30000000000 ∷ 60000000000 ∷ []

-- `backoff[attempts.min(backoff.len() - 1)]`
abbrev pub delay_from : ℕ → List ℕ → ℕ
delay_from n [] = 0
delay_from n (d ∷ []) = d
delay_from zero (d ∷ e ∷ ds) = d
delay_from (suc n) (d ∷ e ∷ ds) = delay_from n (e ∷ ds)

abbrev pub delay : ℕ → ℕ
delay attempts = delay_from attempts delays

abbrev pub as_u32 : ℕ → ℕ
as_u32 n = n % 4294967296

unfoldable pub count_active : FsmState → String → ℕ
count_active fsm name =
    as_u32 (length (filterb (λ a. is_active (Alloc.status a)) (list_service_allocs fsm name)))

unfoldable pub count_non_terminal : FsmState → String → ℕ
count_non_terminal fsm name =
    as_u32
      (length (filterb (λ a. not (is_terminal (Alloc.status a))) (list_service_allocs fsm name)))

abbrev pub Backoff : Type 0
Backoff = Map String RestartState

-- One service: the new backoff, and the number of replicas to start, if any are started.
unfoldable pub restart_one : ℕ → FsmState → Backoff → String → ServiceDef → Backoff × Option ℕ
restart_one now fsm backoff name def =
    let active = count_active fsm name in
    let non_terminal = count_non_terminal fsm name in
    if leb def.replicas active
    then (remove name backoff, none)
    else if leb def.replicas non_terminal
    then (backoff, none)
    else elim (lookup name backoff) [
      | none ↦ (insert name (record { attempts = 0; last_attempt_at = now }) backoff, none)
      | some s ↦ if ltb (now - s.last_attempt_at) (delay s.attempts) then (backoff, none) else (
        insert name (record { attempts = suc s.attempts; last_attempt_at = now }) backoff,
        some (def.replicas - active),
      )
    ]

unfoldable pub restart_all :
    ℕ → FsmState → Backoff → Map String ServiceDef → Backoff × List (String × ℕ)
unfolding restart_one
restart_all now fsm backoff [] = (backoff, [])
restart_all now fsm backoff ((name, def) ∷ rest) =
    let (backoff', needed) = restart_one now fsm backoff name def in
    let (backoff'', started) = restart_all now fsm backoff' rest in
    (backoff'', elim needed [ none ↦ started | some n ↦ (name, n) ∷ started ])

abbrev pub services_of : Option ClusterConfig → Map String ServiceDef
services_of none = []
services_of (some c) = c.services

unfoldable pub check_service_restarts : ℕ → FsmState → Backoff → Backoff × List (String × ℕ)
unfolding restart_all
check_service_restarts now fsm backoff =
    let services = services_of fsm.config in
    restart_all now fsm (retain (λ name s. is_some (lookup name services)) backoff) services
