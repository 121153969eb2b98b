-- ===== src/Primary/Health/Readiness.antt =====
-- How long the readiness loops take, and what their answers mean.
use mill.Prelude.{
  inl, ◌≤◌, ◌<◌, ◌⊎◌, arith, refl, none, some, ◌≡◌, Option, Bool, true, false, ℕ, zero, suc, ◌+◌,
  ◌-◌, ◌*◌, ◌%◌, String, string_key, nat_key, ◌/◌,
}
use mill.Config.Resolved.{HealthCheck}
use mill.Config.Runtime.{SocketAddr}
use mill.Primary.Health.{
  wait_healthy, wait_tcp_ready, tcp_loop, Network, u32_mod, wait_until, healthy_loop,
}

-- No request and no connection takes longer than the first bound, no sleep is longer by more than
-- the second.
pub record IsPrompt (n : Network) (timely late : ℕ) : Type 0 where
  pub probes : (t : ℕ) (a : SocketAddr) (path : String) → (Network.probe n t a path).1 ≤ timely
  pub connects : (t : ℕ) (a : SocketAddr) → (Network.connect n t a).1 ≤ timely
  pub sleeps : (t : ℕ) → Network.oversleep n t ≤ late

-- There is an answer, given by that time.
abbrev pub EndsBy : ℕ → Option (Bool × ℕ) → Type 0
EndsBy t none = ⊥
EndsBy t (some (up, now)) = now ≤ t

module _ (n : Network) (address : SocketAddr) (timely late : ℕ) (p : IsPrompt n timely late) where
  -- Each round but the last makes one more failure, so the threshold bounds the rounds.
  healthy_loop_ends :
      (health : HealthCheck) (deadline fuel failures now : ℕ)
      → health.failure_threshold < u32_mod
      → 0 < fuel
      → health.failure_threshold ≤ fuel + failures
      → (failures ≡ 0) ⊎ (failures < health.failure_threshold)
      → now ≤ deadline + late
      → EndsBy (deadline + late + timely) (healthy_loop n address health deadline fuel failures now)
  unfolding healthy_loop wait_until
  healthy_loop_ends health deadline zero failures now h b k z m = ground arith
  healthy_loop_ends health deadline (suc fuel) failures now h b k z m = ground (
    arith,
    IsPrompt.probes p now address health.path,
    IsPrompt.sleeps p (now + (Network.probe n now address health.path).1),
    healthy_loop_ends health deadline fuel ((failures + 1) % u32_mod)
        (wait_until n health.interval deadline (now + (Network.probe n now address health.path).1)),
  )

  -- The HTTP readiness check answers: if no request takes longer than a bound and no sleep is late by
  -- more than another, it answers by the deadline and these two; and so does its loop when it is cut
  -- off after some number of probes that is not 0 and not less than `failure_threshold`.
  pub wait_healthy_ends :
      (health : HealthCheck) (timeout now probes : ℕ)
      → health.failure_threshold < u32_mod
      → 0 < probes
      → health.failure_threshold ≤ probes
      → EndsBy (now + timeout + late + timely) (wait_healthy n address health timeout now)
        × EndsBy
            (now + timeout + late + timely)
            (healthy_loop n address health (now + timeout) probes 0 now)
  unfolding wait_healthy
  wait_healthy_ends health timeout now probes h b k = (
    healthy_loop_ends health (now + timeout) (health.failure_threshold - 1 + 1) 0 now h
        (omega arith) (omega arith) (inl refl) (omega arith),
    healthy_loop_ends health (now + timeout) probes 0 now h b (omega arith) (inl refl)
        (omega arith),
  )

  -- Each round but the last waits for the interval or up to the deadline.
  tcp_loop_ends :
      (interval deadline fuel now : ℕ)
      → 0 < interval
      → deadline ≤ now + interval * fuel
      → now ≤ deadline + late
      → EndsBy (deadline + late + timely) (tcp_loop n address interval deadline (suc fuel) now)
  unfolding tcp_loop wait_until
  tcp_loop_ends interval deadline zero now h k m = ground (arith, IsPrompt.connects p now address)
  tcp_loop_ends interval deadline (suc fuel) now h k m = ground (
    arith,
    IsPrompt.connects p now address,
    IsPrompt.sleeps p (now + (Network.connect n now address).1),
    tcp_loop_ends interval deadline fuel
        (wait_until n interval deadline (now + (Network.connect n now address).1)),
  )

  -- The TCP readiness check with an interval above 0 answers: if no connection takes longer than a
  -- bound and no sleep is late by more than another, it answers by the deadline and these two.
  pub wait_tcp_ready_ends :
      (interval timeout now : ℕ)
      → 0 < interval
      → EndsBy (now + timeout + late + timely) (wait_tcp_ready n address interval timeout now)
  unfolding wait_tcp_ready
  wait_tcp_ready_ends interval timeout now h =
      tcp_loop_ends interval (now + timeout) (timeout / interval + 1) now h (omega arith)
        (omega arith)

module _ (n : Network) (address : SocketAddr) where
  -- A probe in between got a 2xx answer, and its answer came at the later time.
  abbrev pub Answered : String → ℕ → ℕ → Type 0
  Answered path now later =
      (t : ℕ) × ((Network.probe n t address path).0 ≡ true)
      × (later ≡ t + (Network.probe n t address path).1)
      × (now ≤ t)

  healthy_loop-true :
      (health : HealthCheck) (deadline fuel failures now later : ℕ)
      → healthy_loop n address health deadline fuel failures now ≡ some (true, later)
      → Answered health.path now later
  unfolding healthy_loop wait_until
  healthy_loop-true health deadline zero failures now later h = cc
  healthy_loop-true health deadline (suc fuel) failures now later h =
      go (Network.probe n now address health.path).0 refl (λ g.
        healthy_loop-true health deadline fuel ((failures + 1) % u32_mod)
          (wait_until n health.interval deadline
            (now + (Network.probe n now address health.path).1))
          later g)
    where
      go :
          (up : Bool)
          → (Network.probe n now address health.path).0 ≡ up
          → (healthy_loop n address health deadline fuel ((failures + 1) % u32_mod) (
                  wait_until n health.interval deadline
                    (now + (Network.probe n now address health.path).1))
                ≡ some (true, later)
              → Answered health.path
                  (wait_until n health.interval deadline
                    (now + (Network.probe n now address health.path).1))
                  later)
          → Answered health.path now later
      go true e f = (now, e, ground arith, omega arith)
      go false e f = let (t, g, k, m) = f (ground arith) in (t, g, k, omega arith)

  -- The HTTP readiness check says yes only if a probe after its start got a 2xx answer, the one that
  -- it returns with.
  pub wait_healthy_sound :
      (health : HealthCheck) (timeout now later : ℕ)
      → wait_healthy n address health timeout now ≡ some (true, later)
      → Answered health.path now later
  unfolding wait_healthy
  wait_healthy_sound health timeout now later h =
      healthy_loop-true health (now + timeout) (health.failure_threshold - 1 + 1) 0 now later h
