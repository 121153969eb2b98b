-- ===== src/Primary/Rolling/Refused.antt =====
-- A deploy that is refused before it changes anything.
use mill.Prelude.{inr, inl, ◌⊎◌, arith, refl, ◌≡◌, string_key, nat_key, ◌≢◌}
use mill.Prelude.Exec.{err, ◌>>=◌}
use mill.Config.Resolved.{ClusterConfig}
use mill.Fsm.State.{list_secret_names}
use mill.Deploy.Diff.{diff_config}
use mill.Deploy.Validate.{
  Validation, valid, unknown_secrets, no_ready_nodes, oversized, validate_secret_refs,
  validate_resource_capacity,
}
use mill.Primary.World.{Env, World, DeployError, advance, read_state}
use mill.Primary.Rolling.{validated, node_capacities, carry_out, run_deploy}

module _ (e : Env) where
  -- The states that a deploy reads first: at its two validations, and after them.
  abbrev pub secrets_read : World → World
  secrets_read w = advance e (advance e w)

  abbrev pub capacities_read : World → World
  capacities_read w = advance e (secrets_read w)

  abbrev pub IsRefused : Validation → Type 0
  IsRefused v = (x : DeployError) × ((w : World) → validated v w ≡ (err x, w))

  refusal : (v : Validation) → (v ≡ valid) ⊎ ((v ≢ valid) × IsRefused v)
  unfolding validated
  refusal valid = inl refl
  refusal (unknown_secrets names) = inr (λ q. ground (arith, q), (_, λ w. refl))
  refusal no_ready_nodes = inr (λ q. ground (arith, q), (_, λ w. refl))
  refusal (oversized names) = inr (λ q. ground (arith, q), (_, λ w. refl))

  pub run_deploy_cases :
      (config : ClusterConfig) (w : World)
      → (((validate_secret_refs config (list_secret_names (secrets_read w).fsm) ≢ valid)
            ⊎ (validate_resource_capacity
                  (Env.float e)
                  config
                  (node_capacities (capacities_read w).fsm)
                ≢ valid))
          × ((x : DeployError) × ((run_deploy e config w).0 ≡ err x))
          × ((run_deploy e config w).1.events ≡ w.events))
        ⊎ ((validate_secret_refs config (list_secret_names (secrets_read w).fsm) ≡ valid)
            × (validate_resource_capacity
                  (Env.float e)
                  config
                  (node_capacities (capacities_read w).fsm)
                ≡ valid)
            × (run_deploy e config w
                ≡ carry_out e
                    (diff_config (Env.float e) (advance e w).fsm.config config)
                    (advance e w).fsm.config
                    config
                    (capacities_read w)))
  unfolding run_deploy read_state ◌>>=◌ validated
  run_deploy_cases config w =
      elim (refusal (validate_secret_refs config (list_secret_names (secrets_read w).fsm))) [
        | inr (q, (x, r)) ↦ inl (rw (r (secrets_read w), run_deploy) (inl q, (x, refl), refl))
        | inl h ↦
            elim (refusal (
              validate_resource_capacity (Env.float e) config
                (node_capacities (capacities_read w).fsm))) [
                  | inr (q, (x, r)) ↦
                      inl (rw (h, run_deploy, r (capacities_read w)) (inr q, (x, refl), refl))
                  | inl k ↦ inr (h, k, rw (h, run_deploy, k) refl)
                ]
      ]
