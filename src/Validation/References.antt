-- ===== src/Validation/References.antt =====
-- What a configuration without a reference error refers to.
use mill.Prelude.{
  inr, inl, ap, ◌∙◌, sym, subst, refl, ◌≡◌, Bool, true, false, ◌∷◌, [], List, if◌then◌else◌, String,
  string_key, nat_key, Map, ◌<>◌, In,
}
use mill.Config.Env.{EnvPart, EnvValue}
use mill.Config.Resolved.{ServiceDef, TaskDef}
use mill.Validation.{ConfigError, unknown_service_ref, push_error}
use mill.Validation.Refs.{
  is_defined, check_parts, check_env_refs, check_all_services, check_all_tasks, check_service_refs,
}

-- The environment interpolates the address of the service.
abbrev pub EnvNames : Map String EnvValue → String → Type 0
EnvNames env s =
    (key : String) × (parts : List EnvPart) × In (key, EnvValue.interpolated parts) env
    × In (EnvPart.service_address s) parts

-- Nothing was pushed before or by a check that leaves no error.
no_push :
    (b : Bool) (errors : List ConfigError) (e : ConfigError)
    → (if b then errors else push_error errors e) ≡ []
    → (b ≡ true) × (errors ≡ [])
no_push true errors e h = (refl, h)
no_push false [] e h = cc
no_push false (x ∷ xs) e h = cc

address_of : EnvPart → String
address_of (EnvPart.literal t) = t
address_of (EnvPart.service_address t) = t
address_of (EnvPart.secret t) = t

parts_of : EnvValue → List EnvPart
parts_of (EnvValue.literal t) = []
parts_of (EnvValue.interpolated l) = l

module _ (defined : List String) where
  parts_sound :
      (path : String) (ps : List EnvPart) (errors : List ConfigError)
      → check_parts path ps defined errors ≡ []
      → (errors ≡ [])
        × ((s : String) → In (EnvPart.service_address s) ps → is_defined defined s ≡ true)
  unfolding check_parts address_of
  parts_sound path [] errors h = (h, λ s m. absurd m)
  parts_sound path (EnvPart.service_address n ∷ ps) errors h =
      let (none_yet, later) = parts_sound path ps _ h in
      let (known, before) =
        no_push (is_defined defined n) errors (unknown_service_ref path n) none_yet in
      (
        before,
        λ s m. elim m [
          | inl e ↦ ap (is_defined defined) (sym (ap address_of e)) ∙ known
          | inr k ↦ later s k
        ],
      )
  parts_sound path (EnvPart.literal n ∷ ps) errors h =
      let (before, later) = parts_sound path ps errors h in
      (before, λ s m. elim m [ inl e ↦ cc | inr k ↦ later s k ])
  parts_sound path (EnvPart.secret n ∷ ps) errors h =
      let (before, later) = parts_sound path ps errors h in
      (before, λ s m. elim m [ inl e ↦ cc | inr k ↦ later s k ])

  env_sound :
      (path : String) (env : Map String EnvValue) (errors : List ConfigError)
      → check_env_refs path env defined errors ≡ []
      → (errors ≡ []) × ((s : String) → EnvNames env s → is_defined defined s ≡ true)
  unfolding check_env_refs parts_of
  env_sound path [] errors h = (h, λ s r. absurd r.2)
  env_sound path ((key, EnvValue.literal t) ∷ env) errors h =
      let (before, later) = env_sound path env errors h in (before, λ s r. go s r later)
    where
      go :
          (s : String)
          → EnvNames ((key, EnvValue.literal t) ∷ env) s
          → ((s : String) → EnvNames env s → is_defined defined s ≡ true)
          → is_defined defined s ≡ true
      go s (k, ps, inl e, i) later =
          absurd (subst (In (EnvPart.service_address s)) (sym (ap (λ x. parts_of x.1) e)) i)
      go s (k, ps, inr m, i) later = later s (k, ps, m, i)
  env_sound path ((key, EnvValue.interpolated qs) ∷ env) errors h =
      let (none_yet, later) = env_sound path env _ h in
      let (before, here) = parts_sound (path <> ".env." <> key) qs errors none_yet in
      (before, λ s r. go s r here later)
    where
      go :
          (s : String)
          → EnvNames ((key, EnvValue.interpolated qs) ∷ env) s
          → ((s : String) → In (EnvPart.service_address s) qs → is_defined defined s ≡ true)
          → ((s : String) → EnvNames env s → is_defined defined s ≡ true)
          → is_defined defined s ≡ true
      go s (k, ps, inl e, i) here later =
          here s (subst (In (EnvPart.service_address s)) (sym (ap (λ x. parts_of x.1) e)) i)
      go s (k, ps, inr m, i) here later = later s (k, ps, m, i)

  services_sound :
      (services : Map String ServiceDef) (errors : List ConfigError)
      → check_all_services services defined errors ≡ []
      → (errors ≡ [])
        × ((n : String) (d : ServiceDef) (s : String)
            → In (n, d) services
            → EnvNames d.env s
            → is_defined defined s ≡ true)
  unfolding check_all_services
  services_sound [] errors h = (h, λ n d s m. absurd m)
  services_sound ((name, svc) ∷ rest) errors h =
      let (none_yet, later) = services_sound rest _ h in
      let (before, here) = env_sound ("service." <> name) svc.env errors none_yet in
      (
        before,
        λ n d s m r. elim m [
          | inl e ↦ here s (subst (λ x. EnvNames (ServiceDef.env x.1) s) (sym e) r)
          | inr k ↦ later n d s k r
        ],
      )

  tasks_sound :
      (tasks : Map String TaskDef) (errors : List ConfigError)
      → check_all_tasks tasks defined errors ≡ []
      → (errors ≡ [])
        × ((n : String) (d : TaskDef) (s : String)
            → In (n, d) tasks
            → EnvNames d.env s
            → is_defined defined s ≡ true)
  unfolding check_all_tasks
  tasks_sound [] errors h = (h, λ n d s m. absurd m)
  tasks_sound ((name, task) ∷ rest) errors h =
      let (none_yet, later) = tasks_sound rest _ h in
      let (before, here) = env_sound ("task." <> name) task.env errors none_yet in
      (
        before,
        λ n d s m r. elim m [
          | inl e ↦ here s (subst (λ x. EnvNames (TaskDef.env x.1) s) (sym e) r)
          | inr k ↦ later n d s k r
        ],
      )

  -- A check of the references that leaves no error found none before, and every service address
  -- that a service's or a task's environment interpolates is that of a defined service.
  pub check_service_refs_sound :
      (services : Map String ServiceDef) (tasks : Map String TaskDef) (errors : List ConfigError)
      → check_service_refs services tasks defined errors ≡ []
      → (errors ≡ [])
        × ((n : String) (d : ServiceDef) (s : String)
            → In (n, d) services
            → EnvNames d.env s
            → is_defined defined s ≡ true)
        × ((n : String) (d : TaskDef) (s : String)
            → In (n, d) tasks
            → EnvNames d.env s
            → is_defined defined s ≡ true)
  unfolding check_service_refs
  check_service_refs_sound services tasks errors h =
      let (none_yet, in_tasks) = tasks_sound tasks (check_all_services services defined errors) h in
      let (before, in_services) = services_sound services errors none_yet in
      (before, in_services, in_tasks)
