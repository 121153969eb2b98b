-- ===== src/Deploy/Secrets.antt =====
-- What a configuration that passes the check of its secrets may refer to.
use mill.Config.Resolved.{ClusterConfig, ServiceDef, TaskDef}
use mill.Prelude.{
  inr, inl, ap, arith, ◌∙◌, sym, subst, refl, ◌≡◌, true, ◌∷◌, [], List, String, string_key, nat_key,
  Map, ◌++◌, In,
}
use mill.Config.Env.{EnvPart, EnvValue}
use mill.Deploy.Validate.{
  Validation, valid, missing_in_services, missing_in_tasks, collect_missing_secrets,
  validate_secret_refs, known_secret, missing_parts,
}

-- The environment interpolates the secret.
abbrev pub EnvRefers : Map String EnvValue → String → Type 0
EnvRefers env secret =
    (key : String) × (parts : List EnvPart) × In (key, EnvValue.interpolated parts) env
    × In (EnvPart.secret secret) parts

nil_left : {A : Type 0} (xs ys : List A) → xs ++ ys ≡ [] → (xs ≡ []) × (ys ≡ [])
nil_left [] ys h = (refl, h)
nil_left (x ∷ xs) ys h = cc

missing_parts-nil :
    (known : List String) (context : String) (ps : List EnvPart) (s : String)
    → missing_parts known context ps ≡ []
    → In (EnvPart.secret s) ps
    → known_secret known s ≡ true
unfolding missing_parts
missing_parts-nil known context [] s h m = absurd m
missing_parts-nil known context (EnvPart.secret n ∷ ps) s h (inl e) =
    ap (known_secret known) (sym (same e)) ∙ ground (arith, h)
  where
    text : EnvPart → String
    text (EnvPart.literal t) = t
    text (EnvPart.service_address t) = t
    text (EnvPart.secret t) = t

    same : EnvPart.secret n ≡ EnvPart.secret s → n ≡ s
    same e = ap text e
missing_parts-nil known context (EnvPart.literal n ∷ ps) s h (inl e) = cc
missing_parts-nil known context (EnvPart.service_address n ∷ ps) s h (inl e) = cc
missing_parts-nil known context (EnvPart.secret n ∷ ps) s h (inr m) =
    missing_parts-nil known context ps s (ground (arith, h)) m
missing_parts-nil known context (EnvPart.literal n ∷ ps) s h (inr m) =
    missing_parts-nil known context ps s h m
missing_parts-nil known context (EnvPart.service_address n ∷ ps) s h (inr m) =
    missing_parts-nil known context ps s h m

collect-nil :
    (known : List String) (context : String) (env : Map String EnvValue) (s : String)
    → collect_missing_secrets known context env ≡ []
    → EnvRefers env s
    → known_secret known s ≡ true
unfolding collect_missing_secrets
collect-nil known context [] s h (k, ps, m, i) = absurd m
collect-nil known context ((j, EnvValue.literal t) ∷ env) s h (k, ps, inl e, i) = cc
collect-nil known context ((j, EnvValue.literal t) ∷ env) s h (k, ps, inr m, i) =
    collect-nil known context env s h (k, ps, m, i)
collect-nil known context ((j, EnvValue.interpolated qs) ∷ env) s h (k, ps, inl e, i) =
    let (here, rest) =
      nil_left (missing_parts known context qs) (collect_missing_secrets known context env) h in
    missing_parts-nil known context qs s here (subst (In (EnvPart.secret s)) (sym same) i)
  where
    parts : EnvValue → List EnvPart
    parts (EnvValue.literal t) = []
    parts (EnvValue.interpolated l) = l

    same : qs ≡ ps
    same = ap (λ x. parts x.1) e
collect-nil known context ((j, EnvValue.interpolated qs) ∷ env) s h (k, ps, inr m, i) =
    let (here, rest) =
      nil_left (missing_parts known context qs) (collect_missing_secrets known context env) h in
    collect-nil known context env s rest (k, ps, m, i)

services-nil :
    (known : List String) (services : Map String ServiceDef) (n : String) (d : ServiceDef)
    (s : String)
    → missing_in_services known services ≡ []
    → In (n, d) services
    → EnvRefers d.env s
    → known_secret known s ≡ true
unfolding missing_in_services
services-nil known [] n d s h m r = absurd m
services-nil known ((name, def) ∷ rest) n d s h (inl e) r =
    let (here, later) =
      nil_left (collect_missing_secrets known name def.env) (missing_in_services known rest) h in
    collect-nil known name def.env s here (subst (λ x. EnvRefers (ServiceDef.env x.1) s) (sym e) r)
services-nil known ((name, def) ∷ rest) n d s h (inr m) r =
    let (here, later) =
      nil_left (collect_missing_secrets known name def.env) (missing_in_services known rest) h in
    services-nil known rest n d s later m r

tasks-nil :
    (known : List String) (tasks : Map String TaskDef) (n : String) (d : TaskDef) (s : String)
    → missing_in_tasks known tasks ≡ []
    → In (n, d) tasks
    → EnvRefers d.env s
    → known_secret known s ≡ true
unfolding missing_in_tasks
tasks-nil known [] n d s h m r = absurd m
tasks-nil known ((name, def) ∷ rest) n d s h (inl e) r =
    let (here, later) =
      nil_left (collect_missing_secrets known name def.env) (missing_in_tasks known rest) h in
    collect-nil known name def.env s here (subst (λ x. EnvRefers (TaskDef.env x.1) s) (sym e) r)
tasks-nil known ((name, def) ∷ rest) n d s h (inr m) r =
    let (here, later) =
      nil_left (collect_missing_secrets known name def.env) (missing_in_tasks known rest) h in
    tasks-nil known rest n d s later m r

-- In a configuration that passes the check, every secret that a service's or a task's environment
-- interpolates is known.
pub validate_secret_refs_sound :
    (config : ClusterConfig) (known : List String) (s : String)
    → validate_secret_refs config known ≡ valid
    → ((n : String) (d : ServiceDef)
        → In (n, d) config.services
        → EnvRefers d.env s
        → known_secret known s ≡ true)
      × ((n : String) (d : TaskDef)
          → In (n, d) config.tasks
          → EnvRefers d.env s
          → known_secret known s ≡ true)
unfolding validate_secret_refs
validate_secret_refs_sound config known s h =
    let (a, b) =
      nil_left (missing_in_services known config.services) (missing_in_tasks known config.tasks) (
        no_missing
          (missing_in_services known config.services ++ missing_in_tasks known config.tasks) h) in
    (λ n d. services-nil known config.services n d s a, λ n d. tasks-nil known config.tasks n d s b)
  where
    no_missing :
        (l : List String)
        → (elim l [ [] ↦ valid | m ∷ ms ↦ Validation.unknown_secrets (m ∷ ms) ]) ≡ valid
        → l ≡ []
    no_missing [] h = refl
    no_missing (m ∷ ms) h = cc
