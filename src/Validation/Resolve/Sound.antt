-- ===== src/Validation/Resolve/Sound.antt =====
-- What a configuration that resolves is like.
use mill.Validation.References.{check_service_refs_sound, EnvNames}
use mill.Validation.Resolve.Services.{
  checked_service-IsService, checked_task-IsTask, IsTask, IsService,
}
use mill.Validation.Refs.{is_defined}
use mathlib.Core.List.{append-nil}
use mill.Prelude.{
  inr, inl, ap, ◌⊎◌, ◌∙◌, sym, subst, refl, ◌≡◌, true, ◌∷◌, [], List, String, str_eq_iff,
  string_key, nat_key, Map, keys, ◌++◌, In, any-true, ◌≢◌,
}
use mill.Prelude.{In-append}
use mill.Prelude.Float.{Float}
use mill.Prelude.Exec.{Result, ok, err}
use mill.Validation.{
  RawServiceDef, RawTaskDef, RawConfig, ConfigError, parse, invalid_field, unknown_service_ref,
  constraint_error, multiple,
}
use mill.Validation.Parse.Named.{push_error-ne_nil}
use mill.Validation.Resolve.{
  ServiceDef, TaskDef, ClusterConfig, resolve_service, resolve_task, resolve, Parsers, outcome,
  add_errors, errors_of, collect_one, collect,
}
use mill.Validation.Resolve.Plain.{
  checked_service-AllPlain, checked_task-AllPlain, AllPlain, IsPlain,
}

append-ne_nil :
    (xs : List ConfigError) (y : ConfigError) (ys : List ConfigError) → xs ++ (y ∷ ys) ≢ []
append-ne_nil [] y ys h = cc
append-ne_nil (x ∷ xs) y ys h = cc

outcome-ok :
    {A : Type 0} (a b : A) (es : List ConfigError) → outcome a es ≡ ok b → (es ≡ []) × (a ≡ b)
outcome-ok a b [] h = (refl, cc)
outcome-ok a b (e ∷ []) h = cc
outcome-ok a b (e ∷ e' ∷ es) h = cc

outcome-err :
    {A : Type 0} (a : A) (es errors : List ConfigError) (e : ConfigError)
    → AllPlain es
    → outcome a es ≡ err e
    → add_errors errors e ≢ []
outcome-err a [] errors e p h = cc
outcome-err a (x ∷ []) errors e p h =
    subst (λ u. add_errors errors u ≢ []) (only h) (plain x (p x (inl refl)))
  where
    only : outcome a (x ∷ []) ≡ err e → x ≡ e
    only h = cc

    plain : (x : ConfigError) → IsPlain x → add_errors errors x ≢ []
    plain (parse s) q = push_error-ne_nil errors _
    plain (invalid_field s t) q = push_error-ne_nil errors _
    plain (unknown_service_ref s t) q = push_error-ne_nil errors _
    plain (constraint_error s t) q = push_error-ne_nil errors _
    plain (multiple l) q = absurd (cc q)
outcome-err a (x ∷ y ∷ es) errors e p h =
    subst (λ u. add_errors errors u ≢ []) (both h) (append-ne_nil errors x _)
  where
    both : outcome a (x ∷ y ∷ es) ≡ err e → multiple (errors_of (x ∷ y ∷ es)) ≡ e
    both h = cc

shifted :
    {D : Type 0} (done : Map String D) (name : String) (d : D) (rest : List String)
    → keys (done ++ ((name, d) ∷ [])) ++ rest ≡ keys done ++ (name ∷ rest)
shifted [] name d rest = refl
shifted ((k, v) ∷ done) name d rest = ap (λ l. k ∷ l) (shifted done name d rest)

module _ {R D : Type 0} (g : String → R → Result ConfigError D) (Good : R → D → Type 0)
    (sound : (n : String) (r : R) (d : D) → g n r ≡ ok d → Good r d)
    (failed : (n : String) (r : R) (e : ConfigError) (errors : List ConfigError)
      → g n r ≡ err e
      → add_errors errors e ≢ []) where
  -- Nothing was found, every raw entry has its own, and each comes from a raw one.
  record Collected (raw : Map String R) (done : Map String D) (errors : List ConfigError)
      (all : Map String D) : Type 0 where
    pub clean : errors ≡ []
    pub same_keys : keys all ≡ keys done ++ keys raw
    pub comes :
        (n : String) (d : D) → In (n, d) all → In (n, d) done ⊎ ((r : R) × In (n, r) raw × Good r d)

  collect-Collected :
      (raw : Map String R) (done : Map String D) (errors : List ConfigError)
      → (collect g raw done errors).1 ≡ []
      → Collected raw done errors (collect g raw done errors).0
  unfolding collect
  collect-Collected [] done errors h = record {
    clean = h;
    same_keys = sym (append-nil (keys done));
    comes = λ n d m. inl m;
  }
  collect-Collected ((name, r) ∷ rest) done errors h = go (g name r) refl (collect-Collected rest) h
    where
      go :
          (o : Result ConfigError D)
          → g name r ≡ o
          → ((begun : Map String D) (es : List ConfigError)
              → (collect g rest begun es).1 ≡ []
              → Collected rest begun es (collect g rest begun es).0)
          → (collect g rest (collect_one name o done errors).0 (collect_one name o done errors).1).1
            ≡ []
          → Collected
              ((name, r) ∷ rest)
              done
              errors
              (collect g rest
                (collect_one name o done errors).0
                (collect_one name o done errors).1).0
      go (ok d) e rec k =
          let later = rec (done ++ ((name, d) ∷ [])) errors k in
          record {
            clean = later.clean;
            same_keys = later.same_keys ∙ shifted done name d (keys rest);
            comes = λ n x m. elim (later.comes n x m) [
              | inr (r', j, good) ↦ inr (r', inr j, good)
              | inl j ↦ elim (In-append (n, x) done ((name, d) ∷ []) j) [
                | inl old ↦ inl old
                | inr (inl same) ↦ inr (
                  r,
                  inl (ap (λ u. (u.0, r)) same),
                  subst (λ u. Good r u.1) same (sound name r d e),
                )
                | inr (inr z) ↦ absurd z
              ]
            ];
          }
      go (err x) e rec k =
          let later = rec done (add_errors errors x) k in
          absurd (failed name r x errors e later.clean)

module _ (f : Float) (p : Parsers) where
  resolve_service-IsService :
      (n : String) (r : RawServiceDef) (d : ServiceDef)
      → resolve_service f p n r ≡ ok d
      → IsService p f r d
  unfolding resolve_service
  resolve_service-IsService n r d h =
      let (clean, same) = outcome-ok _ d _ h in
      subst (IsService p f r) same (checked_service-IsService p f n r clean)

  resolve_task-IsTask :
      (n : String) (r : RawTaskDef) (d : TaskDef) → resolve_task f p n r ≡ ok d → IsTask p f r d
  unfolding resolve_task
  resolve_task-IsTask n r d h =
      let (clean, same) = outcome-ok _ d _ h in
      subst (IsTask p f r) same (checked_task-IsTask p f n r clean)

  service-failed :
      (n : String) (r : RawServiceDef) (e : ConfigError) (errors : List ConfigError)
      → resolve_service f p n r ≡ err e
      → add_errors errors e ≢ []
  unfolding resolve_service
  service-failed n r e errors = outcome-err _ _ errors e (checked_service-AllPlain p f n r)

  task-failed :
      (n : String) (r : RawTaskDef) (e : ConfigError) (errors : List ConfigError)
      → resolve_task f p n r ≡ err e
      → add_errors errors e ≢ []
  unfolding resolve_task
  task-failed n r e errors = outcome-err _ _ errors e (checked_task-AllPlain p f n r)

fresh : {A : Type 0} → ⊥ ⊎ A → A
fresh (inl z) = absurd z
fresh (inr a) = a

is_defined-In : (defined : List String) (s : String) → is_defined defined s ≡ true → In s defined
is_defined-In defined s h =
    let (x, m, same) = any-true _ defined h in subst (λ u. In u defined) ((str_eq_iff x s).0 same) m

-- The names are the same, an entry under a name comes from the raw one under it, and it refers
-- only to what is defined.
record Sound {R D : Type 0} (Good : R → D → Type 0) (Refers : D → String → Type 0)
    (defined : List String) (raw : Map String R) (resolved : Map String D) : Type 0 where
  pub same_names : keys resolved ≡ keys raw
  pub comes : (n : String) (d : D) → In (n, d) resolved → (r : R) × In (n, r) raw × Good r d
  pub refers : (n : String) (d : D) (s : String) → In (n, d) resolved → Refers d s → In s defined

module _ (f : Float) (p : Parsers) (raw : RawConfig) where
  abbrev AllSound : ClusterConfig → Type 0
  AllSound config =
      Sound (IsService p f) (λ d s. EnvNames (ServiceDef.env d) s) (keys raw.service) raw.service
        config.services
      × Sound (IsTask p f) (λ d s. EnvNames (TaskDef.env d) s) (keys raw.service) raw.task
          config.tasks

  resolve-AllSound : (config : ClusterConfig) → resolve f p raw ≡ ok config → AllSound config
  unfolding resolve
  resolve-AllSound config h =
      let (clean, same) = outcome-ok _ config _ h in
      let (e2, in_services, in_tasks) = check_service_refs_sound (keys raw.service) _ _ _ clean in
      let tasks =
        collect-Collected (resolve_task f p) (IsTask p f) (resolve_task-IsTask f p)
          (task-failed f p) raw.task [] _ e2 in
      let services =
        collect-Collected (resolve_service f p) (IsService p f) (resolve_service-IsService f p)
          (service-failed f p) raw.service [] [] tasks.clean in
      subst AllSound same (
        record {
          same_names = services.same_keys;
          comes = λ n d m. fresh (services.comes n d m);
          refers = λ n d s m r. is_defined-In _ s (in_services n d s m r);
        },
        record {
          same_names = tasks.same_keys;
          comes = λ n d m. fresh (tasks.comes n d m);
          refers = λ n d s m r. is_defined-In _ s (in_tasks n d s m r);
        },
      )

-- Every service of a configuration that resolves comes from the one that was written under its name:
-- it has its CPU share, above 0, the memory that its text stands for, a port above 0, a health check
-- with a path that starts with a slash, if any, a size for each volume that is not ephemeral, and an
-- environment of the same keys in which no secret or service lacks a name.
pub resolve_sound :
    (f : Float) (p : Parsers) (raw : RawConfig) (config : ClusterConfig) (n : String)
    (d : ServiceDef)
    → resolve f p raw ≡ ok config
    → In (n, d) config.services
    → (r : RawServiceDef) × In (n, r) raw.service × IsService p f r d
resolve_sound f p raw config n d h m = Sound.comes (resolve-AllSound f p raw config h).0 n d m

-- Likewise for a task, with the time that the text of its timeout stands for.
pub resolve_task_sound :
    (f : Float) (p : Parsers) (raw : RawConfig) (config : ClusterConfig) (n : String) (d : TaskDef)
    → resolve f p raw ≡ ok config
    → In (n, d) config.tasks
    → (r : RawTaskDef) × In (n, r) raw.task × IsTask p f r d
resolve_task_sound f p raw config n d h m = Sound.comes (resolve-AllSound f p raw config h).1 n d m

-- A configuration that resolves has the names of the services and tasks that were written, all of
-- them and no others.
pub resolve_names :
    (f : Float) (p : Parsers) (raw : RawConfig) (config : ClusterConfig)
    → resolve f p raw ≡ ok config
    → (keys config.services ≡ keys raw.service) × (keys config.tasks ≡ keys raw.task)
resolve_names f p raw config h =
    let (services, tasks) = resolve-AllSound f p raw config h in
    (Sound.same_names services, Sound.same_names tasks)

-- A service whose address the environment of a service interpolates, in a configuration that
-- resolves, is one of its services.
pub resolve_refs :
    (f : Float) (p : Parsers) (raw : RawConfig) (config : ClusterConfig) (n : String)
    (d : ServiceDef) (s : String)
    → resolve f p raw ≡ ok config
    → In (n, d) config.services
    → EnvNames d.env s
    → In s (keys config.services)
resolve_refs f p raw config n d s h m r =
    let sound = (resolve-AllSound f p raw config h).0 in
    subst (In s) (sym (Sound.same_names sound)) (Sound.refers sound n d s m r)
