-- ===== src/Validation/Resolve/Services.antt =====
-- What a service or a task without an error is like.
use mill.Config.Env.{EnvValue}
use mill.Prelude.{
  ◌<◌, arith, refl, none, some, ◌≡◌, Option, Bool, true, false, ◌∷◌, [], List, ℕ, ◌&&◌, not, ◌==◌,
  String, string_key, nat_key, Map, keys, values, map, All,
}
use mill.Prelude.Float.{Float}
use mill.Prelude.Exec.{Result, ok, err}
use mill.Config.Resolved.{TaskDef, ServiceDef, HealthCheck, VolumeDef}
use mill.Validation.{
  RawTaskDef, RawServiceDef, check_volume, starts_with, ConfigError, RawHealthCheck, RawVolumeDef,
}
use mill.Validation.Parse.{Parsers, number_or_zero, parse_byte_size, parse_duration}
use mill.Validation.Parse.Named.{parse_env_map-AllNamedIn, AllNamedIn, no_push, push_error-ne_nil}
use mill.Validation.Resolve.{
  resolve_route, checked_service, checked_task, resolve_volumes, resolve_size, resolve_health,
}

number_or_zero-ok :
    (path what value : String) (errors : List ConfigError) (r : Result String ℕ)
    → (number_or_zero path what value errors r).1 ≡ []
    → (errors ≡ []) × (r ≡ ok (number_or_zero path what value errors r).0)
unfolding number_or_zero
number_or_zero-ok path what value errors (ok n) h = (h, refl)
number_or_zero-ok path what value errors (err e) h = absurd (push_error-ne_nil errors _ h)

module _ (p : Parsers) where
  byte_size-ok :
      (path value : String) (errors : List ConfigError)
      → (parse_byte_size p path value errors).1 ≡ []
      → (errors ≡ []) × (Parsers.byte_size p value ≡ ok (parse_byte_size p path value errors).0)
  unfolding parse_byte_size
  byte_size-ok path value errors = number_or_zero-ok path "byte size" value errors _

  duration-ok :
      (path value : String) (errors : List ConfigError)
      → (parse_duration p path value errors).1 ≡ []
      → (errors ≡ []) × (Parsers.duration p value ≡ ok (parse_duration p path value errors).0)
  unfolding parse_duration
  duration-ok path value errors = number_or_zero-ok path "duration" value errors _

  -- The check of a service has a path from the root, and its interval was understood.
  pub data IsHealth : Option RawHealthCheck → Option HealthCheck → Type 0 where
    no_health : IsHealth none none
    checked :
        (r : RawHealthCheck) (h : HealthCheck)
        → h.path ≡ r.path
        → starts_with h.path "/" ≡ true
        → Parsers.duration p r.interval ≡ ok h.interval
        → IsHealth (some r) (some h)

  resolve_health-IsHealth :
      (path : String) (raw : Option RawHealthCheck) (errors : List ConfigError)
      → (resolve_health p path raw errors).1 ≡ []
      → (errors ≡ []) × IsHealth raw (resolve_health p path raw errors).0
  unfolding resolve_health
  resolve_health-IsHealth path none errors h = (h, no_health)
  resolve_health-IsHealth path (some r) errors h =
      let (rooted, early) = no_push (not (starts_with r.path "/")) _ _ h in
      let (before, understood) = duration-ok _ r.interval errors early in
      (before, checked r _ refl (ground (arith, rooted)) understood)

  -- A volume without a size is ephemeral, and a size that is given was understood.
  pub data IsSize : RawVolumeDef → VolumeDef → Type 0 where
    scratch :
        {r : RawVolumeDef} {v : VolumeDef}
        → v.ephemeral ≡ true
        → r.size ≡ none
        → v.size ≡ none
        → IsSize r v
    sized :
        {r : RawVolumeDef} {v : VolumeDef} (s : String) (n : ℕ)
        → r.size ≡ some s
        → v.size ≡ some n
        → Parsers.byte_size p s ≡ ok n
        → IsSize r v

  pub record IsVolume (name : String) (r : RawVolumeDef) (v : VolumeDef) : Type 0 where
    pub same : (v.name ≡ name) × (v.path ≡ r.path) × (v.ephemeral ≡ r.ephemeral)
    pub size_is : IsSize r v

  pub data IsVolumes : Map String RawVolumeDef → List VolumeDef → Type 0 where
    no_volume : IsVolumes [] []
    one_more :
        {name : String} {r : RawVolumeDef} {v : VolumeDef} {rs : Map String RawVolumeDef}
        {vs : List VolumeDef}
        → IsVolume name r v
        → IsVolumes rs vs
        → IsVolumes ((name, r) ∷ rs) (v ∷ vs)

  resolve_size-IsSize :
      (path name vol_path mount : String) (ephemeral : Bool) (size : Option String)
      (errors : List ConfigError)
      → check_volume vol_path ephemeral
          (resolve_size p path size errors).0
          (resolve_size p path size errors).1
        ≡ []
      → (errors ≡ [])
        × IsSize
            (record { path = mount; size = size; ephemeral = ephemeral })
            (record {
              name = name;
              path = mount;
              size = (resolve_size p path size errors).0;
              ephemeral = ephemeral;
            })
  unfolding resolve_size
  resolve_size-IsSize path name vol_path mount ephemeral none errors h =
      let (kept, before) = no_push (not ephemeral && true) errors _ h in
      (before, scratch (ground (arith, kept)) refl refl)
  resolve_size-IsSize path name vol_path mount ephemeral (some s) errors h =
      let (fine, early) = no_push (not ephemeral && false) _ _ h in
      let (before, understood) = byte_size-ok _ s errors early in
      (before, sized s _ refl refl understood)

  resolve_volumes-IsVolumes :
      (path : String) (raw : Map String RawVolumeDef) (errors : List ConfigError)
      → (resolve_volumes p path raw errors).1 ≡ []
      → (errors ≡ []) × IsVolumes raw (resolve_volumes p path raw errors).0
  unfolding resolve_volumes
  resolve_volumes-IsVolumes path [] errors h = (h, no_volume)
  resolve_volumes-IsVolumes path ((name, r) ∷ rest) errors h =
      let (early, later) = resolve_volumes-IsVolumes path rest _ h in
      let (before, fits) = resolve_size-IsSize _ name _ r.path r.ephemeral r.size errors early in
      (before, one_more (record { same = (refl, refl, refl); size_is = fits }) later)

  abbrev pub IsEnv : Map String String → Map String EnvValue → Type 0
  IsEnv raw env = (keys env ≡ keys raw) × All (λ v. AllNamedIn v) (values env)

  module _ (f : Float) where
    -- What a resolved service promises, with what it was resolved from.
    pub record IsService (r : RawServiceDef) (d : ServiceDef) : Type 0 where
      pub same :
          (d.image ≡ r.image)
          × (d.port ≡ r.port)
          × (d.replicas ≡ r.replicas)
          × (d.command ≡ r.command)
          × (d.routes ≡ map resolve_route r.route)
      pub cpu_is :
          (d.resources.cpu ≡ r.cpu) × (Float.le f d.resources.cpu (Float.zero_f64 f) ≡ false)
      pub memory_is : Parsers.byte_size p r.memory ≡ ok d.resources.memory
      pub port_is : 0 < d.port
      pub env_is : IsEnv r.env d.env
      pub health_is : IsHealth r.health d.health
      pub volumes_are : IsVolumes r.volume d.volumes

    pub checked_service-IsService :
        (name : String) (r : RawServiceDef)
        → (checked_service f p name r).1 ≡ []
        → IsService r (checked_service f p name r).0
    unfolding checked_service
    checked_service-IsService name r h =
        let (e5, volumes) = resolve_volumes-IsVolumes _ r.volume _ h in
        let (e4, health) = resolve_health-IsHealth _ r.health _ e5 in
        let (e3, named, each) = parse_env_map-AllNamedIn _ r.env _ e4 in
        let (port, e2) = no_push (r.port == 0) _ _ e3 in
        let (cpu, e1) = no_push (Float.le f r.cpu (Float.zero_f64 f)) _ _ e2 in
        record {
          same = (refl, refl, refl, refl, refl);
          cpu_is = (refl, cpu);
          memory_is = (byte_size-ok _ r.memory _ e1).1;
          port_is = ground (arith, port);
          env_is = (named, each);
          health_is = health;
          volumes_are = volumes;
        }

    pub record IsTask (r : RawTaskDef) (d : TaskDef) : Type 0 where
      pub same : (d.image ≡ r.image) × (d.command ≡ r.command)
      pub cpu_is :
          (d.resources.cpu ≡ r.cpu) × (Float.le f d.resources.cpu (Float.zero_f64 f) ≡ false)
      pub memory_is : Parsers.byte_size p r.memory ≡ ok d.resources.memory
      pub timeout_is : Parsers.duration p r.timeout ≡ ok d.timeout
      pub env_is : IsEnv r.env d.env

    pub checked_task-IsTask :
        (name : String) (r : RawTaskDef)
        → (checked_task f p name r).1 ≡ []
        → IsTask r (checked_task f p name r).0
    unfolding checked_task
    checked_task-IsTask name r h =
        let (e3, named, each) = parse_env_map-AllNamedIn _ r.env _ h in
        let (cpu, e2) = no_push (Float.le f r.cpu (Float.zero_f64 f)) _ _ e3 in
        let (e1, timeout) = duration-ok _ r.timeout _ e2 in
        record {
          same = (refl, refl);
          cpu_is = (refl, cpu);
          memory_is = (byte_size-ok _ r.memory _ e1).1;
          timeout_is = timeout;
          env_is = (named, each);
        }
