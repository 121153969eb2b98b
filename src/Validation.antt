-- ===== src/Validation.antt =====
-- crates/config/src: the raw configuration (types/config.rs), the errors (error.rs) and the checks
-- of validate/constraints.rs. A list of errors that a function pushes to is passed on.
pub mod Parse
pub mod Resolve
pub mod Refs
pub mod References
use mill.Prelude.{
  inr, inl, Option-cases, Bool-cases, ◌≤◌, ◌<◌, ap, ◌⊎◌, arith, ◌∙◌, sym, subst, refl, none, some,
  ◌≡◌, Option, Bool, true, false, ◌∷◌, [], List, ℕ, zero, suc, ◌+◌, ◌-◌, ◌*◌, ◌%◌, ◌&&◌, ◌||◌, not,
  ltb, leb, ◌==◌, if◌then◌else◌, and_then, option_map, is_some, String, str_eq, str_eq_iff,
  string_key, nat_key, Map, lookup, insert, remove, retain, keys, values, Distinct, map, ◌++◌, ◌<>◌,
  display, any, filterb, find_first, length, In, any-true, any-false, In-filterb, filterb-In,
  lookup-insert, lookup-remove, lookup-retain, ite, max, ℕ_discrete, string_discrete, ◌↔◌, ◌≢◌,
}
use mill.Prelude.Float.{F64, Float}
use text.Mathlib.Text.{starts_with}

pub record RawHealthCheck : Type 0 where
  pub path : String
  pub interval : String
  pub failure_threshold : Option ℕ

pub record RawRouteDef : Type 0 where
  pub path : String
  pub websocket : Bool

pub record RawVolumeDef : Type 0 where
  pub path : String
  pub size : Option String
  pub ephemeral : Bool

pub record RawServiceDef : Type 0 where
  pub image : String
  pub port : ℕ
  pub replicas : ℕ
  pub cpu : F64
  pub memory : String
  pub env : Map String String
  pub health : Option RawHealthCheck
  pub route : Map String RawRouteDef
  pub volume : Map String RawVolumeDef
  pub command : Option (List String)

pub record RawTaskDef : Type 0 where
  pub image : String
  pub cpu : F64
  pub memory : String
  pub timeout : String
  pub env : Map String String
  pub command : Option (List String)

pub record RawConfig : Type 0 where
  pub service : Map String RawServiceDef
  pub task : Map String RawTaskDef

-- `multiple` holds a list of errors.
mutual
  pub data ConfigError : Type 0 where
    parse : String → ConfigError
    invalid_field : String → String → ConfigError
    unknown_service_ref : String → String → ConfigError
    constraint_error : String → String → ConfigError
    multiple : ConfigErrors → ConfigError

  pub data ConfigErrors : Type 0 where
    no_errors : ConfigErrors
    more_errors : ConfigError → ConfigErrors → ConfigErrors

abbrev pub push_error : List ConfigError → ConfigError → List ConfigError
push_error errors e = errors ++ (e ∷ [])

abbrev pub check_cpu : Float → String → F64 → List ConfigError → List ConfigError
check_cpu f path cpu errors =
    if Float.le f cpu (Float.zero_f64 f)
    then push_error errors (constraint_error path "cpu must be greater than 0")
    else errors

abbrev pub check_port : String → ℕ → List ConfigError → List ConfigError
check_port path port errors =
    if port == 0
    then push_error errors (constraint_error path "port must be greater than 0")
    else errors

abbrev pub check_health_path : String → String → List ConfigError → List ConfigError
check_health_path path health_path errors =
    if not (starts_with health_path "/")
    then push_error errors
        (constraint_error path ("health path must start with '/', got '" <> health_path <> "'"))
    else errors

abbrev pub check_volume : String → Bool → Option ℕ → List ConfigError → List ConfigError
check_volume path ephemeral size errors =
    if not ephemeral && not (is_some size)
    then push_error errors (constraint_error path "persistent volume must have a size")
    else errors
