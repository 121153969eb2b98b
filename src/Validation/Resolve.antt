-- ===== src/Validation/Resolve.antt =====
-- crates/config/src/validate/mod.rs. A HashMap of raw entries has no key twice, so what is inserted
-- for each of its entries in turn is a list of the same keys.
pub mod Services
pub mod Plain
pub mod Sound
use mill.Prelude.{
  none, some, Option, ◌∷◌, [], List, ℕ, String, string_key, nat_key, Map, keys, map, ◌++◌, ◌<>◌,
}
use mill.Prelude.Exec.{Result, ok, err}
use mill.Prelude.Float.{Float}
use mill.Config.Resolved.{HealthCheck, RouteDef, VolumeDef, ServiceDef, TaskDef, ClusterConfig}
use mill.Validation.{
  ConfigError, ConfigErrors, no_errors, more_errors, multiple, RawHealthCheck, RawRouteDef,
  RawVolumeDef, RawServiceDef, RawTaskDef, RawConfig, push_error, check_cpu, check_port,
  check_health_path, check_volume,
}
use mill.Validation.Parse.{Parsers, Checked, parse_byte_size, parse_duration, parse_env_map}
use mill.Validation.Refs.{check_service_refs}

abbrev pub errors_of : List ConfigError → ConfigErrors
errors_of [] = no_errors
errors_of (e ∷ es) = more_errors e (errors_of es)

abbrev pub listed : ConfigErrors → List ConfigError
listed no_errors = []
listed (more_errors e es) = e ∷ listed es

-- What each of the three functions returns at its end.
abbrev pub outcome : {A : Type 0} → A → List ConfigError → Result ConfigError A
outcome a [] = ok a
outcome a (e ∷ []) = err e
outcome a (e ∷ e' ∷ es) = err (multiple (errors_of (e ∷ e' ∷ es)))

-- `errors.extend(errs)` for a `Multiple` and `errors.push(e)` for another error
abbrev pub add_errors : List ConfigError → ConfigError → List ConfigError
add_errors errors (multiple es) = errors ++ listed es
add_errors errors e = push_error errors e

unfoldable pub resolve_health :
    Parsers → String → Option RawHealthCheck → List ConfigError → Checked (Option HealthCheck)
unfolding parse_duration
resolve_health p path none errors = (none, errors)
resolve_health p path (some h) errors =
    let (interval, es) = parse_duration p (path <> ".health.interval") h.interval errors in
    (
      some (record {
        path = h.path;
        interval = interval;
        failure_threshold = elim h.failure_threshold [ some n ↦ n | none ↦ 3 ];
      }),
      check_health_path (path <> ".health.path") h.path es,
    )

abbrev pub resolve_route : String × RawRouteDef → RouteDef
resolve_route r = record {
  hostname = r.0;
  path = RawRouteDef.path r.1;
  websocket = RawRouteDef.websocket r.1;
}

unfoldable pub resolve_size :
    Parsers → String → Option String → List ConfigError → Checked (Option ℕ)
unfolding parse_byte_size
resolve_size p path none errors = (none, errors)
resolve_size p path (some s) errors =
    let (size, es) = parse_byte_size p (path <> ".size") s errors in (some size, es)

unfoldable pub resolve_volumes :
    Parsers → String → Map String RawVolumeDef → List ConfigError → Checked (List VolumeDef)
unfolding resolve_size
resolve_volumes p path [] errors = ([], errors)
resolve_volumes p path ((name, raw) ∷ rest) errors =
    let vol_path = path <> ".volume." <> name in
    let (size, es) = resolve_size p vol_path raw.size errors in
    let (volumes, all) =
      resolve_volumes p path rest (check_volume vol_path raw.ephemeral size es) in
    (record { name = name; path = raw.path; size = size; ephemeral = raw.ephemeral } ∷ volumes, all)

unfoldable pub checked_service : Float → Parsers → String → RawServiceDef → Checked ServiceDef
unfolding parse_byte_size parse_env_map resolve_health resolve_volumes
checked_service f p name raw =
    let path = "service." <> name in
    let (memory, e1) = parse_byte_size p (path <> ".memory") raw.memory [] in
    let e2 = check_cpu f (path <> ".cpu") raw.cpu e1 in
    let e3 = check_port (path <> ".port") raw.port e2 in
    let (env, e4) = parse_env_map path raw.env e3 in
    let (health, e5) = resolve_health p path raw.health e4 in
    let (volumes, e6) = resolve_volumes p path raw.volume e5 in
    (
      record {
        image = raw.image;
        port = raw.port;
        replicas = raw.replicas;
        resources = record { cpu = raw.cpu; memory = memory };
        env = env;
        command = raw.command;
        health = health;
        routes = map resolve_route raw.route;
        volumes = volumes;
      },
      e6,
    )

unfoldable pub resolve_service :
    Float → Parsers → String → RawServiceDef → Result ConfigError ServiceDef
unfolding checked_service
resolve_service f p name raw =
    let (svc, errors) = checked_service f p name raw in outcome svc errors

unfoldable pub checked_task : Float → Parsers → String → RawTaskDef → Checked TaskDef
unfolding parse_byte_size parse_duration parse_env_map
checked_task f p name raw =
    let path = "task." <> name in
    let (memory, e1) = parse_byte_size p (path <> ".memory") raw.memory [] in
    let (timeout, e2) = parse_duration p (path <> ".timeout") raw.timeout e1 in
    let e3 = check_cpu f (path <> ".cpu") raw.cpu e2 in
    let (env, e4) = parse_env_map path raw.env e3 in
    (
      record {
        image = raw.image;
        resources = record { cpu = raw.cpu; memory = memory };
        timeout = timeout;
        env = env;
        command = raw.command;
      },
      e4,
    )

unfoldable pub resolve_task : Float → Parsers → String → RawTaskDef → Result ConfigError TaskDef
unfolding checked_task
resolve_task f p name raw = let (task, errors) = checked_task f p name raw in outcome task errors

abbrev pub collect_one :
    {D : Type 0}
    → String
    → Result ConfigError D
    → Map String D
    → List ConfigError
    → Map String D × List ConfigError
collect_one name (ok d) done errors = (done ++ ((name, d) ∷ []), errors)
collect_one name (err e) done errors = (done, add_errors errors e)

-- The loop over the services and that over the tasks.
unfoldable pub collect :
    {R D : Type 0}
    → (String → R → Result ConfigError D)
    → Map String R
    → Map String D
    → List ConfigError
    → Map String D × List ConfigError
collect g [] done errors = (done, errors)
collect g ((name, raw) ∷ rest) done errors =
    let (next, es) = collect_one name (g name raw) done errors in collect g rest next es

unfoldable pub resolve : Float → Parsers → RawConfig → Result ConfigError ClusterConfig
unfolding resolve_service resolve_task collect check_service_refs
resolve f p raw =
    let (services, e1) = collect (resolve_service f p) raw.service [] [] in
    let (tasks, e2) = collect (resolve_task f p) raw.task [] e1 in
    outcome (record { services = services; tasks = tasks })
      (check_service_refs services tasks (keys raw.service) e2)
