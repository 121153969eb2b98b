-- ===== src/Validation/Refs.antt =====
-- crates/config/src/validate/refs.rs
use mill.Prelude.{
  Bool, ◌∷◌, [], List, if◌then◌else◌, String, str_eq, string_key, nat_key, Map, ◌<>◌, any,
}
use mill.Config.Env.{EnvPart, EnvValue}
use mill.Config.Resolved.{ServiceDef, TaskDef}
use mill.Validation.{ConfigError, unknown_service_ref, push_error}

abbrev pub is_defined : List String → String → Bool
is_defined defined service = any (λ s. str_eq s service) defined

unfoldable pub check_parts :
    String → List EnvPart → List String → List ConfigError → List ConfigError
check_parts path [] defined errors = errors
check_parts path (EnvPart.service_address service ∷ ps) defined errors =
    check_parts path ps defined (
      if is_defined defined service
      then errors
      else push_error errors (unknown_service_ref path service))
check_parts path (EnvPart.literal s ∷ ps) defined errors = check_parts path ps defined errors
check_parts path (EnvPart.secret s ∷ ps) defined errors = check_parts path ps defined errors

unfoldable pub check_env_refs :
    String → Map String EnvValue → List String → List ConfigError → List ConfigError
unfolding check_parts
check_env_refs parent_path [] defined errors = errors
check_env_refs parent_path ((key, EnvValue.literal s) ∷ env) defined errors =
    check_env_refs parent_path env defined errors
check_env_refs parent_path ((key, EnvValue.interpolated parts) ∷ env) defined errors =
    check_env_refs parent_path env defined
      (check_parts (parent_path <> ".env." <> key) parts defined errors)

unfoldable pub check_all_services :
    Map String ServiceDef → List String → List ConfigError → List ConfigError
unfolding check_env_refs
check_all_services [] defined errors = errors
check_all_services ((name, svc) ∷ rest) defined errors =
    check_all_services rest defined (check_env_refs ("service." <> name) svc.env defined errors)

unfoldable pub check_all_tasks :
    Map String TaskDef → List String → List ConfigError → List ConfigError
unfolding check_env_refs
check_all_tasks [] defined errors = errors
check_all_tasks ((name, task) ∷ rest) defined errors =
    check_all_tasks rest defined (check_env_refs ("task." <> name) task.env defined errors)

unfoldable pub check_service_refs :
    Map String ServiceDef → Map String TaskDef → List String → List ConfigError → List ConfigError
unfolding check_all_services check_all_tasks
check_service_refs services tasks defined errors =
    check_all_tasks tasks defined (check_all_services services defined errors)
