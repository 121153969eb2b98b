-- ===== src/Deploy/Validate.antt =====
-- crates/node/src/primary/deploy/validate.rs. The text of an error is its list of names.
use mill.Prelude.{
  Bool, ◌∷◌, [], List, ℕ, ◌||◌, ltb, if◌then◌else◌, String, str_eq, string_key, nat_key, Map, ◌++◌,
  ◌<>◌, any, max,
}
use mill.Prelude.Float.{F64, Float}
use mill.Config.Env.{EnvPart, EnvValue}
use mill.Config.Runtime.{NodeResources}
use mill.Config.Resolved.{ServiceDef, TaskDef, ClusterConfig, Resources}

pub data Validation : Type 0 where
  valid : Validation
  unknown_secrets : List String → Validation
  no_ready_nodes : Validation
  oversized : List String → Validation

-- `HashSet::contains`
abbrev pub known_secret : List String → String → Bool
known_secret known name = any (λ s. str_eq s name) known

unfoldable pub missing_parts : List String → String → List EnvPart → List String
missing_parts known context [] = []
missing_parts known context (EnvPart.secret name ∷ ps) =
    let rest = missing_parts known context ps in
    if known_secret known name then rest else (context <> "/" <> name) ∷ rest
missing_parts known context (EnvPart.literal s ∷ ps) = missing_parts known context ps
missing_parts known context (EnvPart.service_address s ∷ ps) = missing_parts known context ps

unfoldable pub collect_missing_secrets : List String → String → Map String EnvValue → List String
unfolding missing_parts
collect_missing_secrets known context [] = []
collect_missing_secrets known context ((k, EnvValue.literal s) ∷ env) =
    collect_missing_secrets known context env
collect_missing_secrets known context ((k, EnvValue.interpolated parts) ∷ env) =
    missing_parts known context parts ++ collect_missing_secrets known context env

unfoldable pub missing_in_services : List String → Map String ServiceDef → List String
missing_in_services known [] = []
missing_in_services known ((name, def) ∷ rest) =
    collect_missing_secrets known name def.env ++ missing_in_services known rest

unfoldable pub missing_in_tasks : List String → Map String TaskDef → List String
missing_in_tasks known [] = []
missing_in_tasks known ((name, def) ∷ rest) =
    collect_missing_secrets known name def.env ++ missing_in_tasks known rest

unfoldable pub validate_secret_refs : ClusterConfig → List String → Validation
validate_secret_refs config known =
    elim (missing_in_services known config.services ++ missing_in_tasks known config.tasks) [
      | [] ↦ valid
      | m ∷ ms ↦ unknown_secrets (m ∷ ms)
    ]

unfoldable pub max_cpu : Float → F64 → List NodeResources → F64
max_cpu f best [] = best
max_cpu f best (n ∷ ns) = max_cpu f (Float.f64_max f best n.cpu_total) ns

unfoldable pub max_memory : List NodeResources → ℕ
max_memory [] = 0
max_memory (n ∷ ns) = max n.memory_total (max_memory ns)

abbrev pub exceeds : Float → F64 → ℕ → Resources → Bool
exceeds f cpu mem r = Float.lt f cpu r.cpu || ltb mem r.memory

unfoldable pub oversized_services : Float → F64 → ℕ → Map String ServiceDef → List String
oversized_services f cpu mem [] = []
oversized_services f cpu mem ((name, def) ∷ rest) =
    let l = oversized_services f cpu mem rest in
    if exceeds f cpu mem def.resources then name ∷ l else l

unfoldable pub oversized_tasks : Float → F64 → ℕ → Map String TaskDef → List String
oversized_tasks f cpu mem [] = []
oversized_tasks f cpu mem ((name, def) ∷ rest) =
    let l = oversized_tasks f cpu mem rest in
    if exceeds f cpu mem def.resources then name ∷ l else l

unfoldable pub validate_resource_capacity : Float → ClusterConfig → List NodeResources → Validation
validate_resource_capacity f config [] = no_ready_nodes
validate_resource_capacity f config (n ∷ ns) =
    let cpu = max_cpu f (Float.zero_f64 f) (n ∷ ns) in
    let mem = max_memory (n ∷ ns) in
    elim (oversized_services f cpu mem config.services ++ oversized_tasks f cpu mem config.tasks) [
      | [] ↦ valid
      | m ∷ ms ↦ oversized (m ∷ ms)
    ]
