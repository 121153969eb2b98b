-- ===== src/Config/Resolved.antt =====
-- crates/config/src/types/resolved.rs
use mill.Prelude.{ℕ, String, Bool, Option, List, Map}
use mill.Prelude.Float.{F64}
use mill.Config.Env.{EnvValue}
use mill.Config.Runtime.{AllocResources}

pub record Resources : Type 0 where
  pub cpu : F64
  pub memory : ℕ

-- `From<Resources> for AllocResources`
abbrev pub alloc_resources : Resources → AllocResources
alloc_resources r = record { cpu = r.cpu; memory = r.memory }

pub record HealthCheck : Type 0 where
  pub path : String
  pub interval : ℕ
  pub failure_threshold : ℕ

pub record RouteDef : Type 0 where
  pub hostname : String
  pub path : String
  pub websocket : Bool

pub record VolumeDef : Type 0 where
  pub name : String
  pub path : String
  pub size : Option ℕ
  pub ephemeral : Bool

pub record ServiceDef : Type 0 where
  pub image : String
  pub port : ℕ
  pub replicas : ℕ
  pub resources : Resources
  pub env : Map String EnvValue
  pub command : Option (List String)
  pub health : Option HealthCheck
  pub routes : List RouteDef
  pub volumes : List VolumeDef

pub record TaskDef : Type 0 where
  pub image : String
  pub resources : Resources
  pub timeout : ℕ
  pub env : Map String EnvValue
  pub command : Option (List String)

pub record ClusterConfig : Type 0 where
  pub services : Map String ServiceDef
  pub tasks : Map String TaskDef
