-- ===== src/Deploy/Equality.antt =====
-- The derived `==` of crates/config/src/types/resolved.rs and env.rs. A map equals another of the
-- same size that holds each of its entries.
use mill.Prelude.{
  none, some, Option, Bool, true, false, ◌∷◌, [], List, ◌&&◌, not, ◌==◌, String, str_eq, string_key,
  nat_key, Map, lookup, length,
}
use mill.Prelude.Float.{Float}
use mill.Config.Env.{EnvPart, EnvValue}
use mill.Config.Resolved.{Resources, HealthCheck, RouteDef, VolumeDef, ServiceDef}

abbrev pub bool_eq : Bool → Bool → Bool
bool_eq true b = b
bool_eq false b = not b

module _ {A : Type 0} (eq : A → A → Bool) where
  abbrev pub option_eq : Option A → Option A → Bool
  option_eq none none = true
  option_eq (some a) (some b) = eq a b
  option_eq _ _ = false

  abbrev pub list_eq : List A → List A → Bool
  list_eq [] [] = true
  list_eq (x ∷ xs) (y ∷ ys) = eq x y && list_eq xs ys
  list_eq _ _ = false

  -- Each entry stands in the other map.
  abbrev pub map_sub : Map String A → Map String A → Bool
  map_sub [] n = true
  map_sub ((k, v) ∷ m) n = elim (lookup k n) [ none ↦ false | some w ↦ eq v w ] && map_sub m n

  abbrev pub map_eq : Map String A → Map String A → Bool
  map_eq m n = length m == length n && map_sub m n

abbrev pub env_part_eq : EnvPart → EnvPart → Bool
env_part_eq (EnvPart.literal s) (EnvPart.literal t) = str_eq s t
env_part_eq (EnvPart.service_address s) (EnvPart.service_address t) = str_eq s t
env_part_eq (EnvPart.secret s) (EnvPart.secret t) = str_eq s t
env_part_eq _ _ = false

abbrev pub env_value_eq : EnvValue → EnvValue → Bool
env_value_eq (EnvValue.literal s) (EnvValue.literal t) = str_eq s t
env_value_eq (EnvValue.interpolated ps) (EnvValue.interpolated qs) = list_eq env_part_eq ps qs
env_value_eq _ _ = false

abbrev pub resources_eq : Float → Resources → Resources → Bool
resources_eq f a b = Float.eq f a.cpu b.cpu && a.memory == b.memory

abbrev pub health_eq : HealthCheck → HealthCheck → Bool
health_eq a b =
    str_eq a.path b.path && a.interval == b.interval && a.failure_threshold == b.failure_threshold

abbrev pub route_eq : RouteDef → RouteDef → Bool
route_eq a b =
    str_eq a.hostname b.hostname && str_eq a.path b.path && bool_eq a.websocket b.websocket

abbrev pub volume_eq : VolumeDef → VolumeDef → Bool
volume_eq a b =
    str_eq a.name b.name
    && str_eq a.path b.path
    && option_eq (λ x y. x == y) a.size b.size
    && bool_eq a.ephemeral b.ephemeral

unfoldable pub service_eq : Float → ServiceDef → ServiceDef → Bool
service_eq f a b =
    str_eq a.image b.image
    && a.port == b.port
    && a.replicas == b.replicas
    && resources_eq f a.resources b.resources
    && map_eq env_value_eq a.env b.env
    && option_eq (list_eq str_eq) a.command b.command
    && option_eq health_eq a.health b.health
    && list_eq route_eq a.routes b.routes
    && list_eq volume_eq a.volumes b.volumes
