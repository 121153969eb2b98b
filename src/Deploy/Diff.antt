-- ===== src/Deploy/Diff.antt =====
-- crates/node/src/primary/deploy/diff.rs
use mill.Prelude.{
  none, some, Option, ◌∷◌, [], List, if◌then◌else◌, and_then, option_map, is_some, String,
  string_key, nat_key, Map, lookup, keys,
}
use mill.Prelude.Float.{Float}
use mill.Config.Resolved.{ServiceDef, ClusterConfig}
use mill.Deploy.Equality.{service_eq}

pub record DeployPlan : Type 0 where
  pub added : Map String ServiceDef
  pub removed : List String
  pub changed : Map String ServiceDef
  pub unchanged : List String

abbrev pub get_service : Option (Map String ServiceDef) → String → Option ServiceDef
get_service old_services name = and_then old_services (lookup name)

-- The loop over the new services, before the removed ones are known.
unfoldable pub diff_new :
    Float → Option (Map String ServiceDef) → Map String ServiceDef → DeployPlan
diff_new f old_services [] = record { added = []; removed = []; changed = []; unchanged = [] }
diff_new f old_services ((name, new_def) ∷ rest) =
    let plan = diff_new f old_services rest in
    elim (get_service old_services name) [
      | none ↦ record plan { added = (name, new_def) ∷ plan.added }
      | some old_def ↦
          if service_eq f old_def new_def
          then record plan { unchanged = name ∷ plan.unchanged }
          else record plan { changed = (name, new_def) ∷ plan.changed }
    ]

unfoldable pub diff_removed : Map String ServiceDef → List String → List String
diff_removed new_services [] = []
diff_removed new_services (name ∷ names) =
    let rest = diff_removed new_services names in
    if is_some (lookup name new_services) then rest else name ∷ rest

unfoldable pub diff_config : Float → Option ClusterConfig → ClusterConfig → DeployPlan
unfolding diff_new diff_removed
diff_config f old new =
    let old_services = option_map (λ c. ClusterConfig.services c) old in
    let plan = diff_new f old_services new.services in
    record plan {
      removed = elim old_services [ none ↦ [] | some s ↦ diff_removed new.services (keys s) ];
    }
