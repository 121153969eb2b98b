-- ===== src/Examples/Placements.antt =====
-- The scheduler, and the plan of a deploy.
use mill.Validation.Refs.{
  check_parts, check_env_refs, check_all_tasks, check_all_services, check_service_refs,
}
use mill.Validation.{ConfigError}
use mill.Prelude.{
  arith, refl, none, some, ◌≡◌, Option, true, ◌∷◌, [], List, ℕ, ◌&&◌, not, is_some, String,
  string_key, nat_key, lookup, Distinct, In, string_discrete,
}
use mill.Config.Env.{EnvPart, EnvValue}
use mill.Config.Runtime.{AllocKind, NodeResources, VolumeState}
use mill.Config.Resolved.{ClusterConfig}
use mill.Fsm.State.{FsmNode, FsmVolume}
use mill.Scheduler.{
  bin_pack_score, min_from, filter_nodes, spread, bin_pack, ScheduleRequest, Candidate,
  ExistingAlloc, schedule, volume_node,
}
use mill.Scheduler.Packing.{IsOrder, Scored}
use mill.Scheduler.Placement.{candidates, schedule_sound}
use mill.Scheduler.Candidates.{is_feasible}
use mill.Deploy.Diff.{diff_config}
use mill.Deploy.Partition.{added_def, changed_def, same_def, has_name, old_def, diff_config_exact}
use mill.Deploy.Validate.{
  missing_parts, collect_missing_secrets, missing_in_tasks, missing_in_services, valid,
  validate_secret_refs,
}
use mill.Examples.Data.{whole, node_of, total, config, web_def}

abbrev request : ScheduleRequest
request = record {
  need = record { cpu = 1; memory = 500 };
  name = "web";
  kind = AllocKind.service;
  volume = none;
}

abbrev bound : ScheduleRequest
bound = record request { volume = some "data" }

abbrev nodes : List FsmNode
nodes = node_of 1 "n1" ∷ node_of 2 "n2" ∷ []

abbrev running_web : List ExistingAlloc
running_web = ("n1", "web", AllocKind.service) ∷ []

abbrev attached : List (String × FsmVolume)
attached = ("data", record { cloud_id = "v"; state = VolumeState.attached "n1" }) ∷ []

abbrev all_free : ℕ → Option NodeResources
all_free id = some total

abbrev none_free : ℕ → Option NodeResources
none_free id = none

gets_two : schedule whole request nodes running_web [] all_free ≡ some "n2"
unfolding schedule bin_pack spread filter_nodes volume_node min_from bin_pack_score
gets_two = refl

schedule_sound_example :
    (n : FsmNode) × In n nodes
    × (n.mill_id ≡ "n2")
    × (is_feasible whole all_free request.need n ≡ true)
schedule_sound_example = schedule_sound whole request nodes running_web [] all_free "n2" gets_two

gets_none : schedule whole request nodes running_web [] none_free ≡ none
unfolding schedule bin_pack spread filter_nodes volume_node
gets_none = refl

unbound : volume_node request [] ≡ none
unfolding volume_node
unbound = refl

binds : volume_node bound attached ≡ some "n1"
unfolding volume_node
binds = refl

gets_one : schedule whole bound nodes running_web attached all_free ≡ some "n1"
unfolding schedule volume_node
gets_one = refl

whole_order : IsOrder whole (λ x. true)
whole_order = record { asym = λ a b h. ground arith; trans = λ a b c x y z h k. ground arith }

abbrev left_over : List Candidate
left_over = candidates whole request nodes running_web [] all_free

all_numbers : Scored whole (λ x. true) whole_order left_over
all_numbers c i = refl

abbrev new_config : ClusterConfig
new_config = record {
  services = ("web", record web_def { replicas = 3 }) ∷ ("db", web_def) ∷ [];
  tasks = [];
}

new-Distinct : Distinct new_config.services
unfolding lookup string_discrete
new-Distinct = (refl, (refl, tt))

diff_config_exact_example :
    let plan = diff_config whole (some config) new_config in
    (lookup "db" plan.added
      ≡ added_def (old_def (some config) "db") (lookup "db" new_config.services))
    × (lookup "db" plan.changed
        ≡ changed_def whole (old_def (some config) "db") (lookup "db" new_config.services))
    × (has_name "db" plan.unchanged
        ≡ same_def whole (old_def (some config) "db") (lookup "db" new_config.services))
    × (has_name "db" plan.removed
        ≡ (is_some (old_def (some config) "db") && not (is_some (lookup "db" new_config.services))))
diff_config_exact_example = diff_config_exact whole (some config) new_config "db" new-Distinct

abbrev secret_config : ClusterConfig
secret_config = record {
  services =
      (
        "web",
        record web_def { env = ("KEY", EnvValue.interpolated (EnvPart.secret "key" ∷ [])) ∷ [] },
      )
      ∷ [];
  tasks = [];
}

secrets_known : validate_secret_refs secret_config ("key" ∷ []) ≡ valid
unfolding validate_secret_refs missing_in_services missing_in_tasks collect_missing_secrets
    missing_parts
secrets_known = refl

abbrev ref_config : ClusterConfig
ref_config = record {
  services =
      (
        "web",
        record web_def {
          env = ("DB", EnvValue.interpolated (EnvPart.service_address "db" ∷ [])) ∷ [];
        },
      )
      ∷ ("db", web_def)
      ∷ [];
  tasks = [];
}

abbrev defined : List String
defined = "web" ∷ "db" ∷ []

no_ref_errors : check_service_refs ref_config.services ref_config.tasks defined [] ≡ []
unfolding check_service_refs check_all_services check_all_tasks check_env_refs check_parts
no_ref_errors = refl

abbrev no_errors_yet : List ConfigError
no_errors_yet = []
