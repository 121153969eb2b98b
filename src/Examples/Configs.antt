-- ===== src/Examples/Configs.antt =====
-- The theorems about configuration files, containers and dates.
use Prim.Native.String.{count}
use mill.Prelude.{
  inl, ◌≤◌, arith, refl, none, some, ◌≡◌, true, false, ◌∷◌, [], suc, ◌*◌, if◌then◌else◌, String,
  str_eq, string_key, nat_key, lookup, In, split_first, strip_prefix, strip_suffix, ◌/◌,
}
use mill.Prelude.Int.{pos}
use mill.Prelude.Exec.{ok, err}
use mill.Config.Env.{EnvPart, EnvValue}
use mill.Config.Resolved.{ServiceDef, ClusterConfig}
use mill.Config.Runtime.{AllocKind, ContainerSpec, ContainerVolume}
use mill.Validation.{RawServiceDef, RawConfig}
use mill.Validation.Parse.{Parsers, parse_rest, parse_env_value}
use mill.Validation.Parse.Spelling.{SpellsValue, parse_env_value-SpellsValue}
use mill.Validation.Resolve.{resolve}
use mill.Validation.Resolve.Services.{IsService}
use mill.Validation.Resolve.Sound.{resolve_sound}
use mill.Container.{Texts, Container, ns_per_sec, build_labels, recover_info}
use mill.Container.Labels.{recover_info-build_labels}
use mill.Container.Oci.{ImageInfo, merged_env}
use mill.Container.Oci.Env.{or_else, default_of, lookup-merged_env}
use mill.Container.Lifecycle.{Call, Answer, Outside, create_and_start}
use mill.Container.Lifecycle.Rollback.{AllOrNothing, create_and_start-AllOrNothing, is_left}
use mill.Clock.{days_to_ymd}
use mill.Clock.Months.{days_in_month}
use mill.Clock.Calendar.{day_number, days_to_ymd_exact}
use mill.Examples.Data.{whole}

abbrev parsers : Parsers
parsers = record {
  byte_size = λ s. if str_eq s "256M" then ok 268435456 else err "expected a number";
  duration = λ s. if str_eq s "10s" then ok 10000000000 else err "expected a number";
}

abbrev raw_web : RawServiceDef
raw_web = record {
  image = "nginx";
  port = 80;
  replicas = 2;
  cpu = 1;
  memory = "256M";
  env = ("SELF", "tcp://${service.web.address}") ∷ [];
  health = some (record { path = "/up"; interval = "10s"; failure_threshold = none });
  route = [];
  volume = ("data", record { path = "/data"; size = some "256M"; ephemeral = false }) ∷ [];
  command = none;
}

abbrev raw_config : RawConfig
raw_config = record { service = ("web", raw_web) ∷ []; task = [] }

abbrev web_def : ServiceDef
web_def = record {
  image = "nginx";
  port = 80;
  replicas = 2;
  resources = record { cpu = 1; memory = 268435456 };
  env =
      (
        "SELF",
        EnvValue.interpolated (EnvPart.literal "tcp://" ∷ EnvPart.service_address "web" ∷ []),
      )
      ∷ [];
  command = none;
  health = some (record { path = "/up"; interval = 10000000000; failure_threshold = 3 });
  routes = [];
  volumes = record { name = "data"; path = "/data"; size = some 268435456; ephemeral = false } ∷ [];
}

abbrev config : ClusterConfig
config = record { services = ("web", web_def) ∷ []; tasks = [] }

resolves : resolve whole parsers raw_config ≡ ok config
unfolding resolve split_first strip_prefix strip_suffix
resolves = refl

resolve_sound_example :
    (r : RawServiceDef) × In ("web", r) raw_config.service × IsService parsers whole r web_def
resolve_sound_example =
    resolve_sound whole parsers raw_config config "web" web_def resolves (inl refl)

abbrev address : String
address = "tcp://${service.redis.address}/${secret( key )}"

parse_env_value-SpellsValue_example :
    (parse_rest (suc (count address)) "env.URL" address address [] []
      ≡ some (parse_env_value "env.URL" address []))
    × SpellsValue (parse_env_value "env.URL" address []).0 address
parse_env_value-SpellsValue_example = parse_env_value-SpellsValue "env.URL" address []

abbrev cache : ContainerVolume
cache = record { name = "cache"; path = "/cache"; ephemeral = true }

abbrev spec : ContainerSpec
spec = record {
  alloc_id = "job-1";
  kind = AllocKind.task;
  timeout = some 90500000000;
  command = some ("run" ∷ []);
  image = "job:1";
  env = ("MODE", "fast") ∷ [];
  port = none;
  host_port = some 50001;
  cpu = 2;
  memory = 268435456;
  volumes = cache ∷ [];
}

abbrev texts : Texts
texts = record {
  show_f64 = λ x. "2";
  read_f64 = λ s. some 2;
  volumes_json = λ vs. some "[cache]";
  read_volumes = λ s. some (cache ∷ []);
  command_json = λ c. some "[run]";
  read_command = λ s. some ("run" ∷ []);
}

abbrev job : Container
job = record { image = "job:1"; labels = build_labels texts spec }

recover_info-build_labels_example :
    recover_info texts (λ id. some job) "job-1"
    ≡ some (record {
      alloc_id = "job-1";
      kind = AllocKind.task;
      timeout = some (90500000000 / ns_per_sec * ns_per_sec);
      command = some ("run" ∷ []);
      host_port = some 50001;
      cpu = 2;
      memory = 268435456;
      image = "job:1";
      volumes = cache ∷ [];
    })
recover_info-build_labels_example =
    recover_info-build_labels texts spec (λ id. some job)
      (record { reads_f64 = refl; reads_volumes = refl; reads_command = refl }) refl (omega arith)
      (omega arith) (omega arith)

abbrev image : ImageInfo
image = record {
  chain_id = "sha";
  default_command = "sh" ∷ [];
  default_env = "PATH=/bin" ∷ "MODE=slow" ∷ [];
}

lookup-merged_env_example :
    lookup "MODE" (merged_env image spec)
    ≡ or_else (lookup "MODE" spec.env) (default_of image.default_env "MODE" none)
unfolding lookup
lookup-merged_env_example = lookup-merged_env image spec "MODE" (refl, tt)

abbrev unstarted : Call → Answer
unstarted (Call.start_task s) = Answer.failed
unstarted call = Answer.done 0

abbrev outside : Outside
outside = record {
  answer = λ n. unstarted;
  image = λ name. image;
  oci = record {
    build_error = λ part. none;
    get_default_mounts = [];
    quota_of = λ cpu. pos 200000;
    netns_path = none;
  };
  texts = texts;
  data_dir = "/var/lib/mill";
}

create_and_start-AllOrNothing_example : AllOrNothing "job-1" (create_and_start outside spec [])
unfolding is_left
create_and_start-AllOrNothing_example =
    create_and_start-AllOrNothing outside spec []
      (record { task_goes = λ n s. refl; container_goes = λ n s. refl }) refl refl refl

days_to_ymd_exact_example :
    (day_number (days_to_ymd 20499) ≡ 20499)
    × (1 ≤ (days_to_ymd 20499).1)
    × ((days_to_ymd 20499).1 ≤ 12)
    × (1 ≤ (days_to_ymd 20499).2)
    × ((days_to_ymd 20499).2 ≤ days_in_month (days_to_ymd 20499).0 (days_to_ymd 20499).1)
days_to_ymd_exact_example = days_to_ymd_exact 20499
