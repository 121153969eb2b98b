-- ===== src/Container/Oci.antt =====
-- crates/containerd/src/spec.rs: the runtime specification of a container. The crate oci-spec, the
-- processor's multiplication and cast of an f64 and the environment variable are a parameter.
pub mod Env
use mill.Prelude.Exec.{Result, ok, err}
use mill.Prelude.{
  inr, inl, Option-cases, Bool-cases, ◌≤◌, ◌<◌, ap, ◌⊎◌, arith, ◌∙◌, sym, subst, refl, none, some,
  ◌≡◌, Option, Bool, true, false, ◌∷◌, [], List, ℕ, zero, suc, ◌+◌, ◌-◌, ◌*◌, ◌%◌, ◌&&◌, ◌||◌, not,
  ltb, leb, ◌==◌, if◌then◌else◌, and_then, option_map, is_some, String, str_eq, str_eq_iff,
  string_key, nat_key, Map, lookup, insert, remove, retain, keys, values, Distinct, map, ◌++◌, ◌<>◌,
  display, any, filterb, find_first, length, In, any-true, any-false, In-filterb, filterb-In,
  lookup-insert, lookup-remove, lookup-retain, ite, max, ℕ_discrete, string_discrete, ◌↔◌, ◌≢◌,
  strip_prefix, strip_suffix, split_first, empty_text, ◌^◌,
}
use mill.Prelude.Int.{ℤ, pos, negsuc}
use mill.Container.{unwrap_or}
use mill.Prelude.Float.{F64}
use mill.Config.Runtime.{ContainerSpec, ContainerVolume}

-- `ImageInfo` of image.rs
pub record ImageInfo : Type 0 where
  pub chain_id : String
  pub default_command : List String
  pub default_env : List String

pub record Mount : Type 0 where
  pub destination : String
  pub source : Option String
  pub typ : Option String
  pub options : List String

pub data Namespace : Type 0 where
  pid ipc uts mount network : Namespace

pub record OciSpec : Type 0 where
  pub version : String
  pub args : List String
  pub env : List String
  pub cwd : String
  pub root_path : String
  pub readonly : Bool
  pub quota : ℤ
  pub period : ℕ
  pub limit : ℤ
  pub swap : ℤ
  -- The namespaces are left to the crate where the variable MILL_NETNS_PATH is not set.
  pub namespaces : Option (List (Namespace × Option String))
  pub mounts : List Mount

-- The text of the error of the `build` of a part, or none where it builds; the default mounts;
-- `(cpu * 100_000.0) as i64`.
pub record Oci : Type 0 where
  pub build_error : String → Option String
  pub get_default_mounts : List Mount
  pub quota_of : F64 → ℤ
  pub netns_path : Option String

-- `.build().map_err(|e| SpecBuild(e.to_string()))?` for each of the parts, in order
abbrev pub build_all : Oci → List String → OciSpec → Result String OciSpec
build_all oci [] spec = ok spec
build_all oci (part ∷ parts) spec =
    let rest = build_all oci parts spec in
    elim (Oci.build_error oci part) [ none ↦ rest | some e ↦ err e ]

unfoldable pub default_env_map : Map String String → List String → Map String String
unfolding insert split_first
default_env_map m [] = m
default_env_map m (entry ∷ rest) =
    default_env_map (elim (split_first entry "=") [ some (k, v) ↦ insert k v m | none ↦ m ]) rest

unfoldable pub override_all : Map String String → Map String String → Map String String
unfolding insert
override_all m [] = m
override_all m ((k, v) ∷ rest) = override_all (insert k v m) rest

unfoldable pub merged_env : ImageInfo → ContainerSpec → Map String String
unfolding default_env_map override_all
merged_env image spec = override_all (default_env_map [] image.default_env) spec.env

-- `as_u64() as i64`
abbrev pub as_i64 : ℕ → ℤ
as_i64 n = if ltb n (2 ^ 63) then pos n else negsuc (2 ^ 64 - n - 1)

-- `Path::join` for a part that is not empty
unfoldable pub join : String → String → String
unfolding strip_prefix strip_suffix
join base part =
    if is_some (strip_prefix part "/")
    then part
    else if empty_text base || is_some (strip_suffix base "/")
    then base <> part
    else base <> "/" <> part

unfoldable pub volume_host_path : String → ContainerVolume → String
unfolding join
volume_host_path data_dir vol =
    if vol.ephemeral
    then join (join data_dir "ephemeral") vol.name
    else join (join data_dir "volumes") vol.name

unfoldable pub build_volume_mount : String → ContainerVolume → Mount
unfolding volume_host_path
build_volume_mount data_dir vol = record {
  destination = vol.path;
  source = some (volume_host_path data_dir vol);
  typ = some "bind";
  options = "rbind" ∷ "rw" ∷ [];
}

-- The paths are compared as they are written.
abbrev pub is_cgroup : Mount → Bool
is_cgroup m =
    str_eq m.destination "/sys/fs/cgroup"
    && elim m.typ [ some t ↦ str_eq t "cgroup" | none ↦ false ]

abbrev pub namespaces_in : String → List (Namespace × Option String)
namespaces_in path =
    (Namespace.pid, none)
    ∷ (Namespace.ipc, none)
    ∷ (Namespace.uts, none)
    ∷ (Namespace.mount, none)
    ∷ (Namespace.network, some path)
    ∷ []

-- The parts that are built, in the order of their builders.
abbrev pub parts_of : Oci → ContainerSpec → List String
parts_of oci spec =
    "process" ∷ "root" ∷ "cpu" ∷ "memory" ∷ "resources" ∷ (elim (Oci.netns_path oci) [
      | some path ↦ map (λ n. "namespace") (namespaces_in path)
      | none ↦ []
    ])
    ++ ("linux" ∷ map (λ v. "mount") spec.volumes)
    ++ ("spec" ∷ [])

unfoldable pub build_oci_spec : Oci → String → ContainerSpec → ImageInfo → Result String OciSpec
unfolding merged_env build_volume_mount
build_oci_spec oci data_dir spec image = build_all oci (parts_of oci spec) (record {
  version = "1.1.0";
  args = unwrap_or image.default_command spec.command;
  env = map (λ kv. kv.0 <> "=" <> kv.1) (merged_env image spec);
  cwd = "/";
  root_path = "rootfs";
  readonly = false;
  quota = Oci.quota_of oci spec.cpu;
  period = 100000;
  limit = as_i64 spec.memory;
  swap = as_i64 spec.memory;
  namespaces = option_map namespaces_in (Oci.netns_path oci);
  mounts =
      filterb (λ m. not (is_cgroup m)) (Oci.get_default_mounts oci)
      ++ map (build_volume_mount data_dir) spec.volumes;
})
