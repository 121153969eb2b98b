-- ===== src/Container.antt =====
-- crates/containerd/src: the labels of a container, which spec.rs writes and lib.rs reads back. A
-- JSON text is serde_json's, and the text of an f64 the standard library's; both are a parameter.
pub mod Labels
pub mod Oci
pub mod Lifecycle
use mill.Prelude.{
  none, some, Option, ◌∷◌, [], List, ℕ, ◌*◌, if◌then◌else◌, and_then, option_map, String, str_eq,
  string_key, nat_key, Map, lookup, insert, display, parse_uint, ◌/◌,
}
use mill.Prelude.Float.{F64}
use mill.Config.Runtime.{AllocId, AllocKind, ContainerVolume, ContainerSpec}
use mill.Secondary.Reconcile.{RecoveredContainer}

pub record Texts : Type 0 where
  pub show_f64 : F64 → String
  pub read_f64 : String → Option F64
  pub volumes_json : List ContainerVolume → Option String
  pub read_volumes : String → Option (List ContainerVolume)
  pub command_json : List String → Option String
  pub read_command : String → Option (List String)

-- What containerd tells of a container; the other fields of its answer are not read.
pub record Container : Type 0 where
  pub image : String
  pub labels : Map String String

abbrev pub u16_max : ℕ
u16_max = 65535

abbrev pub u64_max : ℕ
u64_max = 18446744073709551615

abbrev pub ns_per_sec : ℕ
ns_per_sec = 1000000000

-- `impl Display for AllocKind`
abbrev pub kind_text : AllocKind → String
kind_text AllocKind.service = "service"
kind_text AllocKind.task = "task"

-- A label that is set where there is a text for it.
unfoldable pub put : String → Option String → Map String String → Map String String
unfolding insert
put k none m = m
put k (some v) m = insert k v m

abbrev pub volumes_label : Texts → List ContainerVolume → Option String
volumes_label t [] = none
volumes_label t (v ∷ vs) = Texts.volumes_json t (v ∷ vs)

unfoldable pub build_labels : Texts → ContainerSpec → Map String String
unfolding put
build_labels t spec = put "mill.command" (and_then spec.command (Texts.command_json t)) (
    put "mill.timeout" (option_map (λ d. display (d / ns_per_sec)) spec.timeout) (
      put "mill.kind" (some (kind_text spec.kind)) (
        put "mill.volumes" (volumes_label t spec.volumes) (
          put "mill.memory" (some (display spec.memory)) (
            put "mill.cpu" (some (Texts.show_f64 t spec.cpu)) (
              put "mill.host-port" (option_map display spec.host_port) (
                put "mill.alloc-id" (some spec.alloc_id)
                  (put "mill.managed" (some "true") []))))))))

abbrev pub kind_of_label : String → AllocKind
kind_of_label s = if str_eq s "task" then AllocKind.task else AllocKind.service

abbrev pub unwrap_or {ℓ} : {A : Type ℓ} → A → Option A → A
unwrap_or d none = d
unwrap_or d (some a) = a

-- `none` where containerd does not know the container.
unfoldable pub recover_info :
    Texts → (AllocId → Option Container) → AllocId → Option RecoveredContainer
unfolding lookup parse_uint
recover_info t get_container alloc_id =
    option_map
      (λ c.
        let label : String → Option String = λ k. lookup k (Container.labels c) in
        record {
          alloc_id = alloc_id;
          kind = unwrap_or AllocKind.service (option_map kind_of_label (label "mill.kind"));
          timeout =
              option_map (λ s. s * ns_per_sec)
                (and_then (label "mill.timeout") (parse_uint u64_max));
          command = and_then (label "mill.command") (Texts.read_command t);
          host_port = and_then (label "mill.host-port") (parse_uint u16_max);
          cpu = unwrap_or 0 (and_then (label "mill.cpu") (Texts.read_f64 t));
          memory = unwrap_or 0 (and_then (label "mill.memory") (parse_uint u64_max));
          image = Container.image c;
          volumes = unwrap_or [] (and_then (label "mill.volumes") (Texts.read_volumes t));
        })
      (get_container alloc_id)
