-- ===== src/Container/Labels.antt =====
-- What is read back from the labels of a container.
use mill.Prelude.{
  ◌≤◌, ◌<◌, ap, arith, refl, none, some, ◌≡◌, Option, true, ◌∷◌, [], List, ℕ, ◌*◌, if◌then◌else◌,
  and_then, option_map, String, str_eq, str_eq_iff, string_key, nat_key, Map, lookup, display,
  lookup-insert, parse_uint, parse_uint-display, ◌/◌,
}
use mill.Prelude.{◌^◌}
use mill.Config.Runtime.{AllocId, AllocKind, ContainerVolume, ContainerSpec}
use mill.Container.Oci.Env.{or_else}
use mill.Container.{
  Texts, Container, u16_max, u64_max, ns_per_sec, kind_text, put, volumes_label, build_labels,
  kind_of_label, unwrap_or, recover_info,
}

-- What is written as text of the specification is read back, and its lists can be written.
pub record Reads (t : Texts) (spec : ContainerSpec) : Type 0 where
  pub reads_f64 : Texts.read_f64 t (Texts.show_f64 t spec.cpu) ≡ some spec.cpu
  pub reads_volumes :
      and_then (Texts.volumes_json t spec.volumes) (Texts.read_volumes t) ≡ some spec.volumes
  pub reads_command :
      and_then (and_then spec.command (Texts.command_json t)) (Texts.read_command t) ≡ spec.command

or_else-none : (o : Option String) → or_else o none ≡ o
or_else-none none = refl
or_else-none (some v) = refl

lookup-put :
    (k j : String) (o : Option String) (m : Map String String)
    → lookup j (put k o m) ≡ (if str_eq k j then or_else o (lookup j m) else lookup j m)
unfolding put
lookup-put k j none m = ground arith
lookup-put k j (some v) m = ground (arith, lookup-insert k j v m, str_eq_iff k j)

module _ (t : Texts) (spec : ContainerSpec) where
  abbrev label : String → Option String
  label k = lookup k (build_labels t spec)

  kind_label : label "mill.kind" ≡ some (kind_text spec.kind)
  unfolding build_labels
  kind_label = simp (lookup-put)

  timeout_label : label "mill.timeout" ≡ option_map (λ d. display (d / ns_per_sec)) spec.timeout
  unfolding build_labels lookup
  timeout_label = simp (lookup-put) (or_else-none _)

  command_label : label "mill.command" ≡ and_then spec.command (Texts.command_json t)
  unfolding build_labels lookup
  command_label = simp (lookup-put) (or_else-none _)

  port_label : label "mill.host-port" ≡ option_map display spec.host_port
  unfolding build_labels lookup
  port_label = simp (lookup-put) (or_else-none _)

  cpu_label : label "mill.cpu" ≡ some (Texts.show_f64 t spec.cpu)
  unfolding build_labels
  cpu_label = simp (lookup-put)

  memory_label : label "mill.memory" ≡ some (display spec.memory)
  unfolding build_labels
  memory_label = simp (lookup-put)

  volumes_are : label "mill.volumes" ≡ volumes_label t spec.volumes
  unfolding build_labels lookup
  volumes_are = simp (lookup-put) (or_else-none _)

kind_of_label-kind_text : (k : AllocKind) → kind_of_label (kind_text k) ≡ k
kind_of_label-kind_text AllocKind.service = refl
kind_of_label-kind_text AllocKind.task = refl

-- A number that is not there fits too.
abbrev pub Fits : ℕ → Option ℕ → Type 0
Fits most none = true ≡ true
Fits most (some n) = n ≤ most

read_number :
    (most : ℕ) (o : Option ℕ)
    → most < 10 ^ 20
    → Fits most o
    → and_then (option_map display o) (parse_uint most) ≡ o
read_number most none small h = refl
read_number most (some n) small h = parse_uint-display most n h (omega (arith, h, small))

whole_seconds :
    (o : Option ℕ)
    → Fits u64_max (option_map (λ d. d / ns_per_sec) o)
    → option_map
        (λ s. s * ns_per_sec)
        (and_then (option_map (λ d. display (d / ns_per_sec)) o) (parse_uint u64_max))
      ≡ option_map (λ d. d / ns_per_sec * ns_per_sec) o
whole_seconds none h = refl
whole_seconds (some d) h =
    ap (option_map (λ s. s * ns_per_sec))
      (read_number u64_max (some (d / ns_per_sec)) (omega arith) h)

read_volumes :
    (t : Texts) (vs : List ContainerVolume)
    → and_then (Texts.volumes_json t vs) (Texts.read_volumes t) ≡ some vs
    → unwrap_or [] (and_then (volumes_label t vs) (Texts.read_volumes t)) ≡ vs
read_volumes t [] h = refl
read_volumes t (v ∷ vs) h = ap (unwrap_or []) h

-- The labels that a container is made with give back, after a restart, all that they were made from
-- but the environment and the port, which have none: its kind, command, host port, CPU share, memory
-- and volumes, and its timeout in whole seconds; if the numbers fit their types and what was written
-- as text is read back.
pub recover_info-build_labels :
    (t : Texts) (spec : ContainerSpec) (get_container : AllocId → Option Container)
    → Reads t spec
    → get_container spec.alloc_id
      ≡ some (record { image = spec.image; labels = build_labels t spec })
    → spec.memory ≤ u64_max
    → Fits u16_max spec.host_port
    → Fits u64_max (option_map (λ d. d / ns_per_sec) spec.timeout)
    → recover_info t get_container spec.alloc_id
      ≡ some (record {
        alloc_id = spec.alloc_id;
        kind = spec.kind;
        timeout = option_map (λ d. d / ns_per_sec * ns_per_sec) spec.timeout;
        command = spec.command;
        host_port = spec.host_port;
        cpu = spec.cpu;
        memory = spec.memory;
        image = spec.image;
        volumes = spec.volumes;
      })
unfolding recover_info
recover_info-build_labels t spec get_container law known memory port timeout =
    rw
      (
        known,
        kind_label t spec,
        timeout_label t spec,
        command_label t spec,
        port_label t spec,
        cpu_label t spec,
        memory_label t spec,
        volumes_are t spec,
        kind_of_label-kind_text spec.kind,
        whole_seconds spec.timeout timeout,
        law.reads_command,
        read_number u16_max spec.host_port (omega arith) port,
        law.reads_f64,
        parse_uint-display u64_max spec.memory memory (omega (arith, memory)),
        read_volumes t spec.volumes law.reads_volumes,
      )
      refl
