-- ===== src/Deploy/Partition.antt =====
-- About crates/node/src/primary/deploy/diff.rs: which part of a plan a service stands in.
use mill.Prelude.{
  inr, inl, Option-cases, Bool-cases, arith, refl, none, some, ◌≡◌, Option, Bool, true, false, ◌∷◌,
  [], List, ◌&&◌, not, if◌then◌else◌, option_map, is_some, String, string_key, nat_key, Map, lookup,
  keys, Distinct, ite, string_discrete,
}
use mill.Prelude.Float.{Float}
use mill.Config.Resolved.{ClusterConfig, ServiceDef}
use mill.Deploy.Equality.{service_eq}
use mill.Deploy.Diff.{diff_removed, diff_config, get_service, diff_new}

-- The name stands in the list.
abbrev pub has_name : String → List String → Bool
has_name name [] = false
has_name name (x ∷ xs) = ite (string_discrete x name) true (has_name name xs)

abbrev pub added_def : Option ServiceDef → Option ServiceDef → Option ServiceDef
added_def none d = d
added_def (some o) d = none

module _ (f : Float) where
  abbrev pub changed_def : Option ServiceDef → Option ServiceDef → Option ServiceDef
  changed_def none d = none
  changed_def (some o) none = none
  changed_def (some o) (some d) = if service_eq f o d then none else some d

  abbrev pub same_def : Option ServiceDef → Option ServiceDef → Bool
  same_def none d = false
  same_def (some o) none = false
  same_def (some o) (some d) = service_eq f o d

module _ (f : Float) (old : Option (Map String ServiceDef)) where
  lookup-added :
      (m : Map String ServiceDef) (name : String)
      → lookup name (diff_new f old m).added ≡ added_def (get_service old name) (lookup name m)
  unfolding diff_new lookup
  lookup-added [] name = ground (arith, Option-cases (get_service old name))
  lookup-added ((k, v) ∷ m) name = elim (Option-cases (get_service old k)) [
    | inl e ↦ ground (arith, lookup-added m name)
    | inr (o, e) ↦ elim (Bool-cases (service_eq f o v)) [
      | inl s ↦ ground (arith, lookup-added m name)
      | inr s ↦ ground (arith, lookup-added m name)
    ]
  ]

  lookup-changed :
      (m : Map String ServiceDef) (name : String)
      → Distinct m
      → lookup name (diff_new f old m).changed
        ≡ changed_def f (get_service old name) (lookup name m)
  unfolding diff_new lookup
  lookup-changed [] name d = ground (arith, Option-cases (get_service old name))
  lookup-changed ((k, v) ∷ m) name d = elim (Option-cases (get_service old k)) [
    | inl e ↦ ground (arith, lookup-changed m name d.1)
    | inr (o, e) ↦ elim (Bool-cases (service_eq f o v)) [
      | inl s ↦ ground (arith, lookup-changed m name d.1)
      | inr s ↦ ground (arith, lookup-changed m name d.1)
    ]
  ]

  has_name-unchanged :
      (m : Map String ServiceDef) (name : String)
      → Distinct m
      → has_name name (diff_new f old m).unchanged
        ≡ same_def f (get_service old name) (lookup name m)
  unfolding diff_new lookup
  has_name-unchanged [] name d = ground (arith, Option-cases (get_service old name))
  has_name-unchanged ((k, v) ∷ m) name d = elim (Option-cases (get_service old k)) [
    | inl e ↦ ground (arith, has_name-unchanged m name d.1)
    | inr (o, e) ↦ elim (Bool-cases (service_eq f o v)) [
      | inl s ↦ ground (arith, has_name-unchanged m name d.1)
      | inr s ↦ ground (arith, has_name-unchanged m name d.1)
    ]
  ]

has_name-diff_removed :
    (new : Map String ServiceDef) (s : Map String ServiceDef) (name : String)
    → has_name name (diff_removed new (keys s))
      ≡ (is_some (lookup name s) && not (is_some (lookup name new)))
unfolding diff_removed lookup
has_name-diff_removed new [] name = refl
has_name-diff_removed new ((k, v) ∷ s) name = elim (Option-cases (lookup k new)) [
  | inl e ↦ ground (arith, has_name-diff_removed new s name)
  | inr (o, e) ↦ ground (arith, has_name-diff_removed new s name)
]

abbrev pub old_def : Option ClusterConfig → String → Option ServiceDef
old_def old name = get_service (option_map (λ c. ClusterConfig.services c) old) name

-- Where no service stands twice in the new configuration, a plan adds a service with its
-- definition if only the new one knows it, counts it unchanged if both definitions are equal and
-- else changed with the new definition, and removes exactly the services that only the old one
-- knows.
pub diff_config_exact :
    (f : Float) (old : Option ClusterConfig) (new : ClusterConfig) (name : String)
    → Distinct new.services
    → (lookup name (diff_config f old new).added
        ≡ added_def (old_def old name) (lookup name new.services))
      × (lookup name (diff_config f old new).changed
          ≡ changed_def f (old_def old name) (lookup name new.services))
      × (has_name name (diff_config f old new).unchanged
          ≡ same_def f (old_def old name) (lookup name new.services))
      × (has_name name (diff_config f old new).removed
          ≡ (is_some (old_def old name) && not (is_some (lookup name new.services))))
unfolding diff_config
diff_config_exact f old new name d =
    let services = option_map (λ c. ClusterConfig.services c) old in
    (
      lookup-added f services new.services name,
      lookup-changed f services new.services name d,
      has_name-unchanged f services new.services name d,
      removed old,
    )
  where
    removed :
        (old : Option ClusterConfig)
        → has_name name (diff_config f old new).removed
          ≡ (is_some (old_def old name) && not (is_some (lookup name new.services)))
    removed none = refl
    removed (some c) = has_name-diff_removed new.services c.services name
