-- ===== src/Container/Oci/Env.antt =====
-- What a container gets from its specification, and what from its image.
use mill.Prelude.{
  inr, inl, Option-cases, ap, arith, ◌∙◌, subst, refl, none, some, ◌≡◌, Option, ◌∷◌, [], List,
  if◌then◌else◌, String, str_eq, str_eq_iff, string_key, nat_key, Map, lookup, insert, Distinct,
  lookup-insert, string_discrete, split_first,
}
use mill.Config.Runtime.{ContainerSpec}
use mill.Container.Oci.{ImageInfo, default_env_map, override_all, merged_env}

-- The last of the image's entries for a key.
abbrev pub default_of : List String → String → Option String → Option String
default_of [] k found = found
default_of (entry ∷ rest) k found = default_of rest k (elim (split_first entry "=") [
  | some (j, v) ↦ (if str_eq j k then some v else found)
  | none ↦ found
])

lookup-default_env_map :
    (entries : List String) (m : Map String String) (k : String)
    → lookup k (default_env_map m entries) ≡ default_of entries k (lookup k m)
unfolding default_env_map
lookup-default_env_map [] m k = refl
lookup-default_env_map (entry ∷ rest) m k = elim (Option-cases (split_first entry "=")) [
  | inl n ↦ rw (n, default_env_map, default_of) (lookup-default_env_map rest m k)
  | inr ((j, v), n) ↦
      let here : lookup k (insert j v m) ≡ (if str_eq j k then some v else lookup k m) =
        ground (arith, lookup-insert j k v m, str_eq_iff j k) in
      rw (n, default_env_map, default_of)
        (lookup-default_env_map rest (insert j v m) k ∙ ap (default_of rest k) here)
]

abbrev pub or_else : Option String → Option String → Option String
or_else none q = q
or_else (some v) q = some v

lookup-override_all :
    (env m : Map String String) (k : String)
    → Distinct env
    → lookup k (override_all m env) ≡ or_else (lookup k env) (lookup k m)
unfolding override_all lookup
lookup-override_all [] m k d = refl
lookup-override_all ((j, v) ∷ rest) m k d = elim (string_discrete j k) [
  | yes p ↦
      let gone : lookup k rest ≡ none = subst (λ u. lookup u rest ≡ none) p d.0 in
      let here : lookup k (insert j v m) ≡ some v = ground (arith, lookup-insert j k v m, p) in
      let found : lookup k ((j, v) ∷ rest) ≡ some v = ground (arith, p) in
      lookup-override_all rest (insert j v m) k d.1 ∙ cc (gone, here, found)
  | no n ↦
      let here : lookup k (insert j v m) ≡ lookup k m = ground (arith, lookup-insert j k v m, n) in
      let found : lookup k ((j, v) ∷ rest) ≡ lookup k rest = ground (arith, n) in
      lookup-override_all rest (insert j v m) k d.1 ∙ cc (here, found)
]

-- A variable of the container has the value that its specification gives it, and else the last one
-- that its image gives it; no other variable is set.
pub lookup-merged_env :
    (image : ImageInfo) (spec : ContainerSpec) (k : String)
    → Distinct spec.env
    → lookup k (merged_env image spec)
      ≡ or_else (lookup k spec.env) (default_of image.default_env k none)
unfolding merged_env lookup
lookup-merged_env image spec k d =
    lookup-override_all spec.env (default_env_map [] image.default_env) k d
    ∙ ap (or_else (lookup k spec.env)) (lookup-default_env_map image.default_env [] k)
