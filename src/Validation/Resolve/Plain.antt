-- ===== src/Validation/Resolve/Plain.antt =====
-- No check of a service or a task pushes a list of errors as one error.
use Prim.Native.String.{count}
use mill.Prelude.{
  inr, inl, Option-cases, subst, refl, none, some, ◌≡◌, Option, Bool, true, false, ◌∷◌, [], List, ℕ,
  zero, suc, ◌==◌, if◌then◌else◌, and_then, String, string_key, nat_key, Map, ◌<>◌, In,
  strip_suffix, split_first, strip_prefix, In-append,
}
use mill.Prelude.Exec.{Result, ok, err}
use mill.Prelude.Float.{F64, Float}
use mill.Config.Env.{EnvPart, EnvValue}
use mill.Validation.{
  check_cpu, check_port, ConfigError, multiple, push_error, RawHealthCheck, RawVolumeDef,
  RawServiceDef, RawTaskDef,
}
use mill.Validation.Parse.{
  read_of, Parsers, Checked, number_or_zero, check_name, parse_byte_size, parse_duration,
  parse_interpolation_expr, parse_rest, parse_env_value, parse_env_map,
}
use mill.Validation.Resolve.{
  resolve_health, resolve_size, resolve_volumes, checked_service, checked_task,
}

abbrev is_multiple : ConfigError → Bool
is_multiple (multiple es) = true
is_multiple _ = false

abbrev pub IsPlain : ConfigError → Type 0
IsPlain e = is_multiple e ≡ false

abbrev pub AllPlain : List ConfigError → Type 0
AllPlain es = (x : ConfigError) → In x es → IsPlain x

push_error-AllPlain :
    (es : List ConfigError) (e : ConfigError) → IsPlain e → AllPlain es → AllPlain (push_error es e)
push_error-AllPlain es e p h x m = elim (In-append x es (e ∷ []) m) [
  | inl a ↦ h x a
  | inr (inl q) ↦ subst IsPlain q p
  | inr (inr z) ↦ absurd z
]

push-if :
    (b : Bool) (es : List ConfigError) (e : ConfigError)
    → IsPlain e
    → AllPlain es
    → AllPlain (if b then push_error es e else es)
push-if true es e p h = push_error-AllPlain es e p h
push-if false es e p h = h

cpu-AllPlain :
    (f : Float) (path : String) (cpu : F64) (es : List ConfigError)
    → AllPlain es
    → AllPlain (check_cpu f path cpu es)
cpu-AllPlain f path cpu es h = push-if (Float.le f cpu (Float.zero_f64 f)) es _ refl h

port-AllPlain :
    (path : String) (port : ℕ) (es : List ConfigError)
    → AllPlain es
    → AllPlain (check_port path port es)
port-AllPlain path port es h = push-if (port == 0) es _ refl h

number-AllPlain :
    (path what value : String) (es : List ConfigError) (r : Result String ℕ)
    → AllPlain es
    → AllPlain (number_or_zero path what value es r).1
unfolding number_or_zero
number-AllPlain path what value es (ok n) h = h
number-AllPlain path what value es (err e) h = push_error-AllPlain es _ refl h

expr-AllPlain :
    (path expr full_value : String) (es : List ConfigError)
    → AllPlain es
    → AllPlain (parse_interpolation_expr path expr full_value es).1
unfolding parse_interpolation_expr check_name
expr-AllPlain path expr full_value es h =
    elim (Option-cases (and_then (strip_prefix expr "secret(") (λ s. strip_suffix s ")"))) [
      | inr (r, m) ↦ rw (m, parse_interpolation_expr) (push-if _ es _ refl h)
      | inl m ↦
          elim (Option-cases
            (and_then (strip_prefix expr "service.") (λ s. strip_suffix s ".address"))) [
              | inr (s, n) ↦ rw (m, n, parse_interpolation_expr) (push-if _ es _ refl h)
              | inl n ↦ rw (m, n, parse_interpolation_expr) (push_error-AllPlain es _ refl h)
            ]
    ]

PlainSome : Option (Checked EnvValue) → Type 0
PlainSome none = true ≡ true
PlainSome (some r) = AllPlain r.1

parse_rest-PlainSome :
    (fuel : ℕ) (path value rest : String) (parts : List EnvPart) (es : List ConfigError)
    → AllPlain es
    → PlainSome (parse_rest fuel path value rest parts es)
unfolding parse_rest PlainSome
parse_rest-PlainSome zero path value rest parts es h = refl
parse_rest-PlainSome (suc fuel) path value rest parts es h =
    elim (Option-cases (split_first rest "${")) [
      | inl n ↦ rw (n, parse_rest, PlainSome) h
      | inr ((before, after), n) ↦ elim (Option-cases (split_first after "}")) [
        | inl m ↦ rw (n, m, parse_rest, PlainSome) (push_error-AllPlain es _ refl h)
        | inr ((expr, next), m) ↦
            rw (n, m, parse_rest, PlainSome)
              (parse_rest-PlainSome fuel path value next _ _ (expr-AllPlain path expr value es h))
      ]
    ]

value-AllPlain :
    (path value : String) (es : List ConfigError)
    → AllPlain es
    → AllPlain (parse_env_value path value es).1
unfolding parse_env_value read_of PlainSome
value-AllPlain path value es h =
    go _ (parse_rest-PlainSome (suc (count value)) path value value [] es h)
  where
    go : (o : Option (Checked EnvValue)) → PlainSome o → AllPlain (read_of es o).1
    go none c = h
    go (some r) c = c

env-AllPlain :
    (path : String) (raw : Map String String) (es : List ConfigError)
    → AllPlain es
    → AllPlain (parse_env_map path raw es).1
unfolding parse_env_map
env-AllPlain path [] es h = h
env-AllPlain path ((key, value) ∷ raw) es h =
    env-AllPlain path raw _ (value-AllPlain (path <> ".env." <> key) value es h)

module _ (p : Parsers) where
  byte_size-AllPlain :
      (path value : String) (es : List ConfigError)
      → AllPlain es
      → AllPlain (parse_byte_size p path value es).1
  unfolding parse_byte_size
  byte_size-AllPlain path value es h = number-AllPlain path "byte size" value es _ h

  duration-AllPlain :
      (path value : String) (es : List ConfigError)
      → AllPlain es
      → AllPlain (parse_duration p path value es).1
  unfolding parse_duration
  duration-AllPlain path value es h = number-AllPlain path "duration" value es _ h

  health-AllPlain :
      (path : String) (raw : Option RawHealthCheck) (es : List ConfigError)
      → AllPlain es
      → AllPlain (resolve_health p path raw es).1
  unfolding resolve_health
  health-AllPlain path none es h = h
  health-AllPlain path (some r) es h = push-if _ _ _ refl (duration-AllPlain _ r.interval es h)

  size-AllPlain :
      (path : String) (raw : Option String) (es : List ConfigError)
      → AllPlain es
      → AllPlain (resolve_size p path raw es).1
  unfolding resolve_size
  size-AllPlain path none es h = h
  size-AllPlain path (some s) es h = byte_size-AllPlain _ s es h

  volumes-AllPlain :
      (path : String) (raw : Map String RawVolumeDef) (es : List ConfigError)
      → AllPlain es
      → AllPlain (resolve_volumes p path raw es).1
  unfolding resolve_volumes
  volumes-AllPlain path [] es h = h
  volumes-AllPlain path ((name, r) ∷ rest) es h =
      volumes-AllPlain path rest _ (push-if _ _ _ refl (size-AllPlain _ r.size es h))

  pub checked_service-AllPlain :
      (f : Float) (name : String) (r : RawServiceDef) → AllPlain (checked_service f p name r).1
  unfolding checked_service
  checked_service-AllPlain f name r = volumes-AllPlain _ r.volume _ (
      health-AllPlain _ r.health _ (
        env-AllPlain _ r.env _ (
          port-AllPlain (("service." <> name) <> ".port") r.port _ (
            cpu-AllPlain f (("service." <> name) <> ".cpu") r.cpu _ (
              byte_size-AllPlain (("service." <> name) <> ".memory") r.memory []
                (λ x m. absurd m))))))

  pub checked_task-AllPlain :
      (f : Float) (name : String) (r : RawTaskDef) → AllPlain (checked_task f p name r).1
  unfolding checked_task
  checked_task-AllPlain f name r = env-AllPlain _ r.env _ (
      push-if _ _ _ refl
        (duration-AllPlain _ r.timeout _ (byte_size-AllPlain _ r.memory [] (λ x m. absurd m))))
