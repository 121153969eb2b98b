-- ===== src/Validation/Parse/Named.antt =====
-- What a parsed environment is like where no error was found.
use Prim.Native.String.{count}
use mill.Prelude.{
  inr, inl, Option-cases, ap, refl, none, some, ◌≡◌, Option, Bool, true, false, ◌∷◌, [], List, ℕ,
  zero, suc, if◌then◌else◌, and_then, String, string_key, nat_key, Map, keys, values, ◌++◌, ◌<>◌,
  ◌≢◌, All, strip_suffix, split_first, strip_prefix, empty_text,
}
use mill.Config.Env.{EnvPart, EnvValue}
use mill.Validation.{ConfigError, push_error}
use mill.Validation.Parse.{
  read_of, Checked, parse_interpolation_expr, value_of, trailing, push_literal, parse_rest,
  parse_env_value, parse_env_map, check_name,
}

-- A check that pushes where a test fails found nothing, and nothing was found before.
pub no_push :
    (b : Bool) (errors : List ConfigError) (e : ConfigError)
    → (if b then push_error errors e else errors) ≡ []
    → (b ≡ false) × (errors ≡ [])
no_push false errors e h = (refl, h)
no_push true [] e h = cc
no_push true (x ∷ xs) e h = cc

pub push_error-ne_nil : (errors : List ConfigError) (e : ConfigError) → push_error errors e ≢ []
push_error-ne_nil [] e h = cc
push_error-ne_nil (x ∷ xs) e h = cc

-- A part names a secret or a service.
abbrev pub IsNamed : EnvPart → Type 0
IsNamed (EnvPart.literal s) = empty_text s ≡ empty_text s
IsNamed (EnvPart.service_address s) = empty_text s ≡ false
IsNamed (EnvPart.secret s) = empty_text s ≡ false

abbrev pub AllNamed : List EnvPart → Type 0
AllNamed ps = All IsNamed ps

abbrev pub AllNamedIn : EnvValue → Type 0
AllNamedIn (EnvValue.literal s) = empty_text s ≡ empty_text s
AllNamedIn (EnvValue.interpolated ps) = AllNamed ps

AllNamed-snoc :
    (ps : List EnvPart) (p : EnvPart) → AllNamed ps → IsNamed p → AllNamed (ps ++ (p ∷ []))
AllNamed-snoc [] p h k = (k, tt)
AllNamed-snoc (q ∷ ps) p h k = (h.0, AllNamed-snoc ps p h.1 k)

push_literal-AllNamed :
    (s : String) (ps : List EnvPart) → AllNamed ps → AllNamed (push_literal s ps)
unfolding push_literal
push_literal-AllNamed String.[] ps h = h
push_literal-AllNamed (String.◌∷◌ c s) ps h = AllNamed-snoc ps _ h refl

value_of-AllNamedIn : (ps : List EnvPart) → AllNamed ps → AllNamedIn (value_of ps)
unfolding value_of
value_of-AllNamedIn [] h = refl
value_of-AllNamedIn (p ∷ ps) h = h

trailing-AllNamedIn : (s : String) (ps : List EnvPart) → AllNamed ps → AllNamedIn (trailing s ps)
unfolding trailing push_literal
trailing-AllNamedIn s [] h = refl
trailing-AllNamedIn s (p ∷ ps) h = value_of-AllNamedIn _ (push_literal-AllNamed s (p ∷ ps) h)

parse_interpolation_expr-IsNamed :
    (path expr full_value : String) (errors : List ConfigError)
    → (parse_interpolation_expr path expr full_value errors).1 ≡ []
    → (errors ≡ []) × IsNamed (parse_interpolation_expr path expr full_value errors).0
unfolding parse_interpolation_expr check_name
parse_interpolation_expr-IsNamed path expr full_value errors =
    elim (Option-cases (and_then (strip_prefix expr "secret(") (λ s. strip_suffix s ")"))) [
      | inr (r, m) ↦
          rw (m, parse_interpolation_expr, IsNamed)
            (λ h. let (named, before) = no_push _ errors _ h in (before, named))
      | inl m ↦
          elim (Option-cases
            (and_then (strip_prefix expr "service.") (λ s. strip_suffix s ".address"))) [
              | inr (s, n) ↦
                  rw (m, n, parse_interpolation_expr, IsNamed)
                    (λ h. let (named, before) = no_push _ errors _ h in (before, named))
              | inl n ↦
                  rw (m, n, parse_interpolation_expr, IsNamed)
                    (λ h. absurd (push_error-ne_nil errors _ h))
            ]
    ]

-- Without an error now, there was none before, and every part of the value is named.
abbrev Clean : List ConfigError → Checked EnvValue → Type 0
Clean errors r = r.1 ≡ [] → (errors ≡ []) × AllNamedIn r.0

CleanSome : List ConfigError → Option (Checked EnvValue) → Type 0
CleanSome errors none = errors ≡ errors
CleanSome errors (some r) = Clean errors r

earlier :
    (errors found : List ConfigError) (o : Option (Checked EnvValue))
    → CleanSome found o
    → (found ≡ [] → errors ≡ [])
    → CleanSome errors o
unfolding CleanSome
earlier errors found none c k = refl
earlier errors found (some r) c k = λ e. (k (c e).0, (c e).1)

parse_rest-CleanSome :
    (fuel : ℕ) (path value rest : String) (parts : List EnvPart) (errors : List ConfigError)
    → (errors ≡ [] → AllNamed parts)
    → CleanSome errors (parse_rest fuel path value rest parts errors)
unfolding parse_rest CleanSome
parse_rest-CleanSome zero path value rest parts errors h = refl
parse_rest-CleanSome (suc fuel) path value rest parts errors h =
    elim (Option-cases (split_first rest "${")) [
      | inl n ↦ rw (n, parse_rest, CleanSome) (λ e. (e, trailing-AllNamedIn rest parts (h e)))
      | inr ((before, after), n) ↦ elim (Option-cases (split_first after "}")) [
        | inl m ↦ rw (n, m, parse_rest, CleanSome) (λ e. absurd (push_error-ne_nil errors _ e))
        | inr ((expr, next), m) ↦
            let read = parse_interpolation_expr path expr value errors in
            let named = parse_interpolation_expr-IsNamed path expr value errors in
            rw (n, m, parse_rest, CleanSome)
              (earlier errors read.1 _
                (parse_rest-CleanSome fuel path value next
                  (push_literal before parts ++ (read.0 ∷ [])) read.1
                  (λ e.
                    AllNamed-snoc _ read.0 (push_literal-AllNamed before parts (h (named e).0))
                      (named e).1))
                (λ e. (named e).0))
      ]
    ]

parse_env_value-Clean :
    (path value : String) (errors : List ConfigError)
    → Clean errors (parse_env_value path value errors)
unfolding parse_env_value read_of CleanSome
parse_env_value-Clean path value errors =
    go _ (parse_rest-CleanSome (suc (count value)) path value value [] errors (λ e. tt))
  where
    go : (o : Option (Checked EnvValue)) → CleanSome errors o → Clean errors (read_of errors o)
    go none c = λ e. (e, refl)
    go (some r) c = c

-- The values of an environment that leaves no error have no secret and no service without a name,
-- and their keys are those that were given.
pub parse_env_map-AllNamedIn :
    (parent_path : String) (raw : Map String String) (errors : List ConfigError)
    → (parse_env_map parent_path raw errors).1 ≡ []
    → (errors ≡ [])
      × (keys (parse_env_map parent_path raw errors).0 ≡ keys raw)
      × All (λ v. AllNamedIn v) (values (parse_env_map parent_path raw errors).0)
unfolding parse_env_map
parse_env_map-AllNamedIn path [] errors h = (h, refl, tt)
parse_env_map-AllNamedIn path ((key, value) ∷ raw) errors h =
    let (early, same, later) = parse_env_map-AllNamedIn path raw _ h in
    let (before, here) = parse_env_value-Clean (path <> ".env." <> key) value errors early in
    (before, ap (λ l. key ∷ l) same, (here, later))
