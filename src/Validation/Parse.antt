-- ===== src/Validation/Parse.antt =====
-- crates/config/src/validate/parse.rs. The parsers of the crates bytesize and humantime are a
-- parameter; each answers with a number or the text of its error. A function that pushes to a list
-- of errors returns the list beside its result.
pub mod Spelling
pub mod Named
use mill.Prelude.{
  inr, inl, Option-cases, Bool-cases, ◌≤◌, ◌<◌, ap, ◌⊎◌, arith, ◌∙◌, sym, subst, refl, none, some,
  ◌≡◌, Option, Bool, true, false, ◌∷◌, [], List, ℕ, zero, suc, ◌+◌, ◌-◌, ◌*◌, ◌%◌, ◌&&◌, ◌||◌, not,
  ltb, leb, ◌==◌, if◌then◌else◌, and_then, option_map, is_some, String, str_eq, str_eq_iff,
  string_key, nat_key, Map, lookup, insert, remove, retain, keys, values, Distinct, map, ◌++◌, ◌<>◌,
  display, any, filterb, find_first, length, In, any-true, any-false, In-filterb, filterb-In,
  lookup-insert, lookup-remove, lookup-retain, ite, max, ℕ_discrete, string_discrete, ◌↔◌, ◌≢◌,
  trim, strip_suffix, empty_text, split_first, strip_prefix,
}
use Prim.Native.String.{count}
use mill.Prelude.Exec.{Result, ok, err}
use mill.Config.Env.{EnvPart, EnvValue}
use mill.Validation.{ConfigError, invalid_field, push_error}

pub record Parsers : Type 0 where
  pub byte_size : String → Result String ℕ
  pub duration : String → Result String ℕ

abbrev pub Checked : Type 0 → Type 0
Checked A = A × List ConfigError

unfoldable pub number_or_zero :
    String → String → String → List ConfigError → Result String ℕ → Checked ℕ
number_or_zero path what value errors (ok n) = (n, errors)
number_or_zero path what value errors (err e) =
    (0, push_error errors (invalid_field path ("invalid " <> what <> " '" <> value <> "': " <> e)))

unfoldable pub parse_byte_size : Parsers → String → String → List ConfigError → Checked ℕ
unfolding number_or_zero
parse_byte_size p path value errors =
    number_or_zero path "byte size" value errors (Parsers.byte_size p value)

unfoldable pub parse_duration : Parsers → String → String → List ConfigError → Checked ℕ
unfolding number_or_zero
parse_duration p path value errors =
    number_or_zero path "duration" value errors (Parsers.duration p value)

unfoldable pub check_name : String → String → String → String → List ConfigError → List ConfigError
check_name path what full_value name errors =
    if empty_text name
    then push_error errors
        (invalid_field path ("empty " <> what <> " name in '" <> full_value <> "'"))
    else errors

unfoldable pub parse_interpolation_expr :
    String → String → String → List ConfigError → Checked EnvPart
unfolding check_name
parse_interpolation_expr path expr full_value errors =
    elim (and_then (strip_prefix expr "secret(") (λ s. strip_suffix s ")")) [
      | some inner ↦
          let name = trim inner in
          (EnvPart.secret name, check_name path "secret" full_value name errors)
      | none ↦ elim (and_then (strip_prefix expr "service.") (λ s. strip_suffix s ".address")) [
        | some name ↦
            (EnvPart.service_address name, check_name path "service" full_value name errors)
        | none ↦ (
          EnvPart.literal ("${" <> expr <> "}"),
          push_error errors (
              invalid_field path
                ("unknown interpolation '${" <> expr <> "}' in '" <> full_value <> "'")),
        )
      ]
    ]

-- what follows the loop
unfoldable pub value_of : List EnvPart → EnvValue
value_of [] = EnvValue.literal ""
value_of (part ∷ parts) = EnvValue.interpolated (part ∷ parts)

-- the end of the loop where there is no further `${`
unfoldable pub trailing : String → List EnvPart → EnvValue
unfolding value_of
trailing rest [] = EnvValue.literal rest
trailing rest (part ∷ parts) =
    value_of
      (if empty_text rest then part ∷ parts else (part ∷ parts) ++ (EnvPart.literal rest ∷ []))

unfoldable pub push_literal : String → List EnvPart → List EnvPart
push_literal s parts = if empty_text s then parts else parts ++ (EnvPart.literal s ∷ [])

-- The loop; `none` where the fuel does not suffice.
unfoldable pub parse_rest :
    ℕ → String → String → String → List EnvPart → List ConfigError → Option (Checked EnvValue)
unfolding parse_interpolation_expr trailing push_literal value_of
parse_rest zero path value rest parts errors = none
parse_rest (suc fuel) path value rest parts errors = elim (split_first rest "${") [
  | none ↦ some (trailing rest parts, errors)
  | some (before, after) ↦ elim (split_first after "}") [
    | none ↦ some (
      value_of (push_literal before parts ++ (EnvPart.literal ("${" <> after) ∷ [])),
      push_error errors (invalid_field path ("unclosed interpolation in '" <> value <> "'")),
    )
    | some (expr, next) ↦
        let (part, found) = parse_interpolation_expr path expr value errors in
        parse_rest fuel path value next (push_literal before parts ++ (part ∷ [])) found
  ]
]

-- The default is for a run out of fuel, which has a step for each character and one more.
unfoldable pub read_of : List ConfigError → Option (Checked EnvValue) → Checked EnvValue
read_of errors none = (EnvValue.literal "", errors)
read_of errors (some r) = r

unfoldable pub parse_env_value : String → String → List ConfigError → Checked EnvValue
unfolding parse_rest read_of
parse_env_value path value errors =
    read_of errors (parse_rest (suc (count value)) path value value [] errors)

unfoldable pub parse_env_map :
    String → Map String String → List ConfigError → Checked (Map String EnvValue)
unfolding parse_env_value split_first strip_suffix trim
parse_env_map parent_path [] errors = ([], errors)
parse_env_map parent_path ((key, value) ∷ raw) errors =
    let (parsed, found) = parse_env_value (parent_path <> ".env." <> key) value errors in
    let (rest, all) = parse_env_map parent_path raw found in ((key, parsed) ∷ rest, all)

two_services : parse_env_value "p" "${service.a.address}:${secret( b )}" [] ≡ (
  EnvValue.interpolated
      (EnvPart.service_address "a" ∷ EnvPart.literal ":" ∷ EnvPart.secret "b" ∷ []),
  [],
)
unfolding parse_env_value split_first strip_suffix trim
two_services = refl
