-- ===== src/Validation/Parse/Spelling.antt =====
-- What text the parts of an environment value stand for.
use mill.Prelude.{
  inr, inl, Option-cases, ◌<◌, arith, sym, subst, refl, none, some, ◌≡◌, Option, ◌∷◌, [], List, ℕ,
  zero, suc, and_then, String, string_key, nat_key, ◌++◌, ◌<>◌, split_first-count,
  split_first_sound, strip_suffix_sound, strip_prefix_sound, strip_suffix, strip_prefix,
  split_first, trim,
}
use Prim.Native.String.{count}
use Prim.Native.String.append
use text.Mathlib.TextLemmas.{append_assoc, append-nil}
use mill.Config.Env.{EnvPart, EnvValue}
use mill.Validation.{ConfigError}
use mill.Validation.Parse.{
  read_of, parse_env_value, Checked, parse_interpolation_expr, value_of, trailing, push_literal,
  parse_rest,
}

-- Blanks around the name of a secret are not kept.
abbrev pub SpellsPart : EnvPart → String → Type 0
SpellsPart (EnvPart.literal s) t = t ≡ s
SpellsPart (EnvPart.service_address s) t = t ≡ "${service." <> s <> ".address}"
SpellsPart (EnvPart.secret n) t = (x : String) × (trim x ≡ n) × (t ≡ "${secret(" <> x <> ")}")

abbrev pub Spells : List EnvPart → String → Type 0
Spells [] t = t ≡ ""
Spells (p ∷ ps) t = (a : String) × (u : String) × SpellsPart p a × Spells ps u × (t ≡ a <> u)

abbrev pub SpellsValue : EnvValue → String → Type 0
SpellsValue (EnvValue.literal s) t = t ≡ s
SpellsValue (EnvValue.interpolated ps) t = Spells ps t

Spells-snoc :
    (ps : List EnvPart) (p : EnvPart) (t a : String)
    → Spells ps t
    → SpellsPart p a
    → Spells (ps ++ (p ∷ [])) (t <> a)
Spells-snoc [] p t a h k = (a, "", k, refl, cc (h, append.nil a, append-nil a))
Spells-snoc (q ∷ ps) p t a (b, u, hq, hs, e) k =
    (b, u <> a, hq, Spells-snoc ps p u a hs k, cc (e, append_assoc b u a))

push_literal-Spells :
    (s : String) (ps : List EnvPart) (t : String)
    → Spells ps t
    → Spells (push_literal s ps) (t <> s)
unfolding push_literal
push_literal-Spells String.[] ps t h = subst (Spells ps) (sym (append-nil t)) h
push_literal-Spells (String.◌∷◌ c s) ps t h =
    Spells-snoc ps (EnvPart.literal (String.◌∷◌ c s)) t (String.◌∷◌ c s) h refl

value_of-SpellsValue : (ps : List EnvPart) (t : String) → Spells ps t → SpellsValue (value_of ps) t
unfolding value_of
value_of-SpellsValue [] t h = h
value_of-SpellsValue (p ∷ ps) t h = h

trailing-SpellsValue :
    (rest : String) (ps : List EnvPart) (t : String)
    → Spells ps t
    → SpellsValue (trailing rest ps) (t <> rest)
unfolding trailing push_literal
trailing-SpellsValue rest [] t h = cc (h, append.nil rest)
trailing-SpellsValue rest (p ∷ ps) t h =
    value_of-SpellsValue _ (t <> rest) (push_literal-Spells rest (p ∷ ps) t h)

abbrev between : String → String → String → Option String
between e p q = and_then (strip_prefix e p) (λ s. strip_suffix s q)

between_sound : (e p q r : String) → between e p q ≡ some r → e ≡ p <> (r <> q)
between_sound e p q r h = elim (Option-cases (strip_prefix e p)) [
  | inl n ↦ absurd (ground (arith, h, n))
  | inr (s, n) ↦
      let ends : strip_suffix s q ≡ some r = ground (arith, h, n) in
      cc (strip_prefix_sound e p s n, strip_suffix_sound s q r ends)
]

braced :
    (p e q r : String) → e ≡ p <> (r <> q) → "${" <> (e <> "}") ≡ ("${" <> p) <> (r <> (q <> "}"))
braced p e q r h =
    cc (h, append_assoc "${" p (r <> (q <> "}")), append_assoc p (r <> q) "}", append_assoc r q "}")

parse_interpolation_expr-SpellsPart :
    (path expr full_value : String) (errors : List ConfigError)
    → SpellsPart (parse_interpolation_expr path expr full_value errors).0 ("${" <> (expr <> "}"))
unfolding parse_interpolation_expr
parse_interpolation_expr-SpellsPart path expr full_value errors =
    elim (Option-cases (between expr "secret(" ")")) [
      | inr (r, m) ↦
          rw (m, parse_interpolation_expr, SpellsPart)
            (r, refl, braced "secret(" expr ")" r (between_sound expr _ _ r m))
      | inl m ↦ elim (Option-cases (between expr "service." ".address")) [
        | inr (s, n) ↦
            rw (m, n, parse_interpolation_expr, SpellsPart)
              (braced "service." expr ".address" s (between_sound expr _ _ s n))
        | inl n ↦ rw (m, n, parse_interpolation_expr, SpellsPart) refl
      ]
    ]

SpellsSome : String → Option (Checked EnvValue) → Type 0
SpellsSome t none = ⊥
SpellsSome t (some r) = SpellsValue r.0 t

joined : (t u v w : String) → w ≡ u <> v → (t <> u) <> v ≡ t <> w
joined t u v w h = cc (h, append_assoc t u v)

rejoined :
    (t before expr next rest after : String)
    → rest ≡ before <> ("${" <> after)
    → after ≡ expr <> ("}" <> next)
    → ((t <> before) <> ("${" <> (expr <> "}"))) <> next ≡ t <> rest
rejoined t before expr next rest after h k = cc (
  h,
  k,
  append_assoc (t <> before) ("${" <> (expr <> "}")) next,
  append_assoc "${" (expr <> "}") next,
  append_assoc expr "}" next,
  append_assoc t before ("${" <> after),
)

parse_rest-SpellsSome :
    (fuel : ℕ) (path value rest : String) (parts : List EnvPart) (errors : List ConfigError)
    (t : String)
    → count rest < fuel
    → Spells parts t
    → SpellsSome (t <> rest) (parse_rest fuel path value rest parts errors)
unfolding parse_rest SpellsSome
parse_rest-SpellsSome zero path value rest parts errors t lt h = absurd (omega arith)
parse_rest-SpellsSome (suc fuel) path value rest parts errors t lt h =
    elim (Option-cases (split_first rest "${")) [
      | inl n ↦ rw (n, parse_rest, SpellsSome) (trailing-SpellsValue rest parts t h)
      | inr ((before, after), n) ↦
          let start = push_literal-Spells before parts t h in
          elim (Option-cases (split_first after "}")) [
            | inl m ↦
                rw (n, m, parse_rest, SpellsSome)
                  (subst (SpellsValue _)
                    (joined t before _ rest (split_first_sound rest _ before after n))
                    (value_of-SpellsValue _ _ (Spells-snoc _ (EnvPart.literal _) _ _ start refl)))
            | inr ((expr, next), m) ↦
                rw (n, m, parse_rest, SpellsSome)
                  (let part = parse_interpolation_expr path expr value errors in
                    subst
                      (λ u. SpellsSome u (
                        parse_rest fuel path value next (push_literal before parts ++ (part.0 ∷ []))
                          part.1))
                      (rejoined t before expr next rest after
                        (split_first_sound rest _ before after n)
                        (split_first_sound after _ expr next m))
                      (parse_rest-SpellsSome fuel path value next _ part.1 _
                        (omega (
                          arith,
                          split_first-count rest "${" before after n,
                          split_first-count after "}" expr next m,
                        ))
                        (Spells-snoc _ part.0 _ _ start
                          (parse_interpolation_expr-SpellsPart path expr value errors))))
          ]
    ]

-- Whatever an environment value holds, errors included, its loop ends with the fuel given, and the
-- parts that it is split into, in order, stand for the text that they came from: nothing of it is
-- lost but blanks around the name of a secret.
pub parse_env_value-SpellsValue :
    (path value : String) (errors : List ConfigError)
    → (parse_rest (suc (count value)) path value value [] errors
        ≡ some (parse_env_value path value errors))
      × SpellsValue (parse_env_value path value errors).0 value
unfolding parse_env_value read_of SpellsSome
parse_env_value-SpellsValue path value errors =
    let fits =
      parse_rest-SpellsSome (suc (count value)) path value value [] errors "" (omega arith) refl in
    elim (Option-cases (parse_rest (suc (count value)) path value value [] errors)) [
      | inl n ↦ absurd (subst (SpellsSome _) n fits)
      | inr (r, n) ↦
          rw (n, parse_env_value)
            (
              refl,
              subst (SpellsSome value) n (
                  subst
                    (λ u. SpellsSome u (parse_rest (suc (count value)) path value value [] errors))
                    (append.nil value) fits),
            )
    ]
