-- ===== src/Prelude/Maps.antt =====
-- `HashMap` and `BTreeMap` as lists of entries. The order of the entries stands for the order of
-- an iteration, which the program does not fix; an insertion keeps the place of a key it knows.
use mathlib.Core.Bool.{Bool, true, false}
use mathlib.Core.List.{List, [], ◌∷◌, map}
use mathlib.Core.Logic.{◌≢◌, ite}
use mathlib.Core.Option.{Option, none, some}
use mathlib.Core.Path.{◌≡◌, refl}
use native.Mathlib.Omega.{arith}
use mill.Prelude.Lists.{any}
use mathlib.Core.Logic.{inl, inr}
use mill.Prelude.Tests.{if◌then◌else◌, and_then, Bool-cases}

pub record Key {ℓ} (K : Type ℓ) : Type ℓ where
  pub dec : Discrete K

abbrev pub Map {ℓ κ} : Type ℓ → Type κ → Type (ℓ ⊔ κ)
Map K V = List (K × V)

module _ {ℓ κ} {K : Type ℓ} {V : Type κ} where
  abbrev pub keys : Map K V → List K
  keys = map (λ e. e.0)

  abbrev pub values : Map K V → List V
  values = map (λ e. e.1)

module _ {K : Type 0} {V : Type 0} ⦃k : Key K⦄ where
  unfoldable pub lookup : K → Map K V → Option V
  lookup a [] = none
  lookup a ((b, v) ∷ m) = ite (k.dec b a) (some v) (lookup a m)

  unfoldable pub insert : K → V → Map K V → Map K V
  insert a v [] = (a, v) ∷ []
  insert a v ((b, w) ∷ m) = ite (k.dec b a) ((a, v) ∷ m) ((b, w) ∷ insert a v m)

  unfoldable pub remove : K → Map K V → Map K V
  remove a [] = []
  remove a ((b, w) ∷ m) = let rest = remove a m in ite (k.dec b a) rest ((b, w) ∷ rest)

  unfoldable pub retain : (K → V → Bool) → Map K V → Map K V
  retain p [] = []
  retain p ((b, w) ∷ m) = let rest = retain p m in if p b w then (b, w) ∷ rest else rest

  -- Each key stands once, as in every map of the program.
  abbrev pub Distinct : Map K V → Type 0
  Distinct [] = Unit
  Distinct ((b, w) ∷ m) = (lookup b m ≡ none) × Distinct m

  pub lookup-insert :
      (a c : K) (v : V) (m : Map K V)
      → lookup c (insert a v m) ≡ ite (k.dec a c) (some v) (lookup c m)
  unfolding lookup insert
  lookup-insert a c v [] = refl
  lookup-insert a c v ((b, w) ∷ m) = ground (arith, lookup-insert a c v m)

  pub lookup-insert_self : (a : K) (v : V) (m : Map K V) → lookup a (insert a v m) ≡ some v
  lookup-insert_self a v m = ground (arith, lookup-insert a a v m)

  pub lookup-insert_ne :
      (a c : K) (v : V) (m : Map K V) → a ≢ c → lookup c (insert a v m) ≡ lookup c m
  lookup-insert_ne a c v m h = ground (arith, lookup-insert a c v m)

  pub lookup-remove :
      (a c : K) (m : Map K V) → lookup c (remove a m) ≡ ite (k.dec a c) none (lookup c m)
  unfolding lookup remove
  lookup-remove a c [] = ground arith
  lookup-remove a c ((b, w) ∷ m) = ground (arith, lookup-remove a c m)

  lookup-retain-none :
      (p : K → V → Bool) (a : K) (m : Map K V) → lookup a m ≡ none → lookup a (retain p m) ≡ none
  unfolding lookup retain
  lookup-retain-none p a [] h = refl
  lookup-retain-none p a ((b, w) ∷ m) h = ground (arith, lookup-retain-none p a m)

  -- A key survives exactly if its value passes the test.
  pub lookup-retain :
      (p : K → V → Bool) (a : K) (m : Map K V)
      → Distinct m
      → lookup a (retain p m) ≡ and_then (lookup a m) (λ v. if p a v then some v else none)
  unfolding lookup retain
  lookup-retain p a [] d = refl
  lookup-retain p a ((b, w) ∷ m) d =
      ground (arith, lookup-retain p a m d.1, lookup-retain-none p b m d.0)

  pub insert-Distinct : (a : K) (v : V) (m : Map K V) → Distinct m → Distinct (insert a v m)
  unfolding lookup insert
  insert-Distinct a v [] d = ground arith
  insert-Distinct a v ((b, w) ∷ m) d =
      ground (arith, insert-Distinct a v m d.1, lookup-insert a b v m)

  pub remove-Distinct : (a : K) (m : Map K V) → Distinct m → Distinct (remove a m)
  unfolding remove
  remove-Distinct a [] d = tt
  remove-Distinct a ((b, w) ∷ m) d = ground (arith, remove-Distinct a m d.1, lookup-remove a b m)

  pub retain-Distinct : (p : K → V → Bool) (m : Map K V) → Distinct m → Distinct (retain p m)
  unfolding retain
  retain-Distinct p [] d = tt
  retain-Distinct p ((b, w) ∷ m) d =
      ground (arith, retain-Distinct p m d.1, lookup-retain-none p b m d.0)

  -- What `any` denies of all values it denies of each entry.
  pub any-values-false :
      (p : V → Bool) (m : Map K V) (a : K) (v : V)
      → any p (values m) ≡ false
      → lookup a m ≡ some v
      → p v ≡ false
  unfolding lookup
  any-values-false p [] a v h e = cc
  any-values-false p ((b, w) ∷ m) a v h e = ground (arith, any-values-false p m a v)

  pub any-values-true :
      (p : V → Bool) (m : Map K V)
      → Distinct m
      → any p (values m) ≡ true
      → (a : K) × (v : V) × (lookup a m ≡ some v) × (p v ≡ true)
  unfolding lookup
  any-values-true p [] d h = cc
  any-values-true p ((b, w) ∷ m) d h = elim (Bool-cases (p w)) [
    | inl e ↦ (b, w, ground arith, e)
    | inr e ↦ later (any-values-true p m d.1 (ground arith))
  ]
    where
      later :
          (a : K) × (v : V) × (lookup a m ≡ some v) × (p v ≡ true)
          → (a : K) × (v : V) × (lookup a ((b, w) ∷ m) ≡ some v) × (p v ≡ true)
      later (a, v, f, g) = (a, v, ground arith, g)
