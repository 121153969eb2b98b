-- ===== src/Prelude/Member.antt =====
-- Which elements a list has, as a position and not merely that there is one.
use mathlib.Core.Path.{◌≡◌, refl, sym, ap, ◌∙◌}
use mathlib.Core.Logic.{◌⊎◌, inl, inr}
use mathlib.Core.Bool.{Bool, true, false}
use mathlib.Core.List.{List, [], ◌∷◌, ◌++◌}
use mill.Prelude.Tests.{if◌then◌else◌, Bool-cases}
use mill.Prelude.Lists.{any, filterb}
use native.Mathlib.Omega.{arith}

module _ {A : Type 0} where
  abbrev pub In : A → List A → Type 0
  In x [] = ⊥
  In x (y ∷ ys) = (y ≡ x) ⊎ In x ys

  pub In-append : (x : A) (xs ys : List A) → In x (xs ++ ys) → In x xs ⊎ In x ys
  In-append x [] ys m = inr m
  In-append x (z ∷ xs) ys (inl e) = inl (inl e)
  In-append x (z ∷ xs) ys (inr m) = elim (In-append x xs ys m) [
    | inl k ↦ inl (inr k)
    | inr k ↦ inr k
  ]

  pub In-append_left : (x : A) (xs ys : List A) → In x xs → In x (xs ++ ys)
  In-append_left x [] ys m = absurd m
  In-append_left x (z ∷ xs) ys (inl e) = inl e
  In-append_left x (z ∷ xs) ys (inr m) = inr (In-append_left x xs ys m)

  pub In-append_right : (x : A) (xs ys : List A) → In x ys → In x (xs ++ ys)
  In-append_right x [] ys m = m
  In-append_right x (z ∷ xs) ys m = inr (In-append_right x xs ys m)

module _ {A : Type 0} (p : A → Bool) where
  pub any-true : (l : List A) → any p l ≡ true → (x : A) × In x l × (p x ≡ true)
  any-true [] h = cc
  any-true (x ∷ xs) h = elim (Bool-cases (p x)) [
    | inl e ↦ (x, inl refl, e)
    | inr e ↦ let (y, m, k) = any-true xs (ground arith) in (y, inr m, k)
  ]

  pub any-false : (l : List A) (x : A) → any p l ≡ false → In x l → p x ≡ false
  any-false [] x h m = absurd m
  any-false (y ∷ ys) x h (inl e) = sym (ap p e) ∙ ground arith
  any-false (y ∷ ys) x h (inr m) = any-false ys x (ground arith) m

  pub In-filterb : (l : List A) (x : A) → In x (filterb p l) → In x l × (p x ≡ true)
  In-filterb [] x m = absurd m
  In-filterb (y ∷ ys) x m = go (p y) refl m (In-filterb ys x)
    where
      go :
          (b : Bool)
          → p y ≡ b
          → In x (if b then y ∷ filterb p ys else filterb p ys)
          → (In x (filterb p ys) → In x ys × (p x ≡ true))
          → In x (y ∷ ys) × (p x ≡ true)
      go true e (inl h) f = (inl h, sym (ap p h) ∙ e)
      go true e (inr m) f = let (k, h) = f m in (inr k, h)
      go false e m f = let (k, h) = f m in (inr k, h)

  pub filterb-In : (l : List A) (x : A) → In x l → p x ≡ true → In x (filterb p l)
  filterb-In [] x m h = absurd m
  filterb-In (y ∷ ys) x m h = go (p y) refl m (λ k. filterb-In ys x k h)
    where
      go :
          (b : Bool)
          → p y ≡ b
          → In x (y ∷ ys)
          → (In x ys → In x (filterb p ys))
          → In x (if b then y ∷ filterb p ys else filterb p ys)
      go true e (inl k) f = inl k
      go true e (inr k) f = inr (f k)
      go false e (inl k) f = ground (arith, ap p k)
      go false e (inr k) f = f k
