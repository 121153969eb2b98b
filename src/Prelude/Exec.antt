-- ===== src/Prelude/Exec.antt =====
-- Methods that change a state and may return early with an error, and rules about them. What was
-- done before the error stays done, so the state comes back beside it too.
use mathlib.Core.Path.{◌≡◌, refl, ap, sym, subst}
use mathlib.Core.Bool.{Bool, true, false}
use mill.Prelude.Tests.{if◌then◌else◌}
use mathlib.Core.Logic.{◌⊎◌, inl, inr}

pub data Result {ℓ} (E A : Type ℓ) : Type ℓ where
  ok : A → Result E A
  err : E → Result E A

abbrev pub Exec {ℓ} : Type ℓ → Type ℓ → Type ℓ → Type ℓ
Exec E S A = S → Result E A × S

module _ {ℓ} {E S A : Type ℓ} where
  abbrev pub pure : A → Exec E S A
  pure a s = (ok a, s)

  abbrev pub raise : E → Exec E S A
  raise e s = (err e, s)

  abbrev pub lift : Result E A → Exec E S A
  lift r s = (r, s)

module _ {ℓ} {E S A B : Type ℓ} where
  abbrev pub continue : Result E A → (A → Exec E S B) → Exec E S B
  continue (ok a) f s = f a s
  continue (err e) f s = (err e, s)

  infixl 10 ◌>>=◌ ◌>>◌
  unfoldable pub ◌>>=◌ : Exec E S A → (A → Exec E S B) → Exec E S B
  ◌>>=◌ m f s = let (r, s') = m s in continue r f s'

  abbrev pub ◌>>◌ : Exec E S A → Exec E S B → Exec E S B
  m >> n = m >>= λ _. n

-- The state holds `P` before and after, whether the method returns or fails.
pub record Keeps {ℓ} {E S A : Type ℓ} (P : S → Type ℓ) (m : Exec E S A) : Type ℓ where
  pub at : (s : S) → P s → P (m s).1

module _ {ℓ} {E S A : Type ℓ} {P : S → Type ℓ} where
  pub Keeps-pure : (a : A) → Keeps P (pure {E = E} a)
  Keeps-pure a = record { at = λ s h. h }

  pub Keeps-raise : (e : E) → Keeps P (raise {A = A} e)
  Keeps-raise e = record { at = λ s h. h }

  pub Keeps-lift : (r : Result E A) → Keeps P (lift r)
  Keeps-lift r = record { at = λ s h. h }

  pub Keeps-if :
      (b : Bool) (m n : Exec E S A) → Keeps P m → Keeps P n → Keeps P (if b then m else n)
  Keeps-if true m n km kn = km
  Keeps-if false m n km kn = kn

module _ {ℓ} {E S A B : Type ℓ} {P : S → Type ℓ} where
  continue-Keeps :
      (r : Result E A) (f : A → Exec E S B) (s : S)
      → ((a : A) → Keeps P (f a))
      → P s
      → P (continue r f s).1
  continue-Keeps (ok a) f s k h = Keeps.at (k a) s h
  continue-Keeps (err e) f s k h = h

  pub Keeps-bind :
      (m : Exec E S A) (f : A → Exec E S B)
      → Keeps P m
      → ((a : A) → Keeps P (f a))
      → Keeps P (m >>= f)
  unfolding ◌>>=◌
  Keeps-bind m f km kf = record {
    at = λ s h. continue-Keeps (m s).0 f (m s).1 kf (Keeps.at km s h);
  }

pub ruleset keeps_rules = (Keeps-pure, Keeps-raise, Keeps-lift, Keeps-if, Keeps-bind)

-- What a sequence returns comes from both of its parts; its error comes from one of them.
module _ {E S A B : Type 0} (m : Exec E S A) (f : A → Exec E S B) where
  pub bind_ok :
      (s : S) (b : B)
      → ((m >>= f) s).0 ≡ ok b
      → (a : A) × ((m s).0 ≡ ok a) × ((f a (m s).1).0 ≡ ok b) × (((m >>= f) s).1 ≡ (f a (m s).1).1)
  unfolding ◌>>=◌
  bind_ok s b h = go (m s).0 refl h
    where
      go :
          (r : Result E A)
          → (m s).0 ≡ r
          → (continue r f (m s).1).0 ≡ ok b
          → (a : A) × ((m s).0 ≡ ok a)
            × ((f a (m s).1).0 ≡ ok b)
            × ((continue (m s).0 f (m s).1).1 ≡ (f a (m s).1).1)
      go (ok a) e h = (a, e, h, ap (λ r. (continue r f (m s).1).1) e)
      go (err x) e h = cc

  pub bind_err :
      (s : S) (x : E)
      → ((m >>= f) s).0 ≡ err x
      → (((m s).0 ≡ err x) × (((m >>= f) s).1 ≡ (m s).1))
        ⊎ ((a : A) × ((m s).0 ≡ ok a)
            × ((f a (m s).1).0 ≡ err x)
            × (((m >>= f) s).1 ≡ (f a (m s).1).1))
  unfolding ◌>>=◌
  bind_err s x h = go (m s).0 refl h
    where
      go :
          (r : Result E A)
          → (m s).0 ≡ r
          → (continue r f (m s).1).0 ≡ err x
          → (((m s).0 ≡ err x) × ((continue (m s).0 f (m s).1).1 ≡ (m s).1))
            ⊎ ((a : A) × ((m s).0 ≡ ok a)
                × ((f a (m s).1).0 ≡ err x)
                × ((continue (m s).0 f (m s).1).1 ≡ (f a (m s).1).1))
      go (ok a) e h = inr (a, e, h, ap (λ r. (continue r f (m s).1).1) e)
      go (err y) e h = inl (cc, ap (λ r. (continue r f (m s).1).1) e)

-- Where the method returns, the state it leaves and what it returns are as said.
pub record Yields {E S A : Type 0} (Q : A → S → Type 0) (m : Exec E S A) : Type 0 where
  pub at : (s : S) (a : A) → (m s).0 ≡ ok a → Q a (m s).1

module _ {E S A B : Type 0} {Q : B → S → Type 0} where
  pub Yields-bind :
      (m : Exec E S A) (f : A → Exec E S B) → ((a : A) → Yields Q (f a)) → Yields Q (m >>= f)
  Yields-bind m f y = record {
    at = λ s b h.
        let (a, g, k, w) = bind_ok m f s b h in subst (Q b) (sym w) (Yields.at (y a) (m s).1 b k);
  }

module _ {E S A B : Type 0} {Q : S → Type 0} where
  pub Yields-discard :
      (m : Exec E S A) (b : B) → Yields (λ a. Q) m → Yields (λ b. Q) (m >>= λ a. pure b)
  Yields-discard m b y = record {
    at = λ s c h.
        let (a, g, k, w) = bind_ok m (λ a. pure b) s c h in subst Q (sym w) (Yields.at y s a g);
  }

-- A sequence stops with the error of its first part or goes on with what that returned.
module _ {E S A B : Type 0} (m : Exec E S A) (f : A → Exec E S B) where
  pub bind_split :
      (s : S)
      → ((x : E) × ((m s).0 ≡ err x) × ((m >>= f) s ≡ (err x, (m s).1)))
        ⊎ ((a : A) × ((m s).0 ≡ ok a) × ((m >>= f) s ≡ f a (m s).1))
  unfolding ◌>>=◌
  bind_split s = go (m s).0 refl
    where
      go :
          (r : Result E A)
          → (m s).0 ≡ r
          → ((x : E) × ((m s).0 ≡ err x) × (continue (m s).0 f (m s).1 ≡ (err x, (m s).1)))
            ⊎ ((a : A) × ((m s).0 ≡ ok a) × (continue (m s).0 f (m s).1 ≡ f a (m s).1))
      go (ok a) h = inr (a, h, ap (λ r. continue r f (m s).1) h)
      go (err x) h = inl (x, h, ap (λ r. continue r f (m s).1) h)

-- From a state with `P` the method ends in one with `P`, or the outcome is as said.
pub record Ends {E S A : Type 0} (P : S → Type 0) (R : Result E A × S → Type 0) (m : Exec E S A)
    : Type 0 where
  pub at : (s : S) → P s → P (m s).1 ⊎ R (m s)

module _ {E S A B : Type 0} {P : S → Type 0} {R : Result E B × S → Type 0} where
  pub Ends-bind :
      (m : Exec E S A) (f : A → Exec E S B)
      → Keeps P m
      → ((a : A) → Ends P R (f a))
      → Ends P R (m >>= f)
  Ends-bind m f k y = record { at = λ s h. go s h (bind_split m f s) }
    where
      go :
          (s : S)
          → P s
          → ((x : E) × ((m s).0 ≡ err x) × ((m >>= f) s ≡ (err x, (m s).1)))
            ⊎ ((a : A) × ((m s).0 ≡ ok a) × ((m >>= f) s ≡ f a (m s).1))
          → P ((m >>= f) s).1 ⊎ R ((m >>= f) s)
      go s h (inl (x, g, r)) = subst (λ o. P o.1 ⊎ R o) (sym r) (inl (Keeps.at k s h))
      go s h (inr (a, g, r)) =
          subst (λ o. P o.1 ⊎ R o) (sym r) (Ends.at (y a) (m s).1 (Keeps.at k s h))

-- Sequences are associative.
pub bind_assoc :
    {E S A B C : Type 0} (m : Exec E S A) (f : A → Exec E S B) (g : B → Exec E S C)
    → ((m >>= f) >>= g) ≡ (m >>= λ a. f a >>= g)
unfolding ◌>>=◌
bind_assoc {E} {S} {A} m f g i s = go (m s).0 (m s).1 i
  where
    go :
        (r : Result E A) (s' : S)
        → continue (continue r f s').0 g (continue r f s').1 ≡ continue r (λ a. f a >>= g) s'
    go (ok a) s' = refl
    go (err x) s' = refl
