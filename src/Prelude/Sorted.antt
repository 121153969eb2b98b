-- ===== src/Prelude/Sorted.antt =====
-- `BTreeMap` and `BTreeSet` with numbers for keys: entries in ascending order. A set has values in
-- `Unit`.
use mill.Prelude.Tests.{ltb, ◌==◌, if◌then◌else◌}
use Prim.Native.Nat.{ℕ, suc, ◌≤◌, ◌<◌}
use mathlib.Core.Bool.{Bool, true, false}
use mathlib.Core.List.{List, [], ◌∷◌, map}
use mathlib.Core.Option.{Option, none, some}
use mathlib.Core.Path.{◌≡◌, refl}
use mathlib.Core.Logic.{inl, inr}
use mill.Prelude.Tests.{Option-cases}
use native.Mathlib.Omega.{arith}

abbrev pub Sorted {ℓ} : Type ℓ → Type ℓ
Sorted V = List (ℕ × V)

abbrev mem_key : ℕ → List ℕ → Bool
mem_key j [] = false
mem_key j (k ∷ ks) = let rest = mem_key j ks in if j == k then true else rest

module _ {V : Type 0} where
  unfoldable pub at : ℕ → Sorted V → Option V
  at k [] = none
  at k ((j, v) ∷ m) = let rest = at k m in if k == j then some v else rest

  unfoldable pub put : ℕ → V → Sorted V → Sorted V
  put k v [] = (k, v) ∷ []
  put k v ((j, w) ∷ m) =
      let rest = put k v m in
      if ltb k j then (k, v) ∷ (j, w) ∷ m else if k == j then (k, v) ∷ m else (j, w) ∷ rest

  unfoldable pub delete : ℕ → Sorted V → Sorted V
  delete k [] = []
  delete k ((j, v) ∷ m) = let rest = delete k m in if k == j then rest else (j, v) ∷ rest

  -- The entries with keys that pass a test, in order: what `range` goes through.
  unfoldable pub select : (ℕ → Bool) → Sorted V → Sorted V
  select p [] = []
  select p ((j, v) ∷ m) = let rest = select p m in if p j then (j, v) ∷ rest else rest

  unfoldable pub first : Sorted V → Option (ℕ × V)
  first [] = none
  first (e ∷ m) = some e

  unfoldable pub last : Sorted V → Option (ℕ × V)
  last [] = none
  last (e ∷ []) = some e
  last (e ∷ e' ∷ m) = last (e' ∷ m)

  unfoldable pub delete_all : List ℕ → Sorted V → Sorted V
  delete_all [] m = m
  delete_all (k ∷ ks) m = delete_all ks (delete k m)

  -- The keys rise along the list and start at the bound.
  abbrev pub Above : ℕ → Sorted V → Type 0
  Above b [] = Unit
  Above b ((k, v) ∷ m) = (b ≤ k) × Above (suc k) m

  pub Above-mono : (b c : ℕ) (m : Sorted V) → c ≤ b → Above b m → Above c m
  Above-mono b c [] h a = tt
  Above-mono b c ((k, v) ∷ m) h a = (omega arith, a.1)

  pub at-put :
      (k j : ℕ) (v : V) (m : Sorted V) → at j (put k v m) ≡ (if j == k then some v else at j m)
  unfolding at put
  at-put k j v [] = refl
  at-put k j v ((i, w) ∷ m) = ground (arith, at-put k j v m)

  pub at-delete : (k j : ℕ) (m : Sorted V) → at j (delete k m) ≡ (if j == k then none else at j m)
  unfolding at delete
  at-delete k j [] = ground arith
  at-delete k j ((i, w) ∷ m) = ground (arith, at-delete k j m)

  pub at-select :
      (p : ℕ → Bool) (j : ℕ) (m : Sorted V) → at j (select p m) ≡ (if p j then at j m else none)
  unfolding at select
  at-select p j [] = ground arith
  at-select p j ((i, w) ∷ m) = ground (arith, at-select p j m)

  pub at_below : (b k : ℕ) (m : Sorted V) → Above b m → k < b → at k m ≡ none
  unfolding at
  at_below b k [] a h = refl
  at_below b k ((j, v) ∷ m) a h = ground (arith, at_below (suc j) k m a.1)

  pub put-Above : (b k : ℕ) (v : V) (m : Sorted V) → b ≤ k → Above b m → Above b (put k v m)
  unfolding put
  put-Above b k v [] h a = (h, tt)
  put-Above b k v ((j, w) ∷ m) h a = ground (arith, put-Above (suc j) k v m)

  pub delete-Above : (b k : ℕ) (m : Sorted V) → Above b m → Above b (delete k m)
  unfolding delete
  delete-Above b k [] a = tt
  delete-Above b k ((j, w) ∷ m) a =
      ground (arith, delete-Above (suc j) k m a.1, Above-mono (suc j) b (delete k m))

  pub delete_all-Above :
      (b : ℕ) (ks : List ℕ) (m : Sorted V) → Above b m → Above b (delete_all ks m)
  unfolding delete_all
  delete_all-Above b [] m a = a
  delete_all-Above b (k ∷ ks) m a = delete_all-Above b ks (delete k m) (delete-Above b k m a)

  -- The first entry has the least key, and stands under it.
  pub first_least :
      (b : ℕ) (m : Sorted V) (e : ℕ × V)
      → Above b m
      → first m ≡ some e
      → (at e.0 m ≡ some e.1) × ((k : ℕ) (v : V) → at k m ≡ some v → e.0 ≤ k)
  unfolding at first
  first_least b [] e a h = cc
  first_least b ((j, w) ∷ m) e a h =
      (ground arith, λ k v g. ground (arith, at_below (suc j) k m a.1))

  pub first-none : (m : Sorted V) → first m ≡ none → (k : ℕ) → at k m ≡ none
  unfolding at first
  first-none [] h k = refl
  first-none (e ∷ m) h k = cc

  -- The last entry has the greatest key.
  pub last_greatest :
      (b : ℕ) (m : Sorted V) (e : ℕ × V)
      → Above b m
      → last m ≡ some e
      → (at e.0 m ≡ some e.1) × (b ≤ e.0) × ((k : ℕ) (v : V) → at k m ≡ some v → k ≤ e.0)
  unfolding at last
  last_greatest b [] e a h = cc
  last_greatest b ((j, w) ∷ []) e a h = (ground arith, ground arith, λ k v g. ground arith)
  last_greatest b ((j, w) ∷ f ∷ m) e a h =
      let (here, above, greatest) = last_greatest (suc j) (f ∷ m) e a.1 h in
      (ground arith, omega arith, λ k v g. ground (arith, greatest k v))

  pub last-none : (m : Sorted V) → last m ≡ none → (k : ℕ) → at k m ≡ none
  unfolding at last
  last-none [] h k = refl
  last-none (e ∷ []) h k = cc
  last-none (e ∷ f ∷ m) h k = absurd (last_cons f m h)
    where
      last_cons : (f : ℕ × V) (m : Sorted V) → last (f ∷ m) ≡ none → ⊥
      last_cons f [] h = cc
      last_cons f (g ∷ m) h = last_cons g m h

  -- Deleting the keys of a selection leaves what the selection does not take.
  at-delete_all :
      (ks : List ℕ) (j : ℕ) (m : Sorted V)
      → at j (delete_all ks m) ≡ (if mem_key j ks then none else at j m)
  unfolding delete_all
  at-delete_all [] j m = refl
  at-delete_all (k ∷ ks) j m = ground (arith, at-delete_all ks j (delete k m), at-delete k j m)

  mem_key-select_out :
      (p : ℕ → Bool) (j : ℕ) (m : Sorted V)
      → p j ≡ false
      → mem_key j (map (λ e. e.0) (select p m)) ≡ false
  unfolding select
  mem_key-select_out p j [] h = refl
  mem_key-select_out p j ((i, w) ∷ m) h = ground (arith, mem_key-select_out p j m)

  mem_key-select :
      (p : ℕ → Bool) (j : ℕ) (m : Sorted V) (v : V)
      → at j m ≡ some v
      → mem_key j (map (λ e. e.0) (select p m)) ≡ p j
  unfolding at select
  mem_key-select p j [] v h = cc
  mem_key-select p j ((i, w) ∷ m) v h =
      ground (arith, mem_key-select p j m v, mem_key-select_out p j m)

  pub at-delete_selected :
      (p : ℕ → Bool) (j : ℕ) (m : Sorted V)
      → at j (delete_all (map (λ e. e.0) (select p m)) m) ≡ (if p j then none else at j m)
  at-delete_selected p j m = elim (Option-cases (at j m)) [
    | inl e ↦ ground (arith, at-delete_all (map (λ e. e.0) (select p m)) j m)
    | inr (v, e) ↦
        ground (arith, at-delete_all (map (λ e. e.0) (select p m)) j m, mem_key-select p j m v e)
  ]
