-- ===== src/Scheduler/Packing.antt =====
-- The score of the candidate that is taken.
use mill.Scheduler.Spread.{In-min_from}
use mill.Prelude.{
  inr, inl, Bool-cases, arith, subst, refl, ◌≡◌, Bool, true, false, ◌∷◌, [], List, if◌then◌else◌,
  string_key, nat_key, In,
}
use mill.Prelude.Float.{F64, Float}
use mill.Scheduler.{Candidate, min_from, bin_pack_score}

-- How `<` orders the floats that are numbers: IEEE 754 says so of all but the NaNs.
pub record IsOrder (f : Float) (is_number : F64 → Bool) : Type 0 where
  pub asym : (a b : F64) → Float.lt f a b ≡ true → Float.lt f b a ≡ false
  pub trans :
      (a b c : F64)
      → is_number a ≡ true
      → is_number b ≡ true
      → is_number c ≡ true
      → Float.lt f a b ≡ false
      → Float.lt f b c ≡ false
      → Float.lt f a c ≡ false

module _ (f : Float) (is_number : F64 → Bool) (o : IsOrder f is_number) where
  irrefl : (a : F64) → Float.lt f a a ≡ false
  irrefl a = ground (arith, o.asym a a, Bool-cases (Float.lt f a a))

  abbrev pub Scored : List Candidate → Type 0
  Scored cs = (c : Candidate) → In c cs → is_number (bin_pack_score f c.1) ≡ true

  abbrev pub IsLeast : Candidate → List Candidate → Type 0
  IsLeast m cs =
      (d : Candidate) → In d cs → Float.lt f (bin_pack_score f d.1) (bin_pack_score f m.1) ≡ false

  -- A candidate that is not less than a least one is least with it.
  IsLeast-after :
      (b c m : Candidate) (cs : List Candidate)
      → Scored (b ∷ c ∷ cs)
      → In m (b ∷ c ∷ cs)
      → Float.lt f (bin_pack_score f b.1) (bin_pack_score f c.1) ≡ false
      → IsLeast m (c ∷ cs)
      → IsLeast m (b ∷ c ∷ cs)
  IsLeast-after b c m cs s i h l d (inr k) = l d k
  IsLeast-after b c m cs s i h l d (inl e) =
      subst (λ x. Float.lt f (bin_pack_score f x.1) (bin_pack_score f m.1) ≡ false) e
        (o.trans (bin_pack_score f b.1) (bin_pack_score f c.1) (bin_pack_score f m.1)
          (s b (inl refl)) (s c (inr (inl refl))) (s m i) h (l c (inl refl)))

  swapped : (b c m : Candidate) (cs : List Candidate) → In m (c ∷ b ∷ cs) → In m (b ∷ c ∷ cs)
  swapped b c m cs (inl e) = inr (inl e)
  swapped b c m cs (inr (inl e)) = inl e
  swapped b c m cs (inr (inr k)) = inr (inr k)

  skipped : (b c m : Candidate) (cs : List Candidate) → In m (b ∷ cs) → In m (b ∷ c ∷ cs)
  skipped b c m cs (inl e) = inl e
  skipped b c m cs (inr k) = inr (inr k)

  -- No candidate has a smaller score than the one that `min_by` gives.
  pub min_from-IsLeast :
      (b : Candidate) (cs : List Candidate) → Scored (b ∷ cs) → IsLeast (min_from f b cs) (b ∷ cs)
  unfolding min_from
  min_from-IsLeast b [] s = single
    where
      single : IsLeast b (b ∷ [])
      single d (inl e) =
          subst (λ x. Float.lt f (bin_pack_score f x.1) (bin_pack_score f b.1) ≡ false) e
            (irrefl (bin_pack_score f b.1))
      single d (inr m) = absurd m
  min_from-IsLeast b (c ∷ cs) s =
      go (Float.lt f (bin_pack_score f c.1) (bin_pack_score f b.1)) refl
        (min_from-IsLeast b cs (λ d k. s d (skipped b c d cs k)))
        (min_from-IsLeast c cs (λ d k. s d (inr k)))
    where
      go :
          (t : Bool)
          → Float.lt f (bin_pack_score f c.1) (bin_pack_score f b.1) ≡ t
          → IsLeast (min_from f b cs) (b ∷ cs)
          → IsLeast (min_from f c cs) (c ∷ cs)
          → IsLeast (min_from f (if t then c else b) cs) (b ∷ c ∷ cs)
      go true h old new =
          IsLeast-after b c (min_from f c cs) cs s (inr (In-min_from f c cs))
            (o.asym (bin_pack_score f c.1) (bin_pack_score f b.1) h) new
      go false h old new =
          let least =
            IsLeast-after c b (min_from f b cs) cs (λ x i. s x (swapped b c x cs i))
              (inr (In-min_from f b cs)) h old in
          λ d k. least d (swapped c b d cs k)
