-- ===== src/Scheduler/Spread.antt =====
-- Spreading a service, and packing a node: which of the candidates is taken.
use mill.Prelude.{
  inr, inl, arith, subst, refl, ◌≡◌, Bool, true, false, ◌∷◌, [], List, not, if◌then◌else◌,
  string_key, nat_key, In, In-filterb, filterb-In,
}
use mill.Prelude.Float.{Float}
use mill.Config.Runtime.{is_service}
use mill.Scheduler.{
  ScheduleRequest, Candidate, ExistingAlloc, spread, spread_over, min_from, has_same,
  bin_pack_score,
}

pub In-spread :
    (request : ScheduleRequest) (allocs : List ExistingAlloc) (cs : List Candidate) (c : Candidate)
    → In c (spread request allocs cs)
    → In c cs
unfolding spread
In-spread request allocs cs c m = go (is_service request.kind) m
  where
    chosen :
        (l : List Candidate)
        → (In c l → In c cs)
        → In c (elim l [ [] ↦ cs | d ∷ ds ↦ d ∷ ds ])
        → In c cs
    chosen [] f m = m
    chosen (d ∷ ds) f m = f m

    go :
        (b : Bool)
        → In c
            (if b then elim (spread_over request allocs cs) [ [] ↦ cs | d ∷ ds ↦ d ∷ ds ] else cs)
        → In c cs
    go false m = m
    go true m =
        chosen (spread_over request allocs cs)
          (λ k. (In-filterb (λ c. not (has_same request.name allocs c.0)) cs c k).0) m

pub spread_none :
    (request : ScheduleRequest) (allocs : List ExistingAlloc) (cs : List Candidate)
    → spread request allocs cs ≡ []
    → cs ≡ []
unfolding spread
spread_none request allocs cs h = go (is_service request.kind) (spread_over request allocs cs) h
  where
    go :
        (b : Bool) (l : List Candidate)
        → (if b then elim l [ [] ↦ cs | d ∷ ds ↦ d ∷ ds ] else cs) ≡ []
        → cs ≡ []
    go false l h = h
    go true [] h = h
    go true (d ∷ ds) h = cc

-- Where some candidate runs no copy of the service, no candidate that is left runs one.
pub spread_apart :
    (request : ScheduleRequest) (allocs : List ExistingAlloc) (cs : List Candidate)
    (c d : Candidate)
    → is_service request.kind ≡ true
    → In d cs
    → has_same request.name allocs d.0 ≡ false
    → In c (spread request allocs cs)
    → has_same request.name allocs c.0 ≡ false
unfolding spread
spread_apart request allocs cs c d s i h m =
    let apart =
      filterb-In (λ c. not (has_same request.name allocs c.0)) cs d i (ground (arith, h)) in
    let kept = In-filterb (λ c. not (has_same request.name allocs c.0)) cs c in
    go (spread_over request allocs cs) apart (λ k. kept k)
      (subst
        (λ b.
          In c
            (if b then elim (spread_over request allocs cs) [ [] ↦ cs | d ∷ ds ↦ d ∷ ds ] else cs))
        s m)
  where
    go :
        (l : List Candidate)
        → In d l
        → (In c l → In c cs × (not (has_same request.name allocs c.0) ≡ true))
        → In c (elim l [ [] ↦ cs | d ∷ ds ↦ d ∷ ds ])
        → has_same request.name allocs c.0 ≡ false
    go [] a k m = absurd a
    go (e ∷ es) a k m = ground (arith, (k m).1)

pub In-min_from : (f : Float) (b : Candidate) (cs : List Candidate) → In (min_from f b cs) (b ∷ cs)
unfolding min_from
In-min_from f b [] = inl refl
In-min_from f b (c ∷ cs) =
    go (Float.lt f (bin_pack_score f c.1) (bin_pack_score f b.1)) (In-min_from f b cs)
      (In-min_from f c cs)
  where
    go :
        (t : Bool)
        → In (min_from f b cs) (b ∷ cs)
        → In (min_from f c cs) (c ∷ cs)
        → In (min_from f (if t then c else b) cs) (b ∷ c ∷ cs)
    go true old new = inr new
    go false (inl e) new = inl e
    go false (inr m) new = inr (inr m)
