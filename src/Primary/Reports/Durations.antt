-- ===== src/Primary/Reports/Durations.antt =====
-- The histograms of task durations.
use mill.Prelude.{
  ◌≤◌, ◌<◌, arith, ◌∙◌, subst, refl, ◌≡◌, true, ◌∷◌, [], List, ℕ, ◌+◌, ◌%◌, String, string_key,
  nat_key, any, length, All,
}
use mill.Prelude.Float.{F64, Float}
use mill.Primary.Reports.{
  zeros, DurationHistogram, u64_max, new_histogram, bump_bucket, record_duration, cumulate,
  snapshot_of,
}

abbrev pub sum : List ℕ → ℕ
sum [] = 0
sum (n ∷ ns) = n + sum ns

-- The loop over the durations that were recorded.
abbrev pub record_all : Float → List F64 → List F64 → DurationHistogram → DurationHistogram
record_all f bounds [] h = h
record_all f bounds (secs ∷ rest) h = record_all f bounds rest (record_duration f bounds secs h)

-- Each count is at least the one before, and the last one is the total.
abbrev pub Rises : ℕ → ℕ → List (F64 × ℕ) → Type 0
Rises low total [] = low ≡ total
Rises low total ((b, n) ∷ rest) = (low ≤ n) × Rises n total rest

-- The buckets share out the count.
pub record IsCounted (bounds : List F64) (h : DurationHistogram) : Type 0 where
  pub lengths : length h.buckets ≡ length bounds
  pub shared : sum h.buckets ≡ h.count

module _ (f : Float) where
  length-bump_bucket :
      (secs : F64) (bs : List F64) (ns : List ℕ)
      → length ns ≡ length bs
      → length (bump_bucket f secs bs ns) ≡ length ns
  unfolding bump_bucket
  length-bump_bucket secs [] ns h = refl
  length-bump_bucket secs (b ∷ bs) [] h = refl
  length-bump_bucket secs (b ∷ bs) (n ∷ ns) h = ground (arith, length-bump_bucket secs bs ns)

  sum-bump_bucket :
      (secs : F64) (bs : List F64) (ns : List ℕ)
      → any (λ b. Float.le f secs b) bs ≡ true
      → length ns ≡ length bs
      → sum ns + 1 < u64_max
      → sum (bump_bucket f secs bs ns) ≡ sum ns + 1
  unfolding bump_bucket
  sum-bump_bucket secs [] ns a h k = cc
  sum-bump_bucket secs (b ∷ bs) [] a h k = omega arith
  sum-bump_bucket secs (b ∷ bs) (n ∷ ns) a h k = ground (arith, sum-bump_bucket secs bs ns)

  module _ (bounds : List F64) where
    new_histogram-IsCounted : IsCounted bounds (new_histogram f bounds)
    unfolding new_histogram
    new_histogram-IsCounted = record { lengths = length-zeros bounds; shared = sum-zeros bounds }
      where
        length-zeros : (bs : List F64) → length (zeros bs) ≡ length bs
        length-zeros [] = refl
        length-zeros (b ∷ bs) = omega (arith, length-zeros bs)

        sum-zeros : (bs : List F64) → sum (zeros bs) ≡ 0
        sum-zeros [] = refl
        sum-zeros (b ∷ bs) = omega (arith, sum-zeros bs)

    record_all-IsCounted :
        (durations : List F64) (h : DurationHistogram)
        → All (λ secs. any (λ b. Float.le f secs b) bounds ≡ true) durations
        → h.count + length durations < u64_max
        → IsCounted bounds h
        → IsCounted bounds (record_all f bounds durations h)
          × ((record_all f bounds durations h).count ≡ h.count + length durations)
    unfolding record_duration
    record_all-IsCounted [] h a k v = (v, omega arith)
    record_all-IsCounted (secs ∷ rest) h a k v =
        let (v', c) =
          record_all-IsCounted rest (record_duration f bounds secs h) a.1 (omega arith) (record {
            lengths = length-bump_bucket secs bounds h.buckets v.lengths ∙ v.lengths;
            shared = ground (arith, sum-bump_bucket secs bounds h.buckets a.0 v.lengths, v.shared);
          }) in
        (v', omega (arith, c))

cumulate-Rises :
    (c : ℕ) (bs : List F64) (ns : List ℕ)
    → length ns ≡ length bs
    → c + sum ns < u64_max
    → Rises c (c + sum ns) (cumulate c bs ns)
unfolding cumulate
cumulate-Rises c [] [] h k = omega arith
cumulate-Rises c [] (n ∷ ns) h k = absurd (omega arith)
cumulate-Rises c (b ∷ bs) [] h k = absurd (omega arith)
cumulate-Rises c (b ∷ bs) (n ∷ ns) h k = (
  omega arith,
  subst (λ t. Rises ((c + n) % u64_max) t (cumulate ((c + n) % u64_max) bs ns)) (omega arith)
      (cumulate-Rises ((c + n) % u64_max) bs ns (omega arith) (omega arith)),
)

-- After any durations, fewer than 2 ^ 64 and each within some bucket, were recorded in a new
-- histogram, its snapshot counts them all: the count is their number, and the cumulative counts of
-- the buckets rise from 0 to this number.
pub snapshot_of-Rises :
    (f : Float) (bounds : List F64) (name : String) (durations : List F64)
    → All (λ secs. any (λ b. Float.le f secs b) bounds ≡ true) durations
    → length durations < u64_max
    → let s = snapshot_of f bounds name (record_all f bounds durations (new_histogram f bounds)) in
      (s.count ≡ length durations) × Rises 0 (length durations) s.buckets
unfolding snapshot_of new_histogram
snapshot_of-Rises f bounds name durations a k =
    let h = record_all f bounds durations (new_histogram f bounds) in
    let (v, c) =
      record_all-IsCounted f bounds durations (new_histogram f bounds) a (omega arith)
        (new_histogram-IsCounted f bounds) in
    let counted : h.count ≡ length durations = omega (arith, c) in
    let total : 0 + sum h.buckets ≡ length durations = omega (arith, v.shared, c) in
    (
      counted,
      subst (λ t. Rises 0 t (cumulate 0 bounds h.buckets)) total
          (cumulate-Rises 0 bounds h.buckets v.lengths (omega (arith, total))),
    )
