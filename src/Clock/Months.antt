-- ===== src/Clock/Months.antt =====
-- crates/node/src/util.rs: how long the months and the years of the Gregorian calendar are, and that
-- a day of a year from March on is in its month.
use mill.Prelude.{
  inr, inl, Bool-cases, ◌≤◌, ◌<◌, ◌⊎◌, arith, ◌≡◌, Bool, true, false, ℕ, ◌+◌, ◌-◌, ◌*◌, ◌%◌, ◌&&◌,
  ◌||◌, not, ltb, leb, ◌==◌, if◌then◌else◌, string_key, nat_key, ◌≢◌, ◌/◌,
}
use mill.Clock.{year_of_era, days_before, era_days}

unfoldable pub is_leap : ℕ → Bool
is_leap y = y % 4 == 0 && (not (y % 100 == 0) || y % 400 == 0)

unfoldable pub days_in_month : ℕ → ℕ → ℕ
unfolding is_leap
days_in_month y m =
    if m == 2
    then (if is_leap y then 29 else 28)
    else if m == 4 || m == 6 || m == 9 || m == 11
    then 30
    else 31

year_ends :
    (doe : ℕ) → doe < era_days → year_of_era doe < 399 → doe < days_before (year_of_era doe + 1)
unfolding year_of_era
year_ends doe h k = omega (arith, h, k)

common_year :
    (yoe era : ℕ)
    → is_leap (yoe + era * 400 + 1) ≡ false
    → (days_before (yoe + 1) ≤ days_before yoe + 365) × (yoe ≢ 399)
unfolding is_leap
common_year yoe era h = ground (arith, h)

-- The month that a month from March on is.
abbrev pub month_of : ℕ → ℕ
month_of mp = if ltb mp 10 then mp + 3 else mp - 9

long_month :
    (y mp doy : ℕ)
    → mp ≤ 10
    → doy < (153 * (mp + 1) + 2) / 5
    → doy - (153 * mp + 2) / 5 + 1 ≤ days_in_month y (if ltb mp 10 then mp + 3 else mp - 9)
unfolding days_in_month
long_month y mp doy h k = ground (arith, h, k)

pub month_ends : (doy : ℕ) → doy < (153 * ((5 * doy + 2) / 153 + 1) + 2) / 5
month_ends doy = omega arith

february :
    (y doy : ℕ) → doy < 366 → (is_leap y ≡ true) ⊎ (doy < 365) → doy - 337 + 1 ≤ days_in_month y 2
unfolding days_in_month
february y doy h k = ground (arith, h, k)

pub day_fits :
    (y mp doy : ℕ)
    → mp ≤ 11
    → doy < 366
    → doy < (153 * (mp + 1) + 2) / 5
    → (is_leap (y + 1) ≡ true) ⊎ (doy < 365)
    → doy - (153 * mp + 2) / 5 + 1
      ≤ days_in_month (if leb (month_of mp) 2 then y + 1 else y) (month_of mp)
day_fits y mp doy h k l m = elim (last_or_before mp h) [
  | inl e ↦ rw e (february (y + 1) doy k m)
  | inr g ↦ long_month _ mp doy g l
]
  where
    last_or_before : (mp : ℕ) → mp ≤ 11 → (mp ≡ 11) ⊎ (mp ≤ 10)
    last_or_before mp h = ground (arith, h)

-- A year that is not followed by a leap day has 365 days from March on.
pub leap_or_short :
    (doe era : ℕ)
    → doe < era_days
    → year_of_era doe < 400
    → (is_leap (year_of_era doe + era * 400 + 1) ≡ true)
      ⊎ (doe - days_before (year_of_era doe) < 365)
leap_or_short doe era h k = elim (Bool-cases (is_leap (year_of_era doe + era * 400 + 1))) [
  | inl e ↦ inl e
  | inr e ↦
      let (short, other) = common_year (year_of_era doe) era e in
      let ends = year_ends doe h (before_last (year_of_era doe) k other) in
      inr
        (shorter doe (days_before (year_of_era doe)) (days_before (year_of_era doe + 1)) ends short)
]
  where
    before_last : (yoe : ℕ) → yoe < 400 → yoe ≢ 399 → yoe < 399
    before_last yoe h k = ground (arith, h, k)

    shorter : (doe a b : ℕ) → doe < b → b ≤ a + 365 → doe - a < 365
    shorter doe a b h k = omega (arith, h, k)
