-- ===== src/Clock/Calendar.antt =====
-- That the date of a day is that day's.
use mill.Prelude.{
  inr, inl, Bool-cases, ◌≤◌, ◌<◌, arith, ◌∙◌, refl, ◌≡◌, ℕ, ◌+◌, ◌-◌, ◌*◌, ◌%◌, ltb, leb,
  if◌then◌else◌, string_key, nat_key, ap₂, ◌/◌,
}
use mill.Clock.Months.{month_of, day_fits, month_ends, leap_or_short, days_in_month}
use mill.Clock.{year_of_era, days_before, era_days, days_to_ymd}

year_starts : (doe : ℕ) → doe < era_days → days_before (year_of_era doe) ≤ doe
unfolding year_of_era
year_starts doe h = omega (arith, h)

year_lasts : (doe : ℕ) → doe < era_days → doe < days_before (year_of_era doe) + 366
unfolding year_of_era
year_lasts doe h = omega (arith, h)

year-lt : (doe : ℕ) → doe < era_days → year_of_era doe < 400
unfolding year_of_era
year-lt doe h = omega (arith, h)

-- The number of a day since 1970 by the Gregorian calendar, with years that start in March: 146097
-- days in 400 years, 365 in a year, a leap day every 4 years but not every 100, and months of 31, 30,
-- 31, 30, 31, 31, 30, 31, 30, 31 and 31 days before the last one.
abbrev from_march : ℕ → ℕ → ℕ → ℕ
from_march march month d =
    march / 400 * era_days + days_before (march % 400) + (153 * month + 2) / 5 + (d - 1) - 719468

unfoldable pub day_number : ℕ × ℕ × ℕ → ℕ
day_number (y, m, d) =
    from_march (if leb m 2 then y - 1 else y) (if ltb 2 m then m - 3 else m + 9) d

month_back :
    (mp : ℕ) → mp ≤ 11 → (if ltb 2 (month_of mp) then month_of mp - 3 else month_of mp + 9) ≡ mp
month_back mp h = ground (arith, h)

year_back :
    (mp y : ℕ)
    → mp ≤ 11
    → (if leb (month_of mp) 2
        then (if leb (month_of mp) 2 then y + 1 else y) - 1
        else (if leb (month_of mp) 2 then y + 1 else y))
      ≡ y
year_back mp y h = elim (Bool-cases (leb (month_of mp) 2)) [
  | inl e ↦ rw (e) (omega arith)
  | inr e ↦ rw (e) refl
]

month-le : (doy : ℕ) → doy < 366 → (5 * doy + 2) / 153 ≤ 11
month-le doy h = omega (arith, h)

month_starts : (doy : ℕ) → (153 * ((5 * doy + 2) / 153) + 2) / 5 ≤ doy
month_starts doy = omega arith

century :
    (yoe era : ℕ) → yoe < 400 → ((yoe + era * 400) / 400 ≡ era) × ((yoe + era * 400) % 400 ≡ yoe)
century yoe era h = (omega (arith, h), omega (arith, h))

total :
    (n era doe b s : ℕ)
    → era * era_days + doe ≡ n + 719468
    → b ≤ doe
    → s ≤ doe - b
    → era * era_days + b + s + (doe - b - s + 1 - 1) - 719468 ≡ n
total n era doe b s e h k = omega (arith, e, h, k)

era_split : (x : ℕ) → x / era_days * era_days + x % era_days ≡ x
era_split x = omega arith

module _ (n : ℕ) where
  abbrev era : ℕ
  era = (n + 719468) / era_days

  abbrev doe : ℕ
  doe = (n + 719468) % era_days

  abbrev doy : ℕ
  doy = doe - days_before (year_of_era doe)

  abbrev mp : ℕ
  mp = (5 * doy + 2) / 153

  doe-lt : doe < era_days
  doe-lt = omega arith

  doy-lt : doy < 366
  doy-lt = omega (arith, year_lasts doe doe-lt)

  day_number-days_to_ymd : day_number (days_to_ymd n) ≡ n
  unfolding day_number days_to_ymd
  day_number-days_to_ymd =
      let small = month-le doy doy-lt in
      let y = year_of_era doe + era * 400 in
      let d = doy - (153 * mp + 2) / 5 + 1 in
      let (q, r) = century (year_of_era doe) era (year-lt doe doe-lt) in
      ap₂ (λ a b. from_march a b d) (year_back mp y small) (month_back mp small)
      ∙ ap₂ (λ a b. a * era_days + days_before b + (153 * mp + 2) / 5 + (d - 1) - 719468) q r
      ∙ total n era doe (days_before (year_of_era doe)) ((153 * mp + 2) / 5)
          (era_split (n + 719468)) (year_starts doe doe-lt) (month_starts doy)

month_range : (mp : ℕ) → mp ≤ 11 → (1 ≤ month_of mp) × (month_of mp ≤ 12)
month_range mp h = ground (arith, h)

day_low : (a b : ℕ) → 1 ≤ a - b + 1
day_low a b = omega arith

-- The date of the day with some number since 1970 is in the Gregorian calendar the day with this
-- number, and it is a date: its month is from 1 to 12 and its day from 1 to the length of this month
-- in this year, leap years included.
pub days_to_ymd_exact :
    (n : ℕ)
    → (day_number (days_to_ymd n) ≡ n)
      × (1 ≤ (days_to_ymd n).1)
      × ((days_to_ymd n).1 ≤ 12)
      × (1 ≤ (days_to_ymd n).2)
      × ((days_to_ymd n).2 ≤ days_in_month (days_to_ymd n).0 (days_to_ymd n).1)
unfolding days_to_ymd
days_to_ymd_exact n =
    let small = month-le (doy n) (doy-lt n) in
    let (low, high) = month_range (mp n) small in
    (
      day_number-days_to_ymd n,
      low,
      high,
      day_low (doy n) ((153 * mp n + 2) / 5),
      day_fits (year_of_era (doe n) + era n * 400) (mp n) (doy n) small (doy-lt n)
          (month_ends (doy n))
          (leap_or_short (doe n) (era n) (doe-lt n) (year-lt (doe n) (doe-lt n))),
    )
