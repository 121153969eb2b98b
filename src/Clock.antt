-- ===== src/Clock.antt =====
-- crates/node/src/util.rs: the date and time of a moment, which is its whole seconds since 1970.
pub mod Months
pub mod Calendar
use mill.Prelude.{
  inr, inl, Option-cases, Bool-cases, ◌≤◌, ◌<◌, ap, ◌⊎◌, arith, ◌∙◌, sym, subst, refl, none, some,
  ◌≡◌, Option, Bool, true, false, ◌∷◌, [], List, ℕ, zero, suc, ◌+◌, ◌-◌, ◌*◌, ◌%◌, ◌&&◌, ◌||◌, not,
  ltb, leb, ◌==◌, if◌then◌else◌, and_then, option_map, is_some, String, str_eq, str_eq_iff,
  string_key, nat_key, Map, lookup, insert, remove, retain, keys, values, Distinct, map, ◌++◌, ◌<>◌,
  display, any, filterb, find_first, length, In, any-true, any-false, In-filterb, filterb-In,
  lookup-insert, lookup-remove, lookup-retain, ite, max, ℕ_discrete, string_discrete, ◌↔◌, ◌≢◌, ◌/◌,
}
use Prim.Native.String.{count}

-- the year of its era, from the day of the era
unfoldable pub year_of_era : ℕ → ℕ
year_of_era doe = (doe - doe / 1460 + doe / 36524 - doe / 146096) / 365

-- the days of an era before a year of it
abbrev pub days_before : ℕ → ℕ
days_before yoe = 365 * yoe + yoe / 4 - yoe / 100

abbrev pub era_days : ℕ
era_days = 146097

-- Year, month and day. The differences of the code do not wrap, as Calendar shows.
unfoldable pub days_to_ymd : ℕ → ℕ × ℕ × ℕ
unfolding year_of_era
days_to_ymd days =
    let shifted = days + 719468 in
    let era = shifted / era_days in
    let doe = shifted % era_days in
    let yoe = year_of_era doe in
    let y = yoe + era * 400 in
    let doy = doe - days_before yoe in
    let mp = (5 * doy + 2) / 153 in
    let d = doy - (153 * mp + 2) / 5 + 1 in
    let m = if ltb mp 10 then mp + 3 else mp - 9 in (if leb m 2 then y + 1 else y, m, d)

zeros : ℕ → String
zeros zero = ""
zeros (suc n) = "0" <> zeros n

-- `{:02}` and the like
unfoldable pub padded : ℕ → ℕ → String
unfolding zeros
padded width n = zeros (width - count (display n)) <> display n

unfoldable pub format_system_time : ℕ → String
unfolding days_to_ymd padded
format_system_time secs =
    let time_secs = secs % 86400 in
    let (year, month, day) = days_to_ymd (secs / 86400) in
    padded 4 year
    <> "-"
    <> padded 2 month
    <> "-"
    <> padded 2 day
    <> "T"
    <> padded 2 (time_secs / 3600)
    <> ":"
    <> padded 2 (time_secs % 3600 / 60)
    <> ":"
    <> padded 2 (time_secs % 60)
    <> "Z"

known_timestamp : format_system_time 1771158645 ≡ "2026-02-15T12:30:45Z"
unfolding format_system_time display
known_timestamp = refl

leap_day : format_system_time 1709164800 ≡ "2024-02-29T00:00:00Z"
unfolding format_system_time display
leap_day = refl
