-- ===== src/Api/Resolution/Time.antt =====
-- crates/midnight-did-api/src/resolution.rs: `timestamp_to_iso` and `format_iso8601`. Seconds are a
-- `u64`, so the days fit the `i64` of the source.
pub mod Calendar
pub mod Dates
pub mod Reading
use midnight_did_rs.Common.{
  ℕ, zero, suc, ◌+◌, ◌-◌, ◌*◌, ◌/◌, ◌%◌, ltb, leb, ◌==◌, Bool, true, false, not, ◌&&◌, ◌||◌, Option,
  none, some, List, [], ◌∷◌, ◌++◌, Text, codes, decimal, length, replicate, if◌then◌else◌,
}

unfoldable pub is_leap : ℕ → Bool
is_leap year = (year % 4 == 0 && not (year % 100 == 0)) || year % 400 == 0

abbrev pub year_days : ℕ → ℕ
year_days year = if is_leap year then 366 else 365

-- How the loop over the years ends: with `return None`, or with `break` in a year.
pub data YearSearch : Type 0 where
  out_of_fuel too_late : YearSearch
  found : ℕ → ℕ → YearSearch

-- The loop from `year` on, with `days` left, by fuel.
unfoldable pub find_year : ℕ → ℕ → ℕ → YearSearch
find_year zero days year = out_of_fuel
find_year (suc fuel) days year =
    let rest = find_year fuel (days - year_days year) (suc year) in
    if leb (year_days year) days
    then (if ltb 9999 (suc year) then too_late else rest)
    else found year days

abbrev pub month_days : ℕ → List ℕ
month_days year =
    31 ∷ (if is_leap year then 29 else 28) ∷ 31 ∷ 30 ∷ 31 ∷ 30 ∷ 31 ∷ 31 ∷ 30 ∷ 31 ∷ 30 ∷ 31 ∷ []

-- The loop over the months, with the days left in the month that it stops at.
unfoldable pub find_month : List ℕ → ℕ → ℕ → ℕ × ℕ
find_month [] month days = (month, days)
find_month (m ∷ ms) month days =
    let rest = find_month ms (suc month) (days - m) in if leb m days then rest else (month, days)

pub record Civil : Type 0 where
  pub year : ℕ
  pub month : ℕ
  pub day : ℕ
  pub hour : ℕ
  pub minute : ℕ
  pub second : ℕ

-- The year 10000 is reached from 1970 in 8030 rounds.
abbrev pub enough_years : ℕ
enough_years = 8030

-- The numbers that `format!` prints.
abbrev pub civil_at : ℕ → ℕ → ℕ × ℕ → Civil
civil_at secs_in_day year (month, days) = record {
  year = year;
  month = month + 1;
  day = days + 1;
  hour = secs_in_day / 3600;
  minute = (secs_in_day % 3600) / 60;
  second = secs_in_day % 60;
}

-- What follows the loop over the years.
unfoldable pub civil_in : ℕ → YearSearch → Option Civil
civil_in secs_in_day out_of_fuel = none
civil_in secs_in_day too_late = none
civil_in secs_in_day (found year days) =
    some (civil_at secs_in_day year (find_month (month_days year) 0 days))

unfoldable pub civil : ℕ → Option Civil
civil seconds = civil_in (seconds % 86400) (find_year enough_years (seconds / 86400) 1970)

-- `{:0w}`
abbrev pub padded : ℕ → ℕ → Text
padded w n = let d = decimal n in replicate (w - length d) b'0' ++ d

unfoldable pub show_civil : Civil → Text
show_civil c =
    padded 4 c.year
    ++ b'-'
      ∷ (padded 2 c.month
          ++ b'-'
            ∷ (padded 2 c.day
                ++ b'T'
                  ∷ (padded 2 c.hour
                      ++ b':' ∷ (padded 2 c.minute ++ b':' ∷ (padded 2 c.second ++ b'Z' ∷ [])))))

unfoldable pub format_iso8601 : ℕ → Option Text
format_iso8601 seconds = elim (civil seconds) [ none ↦ none | some c ↦ some (show_civil c) ]

unfoldable pub timestamp_to_iso : ℕ → Option Text
timestamp_to_iso ms = if ms == 0 then none else format_iso8601 (ms / 1000)
