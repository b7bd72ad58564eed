-- ===== src/Api/Resolution/Time/Dates.antt =====
-- What the timestamps of a DID document's metadata say.
use midnight_did_rs.Common.{
  ℕ, zero, suc, ◌+◌, ◌-◌, ◌*◌, ◌/◌, ◌%◌, ◌<◌, ◌≤◌, ◌≡◌, ◌⊎◌, refl, sym, ap, ◌∙◌, subst, inl, inr,
  arith, ◌==◌, Option, none, some, List, [], ◌∷◌, Text, length, get_elem?, Bool-cases,
}
use midnight_did_rs.Api.Resolution.Time.{
  is_leap, year_days, YearSearch, out_of_fuel, too_late, found, find_year, month_days, find_month,
  Civil, civil_at, enough_years, civil_in, civil, show_civil, format_iso8601, timestamp_to_iso,
}
use midnight_did_rs.Api.Resolution.Time.Calendar.{
  days_to_year, days_to_year-suc, find_year-Ends, Ends, or_zero, calendar, calendar-month_days,
  days_in, sum, days_before, InMonth, find_month-InMonth,
}

-- A date and a time of day that exist, from 1970 to 9999.
abbrev pub IsCivil : Civil → Type 0
IsCivil c =
    (1970 ≤ c.year)
    × (c.year ≤ 9999)
    × (1 ≤ c.month)
    × (c.month ≤ 12)
    × (1 ≤ c.day)
    × (c.day ≤ days_in c.year c.month)
    × (c.hour < 24)
    × (c.minute < 60)
    × (c.second < 60)

-- The seconds from the start of the year 1 in the Gregorian calendar.
abbrev pub seconds_of : Civil → ℕ
seconds_of c =
    (days_to_year c.year + days_before c.year c.month + (c.day - 1)) * 86400
    + c.hour * 3600
    + c.minute * 60
    + c.second

-- From the start of the year 1 to 1970-01-01, and from there to 10000-01-01.
abbrev pub epoch : ℕ
epoch = 719162 * 86400

abbrev pub end_of_time : ℕ
end_of_time = 253402300800

-- What a date of some seconds since 1970 is.
abbrev pub Dates : ℕ → Option Civil → Type 0
Dates seconds none = end_of_time ≤ seconds
Dates seconds (some c) = IsCivil c × (seconds_of c ≡ epoch + seconds) × (seconds < end_of_time)

sum-month_days : (year : ℕ) → sum (month_days year) ≡ year_days year
unfolding is_leap
sum-month_days year = ground arith

get_elem?-bound : (xs : List ℕ) (i d : ℕ) → get_elem? xs i ≡ some d → i < length xs
get_elem?-bound [] i d h = cc h
get_elem?-bound (x ∷ xs) zero d h = omega arith
get_elem?-bound (x ∷ xs) (suc i) d h = omega (arith, get_elem?-bound xs i d h)

days_to_end : (year : ℕ) → year ≤ 9999 → days_to_year year + year_days year ≤ 3652059
unfolding is_leap
days_to_end zero h = ground arith
days_to_end (suc year) h = omega (arith, days_to_year-suc year)

civil_at-Dates :
    (days rest year left : ℕ) (p : ℕ × ℕ)
    → rest < 86400
    → Ends days 1970 (found year left)
    → InMonth (calendar year) 0 left p.0 p.1
    → Dates (days * 86400 + rest) (some (civil_at rest year p))
civil_at-Dates days rest year left (month, over) s (total, short, low, high)
      (i, d, place, here, inside, sum_up) =
    (
      (
        low,
        high,
        omega arith,
        omega (arith, bound),
        omega arith,
        in_month,
        omega arith,
        omega arith,
        omega arith,
      ),
      same,
      soon,
    )
  where
    bound : i < 12
    bound = get_elem?-bound (calendar year) i d here

    at : month + 1 - 1 ≡ i
    at = omega arith

    before : days_before year (month + 1) + over ≡ left
    before = rw at sum_up

    in_month : over + 1 ≤ days_in year (month + 1)
    in_month = omega (
      arith,
      ap (λ (j : ℕ). or_zero (get_elem? (calendar year) j)) at
          ∙ ap (λ (o : Option ℕ). or_zero o) here,
    )

    same : seconds_of (civil_at rest year (month, over)) ≡ epoch + (days * 86400 + rest)
    same = omega (arith, before)

    soon : days * 86400 + rest < end_of_time
    soon = omega (arith, days_to_end year high)

civil_in-Dates :
    (days rest : ℕ) (r : YearSearch)
    → rest < 86400
    → Ends days 1970 r
    → Dates (days * 86400 + rest) (civil_in rest r)
unfolding civil_in
civil_in-Dates days rest out_of_fuel s e = absurd e
civil_in-Dates days rest too_late s e = omega arith
civil_in-Dates days rest (found zero left) s e = absurd (omega arith)
civil_in-Dates days rest (found (suc y) left) s e =
    let found_month = find_month (month_days (suc y)) 0 left in
    civil_at-Dates days rest (suc y) left found_month s e (
      subst (λ (ms : List ℕ). InMonth ms 0 left found_month.0 found_month.1)
        (sym (calendar-month_days y))
        (find_month-InMonth (month_days (suc y)) 0 left (omega (arith, sum-month_days (suc y)))))

civil-Dates : (seconds : ℕ) → Dates seconds (civil seconds)
unfolding civil
civil-Dates seconds =
    subst (λ (n : ℕ). Dates n (civil seconds)) (omega arith)
      (civil_in-Dates (seconds / 86400) (seconds % 86400)
        (find_year enough_years (seconds / 86400) 1970) (omega arith)
        (find_year-Ends 8029 (seconds / 86400) 1969 refl))

-- What a timestamp in milliseconds is written as.
abbrev pub Stamps : ℕ → Option Text → Type 0
Stamps ms none = (ms ≡ 0) ⊎ (end_of_time * 1000 ≤ ms)
Stamps ms (some t) =
    (c : Civil) × (t ≡ show_civil c)
    × IsCivil c
    × (seconds_of c ≡ epoch + ms / 1000)
    × (1 ≤ ms)
    × (ms < end_of_time * 1000)

-- A timestamp in milliseconds has a text exactly if it is not 0 and lies before the year 10000, so
-- the loop over the years ends within its fuel; and the text is that of a date and a time of day
-- that exist, from 1970 to 9999, which in the Gregorian calendar is as many seconds after
-- 1970-01-01 as the timestamp has.
pub timestamp_to_iso-Stamps : (ms : ℕ) → Stamps ms (timestamp_to_iso ms)
unfolding timestamp_to_iso format_iso8601
timestamp_to_iso-Stamps ms = elim (Bool-cases (ms == 0)) [
  | inl z ↦ rw z (inl (ground arith))
  | inr n ↦ rw n (stamped (ground arith) (civil (ms / 1000)) (civil-Dates (ms / 1000)))
]
  where
    stamped :
        1 ≤ ms
        → (o : Option Civil) → Dates (ms / 1000) o
        → Stamps ms (elim o [ none ↦ none | some c ↦ some (show_civil c) ])
    stamped positive none late = inr (omega arith)
    stamped positive (some c) (real, same, soon) = (c, refl, real, same, positive, omega arith)
