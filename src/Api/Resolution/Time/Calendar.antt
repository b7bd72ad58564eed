-- ===== src/Api/Resolution/Time/Calendar.antt =====
-- The dates of `format_iso8601` are those of the Gregorian calendar.
use midnight_did_rs.Common.{
  ℕ, zero, suc, ◌+◌, ◌-◌, ◌*◌, ◌/◌, ◌%◌, ◌==◌, ◌∙◌, map, if◌then◌else◌, ◌<◌, ◌≤◌, ◌≡◌, refl, ap,
  inl, inr, arith, ltb, leb, true, false, Option, none, some, List, [], ◌∷◌, take, get_elem?,
  Bool-cases,
}
use midnight_did_rs.Api.Resolution.Time.{
  is_leap, year_days, YearSearch, out_of_fuel, too_late, found, find_year, month_days, find_month,
}

-- The days before a year, counted from the year 1: 365 for each, and the leap days.
abbrev pub days_to_year : ℕ → ℕ
days_to_year year = let p = year - 1 in 365 * p + p / 4 + p / 400 - p / 100

pub days_to_year-suc :
    (y : ℕ) → days_to_year (suc (suc y)) ≡ days_to_year (suc y) + year_days (suc y)
unfolding is_leap
days_to_year-suc y = ground arith

-- Where the loop ends.
abbrev pub Ends : ℕ → ℕ → YearSearch → Type 0
Ends days year out_of_fuel = ⊥
Ends days year too_late = days_to_year 10000 ≤ days_to_year year + days
Ends days year (found y left) =
    (days_to_year y + left ≡ days_to_year year + days)
    × (left < year_days y)
    × (year ≤ y)
    × (y ≤ 9999)

Ends-suc :
    (days year : ℕ) (r : YearSearch)
    → year_days (suc year) ≤ days
    → Ends (days - year_days (suc year)) (suc (suc year)) r
    → Ends days (suc year) r
Ends-suc days year out_of_fuel h e = e
Ends-suc days year too_late h e = omega (arith, days_to_year-suc year)
Ends-suc days year (found y left) h (total, short, low, high) =
    (omega (arith, days_to_year-suc year), short, omega arith, high)

-- 8030 rounds are enough: the loop ends in the year that holds the day, or behind the year 9999.
pub find_year-Ends :
    (fuel days year : ℕ)
    → suc year + suc fuel ≡ 10000
    → Ends days (suc year) (find_year (suc fuel) days (suc year))
unfolding find_year
find_year-Ends zero days year e = elim (Bool-cases (leb (year_days (suc year)) days)) [
  | inr f ↦ rw f (refl, ground arith, omega arith, omega arith)
  | inl t ↦ rw (t, last) (reached (ground arith))
]
  where
    last : ltb 9999 (suc (suc year)) ≡ true
    last = ground arith

    reached : year_days (suc year) ≤ days → days_to_year 10000 ≤ days_to_year (suc year) + days
    reached h =
        omega (arith, days_to_year-suc year, ap (λ (y : ℕ). days_to_year (suc (suc y))) is_9998)
      where
        is_9998 : year ≡ 9998
        is_9998 = omega arith
find_year-Ends (suc fuel) days year e = elim (Bool-cases (leb (year_days (suc year)) days)) [
  | inr f ↦ rw f (refl, ground arith, omega arith, omega arith)
  | inl t ↦
      rw (t, more)
        (Ends-suc days year (find_year (suc fuel) (days - year_days (suc year)) (suc (suc year)))
          (ground arith)
          (find_year-Ends fuel (days - year_days (suc year)) (suc year) (omega arith)))
]
  where
    more : ltb 9999 (suc (suc year)) ≡ false
    more = ground arith

-- The days of a month, and those of the months before it.
abbrev pub or_zero : Option ℕ → ℕ
or_zero none = 0
or_zero (some d) = d

-- Months of 31 and of 30 days alternate, but July and August have 31 both; February takes what the
-- others leave of the year.
abbrev month_length : ℕ → ℕ → ℕ
month_length year month =
    if month == 2
    then days_to_year (suc year) - days_to_year year - 337
    else 30 + (month + month / 8) % 2

abbrev pub calendar : ℕ → List ℕ
calendar year = map (month_length year) (1 ∷ 2 ∷ 3 ∷ 4 ∷ 5 ∷ 6 ∷ 7 ∷ 8 ∷ 9 ∷ 10 ∷ 11 ∷ 12 ∷ [])

pub february_days :
    (y : ℕ)
    → days_to_year (suc (suc y)) - days_to_year (suc y) - 337 ≡ (if is_leap (suc y) then 29 else 28)
february_days y = elim (Bool-cases (is_leap (suc y))) [
  | inl t ↦ rw t (omega (arith, days_to_year-suc y ∙ ap (λ d. days_to_year (suc y) + d) (leap t)))
  | inr f ↦ rw f (omega (arith, days_to_year-suc y ∙ ap (λ d. days_to_year (suc y) + d) (plain f)))
]
  where
    leap : is_leap (suc y) ≡ true → year_days (suc y) ≡ 366
    leap t = rw t refl

    plain : is_leap (suc y) ≡ false → year_days (suc y) ≡ 365
    plain f = rw f refl

pub calendar-month_days : (y : ℕ) → calendar (suc y) ≡ month_days (suc y)
calendar-month_days y = rw (february_days y) refl

abbrev pub days_in : ℕ → ℕ → ℕ
days_in year month = or_zero (get_elem? (calendar year) (month - 1))

abbrev pub sum : List ℕ → ℕ
sum [] = 0
sum (x ∷ xs) = x + sum xs

abbrev pub days_before : ℕ → ℕ → ℕ
days_before year month = sum (take (month - 1) (calendar year))

-- The month's place, the days before it and its length.
abbrev pub InMonth : List ℕ → ℕ → ℕ → ℕ → ℕ → Type 0
InMonth ms from days month left =
    (i : ℕ) × (d : ℕ) × (month ≡ from + i)
    × (get_elem? ms i ≡ some d)
    × (left < d)
    × (sum (take i ms) + left ≡ days)

pub find_month-InMonth :
    (ms : List ℕ) (from days : ℕ)
    → days < sum ms
    → InMonth ms from days (find_month ms from days).0 (find_month ms from days).1
unfolding find_month
find_month-InMonth [] from days h = absurd (omega arith)
find_month-InMonth (m ∷ ms) from days h = elim (Bool-cases (leb m days)) [
  | inr f ↦ rw f (0, m, omega arith, refl, ground arith, omega arith)
  | inl t ↦
      let (i, d, place, here, short, total) =
        find_month-InMonth ms (suc from) (days - m) (ground arith) in
      rw t (suc i, d, omega arith, here, short, ground arith)
]
