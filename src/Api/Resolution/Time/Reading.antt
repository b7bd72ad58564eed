-- ===== src/Api/Resolution/Time/Reading.antt =====
-- A reader of the timestamps, and that it reads what `format_iso8601` writes.
use midnight_did_rs.Common.{
  ℕ, zero, suc, ◌+◌, ◌-◌, ◌/◌, ◌%◌, ◌<◌, ◌≤◌, ◌≡◌, refl, ap, ◌∙◌, arith, inl, inr, ltb, some, List,
  [], ◌∷◌, ◌++◌, Text, take, drop, read_decimal, decimal_one, decimal_two, decimal_four, Bool-cases,
  All, get_elem?, subst,
}
use midnight_did_rs.Api.Resolution.Time.{
  Civil, is_leap, month_days, padded, show_civil, timestamp_to_iso,
}
use midnight_did_rs.Api.Resolution.Time.Dates.{
  IsCivil, Stamps, seconds_of, epoch, timestamp_to_iso-Stamps,
}
use midnight_did_rs.Api.Resolution.Time.Calendar.{days_in, or_zero, calendar, calendar-month_days}

-- The number of some digits at a place of the text.
abbrev field : ℕ → ℕ → Text → ℕ
field place width t = read_decimal 0 (take width (drop place t))

-- The date of a text `YYYY-MM-DDThh:mm:ssZ`.
abbrev pub read_civil : Text → Civil
read_civil t = record {
  year = field 0 4 t;
  month = field 5 2 t;
  day = field 8 2 t;
  hour = field 11 2 t;
  minute = field 14 2 t;
  second = field 17 2 t;
}

padded_two : (n : ℕ) → n < 100 → padded 2 n ≡ (b'0' + n / 10) ∷ (b'0' + n % 10) ∷ []
padded_two n h = elim (Bool-cases (ltb n 10)) [
  | inl t ↦ rw (decimal_one n (ground arith)) (ground arith)
  | inr f ↦ rw (decimal_two n (ground arith) h) refl
]

padded_four :
    (n : ℕ)
    → 1000 ≤ n
    → n < 10000
    → padded 4 n
      ≡ (b'0' + n / 10 / 10 / 10)
        ∷ (b'0' + n / 10 / 10 % 10)
        ∷ (b'0' + n / 10 % 10)
        ∷ (b'0' + n % 10)
        ∷ []
padded_four n l h = rw (decimal_four n l h) refl

-- The text from the digits of its numbers.
abbrev two : ℕ → Text
two n = (b'0' + n / 10) ∷ (b'0' + n % 10) ∷ []

abbrev four : ℕ → Text
four n =
    (b'0' + n / 10 / 10 / 10)
    ∷ (b'0' + n / 10 / 10 % 10)
    ∷ (b'0' + n / 10 % 10)
    ∷ (b'0' + n % 10)
    ∷ []

abbrev laid_out : Text → Text → Text → Text → Text → Text → Text
laid_out y m d h min s =
    y ++ b'-' ∷ (m ++ b'-' ∷ (d ++ b'T' ∷ (h ++ b':' ∷ (min ++ b':' ∷ (s ++ b'Z' ∷ [])))))

at_most :
    (bound : ℕ) (xs : List ℕ) (i : ℕ) → All (λ d. d ≤ bound) xs → or_zero (get_elem? xs i) ≤ bound
at_most bound [] i h = omega arith
at_most bound (x ∷ xs) zero h = h.0
at_most bound (x ∷ xs) (suc i) h = at_most bound xs i h.1

days_in_bound : (year month : ℕ) → days_in year month ≤ 31
unfolding is_leap
days_in_bound zero month = at_most 31 (calendar zero) (month - 1) (ground arith)
days_in_bound (suc y) month =
    rw (calendar-month_days y) (at_most 31 (month_days (suc y)) (month - 1) (ground arith))

show_civil_lem :
    (c : Civil)
    → IsCivil c
    → show_civil c
      ≡ laid_out (four c.year) (two c.month) (two c.day) (two c.hour) (two c.minute) (two c.second)
unfolding show_civil
show_civil_lem c (low, high, m1, m12, d1, dmax, h24, m60, s60) i =
    laid_out (padded_four c.year (omega arith) (omega arith) i) (padded_two c.month (omega arith) i)
      (padded_two c.day (omega (arith, days_in_bound c.year c.month)) i)
      (padded_two c.hour (omega arith) i) (padded_two c.minute (omega arith) i)
      (padded_two c.second (omega arith) i)

read_two : (n : ℕ) → n < 100 → read_decimal 0 (two n) ≡ n
read_two n h = omega arith

read_four : (n : ℕ) → n < 10000 → read_decimal 0 (four n) ≡ n
read_four n h = omega arith

pub read_civil-show_civil : (c : Civil) → IsCivil c → read_civil (show_civil c) ≡ c
read_civil-show_civil c real =
    let (low, high, m1, m12, d1, dmax, h24, m60, s60) = real in
    ap (λ (t : Text). read_civil t) (show_civil_lem c real)
    ∙ fields (read_four c.year (omega arith)) (read_two c.month (omega arith))
        (read_two c.day (omega (arith, days_in_bound c.year c.month)))
        (read_two c.hour (omega arith)) (read_two c.minute (omega arith))
        (read_two c.second (omega arith))
  where
    fields :
        {y m d h min s : ℕ}
        → y ≡ c.year
        → m ≡ c.month
        → d ≡ c.day
        → h ≡ c.hour
        → min ≡ c.minute
        → s ≡ c.second
        → ◌≡◌ {A = Civil}
            (record { year = y; month = m; day = d; hour = h; minute = min; second = s })
            c
    fields ey em ed eh emin es i = record {
      year = ey i;
      month = em i;
      day = ed i;
      hour = eh i;
      minute = emin i;
      second = es i;
    }

-- The text of a timestamp, read by the places of its digits, is the date and time of day of the
-- timestamp: in the Gregorian calendar it is as many seconds after 1970-01-01 as the timestamp
-- has.
pub read_civil-timestamp_to_iso :
    (ms : ℕ) (t : Text)
    → timestamp_to_iso ms ≡ some t
    → seconds_of (read_civil t) ≡ epoch + ms / 1000
read_civil-timestamp_to_iso ms t h =
    let (c, shown, real, same, positive, soon) = subst (Stamps ms) h (timestamp_to_iso-Stamps ms) in
    ap (λ (u : Text). seconds_of (read_civil u)) shown
    ∙ ap (λ (d : Civil). seconds_of d) (read_civil-show_civil c real)
    ∙ same
