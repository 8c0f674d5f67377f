-- ===== src/DateInput/Written.antt =====
-- What `parseDate` of files/graph.js makes of a date that is written in full.
use istatd.Prelude.{
  ℕ, ◌+◌, ◌*◌, ◌/◌, ◌%◌, ◌≤◌, ◌<◌, ◌≡◌, refl, ap, ◌∙◌, arith, true, none, some, [], ◌∷◌, ◌++◌, Text,
  ◌>>=◌,
}
use istatd.DateInput.Calendar.{
  Local, days_in_month, days_in_month-bounds, set_date-set_month, set_date-set_month_late, IsProper,
}
use istatd.DateInput.Captures.{
  is_digit, run, skip, expect, year_of, small_of, clock_of, from_day, from_month, from_year,
  captures,
}
use istatd.DateInput.{set_fields, parse_date}

-- A number below 100 in two digits.
abbrev pub two : ℕ → Text
two n = (48 + n / 10) ∷ (48 + n % 10) ∷ []

-- "20YY-MM-DD"
abbrev pub date_text : (y m d : ℕ) → Text
date_text y m d = b'2' ∷ b'0' ∷ (two y ++ b'-' ∷ (two m ++ b'-' ∷ two d))

is_digit-two : (e : ℕ) → e < 10 → is_digit (48 + e) ≡ true
unfolding is_digit
is_digit-two e h = ground arith

run-two :
    (n : ℕ) (s : Text)
    → n < 100
    → run (two n ++ s) ≡ ((48 + n / 10) ∷ (48 + n % 10) ∷ (run s).0, (run s).1)
unfolding run
run-two n s h = rw (is_digit-two (n / 10) (omega arith), is_digit-two (n % 10) (omega arith)) refl

small_of-two : (tens n : ℕ) → n < 10 * (tens + 1) → small_of tens (two n) ≡ some n
unfolding small_of
small_of-two tens n h = ground arith

year_of-two : (y : ℕ) → year_of (b'2' ∷ b'0' ∷ two y) ≡ some (2000 + y)
unfolding year_of
year_of-two y = ap some (omega arith)

run-dash : (n : ℕ) (s : Text) → n < 100 → run (two n ++ b'-' ∷ s) ≡ (two n, b'-' ∷ s)
unfolding run is_digit
run-dash n s h = run-two n (b'-' ∷ s) h

run-end : (n : ℕ) → n < 100 → run (two n) ≡ (two n, [])
unfolding run
run-end n h = run-two n [] h

run-year :
    (n : ℕ) (s : Text)
    → n < 100
    → run (b'2' ∷ b'0' ∷ (two n ++ b'-' ∷ s)) ≡ (b'2' ∷ b'0' ∷ two n, b'-' ∷ s)
unfolding run is_digit
run-year n s h = ap (λ r. (b'2' ∷ b'0' ∷ r.0, r.1)) (run-dash n s h)

captures-date_text :
    (y m d : ℕ)
    → y < 100
    → m < 20
    → d < 40
    → captures (date_text y m d)
      ≡ some (record { year = 2000 + y; month = m; day = d; clock = none })
unfolding captures from_year from_month from_day expect skip clock_of
captures-date_text y m d hy hm hd =
    ap from_year (run-year y (two m ++ b'-' ∷ two d) hy)
    ∙ ap (λ o. o >>= λ year. from_month year (run (two m ++ b'-' ∷ two d))) (year_of-two y)
    ∙ ap (from_month (2000 + y)) (run-dash m (two d) (omega arith))
    ∙ ap (λ o. o >>= λ month. from_day (2000 + y) month (run (two d)))
        (small_of-two 1 m (omega arith))
    ∙ ap (from_day (2000 + y) m) (run-end d (omega arith))
    ∙ ap (λ o. o >>= λ day. some (record { year = 2000 + y; month = m; day = day; clock = none }))
        (small_of-two 3 d (omega arith))

-- A date of this century that is written in full is read as that date, if today is one of the first 28 days
-- of a month; the time of day is the one of now.
pub parse_date-date_text :
    (now : Local) (y m d : ℕ)
    → now.month < 12
    → 1 ≤ now.day
    → now.day ≤ 28
    → y < 100
    → m < 12
    → 1 ≤ d
    → d ≤ days_in_month (2000 + y) m
    → parse_date now (date_text y (m + 1) d)
      ≡ some (record now { year = 2000 + y; month = m; day = d })
unfolding parse_date set_fields
parse_date-date_text now y m d h1 h2 h3 hy hm hd h =
    rw
      (
        captures-date_text y (m + 1) d hy (omega arith)
            (omega (arith, h, (days_in_month-bounds (2000 + y) m).1)),
        parse_date,
        set_fields,
      )
      (ap some (set_date-set_month now (2000 + y) m d h1 h2 h3 hm hd h))

-- If today's day and month exist in the year that is written, and the month that is written has fewer days than
-- today's day, the month that is read is the one after it.
pub parse_date-date_text_late :
    (now : Local) (y m d : ℕ)
    → IsProper (record now { year = 2000 + y })
    → y < 100
    → m < 11
    → days_in_month (2000 + y) m < now.day
    → 1 ≤ d
    → d ≤ days_in_month (2000 + y) (m + 1)
    → parse_date now (date_text y (m + 1) d)
      ≡ some (record now { year = 2000 + y; month = m + 1; day = d })
unfolding parse_date set_fields
parse_date-date_text_late now y m d proper hy hm late hd h =
    rw
      (
        captures-date_text y (m + 1) d hy (omega arith)
            (omega (arith, h, (days_in_month-bounds (2000 + y) (m + 1)).1)),
        parse_date,
        set_fields,
      )
      (ap some (set_date-set_month_late now (2000 + y) m d proper hm late hd h))
