-- ===== src/DateInput/Calendar.antt =====
-- The setters of JavaScript's `Date` that `parseDate` of files/graph.js calls, on the fields of the local
-- time. A day beyond the month's last runs into the next month, and day 0 into the one before.
use istatd.Prelude.{
  ℕ, ◌+◌, ◌-◌, ◌*◌, ◌/◌, ◌%◌, ◌≤◌, ◌<◌, ◌≡◌, arith, Bool, false, ◌&&◌, ◌||◌, not, Bool-cases, inl,
  inr, ltb→lt, lt→ltb, ap, ap₂, ◌∙◌, ltb, ◌==◌, if◌then◌else◌,
}

-- The month counts from 0 and the day from 1; `rest` is the seconds and milliseconds.
pub record Local : Type 0 where
  pub year : ℕ
  pub month : ℕ
  pub day : ℕ
  pub hour : ℕ
  pub minute : ℕ
  pub rest : ℕ

unfoldable pub is_leap : ℕ → Bool
is_leap y = (y % 4 == 0) && (not (y % 100 == 0) || (y % 400 == 0))

unfoldable pub days_in_month : (year month : ℕ) → ℕ
unfolding is_leap
days_in_month y m =
    if m == 1
    then (if is_leap y then 29 else 28)
    else (if m == 3 || m == 5 || m == 8 || m == 10 then 30 else 31)

-- The year and the month of a number of months since the year 0.
abbrev pub in_month : ℕ → Local → Local
in_month months d = record d { year = months / 12; month = months % 12 }

-- A day of the next month, or the last one of the month before.
unfoldable pub carry : Local → Local
unfolding days_in_month
carry d =
    let last = days_in_month d.year d.month in
    let months = d.year * 12 + d.month in
    if d.day == 0
    then (let before = in_month (months - 1) d in
        record before { day = days_in_month before.year before.month })
    else (if ltb last d.day then record (in_month (months + 1) d) { day = d.day - last } else d)

unfoldable pub set_full_year : ℕ → Local → Local
unfolding carry
set_full_year y d = carry (record d { year = y })

-- `setMonth(n - 1)`
unfoldable pub set_month : ℕ → Local → Local
unfolding carry
set_month n d = carry (in_month (d.year * 12 + n - 1) d)

unfoldable pub set_date : ℕ → Local → Local
unfolding carry
set_date n d = carry (record d { day = n })

unfoldable pub set_hours : (hours minutes : ℕ) → Local → Local
unfolding carry
set_hours h m d = carry (record d { hour = h % 24; minute = m; day = d.day + h / 24 })

-- The fields of a day that there is.
abbrev pub IsProper : Local → Type 0
IsProper d = (d.month < 12) × (1 ≤ d.day) × (d.day ≤ days_in_month d.year d.month)

pub days_in_month-bounds : (y m : ℕ) → (28 ≤ days_in_month y m) × (days_in_month y m ≤ 31)
unfolding days_in_month is_leap
days_in_month-bounds y m = ground arith

-- One step of `carry` is enough, for no text gives a day above 39.
pub carry-IsProper : (d : Local) → d.month < 12 → d.day ≤ 40 → IsProper (carry d)
unfolding carry
carry-IsProper d h k =
    let months = d.year * 12 + d.month in
    let bounds = days_in_month-bounds in
    elim (Bool-cases (d.day == 0)) [
      | inl e ↦
          let before = bounds ((months - 1) / 12) ((months - 1) % 12) in
          rw e (omega arith, omega (arith, before.0), omega arith)
      | inr e ↦ elim (Bool-cases (ltb (days_in_month d.year d.month) d.day)) [
        | inl l ↦
            let now = bounds d.year d.month in
            let after = bounds ((months + 1) / 12) ((months + 1) % 12) in
            rw (e, l) (omega arith, omega (arith, ltb→lt _ _ l), omega (arith, now.0, after.0))
        | inr l ↦ rw (e, l) (h, ground (arith, e), ground (arith, l))
      ]
    ]

-- The carry leaves a day that there is.
carry-id : (d : Local) → IsProper d → carry d ≡ d
unfolding carry
carry-id d h = ground arith

-- On the first 28 days of a month the three setters give the date that was asked for.
pub set_date-set_month :
    (now : Local) (y m d : ℕ)
    → now.month < 12
    → 1 ≤ now.day
    → now.day ≤ 28
    → m < 12
    → 1 ≤ d
    → d ≤ days_in_month y m
    → set_date d (set_month (m + 1) (set_full_year y now))
      ≡ record now { year = y; month = m; day = d }
unfolding set_date set_month set_full_year
set_date-set_month now y m d h1 h2 h3 h4 h5 h6 =
    let named = record now { year = y; month = m } in
    let moved : in_month (y * 12 + (m + 1) - 1) (record now { year = y }) ≡ named =
      ap₂ (λ y' m'. record now { year = y'; month = m' }) (omega arith) (omega arith) in
    ap (λ x. set_date d (set_month (m + 1) x))
      (carry-id (record now { year = y })
        (h1, h2, omega (arith, h3, (days_in_month-bounds y now.month).0)))
    ∙ ap (set_date d)
        (ap carry moved ∙ carry-id named (h4, h2, omega (arith, h3, (days_in_month-bounds y m).0)))
    ∙ carry-id (record now { year = y; month = m; day = d }) (h4, h5, h6)

carry-late :
    (now : Local) (y m : ℕ)
    → m < 11
    → days_in_month y m < now.day
    → 1 ≤ now.day
    → carry (record now { year = y; month = m })
      ≡ record now { year = y; month = m + 1; day = now.day - days_in_month y m }
unfolding carry
carry-late now y m h late some_day =
    let there : (now.day == 0) ≡ false = ground arith in
    rw (there, lt→ltb (days_in_month y m) now.day late, carry)
      (ap₂ (λ y' m'. record now { year = y'; month = m'; day = now.day - days_in_month y m })
        (omega arith) (omega arith))

-- In a month that has no such day as today, the setters give a date of the month after it.
pub set_date-set_month_late :
    (now : Local) (y m d : ℕ)
    → IsProper (record now { year = y })
    → m < 11
    → days_in_month y m < now.day
    → 1 ≤ d
    → d ≤ days_in_month y (m + 1)
    → set_date d (set_month (m + 1) (set_full_year y now))
      ≡ record now { year = y; month = m + 1; day = d }
unfolding set_date set_month set_full_year
set_date-set_month_late now y m d proper h late h5 h6 =
    let named = record now { year = y; month = m } in
    let moved : in_month (y * 12 + (m + 1) - 1) (record now { year = y }) ≡ named =
      ap₂ (λ y' m'. record now { year = y'; month = m' }) (omega arith) (omega arith) in
    ap (λ x. set_date d (set_month (m + 1) x)) (carry-id (record now { year = y }) proper)
    ∙ ap (set_date d) (ap carry moved ∙ carry-late now y m h late proper.1)
    ∙ carry-id (record now { year = y; month = m + 1; day = d }) (omega arith, h5, h6)
