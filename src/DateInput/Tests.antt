-- ===== src/DateInput/Tests.antt =====
-- Dates as they are written in the dialog.
use istatd.Prelude.{ℕ, ◌+◌, ◌*◌, ◌≡◌, refl, arith, none, some}
use istatd.Prelude.Int.{pos}
use istatd.Prelude.Words.{codes}
use istatd.Dates.{Date}
use istatd.Page.Tests.{browser, two_graphs}
use istatd.DateInput.Calendar.{Local, is_leap, days_in_month}
use istatd.DateInput.Captures.{captures}
use istatd.DateInput.{Asked, parse_date, select_daterange}
use istatd.DateInput.Written.{parse_date-date_text, parse_date-date_text_late}
use istatd.DateInput.Chosen.{IsChosen, select_daterange-IsChosen}

abbrev on_day : ℕ → Local
on_day d = record { year = 2013; month = 0; day = d; hour = 9; minute = 30; rest = 0 }

captures_test : captures (codes " 2014-02-10 1:30") ≡ none
unfolding captures
captures_test = refl

parse_date_test :
    parse_date (on_day 7) (codes "2014-012-31  24:05 ")
    ≡ some (record { year = 2015; month = 0; day = 1; hour = 0; minute = 5; rest = 0 })
unfolding parse_date
parse_date_test = refl

parse_date-date_text_example :
    parse_date (on_day 28) (codes "2016-02-29")
    ≡ some (record (on_day 28) { year = 2016; month = 1; day = 29 })
unfolding days_in_month is_leap
parse_date-date_text_example =
    parse_date-date_text (on_day 28) 16 1 29 (omega arith) (omega arith) (omega arith) (omega arith)
      (omega arith) (omega arith) (omega arith)

-- On the 31st the tenth of February is read as the tenth of March.
parse_date-date_text_late_example :
    parse_date (on_day 31) (codes "2014-02-10")
    ≡ some (record (on_day 31) { year = 2014; month = 2; day = 10 })
unfolding days_in_month is_leap
parse_date-date_text_late_example =
    parse_date-date_text_late (on_day 31) 14 1 10 (omega arith, omega arith, omega arith)
      (omega arith) (omega arith) (omega arith) (omega arith) (omega arith)

-- A clock whose months have 31 days.
abbrev time : Local → Date
time d = pos ((((d.year * 12 + d.month) * 31 + d.day) * 24 + d.hour) * 60 + d.minute)

abbrev asked : Asked
asked = record {
  from = codes "2014-01-02";
  to = codes "2014-01-03 10:00";
  max_samples = codes "50";
}

select_daterange-IsChosen_example :
    IsChosen ℕ browser
      (on_day 7)
      time
      asked
      two_graphs
      (select_daterange browser (on_day 7) time asked two_graphs)
select_daterange-IsChosen_example =
    select_daterange-IsChosen ℕ browser (on_day 7) time asked two_graphs
