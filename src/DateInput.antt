-- ===== src/DateInput.antt =====
-- The dialog for a range of dates in files/graph.js: `parseDate` and the callback of `select_daterange`.
pub mod Calendar
pub mod Captures
mod Written
mod Chosen
mod Tests
use istatd.Prelude.{
  ℕ, ◌+◌, ◌-◌, ◌*◌, Bool, true, false, not, ◌&&◌, ◌||◌, Option, none, some, List, [], ◌∷◌, Text,
  leb, if◌then◌else◌, ◌>>=◌,
}
use istatd.Prelude.Int.{ℤ, pos, negsuc, leb_ℤ}
use istatd.Prelude.Words.{codes}
use istatd.Prelude.Digits.{parse_int}
use istatd.Dates.{Date}
use istatd.Page.{Page, Browser, Op, Output, reset_dates}
use istatd.DateInput.Calendar.{Local, set_full_year, set_month, set_date, set_hours}
use istatd.DateInput.Captures.{Groups, captures, is_digit}

-- The setters, on the current time.
unfoldable pub set_fields : Groups → Local → Local
unfolding set_full_year set_month set_date set_hours
set_fields c now =
    let day = set_date c.day (set_month c.month (set_full_year c.year now)) in
    elim c.clock [ none ↦ day | some (hours, minutes) ↦ set_hours hours minutes day ]

-- `parseDate`; `none` is false.
unfoldable pub parse_date : (now : Local) → Text → Option Local
unfolding set_fields captures
parse_date now x = do c ← captures x; some (set_fields c now)

unfoldable pub all_digits : Text → Bool
unfolding is_digit
all_digits [] = true
all_digits (c ∷ s) = is_digit c && all_digits s

-- The fields of the dialog.
pub record Asked : Type 0 where
  pub from : Text
  pub to : Text
  pub max_samples : Text

-- `parseInt(range.maxSamples)`; NaN becomes `undefined`.
unfoldable pub max_samples_of : Text → Option ℕ
max_samples_of s = elim (parse_int s) [ some (pos n) ↦ some n | _ ↦ none ]

-- `now` is the time when a date is read, and `get_time` what the time zone makes of its fields.
module _ {D : Type 0} (b : Browser) (now : Local) (get_time : Local → Date) where
  unfoldable pub choose_dates :
      (d_from d_to : Date) → (max_samples : Text) → Page → (Page × List (Output D)) × Option Text
  unfolding all_digits max_samples_of
  choose_dates d_from d_to max_samples p =
      if leb_ℤ d_to d_from
      then ((p, []), some (codes "The end date must be after the start date."))
      else (if not (all_digits max_samples)
          then ((p, []), some (codes "Max sample count must be a positive integer, or left blank."))
          else (
            reset_dates b d_from d_to (record p { max_samples = max_samples_of max_samples }),
            none,
          ))

  -- The callback of `select_daterange`, with the message of the error dialog.
  unfoldable pub select_daterange : Asked → Page → (Page × List (Output D)) × Option Text
  unfolding parse_date choose_dates
  select_daterange range p = elim (parse_date now range.from) [
    | none ↦ ((p, []), some (codes "The start date is not valid."))
    | some d_from ↦ elim (parse_date now range.to) [
      | none ↦ ((p, []), some (codes "The end date is not valid."))
      | some d_to ↦ choose_dates (get_time d_from) (get_time d_to) range.max_samples p
    ]
  ]
