-- ===== src/DateInput/Chosen.antt =====
-- What the dialog for a range of dates does to the page, on every branch of `select_daterange` of
-- files/graph.js.
use istatd.Prelude.{
  ◌≡◌, refl, ap, true, false, Option, none, some, List, [], Text, Bool-cases, Option-cases, inl,
  inr,
}
use istatd.Prelude.Int.{leb_ℤ}
use istatd.Dates.{Date}
use istatd.Window.{
  reset_date_range, restore_original_interval, calc_reload_interval, set_auto_refresh,
}
use istatd.Page.{Page, Browser, Output, reset_dates, reload_all}
use istatd.Page.Chosen.{reload_each-Same}
use istatd.DateInput.Calendar.{Local}
use istatd.DateInput.{Asked, parse_date, choose_dates, select_daterange, all_digits, max_samples_of}

-- The graphs are to show exactly this range, and it stays.
pub record Shows (from to : Date) (p : Page) : Type 0 where
  pub original : p.window.original ≡ record { start = from; stop = to }
  pub current : p.window.current ≡ record { start = from; stop = to }
  pub manual : p.slider.manual ≡ true
  pub still : p.window.is_auto_refresh ≡ false

module _ (D : Type 0) (b : Browser) where
  reset_dates-Shows :
      (from to : Date) (p : Page) → Shows from to (reset_dates {D = D} b from to p).0
  unfolding reset_dates reload_all reset_date_range restore_original_interval calc_reload_interval
      set_auto_refresh
  reset_dates-Shows from to p =
      let q = record p {
        slider = record p.slider { manual = true };
        window = (reset_date_range b.handle from to p.window).0;
      } in
      let all = reload_each-Same D b p.grid.all_graphs q in
      record {
        original = ap (λ w. w.original) all.window;
        current = ap (λ w. w.current) all.window;
        manual = ap (λ s. s.manual) all.slider;
        still = ap (λ w. w.is_auto_refresh) all.window;
      }

  module _ (now : Local) (get_time : Local → Date) where
    -- Where there is a message nothing happened; else both texts are dates, the first before the second, and
    -- the page shows them.
    abbrev pub IsChosen : Asked → Page → (Page × List (Output D)) × Option Text → Type 0
    IsChosen range p (r, some message) = r ≡ (p, [])
    IsChosen range p (r, none) =
        (from : Local) × (to : Local) × (parse_date now range.from ≡ some from)
        × (parse_date now range.to ≡ some to)
        × (leb_ℤ (get_time to) (get_time from) ≡ false)
        × (all_digits range.max_samples ≡ true)
        × Shows (get_time from) (get_time to) r.0

    -- On every branch of the dialog's callback: where there is a message the page is as before and nothing is
    -- asked for, and else both texts are dates, the first before the second, the number of samples has no
    -- character but digits, and the page shows the range, with the slider on manual and no automatic refresh.
    pub select_daterange-IsChosen :
        (range : Asked) (p : Page)
        → IsChosen range p (select_daterange {D = D} b now get_time range p)
    unfolding select_daterange choose_dates
    select_daterange-IsChosen range p = elim (Option-cases (parse_date now range.from)) [
      | inl e ↦ rw (e, select_daterange) refl
      | inr (from, e) ↦ elim (Option-cases (parse_date now range.to)) [
        | inl e' ↦ rw (e, e', select_daterange) refl
        | inr (to, e') ↦ elim (Bool-cases (leb_ℤ (get_time to) (get_time from))) [
          | inl l ↦ rw (e, e', l, select_daterange) refl
          | inr l ↦ elim (Bool-cases (all_digits range.max_samples)) [
            | inr k ↦ rw (e, e', l, k, select_daterange) refl
            | inl k ↦
                rw (e, e', l, k, select_daterange)
                  (
                    from,
                    to,
                    e,
                    e',
                    l,
                    k,
                    reset_dates-Shows (get_time from) (get_time to)
                        (record p { max_samples = max_samples_of range.max_samples }),
                  )
          ]
        ]
      ]
    ]
