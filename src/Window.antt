-- ===== src/Window.antt =====
-- The time range that the graphs show, its reloading by hand or by a timer: `theCurrentDates`,
-- `theOriginalDates`, `theReloadInterval` and the automatic refresh of files/graph.js.
pub mod Reload
pub mod Ticker
pub mod Range
mod Tests
use istatd.Prelude.{
  ℕ, ◌*◌, ◌/◌, Bool, true, false, Option, none, some, List, [], ◌∷◌, ◌++◌, ◌≡◌, leb, ltb,
  if◌then◌else◌, not, ◌&&◌,
}
use istatd.Prelude.Int.{ℤ, pos, ◌-ℤ◌, leb_ℤ, eqb_ℤ}
use istatd.Dates.{Date, Span, adjusted_now, ceil_div}

-- `ticker` is the handle of the interval timer, `autoRefreshTimer`.
pub record Window : Type 0 where
  pub original : Span
  pub current : Span
  pub reload_interval : ℕ
  pub is_auto_refresh : Bool
  pub ticker : Option ℕ

-- `setInterval` and `clearInterval`, in order.
pub data Tick : Type 0 where
  set_ticker : (handle : ℕ) (period : ℕ) → Tick
  clear_ticker : ℕ → Tick

-- The last hour, at the start.
unfoldable pub new : Date → Window
unfolding adjusted_now
new clock =
    let now = adjusted_now clock in
    let hour : Span = record { start = now -ℤ pos (3600 * 1000); stop = now } in
    record {
      original = hour;
      current = hour;
      reload_interval = 10000;
      is_auto_refresh = false;
      ticker = none;
    }

abbrev pub duration : Span → ℤ
duration span = span.stop -ℤ span.start

unfoldable pub restore_original_interval : Window → Window
restore_original_interval w = record w { current = w.original }

abbrev pub points : List ℕ
points = 5 ∷ 10 ∷ 15 ∷ 20 ∷ 30 ∷ 60 ∷ []

-- The loop over `points`; where none is large enough, 120.
unfoldable pub pick_point : ℤ → List ℕ → ℕ
pick_point ival [] = 120
pick_point ival (p ∷ ps) = if leb_ℤ ival (pos p) then p else pick_point ival ps

-- `delta` is in milliseconds here, and `delta / 1000 / 500` is rounded up once.
unfoldable pub calc_reload_interval : Window → Window
unfolding pick_point ceil_div
calc_reload_interval w = record w {
  reload_interval = pick_point (ceil_div (duration w.current) (1000 * 500)) points;
}

unfoldable pub set_auto_refresh : (handle : ℕ) → Bool → Window → Window × List Tick
set_auto_refresh handle on w =
    let cleared : List Tick = elim w.ticker [ none ↦ [] | some old ↦ clear_ticker old ∷ [] ] in
    if on
    then (
      record w { is_auto_refresh = true; ticker = some handle },
      cleared ++ set_ticker handle (w.reload_interval * 1000) ∷ [],
    )
    else (record w { is_auto_refresh = false; ticker = none }, cleared)

-- The button.
unfoldable pub auto_refresh : (handle : ℕ) → Window → Window × List Tick
unfolding set_auto_refresh calc_reload_interval
auto_refresh handle w =
    if w.is_auto_refresh
    then set_auto_refresh handle false w
    else set_auto_refresh handle true (calc_reload_interval w)

-- The dates that `refresh` leaves: a range as long as the original one follows the clock.
unfoldable pub advance : Date → Window → Window
unfolding adjusted_now
advance clock w =
    if eqb_ℤ (duration w.current) (duration w.original)
    then (let now = adjusted_now clock in
        record w { current = record { start = now -ℤ duration w.current; stop = now } })
    else w

-- The dates of `set_interval`, for a number of seconds.
unfoldable pub choose_interval : ℕ → Window → Window
unfolding restore_original_interval calc_reload_interval
choose_interval i w = calc_reload_interval (
    restore_original_interval (record w {
      original = record { start = w.original.stop -ℤ pos (i * 1000); stop = w.original.stop };
    }))

-- The dates of `zoomOutIntervals`.
unfoldable pub zoom_out : Window → Window
unfolding restore_original_interval calc_reload_interval
zoom_out w = calc_reload_interval (restore_original_interval w)

-- The dates that a zoom along the time axis sets, in `zoomCallback`.
unfoldable pub zoom_in : Span → Window → Window
unfolding calc_reload_interval
zoom_in range w = calc_reload_interval (record w { current = range })

-- The dates and the timer of `resetDateRange`. The source first moves `ft` and `tt`, and then
-- does not use them.
unfoldable pub reset_date_range : (handle : ℕ) → (from to : Date) → Window → Window × List Tick
unfolding restore_original_interval calc_reload_interval set_auto_refresh
reset_date_range handle from to w =
    let chosen =
      restore_original_interval (record w { original = record { start = from; stop = to } }) in
    let (stopped, ticks) = set_auto_refresh handle false chosen in
    (calc_reload_interval stopped, ticks)
