-- ===== src/Window/Tests.antt =====
-- The range of the last hour, at a clock of a million seconds.
use istatd.Prelude.{ℕ, ◌≡◌, true, List, [], ◌∷◌}
use istatd.Prelude.Int.{pos}
use istatd.Dates.{Date, Span}
use istatd.Window.{new, duration, calc_reload_interval}
use istatd.Window.Reload.{IsLeastPoint, calc_reload_interval-IsLeastPoint}
use istatd.Window.Ticker.{
  Action, press, load, zoom, follow, run, running, IsConsistent, run-new-IsConsistent,
}

abbrev clock : Date
clock = pos 1_000_000_000

abbrev five_minutes : Span
five_minutes = record { start = pos 999_000_000; stop = pos 999_300_000 }

calc_reload_interval-IsLeastPoint_example :
    (r : ℕ) × (calc_reload_interval (new clock) ≡ record (new clock) { reload_interval = r })
    × IsLeastPoint (duration (new clock).current) r
calc_reload_interval-IsLeastPoint_example = calc_reload_interval-IsLeastPoint (new clock)

abbrev actions : List Action
actions = press 4 ∷ zoom five_minutes ∷ load 5 true ∷ follow clock ∷ press 6 ∷ press 7 ∷ []

run-new-IsConsistent_example :
    IsConsistent (run actions (new clock)).0 (running (run actions (new clock)).1 [])
run-new-IsConsistent_example = run-new-IsConsistent clock actions
