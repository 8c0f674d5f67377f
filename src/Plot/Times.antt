-- ===== src/Plot/Times.antt =====
-- The rows of a plot: increasing times.
use istatd.Prelude.{ℕ, zero, suc, ◌+◌, ◌-◌, ◌≤◌, ◌<◌, ◌≢◌, arith, List, [], ◌∷◌, All}
use istatd.Plot.{plot_times, plot_times_from}

-- Each number is below all that follow.
abbrev pub Increases : List ℕ → Type 0
Increases [] = Unit
Increases (t ∷ ts) = All (λ u. t < u) ts × Increases ts

weaken :
    (i interval t stop : ℕ) → 0 < interval → (i + interval ≤ t) × (t < stop) → (i ≤ t) × (t < stop)
weaken i interval t stop h k = omega arith

later_rows :
    (i interval stop : ℕ) (ts : List ℕ)
    → 0 < interval
    → All (λ t. (i + interval ≤ t) × (t < stop)) ts
    → All (λ t. (i ≤ t) × (t < stop)) ts × All (λ t. i < t) ts
later_rows i interval stop [] h k = (tt, tt)
later_rows i interval stop (t ∷ ts) h k =
    let rest = later_rows i interval stop ts h k.1 in
    ((weaken i interval t stop h k.0, rest.0), (omega arith, rest.1))

-- The rows of a plot are its start and every further interval, up to the stop.
plot_times_from-Increases :
    (fuel i stop interval : ℕ)
    → 0 < interval
    → All (λ t. (i ≤ t) × (t < stop)) (plot_times_from fuel i stop interval)
      × Increases (plot_times_from fuel i stop interval)
unfolding plot_times_from
plot_times_from-Increases zero i stop interval h = (tt, tt)
plot_times_from-Increases (suc fuel) i stop interval h =
    let rest = plot_times_from-Increases fuel (i + interval) stop interval h in
    let ts = plot_times_from fuel (i + interval) stop interval in
    let now = later_rows i interval stop ts h rest.0 in ground (arith, rest, now)

plot_times_from-filled :
    (fuel i stop interval : ℕ) → 0 < fuel → i < stop → plot_times_from fuel i stop interval ≢ []
unfolding plot_times_from
plot_times_from-filled zero i stop interval h k = ground arith
plot_times_from-filled (suc fuel) i stop interval h k = ground arith

pub plot_times-filled :
    (start stop interval : ℕ) → start < stop → plot_times start stop interval ≢ []
unfolding plot_times
plot_times-filled start stop interval h =
    plot_times_from-filled (stop - start) start stop interval (omega arith) h

pub plot_times-Increases :
    (start stop interval : ℕ) → 0 < interval → Increases (plot_times start stop interval)
unfolding plot_times
plot_times-Increases start stop interval h =
    (plot_times_from-Increases (stop - start) start stop interval h).1
