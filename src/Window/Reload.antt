-- ===== src/Window/Reload.antt =====
-- The choice of the reload interval.
use istatd.Prelude.{ℕ, ◌*◌, ◌<◌, ◌≡◌, ◌≢◌, ◌⊎◌, refl, All, arith}
use istatd.Prelude.Int.{ℤ, pos, negsuc, ◌≤ℤ◌, ◌-ℤ◌}
use istatd.Dates.{ceil_div}
use istatd.Window.{Window, duration, points, pick_point, calc_reload_interval}

-- `r` seconds is the least of the points at which a range of `delta` milliseconds takes 500 reloads
-- or less, and 120 where there is no such point.
pub record IsLeastPoint (delta : ℤ) (r : ℕ) : Type 0 where
  pub fits : (r ≡ 120) ⊎ (delta ≤ℤ pos (r * 500_000))
  pub least : All (λ p. p < r → ¬ (delta ≤ℤ pos (p * 500_000))) points
  pub listed : All (λ p. p ≢ r) points → r ≡ 120

pick_point-IsLeastPoint :
    (delta : ℤ) → IsLeastPoint delta (pick_point (ceil_div delta 500_000) points)
unfolding pick_point ceil_div ◌-ℤ◌
pick_point-IsLeastPoint (pos n) = record {
  fits = ground arith;
  least = ground arith;
  listed = ground arith;
}
pick_point-IsLeastPoint (negsuc n) = record {
  fits = ground arith;
  least = ground arith;
  listed = ground arith;
}

-- `calcReloadInterval` changes the reload interval alone, to the least point that fits the current
-- range.
pub calc_reload_interval-IsLeastPoint :
    (w : Window)
    → (r : ℕ) × (calc_reload_interval w ≡ record w { reload_interval = r })
      × IsLeastPoint (duration w.current) r
unfolding calc_reload_interval
calc_reload_interval-IsLeastPoint w =
    (pick_point (ceil_div (duration w.current) 500_000) points, refl, pick_point-IsLeastPoint _)
