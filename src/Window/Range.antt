-- ===== src/Window/Range.antt =====
-- How the range of dates follows the clock, and keeps still while it is zoomed.
use istatd.Prelude.{ℕ, ◌≡◌, ◌≢◌, none, refl, arith}
use istatd.Prelude.Int.{ℤ, pos, ◌-ℤ◌, ◌≤ℤ◌, eqb_ℤ_iff, -ℤ_parts, int_laws, pos_part}
use istatd.Dates.{Date, adjusted_now, ceil_div}
use istatd.Window.{Window, duration, advance, reset_date_range}

sub_sub : (a b : ℤ) → a -ℤ (a -ℤ b) ≡ b
sub_sub a b = omega int_laws

-- An `advance` to the clock's time changes the current dates alone, and keeps the length of the range.
-- A range as long as the original one then ends ten seconds before the clock, and any other range,
-- as one that was zoomed into, is left as it is.
pub record Follows (clock : Date) (w w' : Window) : Type 0 where
  pub others : w' ≡ record w { current = w'.current }
  pub same_duration : duration w'.current ≡ duration w.current
  pub moved : duration w.current ≡ duration w.original → w'.current.stop ≡ clock -ℤ pos 10_000
  pub kept : duration w.current ≢ duration w.original → w' ≡ w

pub advance-Follows : (clock : Date) (w : Window) → Follows clock w (advance clock w)
unfolding advance adjusted_now
advance-Follows clock w =
    let same = eqb_ℤ_iff (duration w.current) (duration w.original) in
    record {
      others = ground arith;
      same_duration = ground (arith, sub_sub (clock -ℤ pos 10_000) (duration w.current));
      moved = ground (arith, same);
      kept = ground (arith, same);
    }

ceil_div_nonpos : (d : ℤ) → d ≤ℤ pos 0 → pos_part (ceil_div d 500_000) ≡ 0
unfolding ceil_div ◌-ℤ◌
ceil_div_nonpos d h = ground arith

-- A date range that ends before it starts is taken over as it is, and reloads every five seconds.
pub reset_date_range-inverted :
    (handle : ℕ) (from to : Date) (w : Window)
    → to ≤ℤ from
    → let r = (reset_date_range handle from to w).0 in
      (r.current ≡ record { start = from; stop = to })
      × (r.original ≡ r.current)
      × (r.reload_interval ≡ 5)
      × (r.ticker ≡ none)
unfolding reset_date_range
reset_date_range-inverted handle from to w h =
    (refl, refl, ground (arith, ceil_div_nonpos (to -ℤ from), -ℤ_parts to from), refl)
