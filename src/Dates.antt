-- ===== src/Dates.antt =====
-- Points of time as JavaScript has them, in whole milliseconds since 1970, and the pair of dates
-- that graph.js keeps as `theCurrentDates` and `theOriginalDates`.
use istatd.Prelude.{ℕ, ◌+◌, ◌-◌, ◌*◌, ◌/◌}
use istatd.Prelude.Int.{ℤ, pos, negsuc, ◌-ℤ◌}

abbrev pub Date : Type 0
Date = ℤ

pub record Span : Type 0 where
  pub start : Date
  pub stop : Date

-- `getAdjustedNow`, from the clock: ten seconds ago.
unfoldable pub adjusted_now : Date → Date
adjusted_now clock = clock -ℤ pos (10 * 1000)

-- `Math.floor(x / d)` for a whole `x` and a positive `d`
unfoldable pub floor_div : ℤ → ℕ → ℤ
floor_div (pos n) d = pos (n / d)
floor_div (negsuc n) d = negsuc (n / d)

-- `Math.ceil(x / d)`
unfoldable pub ceil_div : ℤ → ℕ → ℤ
ceil_div (pos n) d = pos ((n + d - 1) / d)
ceil_div (negsuc n) d = pos 0 -ℤ pos ((n + 1) / d)

-- `d.getTime()` in whole seconds, rounded down
unfoldable pub seconds : Date → ℤ
unfolding floor_div
seconds d = floor_div d 1000
