-- ===== src/Plot/Stacked.antt =====
-- The scale of a stacked graph is made from sums by the position of the bucket, not by its time.
use istatd.Prelude.{ℕ, zero, suc, ◌≡◌, Option, none, some, List, [], ◌∷◌}
use istatd.Prelude.Int.{ℤ}
use istatd.Plot.{Cell, Bounds}

-- The sum at a position is `undefined`.
Gap : ℕ → List (Option ℤ) → Type 0
Gap k [] = ⊥
Gap zero (none ∷ sums) = Unit
Gap zero (some _ ∷ sums) = ⊥
Gap (suc k) (_ ∷ sums) = Gap k sums

-- Something is drawn, without bounds.
abbrev pub IsUnscaled : Option (List (List Cell) × Option Bounds) → Type 0
IsUnscaled none = ⊥
IsUnscaled (some (drawn, found)) = found ≡ none
