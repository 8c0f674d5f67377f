-- ===== src/Plot/Entries.antt =====
-- The entries of the answer that `GraphSurface.repaint` of files/graph.js goes through: those with buckets are the
-- series of Plot, and others are passed over.
use istatd.Prelude.{ℕ, Option, none, some, List, [], ◌∷◌, Text}
use istatd.Surface.{Format}
use istatd.Plot.{Bucket, Bounds, Cell, plot_times, repaint}

-- `data[key]`: undefined or null; a value without "data", like the numbers of "start", "stop" and "interval"; or
-- one with buckets.
pub data PlotEntry : Type 0 where
  undefined : PlotEntry
  no_data : PlotEntry
  of_buckets : List Bucket → PlotEntry

-- `data[key]['data']` and the guard `if (buckets)`; `none` is the exception of an undefined entry.
unfoldable pub series_of : List (Text × PlotEntry) → Option (List (Text × List Bucket))
series_of [] = some []
series_of ((key, undefined) ∷ data') = none
series_of ((key, no_data) ∷ data') = series_of data'
series_of ((key, of_buckets buckets) ∷ data') = elim (series_of data') [
  | none ↦ none
  | some rest ↦ some ((key, buckets) ∷ rest)
]

-- Without rows no entry is read. The outer `none` is an exception.
unfoldable pub repaint_entries :
    Format
    → (start stop interval : ℕ) → List (Text × PlotEntry)
    → Option (Option (List (List Cell) × Option Bounds))
unfolding series_of
repaint_entries f start stop interval data' = elim (plot_times start stop interval) [
  | [] ↦ some none
  | _ ∷ _ ↦ elim (series_of data') [
    | none ↦ none
    | some series ↦ some (repaint f start stop interval series)
  ]
]
