-- ===== src/Plot.antt =====
-- The data that `GraphSurface.repaint` of files/graph.js hands to Dygraph: the columns of the plot and
-- the range of values. The extremes of a series, which the source annotates, are gathered on the way, for
-- Plot.Notes. Values are whole numbers, and the bounds of the range are in twentieths, since the
-- source adds 5 % and 10 %. They are exact here; the source computes with doubles, which round. For values of at most
-- 2^40 the rounding is below a thousandth, and so far below the 5 %; above 2^53 it can swallow the 0.5.
-- `2 ^ 100 - 1` is rounded in the source as well.
pub mod Times
pub mod Ends
pub mod Steps
pub mod Rows
pub mod Ranges
pub mod Scale
pub mod Shown
pub mod Stacked
pub mod Notes
pub mod Options
pub mod Entries
mod Tests
use istatd.Prelude.{
  ℕ, zero, suc, ◌+◌, ◌-◌, ◌*◌, ◌^◌, Bool, true, false, Option, none, some, List, [], ◌∷◌, ◌++◌,
  Text, ◌==◌, ltb, ◌&&◌, replicate, length, if◌then◌else◌,
}
use istatd.Prelude.Int.{ℤ, pos, negsuc, ◌+ℤ◌, ◌-ℤ◌, ◌*ℤ◌, ltb_ℤ, leb_ℤ, eqb_ℤ}
use istatd.Surface.{Format, no_bars, error_bars, custom_bars, stacked, area}

-- A bucket of the answer; `time` is in seconds, and 0 in a bucket without data.
pub record Bucket : Type 0 where
  pub time : ℕ
  pub min : ℤ
  pub avg : ℤ
  pub max : ℤ
  pub sdev : ℤ

-- The times of the rows: from `i` on, below `stop`, by steps of `interval`. With a positive interval
-- there are at most `stop - i`, which is the fuel. With an interval of 0 and `i` below `stop` the loop of the source
-- does not end, and the times here are not those of a run.
pub plot_times_from : (fuel i stop interval : ℕ) → List ℕ
plot_times_from zero i stop interval = []
plot_times_from (suc fuel) i stop interval = elim (ltb i stop) [
  | true ↦ i ∷ plot_times_from fuel (i + interval) stop interval
  | false ↦ []
]

unfoldable pub plot_times : (start stop interval : ℕ) → List ℕ
unfolding plot_times_from
plot_times start stop interval = plot_times_from (stop - start) start stop interval

abbrev pub min_ℤ : ℤ → ℤ → ℤ
min_ℤ a b = if leb_ℤ a b then a else b

abbrev pub max_ℤ : ℤ → ℤ → ℤ
max_ℤ a b = if leb_ℤ a b then b else a

-- The range of the values so far. `min_val` leaves out deviations.
pub record Range : Type 0 where
  pub minimum : ℤ
  pub maximum : ℤ
  pub min_val : ℤ
  pub gotdata : Bool

-- `Math.pow(2,100) - 1`
abbrev pub huge : ℕ
huge = 2 ^ 100 - 1

abbrev pub no_range : Range
no_range = record {
  minimum = pos huge;
  maximum = pos 0 -ℤ pos huge;
  min_val = pos huge;
  gotdata = false;
}

unfoldable pub widen : (low high val : ℤ) → Range → Range
widen low high val r = record {
  minimum = min_ℤ low r.minimum;
  maximum = max_ℤ high r.maximum;
  min_val = min_ℤ val r.min_val;
  gotdata = true;
}

-- A number of a row; `none` is NaN.
abbrev pub Cell : Type 0
Cell = List (Option ℤ)

-- `pushfn`, in its three forms: what a bucket adds to a row, and to the range.
unfoldable pub cell : Format → Option Bucket → Cell
cell error_bars none = none ∷ none ∷ []
cell error_bars (some b) = some b.avg ∷ some b.sdev ∷ []
cell custom_bars none = none ∷ none ∷ none ∷ []
cell custom_bars (some b) = some b.min ∷ some b.avg ∷ some b.max ∷ []
cell _ none = none ∷ []
cell _ (some b) = some b.avg ∷ []

unfoldable pub grow : Format → Option Bucket → Range → Range
unfolding widen
grow _ none r = r
grow error_bars (some b) r = widen (b.avg -ℤ b.sdev) (b.avg +ℤ b.sdev) b.avg r
grow custom_bars (some b) r = widen b.min b.max b.min r
grow _ (some b) r = widen b.avg b.avg b.avg r

-- The annotations of a series: its extreme values, with the times of their rows.
pub record Extremes : Type 0 where
  pub ann_min : ℤ
  pub ann_min_ts : Option ℕ
  pub ann_max : ℤ
  pub ann_max_ts : Option ℕ

abbrev pub no_extremes : Extremes
no_extremes = record {
  ann_min = pos (2 ^ 100);
  ann_min_ts = none;
  ann_max = pos 0 -ℤ pos (2 ^ 100);
  ann_max_ts = none;
}

unfoldable pub annotate : (timestamp : ℕ) → Bucket → Extremes → Extremes
annotate timestamp b x =
    let low =
      if ltb_ℤ b.min x.ann_min
      then record x { ann_min = b.min; ann_min_ts = some timestamp }
      else x in
    if ltb_ℤ low.ann_max b.max
    then record low { ann_max = b.max; ann_max_ts = some timestamp }
    else low

-- The inner `while`: buckets without data are skipped.
unfoldable pub skip_empty : List Bucket → List Bucket
skip_empty [] = []
skip_empty (b ∷ buckets) = elim (b.time == 0) [ true ↦ skip_empty buckets | false ↦ b ∷ buckets ]

pub record Plotted : Type 0 where
  pub cells : List Cell
  pub range : Range
  pub extremes : Extremes

-- A series along the rows: a bucket is taken at its own time, and waits until then.
unfoldable pub plot_series : Format → List ℕ → List Bucket → Range → Extremes → Plotted
unfolding skip_empty cell grow annotate
plot_series f [] buckets r x = record { cells = []; range = r; extremes = x }
plot_series f (t ∷ times) buckets r x = elim (skip_empty buckets) [
  | [] ↦
      let rest = plot_series f times [] (grow f none r) x in
      record rest { cells = cell f none ∷ rest.cells }
  | b ∷ later ↦ elim (b.time == t) [
    | true ↦
        let rest = plot_series f times later (grow f (some b) r) (annotate t b x) in
        record rest { cells = cell f (some b) ∷ rest.cells }
    | false ↦
        let rest = plot_series f times (b ∷ later) (grow f none r) (annotate t b x) in
        record rest { cells = cell f none ∷ rest.cells }
  ]
]

-- All series, one after the other, over the same rows. The entries of the answer without buckets, which the source
-- passes over, are left out before, by `series_of` of Plot.Entries.
unfoldable pub plot_all :
    Format → List ℕ → List (Text × List Bucket) → Range → List (List Cell) × Range
unfolding plot_series
plot_all f times [] r = ([], r)
plot_all f times ((key, buckets) ∷ data') r =
    let p = plot_series f times buckets r no_extremes in
    let (columns, r') = plot_all f times data' p.range in (p.cells ∷ columns, r')

-- `sums`, for stacked graphs: the averages added up by the position of the bucket, from an array as
-- long as there are rows; `none` is `undefined`.
unfoldable pub add_sums : List Bucket → List (Option ℤ) → List (Option ℤ)
add_sums [] sums = sums
add_sums (b ∷ buckets) [] = some b.avg ∷ add_sums buckets []
add_sums (b ∷ buckets) (none ∷ sums) = some b.avg ∷ add_sums buckets sums
add_sums (b ∷ buckets) (some s ∷ sums) = some (s +ℤ b.avg) ∷ add_sums buckets sums

unfoldable pub all_sums : List (Text × List Bucket) → List (Option ℤ) → List (Option ℤ)
unfolding add_sums
all_sums [] sums = sums
all_sums ((key, buckets) ∷ data') sums = all_sums data' (add_sums buckets sums)

-- The largest sum; `none` is NaN, which `Math.max` gives for `undefined` and keeps.
unfoldable pub max_sum : Option ℤ → List (Option ℤ) → Option ℤ
max_sum most [] = most
max_sum none (s ∷ sums) = max_sum none sums
max_sum (some most) (none ∷ sums) = max_sum none sums
max_sum (some most) (some s ∷ sums) = max_sum (some (max_ℤ s most)) sums

-- The maximum from which the range of values is made.
unfoldable pub top : Format → List ℕ → List (Text × List Bucket) → Range → Option ℤ
unfolding all_sums max_sum
top stacked times data' r =
    max_sum (some (pos 0 -ℤ pos (2 ^ 100) -ℤ pos 1))
      (all_sums data' (replicate (length times) none))
top _ times data' r = some r.maximum

-- `valueRange`, in twentieths.
pub record Bounds : Type 0 where
  pub low : ℤ
  pub high : ℤ

-- 5 % of the range, or 0.5 for a single value, without the rounding of doubles.
unfoldable pub slop : (minimum maximum : ℤ) → ℤ
slop minimum maximum = if eqb_ℤ minimum maximum then pos 10 else maximum -ℤ minimum

-- Where no value is negative the range does not begin below 0.
unfoldable pub clamp_low : Range → Bounds → Bounds
clamp_low r bounds =
    if leb_ℤ (pos 0) r.min_val && ltb_ℤ bounds.low (pos 0)
    then record bounds { low = pos 0 }
    else bounds

-- Without data the range is 0 to 1.1. A maximum that is NaN makes both bounds NaN, `none`.
-- The sums are exact here; in the source bounds of 2^53 or more can round to the value itself.
unfoldable pub value_bounds : Range → Option ℤ → Option Bounds
unfolding slop clamp_low
value_bounds r maximum =
    if r.gotdata
    then (elim maximum [
      | none ↦ none
      | some m ↦ some (
          clamp_low r (record {
            low = r.minimum *ℤ pos 20 -ℤ slop r.minimum m;
            high = m *ℤ pos 20 +ℤ slop r.minimum m *ℤ pos 2;
          }))
    ])
    else some (clamp_low r (record { low = pos 0; high = pos 22 }))

-- The columns and the range of a repaint; without rows nothing is drawn.
unfoldable pub repaint :
    Format
    → (start stop interval : ℕ) → List (Text × List Bucket)
    → Option (List (List Cell) × Option Bounds)
unfolding plot_times plot_all top value_bounds
repaint f start stop interval data' =
    let times = plot_times start stop interval in
    let (columns, r) = plot_all f times data' no_range in
    let bounds = value_bounds r (top f times data' r) in
    elim times [ [] ↦ none | _ ∷ _ ↦ some (columns, bounds) ]
