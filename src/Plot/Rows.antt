-- ===== src/Plot/Rows.antt =====
-- Which bucket stands in which row.
use istatd.Prelude.{
  ℕ, ◌<◌, ◌≡◌, ◌≢◌, ◌∙◌, sym, refl, ap, ap₂, subst, arith, true, false, Option, none, some, List,
  [], ◌∷◌, map, contains, nat_eq, ◌==◌, ==_iff, if◌then◌else◌, All, Text,
}
use istatd.Surface.{Format}
use istatd.Plot.Times.{Increases, plot_times-Increases, plot_times-filled}
use istatd.Plot.Steps.{step, done, taken, waits}
use istatd.Plot.{
  Bucket, Range, Extremes, Cell, Plotted, cell, grow, annotate, skip_empty, plot_series, plot_times,
  Bounds, plot_all, no_extremes, no_range, repaint,
}

abbrev pub times_of : List Bucket → List ℕ
times_of [] = []
times_of (b ∷ buckets) = b.time ∷ times_of buckets

-- The bucket of a time.
unfoldable pub bucket_at : List Bucket → ℕ → Option Bucket
bucket_at [] t = none
bucket_at (b ∷ buckets) t = if b.time == t then some b else bucket_at buckets t

-- The buckets with data.
unfoldable pub filled : List Bucket → List Bucket
filled [] = []
filled (b ∷ buckets) = if b.time == 0 then filled buckets else b ∷ filled buckets

-- What the inner loop leaves: the same buckets with data, and one of them first.
pub filled-skip_empty : (buckets : List Bucket) → filled buckets ≡ filled (skip_empty buckets)
unfolding skip_empty filled
filled-skip_empty [] = refl
filled-skip_empty (b ∷ buckets) = ground (arith, filled-skip_empty buckets)

pub skip_empty-first :
    (buckets : List Bucket) (b : Bucket) (later : List Bucket)
    → skip_empty buckets ≡ b ∷ later
    → filled (b ∷ later) ≡ b ∷ filled later
unfolding skip_empty filled
skip_empty-first [] b later s = ground arith
skip_empty-first (c ∷ buckets) b later s = ground (arith, skip_empty-first buckets b later)

later_of_contains :
    (t u : ℕ) (times : List ℕ) → All (λ v. t < v) times → contains times u ≡ true → t < u
later_of_contains t u [] h c = cc
later_of_contains t u (v ∷ times) h c = ground (arith, later_of_contains t u times)

bucket_at-later :
    (buckets : List Bucket) (t : ℕ)
    → All (λ u. t < u) (times_of buckets)
    → bucket_at buckets t ≡ none
unfolding bucket_at
bucket_at-later [] t h = refl
bucket_at-later (b ∷ buckets) t h = ground (arith, bucket_at-later buckets t)

-- Every bucket has a row, and the buckets come in order.
pub record OnGrid (times : List ℕ) (buckets : List Bucket) : Type 0 where
  pub ordered : Increases (times_of buckets)
  pub listed : All (λ u. contains times u ≡ true) (times_of buckets)

listed-tail :
    (t : ℕ) (times us : List ℕ)
    → All (λ u. t < u) us
    → All (λ u. contains (t ∷ times) u ≡ true) us
    → All (λ u. contains times u ≡ true) us
listed-tail t times [] h k = tt
listed-tail t times (u ∷ us) h k = (ground arith, listed-tail t times us h.1 k.1)

above : (t m : ℕ) (us : List ℕ) → t < m → All (λ u. m < u) us → All (λ u. t < u) us
above t m [] k h = tt
above t m (u ∷ us) k h = (ground arith, above t m us k h.1)

pub OnGrid-taken :
    (t : ℕ) (times : List ℕ) (b : Bucket) (bs : List Bucket)
    → (b.time == t) ≡ true
    → OnGrid (t ∷ times) (b ∷ bs)
    → OnGrid times bs
OnGrid-taken t times b bs e grid =
    let here = (==_iff b.time t).0 e in
    record {
      ordered = grid.ordered.1;
      listed = listed-tail t times (times_of bs) (rw (sym here) grid.ordered.0) grid.listed.1;
    }

-- A bucket that is not of this row is of a later one, and so are those behind it.
pub follows :
    (t : ℕ) (times : List ℕ) (b : Bucket) (bs : List Bucket)
    → (b.time == t) ≡ false
    → All (λ u. t < u) times
    → OnGrid (t ∷ times) (b ∷ bs)
    → All (λ u. t < u) (times_of (b ∷ bs))
follows t times b bs e h grid =
    let later = later_of_contains t b.time times h in
    let first : t < b.time = ground (arith, later, grid.listed.0) in
    (first, above t b.time (times_of bs) first grid.ordered.0)

pub OnGrid-waits :
    (t : ℕ) (times : List ℕ) (b : Bucket) (bs : List Bucket)
    → All (λ u. t < u) (times_of (b ∷ bs))
    → OnGrid (t ∷ times) (b ∷ bs)
    → OnGrid times (b ∷ bs)
OnGrid-waits t times b bs h grid = record {
  ordered = grid.ordered;
  listed = listed-tail t times (times_of (b ∷ bs)) h grid.listed;
}

cells_of : Plotted → List Cell
cells_of p = p.cells

module _ (f : Format) where
  abbrev pub columns : List ℕ → List Bucket → List Cell
  columns times buckets = map (λ t. cell f (bucket_at buckets t)) times

  -- A bucket of an earlier time is in no row.
  columns-cons :
      (b : Bucket) (buckets : List Bucket) (times : List ℕ)
      → All (λ u. b.time < u) times
      → columns times (b ∷ buckets) ≡ columns times buckets
  unfolding bucket_at
  columns-cons b buckets [] h = refl
  columns-cons b buckets (t ∷ times) h = ground (arith, columns-cons b buckets times)

  columns-nil : (times : List ℕ) → columns times [] ≡ map (λ _. cell f none) times
  unfolding bucket_at
  columns-nil times = refl

  nothing : (times : List ℕ) → OnGrid times []
  nothing times = record { ordered = tt; listed = tt }

  columns-taken :
      (t : ℕ) (times : List ℕ) (b : Bucket) (bs : List Bucket)
      → (b.time == t) ≡ true
      → All (λ u. t < u) times
      → columns (t ∷ times) (b ∷ bs) ≡ cell f (some b) ∷ columns times bs
  unfolding bucket_at
  columns-taken t times b bs e h =
      rw e (ap (cell f (some b) ∷◌) (columns-cons b bs times (rw ((==_iff b.time t).0 e) h)))

  columns-waits :
      (t : ℕ) (times : List ℕ) (bs : List Bucket)
      → All (λ u. t < u) (times_of bs)
      → columns (t ∷ times) bs ≡ cell f none ∷ columns times bs
  columns-waits t times bs h =
      ap (λ found. cell f found ∷ columns times bs) (bucket_at-later bs t h)

  cells-plot_series :
      (times : List ℕ) (buckets : List Bucket) (r : Range) (x : Extremes)
      → Increases times
      → OnGrid times (filled buckets)
      → (plot_series f times buckets r x).cells ≡ columns times (filled buckets)
  unfolding cells_of plot_series filled
  cells-plot_series [] buckets r x inc grid = refl
  cells-plot_series (t ∷ times) buckets r x inc grid = elim (step f t times buckets r x) [
    | done s e ↦
        ap cells_of e
        ∙ ap (cell f none ∷◌) (cells-plot_series times [] (grow f none r) x inc.1 (nothing times))
        ∙ sym (columns-waits t times [] tt)
        ∙ ap (columns (t ∷ times)) (sym (filled-skip_empty buckets ∙ ap filled s))
    | taken b later s here e ↦
        let same = filled-skip_empty buckets ∙ ap filled s ∙ skip_empty-first buckets b later s in
        let at = subst (OnGrid (t ∷ times)) same grid in
        ap cells_of e
        ∙ ap (cell f (some b) ∷◌) (
            cells-plot_series times later (grow f (some b) r) (annotate t b x) inc.1
              (OnGrid-taken t times b (filled later) here at))
        ∙ sym (columns-taken t times b (filled later) here inc.0)
        ∙ ap (columns (t ∷ times)) (sym same)
    | waits b later s there e ↦
        let first = skip_empty-first buckets b later s in
        let same = filled-skip_empty buckets ∙ ap filled s ∙ first in
        let at = subst (OnGrid (t ∷ times)) same grid in
        let ahead = follows t times b (filled later) there inc.0 at in
        ap cells_of e
        ∙ ap (cell f none ∷◌) (
            cells-plot_series times (b ∷ later) (grow f none r) (annotate t b x) inc.1
              (subst (OnGrid times) (sym first) (OnGrid-waits t times b (filled later) ahead at)))
        ∙ ap (λ bs. cell f none ∷ columns times bs) first
        ∙ sym (columns-waits t times (b ∷ filled later) ahead)
        ∙ ap (columns (t ∷ times)) (sym same)
  ]

  -- The series of a plot, each one a column.
  plot_all-columns :
      (times : List ℕ) (data' : List (Text × List Bucket)) (r : Range)
      → Increases times
      → All (λ (_, buckets). OnGrid times (filled buckets)) data'
      → (plot_all f times data' r).0 ≡ map (λ (_, buckets). columns times (filled buckets)) data'
  unfolding plot_all
  plot_all-columns times [] r inc h = refl
  plot_all-columns times ((key, buckets) ∷ data') r inc h =
      ap₂ (λ c cs. c ∷ cs) (cells-plot_series times buckets r no_extremes inc h.0)
        (plot_all-columns times data' (plot_series f times buckets r no_extremes).range inc h.1)

  -- The columns that a repaint draws, if it draws.
  abbrev pub drawn : Option (List (List Cell) × Option Bounds) → Option (List (List Cell))
  drawn none = none
  drawn (some (cs, bounds)) = some cs

  drawn-some :
      (times : List ℕ) (cs : List (List Cell)) (bounds : Option Bounds)
      → times ≢ []
      → drawn (elim times [ [] ↦ none | _ ∷ _ ↦ some (cs, bounds) ]) ≡ some cs
  drawn-some [] cs bounds h = absurd (h refl)
  drawn-some (t ∷ times) cs bounds h = refl

  -- Where every bucket with data is at the time of a row and the buckets come in order, a repaint of a
  -- span that is not empty, with a positive interval, draws each series so that each row shows the bucket of its own
  -- time or a gap.
  pub repaint-Aligned :
      (start stop interval : ℕ) (data' : List (Text × List Bucket))
      → 0 < interval
      → start < stop
      → All (λ (_, buckets). OnGrid (plot_times start stop interval) (filled buckets)) data'
      → drawn (repaint f start stop interval data')
        ≡ some
            (map (λ (_, buckets). columns (plot_times start stop interval) (filled buckets)) data')
  unfolding repaint
  repaint-Aligned start stop interval data' h k grid =
      let all =
        plot_all-columns (plot_times start stop interval) data' no_range
          (plot_times-Increases start stop interval h) grid in
      drawn-some (plot_times start stop interval) _ _ (plot_times-filled start stop interval k)
      ∙ ap some all
