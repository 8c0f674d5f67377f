-- ===== src/Plot/Shown.antt =====
-- A repaint shows every value that it draws.
use istatd.Prelude.{
  ℕ, ◌<◌, ◌≤◌, ◌^◌, ◌≡◌, ◌≢◌, refl, arith, Option, none, some, List, [], ◌∷◌, Text, All, All-map,
}
use istatd.Prelude.Int.{pos, ◌+ℤ◌, ◌-ℤ◌, ◌≤ℤ◌, pos_part, neg_part}
use istatd.Surface.{Format, no_bars, error_bars, custom_bars, stacked, area}
use istatd.Plot.Times.{plot_times-filled}
use istatd.Plot.Ranges.{
  IsSane, IsFair, Holds, Grows, values_of, plot_series-AllFit, Holds-mono, Grows-refl, Grows-trans,
}
use istatd.Plot.Scale.{InBounds, Bounded, value_bounds-Bounded}
use istatd.Plot.{
  Bucket, Range, Cell, Bounds, plot_series, plot_all, top, no_range, no_extremes, plot_times,
  repaint,
}

abbrev pub AllSane : List (Text × List Bucket) → Type 0
AllSane data' = All (λ (_, buckets). All IsSane buckets) data'

-- What a plot draws lies in the range that it gathers.
record Gathers (f : Format) (r s : Range) (drawn : List (List Cell)) : Type 0 where
  grows : Grows r s
  fair : IsFair s
  holds : All (λ column. All (λ c. All (Holds s) (values_of f c)) column) drawn

plot_all-Gathers :
    (f : Format) (times : List ℕ) (data' : List (Text × List Bucket)) (r : Range)
    → AllSane data'
    → IsFair r
    → Gathers f r (plot_all f times data' r).1 (plot_all f times data' r).0
unfolding plot_all
plot_all-Gathers f times [] r sane fair = record { grows = Grows-refl r; fair = fair; holds = tt }
plot_all-Gathers f times ((key, buckets) ∷ data') r sane fair =
    let p = plot_series f times buckets r no_extremes in
    let one = plot_series-AllFit f times buckets r no_extremes sane.0 fair in
    let rest = plot_all-Gathers f times data' p.range sane.1 one.fair in
    let s = (plot_all f times data' p.range).1 in
    record {
      grows = Grows-trans r p.range s one.grows rest.grows;
      fair = rest.fair;
      holds = (
        All-map (λ c. All-map (λ v. Holds-mono p.range s v rest.grows) (values_of f c)) p.cells
            one.holds,
        rest.holds,
      );
    }

no_range-IsFair : IsFair no_range
unfolding ◌-ℤ◌
no_range-IsFair = record {
  nonempty = ground arith;
  seen = ground arith;
  least = ground arith;
  most = ground arith;
}

top-maximum :
    (f : Format) (times : List ℕ) (data' : List (Text × List Bucket)) (r : Range)
    → f ≢ stacked
    → top f times data' r ≡ some r.maximum
unfolding top
top-maximum no_bars times data' r h = refl
top-maximum error_bars times data' r h = refl
top-maximum custom_bars times data' r h = refl
top-maximum stacked times data' r h = absurd (h refl)
top-maximum area times data' r h = refl

-- Every value in the columns lies between the bounds, which are a proper range of at most 2^48 twentieths.
abbrev pub ShowsAll : Format → Option (List (List Cell) × Option Bounds) → Type 0
ShowsAll f none = ⊥
ShowsAll f (some (drawn, none)) = ⊥
ShowsAll f (some (drawn, some b)) =
    (neg_part b.low ≤ 2 ^ 48)
    × (pos_part b.high ≤ 2 ^ 48)
    × (pos 1 +ℤ b.low ≤ℤ b.high)
    × All (λ column. All (λ c. All (InBounds b) (values_of f c)) column) drawn

shown :
    (f : Format) (times : List ℕ) (drawn : List (List Cell)) (found : Option Bounds) (r : Range)
    → times ≢ []
    → Bounded r found
    → All (λ column. All (λ c. All (Holds r) (values_of f c)) column) drawn
    → ShowsAll f (elim times [ [] ↦ none | _ ∷ _ ↦ some (drawn, found) ])
shown f [] drawn found r h b k = absurd (h refl)
shown f (t ∷ times) drawn found r h b k = rw b.same (
  b.spans.least,
  b.spans.most,
  b.spans.proper,
  All-map (λ column. All-map (λ c. All-map b.spans.hold (values_of f c)) column) drawn k,
)

-- Where the graph is not stacked, the interval is positive, and the numbers of each bucket are in order and of at
-- most 2^40, a repaint of a span that is not empty has a proper range of values, in which every value that it draws
-- lies, and whose ends are at most 2^48 twentieths away from 0.
pub repaint-ShowsAll :
    (f : Format) (start stop interval : ℕ) (data' : List (Text × List Bucket))
    → f ≢ stacked
    → start < stop
    → 0 < interval
    → AllSane data'
    → ShowsAll f (repaint f start stop interval data')
unfolding repaint
repaint-ShowsAll f start stop interval data' h k _ sane =
    let times = plot_times start stop interval in
    let all = plot_all-Gathers f times data' no_range sane no_range-IsFair in
    let r = (plot_all f times data' no_range).1 in
    shown f times _ _ r (plot_times-filled start stop interval k)
      (rw (top-maximum f times data' r h) (value_bounds-Bounded r all.fair)) all.holds
