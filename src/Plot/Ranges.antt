-- ===== src/Plot/Ranges.antt =====
-- The range that a repaint gathers, and the values of the cells it draws.
use istatd.Prelude.{
  ℕ, ◌≤◌, ◌^◌, ◌≡◌, refl, sym, subst, arith, true, false, Option, none, some, List, [], ◌∷◌, ◌==◌,
  All, All-map,
}
use istatd.Prelude.Int.{
  ℤ, pos, ◌+ℤ◌, ◌-ℤ◌, ◌≤ℤ◌, int_laws, pos_part, neg_part, pos_part_add, neg_part_sub,
}
use istatd.Surface.{Format, no_bars, error_bars, custom_bars, stacked, area}
use istatd.Plot.Steps.{step, done, taken, waits}
use istatd.Plot.{
  Bucket, Range, Extremes, Cell, Plotted, widen, cell, grow, annotate, skip_empty, plot_series,
}

-- A number of at most 2^40.
abbrev pub IsModest : ℤ → Type 0
IsModest v = (pos_part v ≤ 2 ^ 40) × (neg_part v ≤ 2 ^ 40)

-- The numbers of a bucket are in order, and none is large.
pub record IsSane (b : Bucket) : Type 0 where
  pub min : IsModest b.min
  pub avg : IsModest b.avg
  pub max : IsModest b.max
  pub sdev : IsModest b.sdev
  pub spread : pos 0 ≤ℤ b.sdev
  pub above_min : b.min ≤ℤ b.avg
  pub below_max : b.avg ≤ℤ b.max

unfoldable pub somes : List (Option ℤ) → List ℤ
somes [] = []
somes (none ∷ c) = somes c
somes (some v ∷ c) = v ∷ somes c

-- The values that a cell shows; a deviation is none.
abbrev pub values_of : Format → Cell → List ℤ
unfolding somes
values_of error_bars (v ∷ _) = somes (v ∷ [])
values_of _ c = somes c

-- A range that has seen data is not empty, and holds its smallest value. Its ends are not far off.
pub record IsFair (r : Range) : Type 0 where
  pub nonempty : r.gotdata ≡ true → r.minimum ≤ℤ r.maximum
  pub seen : r.gotdata ≡ true → r.min_val ≤ℤ r.maximum
  pub least : neg_part r.minimum ≤ 2 ^ 41
  pub most : pos_part r.maximum ≤ 2 ^ 41

pub record Grows (r s : Range) : Type 0 where
  pub lower : s.minimum ≤ℤ r.minimum
  pub higher : r.maximum ≤ℤ s.maximum
  pub lower_val : s.min_val ≤ℤ r.min_val
  pub still : r.gotdata ≡ true → s.gotdata ≡ true

pub record Holds (r : Range) (v : ℤ) : Type 0 where
  pub from : r.minimum ≤ℤ v
  pub to : v ≤ℤ r.maximum
  pub val : r.min_val ≤ℤ v
  pub got : r.gotdata ≡ true

pub Grows-refl : (r : Range) → Grows r r
Grows-refl r = record {
  lower = omega arith;
  higher = omega arith;
  lower_val = omega arith;
  still = λ e. e;
}

pub Grows-trans : (r s t : Range) → Grows r s → Grows s t → Grows r t
Grows-trans r s t g h = record {
  lower = omega arith;
  higher = omega arith;
  lower_val = omega arith;
  still = λ e. h.still (g.still e);
}

pub Holds-mono : (r s : Range) (v : ℤ) → Grows r s → Holds r v → Holds s v
Holds-mono r s v g h = record {
  from = omega arith;
  to = omega arith;
  val = omega arith;
  got = g.still h.got;
}

widen-Grows : (low high val : ℤ) (r : Range) → Grows r (widen low high val r)
unfolding widen
widen-Grows low high val r = record {
  lower = ground arith;
  higher = ground arith;
  lower_val = ground arith;
  still = λ _. refl;
}

widen-IsFair :
    (low high val : ℤ) (r : Range)
    → low ≤ℤ high
    → val ≤ℤ high
    → neg_part low ≤ 2 ^ 41
    → pos_part high ≤ 2 ^ 41
    → IsFair r
    → IsFair (widen low high val r)
unfolding widen
widen-IsFair low high val r h k l m fair =
    let least = fair.least in
    let most = fair.most in
    record {
      nonempty = ground arith;
      seen = ground arith;
      least = ground arith;
      most = ground arith;
    }

widen-Holds :
    (low high val v : ℤ) (r : Range)
    → low ≤ℤ v
    → v ≤ℤ high
    → val ≤ℤ v
    → Holds (widen low high val r) v
unfolding widen
widen-Holds low high val v r h k l = record {
  from = ground arith;
  to = ground arith;
  val = ground arith;
  got = refl;
}

-- What a bucket does to the range, and what its cell shows.
record Fits (f : Format) (r s : Range) (c : Cell) : Type 0 where
  pub grows : Grows r s
  pub fair : IsFair s
  pub holds : All (Holds s) (values_of f c)

Fits-none : (f : Format) (r : Range) → IsFair r → Fits f r (grow f none r) (cell f none)
unfolding grow cell somes
Fits-none no_bars r h = record { grows = Grows-refl r; fair = h; holds = tt }
Fits-none error_bars r h = record { grows = Grows-refl r; fair = h; holds = tt }
Fits-none custom_bars r h = record { grows = Grows-refl r; fair = h; holds = tt }
Fits-none stacked r h = record { grows = Grows-refl r; fair = h; holds = tt }
Fits-none area r h = record { grows = Grows-refl r; fair = h; holds = tt }

Fits-widen :
    (f : Format) (low high val : ℤ) (r : Range) (c : Cell)
    → low ≤ℤ high
    → val ≤ℤ high
    → neg_part low ≤ 2 ^ 41
    → pos_part high ≤ 2 ^ 41
    → IsFair r
    → All (λ v. (low ≤ℤ v) × (v ≤ℤ high) × (val ≤ℤ v)) (values_of f c)
    → Fits f r (widen low high val r) c
Fits-widen f low high val r c h k least most fair l = record {
  grows = widen-Grows low high val r;
  fair = widen-IsFair low high val r h k least most fair;
  holds = All-map (λ v m. widen-Holds low high val v r m.0 m.1 m.2) (values_of f c) l;
}

even : (v : ℤ) → v ≤ℤ v
even v = omega arith

Fits-some :
    (f : Format) (b : Bucket) (r : Range)
    → IsSane b
    → IsFair r
    → Fits f r (grow f (some b) r) (cell f (some b))
unfolding grow cell somes
Fits-some no_bars b r h fair =
    let avg = h.avg in
    Fits-widen no_bars b.avg b.avg b.avg r _ (even b.avg) (even b.avg) (omega arith) (omega arith)
      fair ((even b.avg, even b.avg, even b.avg), tt)
Fits-some stacked b r h fair =
    let avg = h.avg in
    Fits-widen stacked b.avg b.avg b.avg r _ (even b.avg) (even b.avg) (omega arith) (omega arith)
      fair ((even b.avg, even b.avg, even b.avg), tt)
Fits-some area b r h fair =
    let avg = h.avg in
    Fits-widen area b.avg b.avg b.avg r _ (even b.avg) (even b.avg) (omega arith) (omega arith) fair
      ((even b.avg, even b.avg, even b.avg), tt)
Fits-some error_bars b r h fair =
    let avg = h.avg in
    let sdev = h.sdev in
    let spread = h.spread in
    let below : b.avg -ℤ b.sdev ≤ℤ b.avg = omega int_laws in
    let beyond : b.avg ≤ℤ b.avg +ℤ b.sdev = omega int_laws in
    Fits-widen error_bars (b.avg -ℤ b.sdev) (b.avg +ℤ b.sdev) b.avg r _ (omega arith) beyond
      (omega (arith, neg_part_sub b.avg b.sdev)) (omega (arith, pos_part_add b.avg b.sdev)) fair
      ((below, beyond, even b.avg), tt)
Fits-some custom_bars b r h fair =
    let min = h.min in
    let max = h.max in
    let low = h.above_min in
    let high = h.below_max in
    let all : b.min ≤ℤ b.max = omega arith in
    Fits-widen custom_bars b.min b.max b.min r _ all all (omega arith) (omega arith) fair
      ((even b.min, all, even b.min), ((low, high, low), ((all, even b.max, all), tt)))

skip_empty-All : (P : Bucket → Type 0) (bs : List Bucket) → All P bs → All P (skip_empty bs)
unfolding skip_empty
skip_empty-All P [] h = tt
skip_empty-All P (b ∷ bs) h =
    elim (b.time == 0) as (λ e. All P (elim e [ true ↦ skip_empty bs | false ↦ b ∷ bs ])) [
      | true ↦ skip_empty-All P bs h.1
      | false ↦ h
    ]

-- A series, cell by cell.
pub record AllFit (f : Format) (r : Range) (cells : List Cell) (s : Range) : Type 0 where
  pub grows : Grows r s
  pub fair : IsFair s
  pub holds : All (λ c. All (Holds s) (values_of f c)) cells

AllFit-cons :
    (f : Format) (r s t : Range) (c : Cell) (cells : List Cell)
    → Fits f r s c
    → AllFit f s cells t
    → AllFit f r (c ∷ cells) t
AllFit-cons f r s t c cells h k = record {
  grows = Grows-trans r s t h.grows k.grows;
  fair = k.fair;
  holds = (All-map (λ v. Holds-mono s t v k.grows) (values_of f c) h.holds, k.holds);
}

abbrev pub PlotFits : Format → Range → Plotted → Type 0
PlotFits f r p = AllFit f r p.cells p.range

pub plot_series-AllFit :
    (f : Format) (times : List ℕ) (bs : List Bucket) (r : Range) (x : Extremes)
    → All IsSane bs
    → IsFair r
    → PlotFits f r (plot_series f times bs r x)
unfolding plot_series
plot_series-AllFit f [] bs r x sane fair = record { grows = Grows-refl r; fair = fair; holds = tt }
plot_series-AllFit f (t ∷ times) bs r x sane fair = elim (step f t times bs r x) [
  | done s e ↦
      let one = Fits-none f r fair in
      subst (PlotFits f r) (sym e) (
        AllFit-cons f r (grow f none r) _ (cell f none) _ one
          (plot_series-AllFit f times [] (grow f none r) x tt one.fair))
  | taken b later s here e ↦
      let left = subst (All IsSane) s (skip_empty-All IsSane bs sane) in
      let one = Fits-some f b r left.0 fair in
      subst (PlotFits f r) (sym e) (
        AllFit-cons f r (grow f (some b) r) _ (cell f (some b)) _ one
          (plot_series-AllFit f times later (grow f (some b) r) (annotate t b x) left.1 one.fair))
  | waits b later s there e ↦
      let left = subst (All IsSane) s (skip_empty-All IsSane bs sane) in
      let one = Fits-none f r fair in
      subst (PlotFits f r) (sym e) (
        AllFit-cons f r (grow f none r) _ (cell f none) _ one
          (plot_series-AllFit f times (b ∷ later) (grow f none r) (annotate t b x) left one.fair))
]
