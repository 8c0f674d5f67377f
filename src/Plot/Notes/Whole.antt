-- ===== src/Plot/Notes/Whole.antt =====
-- The annotations and the summary of a whole plot.
use istatd.Prelude.Words.{codes}
use istatd.Prelude.{
  ◌++◌, ℕ, ◌<◌, ◌≡◌, ◌≢◌, ◌⊎◌, inl, inr, sym, ◌∙◌, refl, subst, arith, true, false, Option, none,
  some, List, [], ◌∷◌, All, Text, All-map, Bool-cases,
}
use istatd.Prelude.Int.{ℤ, ◌≤ℤ◌, ◌-ℤ◌, leb_ℤ}
use istatd.Surface.{Format}
use istatd.Plot.{Bucket, Range, Extremes, plot_series, plot_times, no_extremes, no_range}
use istatd.Plot.Times.{Increases, plot_times-Increases, plot_times-filled}
use istatd.Plot.Rows.{OnGrid, filled}
use istatd.Plot.Notes.{
  Annotation, Summary, no_summary, summarize, summarize_all, extremes_of, annotations, summary_html,
  repaint_notes,
}
use istatd.Plot.Notes.Extent.{Some, Spans, plot_series-Spans}

abbrev pub Series : Type 0
Series = List (Text × List Bucket)

-- Some bucket with data of some series has the property.
abbrev pub SomeOf : (Bucket → Type 0) → Series → Type 0
SomeOf P [] = true ≡ false
SomeOf P ((key, bs) ∷ data') = Some P (filled bs) ⊎ SomeOf P data'

-- From the summary `s` on, these series give the summary `t`.
pub record Extent (s t : Summary) (data' : Series) : Type 0 where
  pub covers :
      All
        (λ (_, bs). All (λ b. (t.ann_minval ≤ℤ b.min) × (b.max ≤ℤ t.ann_maxval)) (filled bs))
        data'
  pub lower : t.ann_minval ≤ℤ s.ann_minval
  pub higher : s.ann_maxval ≤ℤ t.ann_maxval
  pub least : (t.ann_minval ≡ s.ann_minval) ⊎ SomeOf (λ b. b.min ≡ t.ann_minval) data'
  pub most : (t.ann_maxval ≡ s.ann_maxval) ⊎ SomeOf (λ b. b.max ≡ t.ann_maxval) data'

-- A summary that a series without data leaves alone.
pub record IsInside (s : Summary) : Type 0 where
  pub low : s.ann_minval ≤ℤ no_extremes.ann_min
  pub high : no_extremes.ann_max ≤ℤ s.ann_maxval

ℤ_antisym : (a b : ℤ) → a ≤ℤ b → b ≤ℤ a → a ≡ b
ℤ_antisym a b h k = ground arith

module _ (x : Extremes) (s : Summary) (inside : IsInside s) where
  summarize_bounds :
      ((summarize x s).ann_minval ≤ℤ x.ann_min)
      × ((summarize x s).ann_minval ≤ℤ s.ann_minval)
      × (x.ann_max ≤ℤ (summarize x s).ann_maxval)
      × (s.ann_maxval ≤ℤ (summarize x s).ann_maxval)
  unfolding summarize
  summarize_bounds = ground arith

  -- The least value of all is the one before, or that of a bucket of this series.
  least_of :
      (bs : List Bucket)
      → (x.ann_min ≡ no_extremes.ann_min) ⊎ Some (λ b. b.min ≡ x.ann_min) bs
      → ((summarize x s).ann_minval ≡ s.ann_minval)
        ⊎ Some (λ b. b.min ≡ (summarize x s).ann_minval) bs
  unfolding summarize
  least_of bs (inl e) = inl (ground (arith, inside.low, e))
  least_of bs (inr m) = elim (Bool-cases (leb_ℤ x.ann_min s.ann_minval)) [
    | inl e ↦ rw e (inr m)
    | inr e ↦ rw e (inl refl)
  ]

  most_of :
      (bs : List Bucket)
      → (x.ann_max ≡ no_extremes.ann_max) ⊎ Some (λ b. b.max ≡ x.ann_max) bs
      → ((summarize x s).ann_maxval ≡ s.ann_maxval)
        ⊎ Some (λ b. b.max ≡ (summarize x s).ann_maxval) bs
  unfolding summarize
  most_of bs (inl e) = inl (ground (arith, inside.high, e))
  most_of bs (inr m) = elim (Bool-cases (leb_ℤ x.ann_max s.ann_maxval)) [
    | inl e ↦ rw e (inl refl)
    | inr e ↦ rw e (inr m)
  ]

  summarize-IsInside : IsInside (summarize x s)
  unfolding summarize
  summarize-IsInside = ground (arith, inside.low, inside.high)

-- Where the extreme of all comes from, one series earlier.
from_series :
    (value : Bucket → ℤ) {u v w : ℤ} (key : Text) (bs : List Bucket) (data' : Series)
    → (v ≡ u) ⊎ Some (λ b. value b ≡ v) (filled bs)
    → (w ≡ v) ⊎ SomeOf (λ b. value b ≡ w) data'
    → (w ≡ u) ⊎ SomeOf (λ b. value b ≡ w) ((key, bs) ∷ data')
from_series value key bs data' h (inr m) = inr (inr m)
from_series value key bs data' (inl e) (inl k) = inl (k ∙ e)
from_series value key bs data' (inr m) (inl k) =
    inr (inl (subst (λ v. Some (λ b. value b ≡ v) (filled bs)) (sym k) m))

Extent-cons :
    (key : Text) (bs : List Bucket) (data' : Series) (x : Extremes) (s t : Summary)
    → IsInside s
    → Spans no_extremes x (filled bs)
    → Extent (summarize x s) t data'
    → Extent s t ((key, bs) ∷ data')
Extent-cons key bs data' x s t inside h k =
    let (min_x, min_s, max_x, max_s) = summarize_bounds x s inside in
    record {
      covers = (
        All-map
            (λ b (low, high).
              (omega (arith, low, k.lower, min_x), omega (arith, high, k.higher, max_x)))
            (filled bs) h.covers,
        k.covers,
      );
      lower = omega (arith, k.lower, min_s);
      higher = omega (arith, k.higher, max_s);
      least =
          from_series (λ b. b.min) key bs data' (least_of x s inside (filled bs) h.least) k.least;
      most = from_series (λ b. b.max) key bs data' (most_of x s inside (filled bs) h.most) k.most;
    }

module _ (f : Format) (times : List ℕ) (inc : Increases times) where
  abbrev AllOnGrid : Series → Type 0
  AllOnGrid data' = All (λ (_, bs). OnGrid times (filled bs)) data'

  summarize_all-Extent :
      (data' : Series) (r : Range) (s : Summary)
      → AllOnGrid data'
      → IsInside s
      → Extent s (summarize_all (extremes_of f times data' r) s) data'
  unfolding summarize_all extremes_of
  summarize_all-Extent [] r s h inside = record {
    covers = tt;
    lower = omega arith;
    higher = omega arith;
    least = inl refl;
    most = inl refl;
  }
  summarize_all-Extent ((key, bs) ∷ data') r s h inside =
      let p = plot_series f times bs r no_extremes in
      Extent-cons key bs data' p.extremes s _ inside
        (plot_series-Spans f times bs r no_extremes inc h.0)
        (summarize_all-Extent data' p.range (summarize p.extremes s) h.1
          (summarize-IsInside p.extremes s inside))

no_summary-IsInside : IsInside no_summary
unfolding ◌-ℤ◌
no_summary-IsInside = record { low = omega arith; high = omega arith }

module _ (to_string : ℤ → Text) (to_date : Option ℕ → Text) where
  -- Two notes for each series, with its name and the least and the largest value of its buckets with data.
  abbrev pub Annotated : Series → List Annotation → Type 0
  Annotated [] [] = true ≡ true
  Annotated ((key, bs) ∷ data') (low ∷ high ∷ notes) =
      ((x : Extremes) × Spans no_extremes x (filled bs)
        × (low ≡ record {
          series = key;
          x = x.ann_min_ts;
          short_text = to_string x.ann_min;
          text = key ++ (codes " min " ++ to_string x.ann_min);
        })
        × (high ≡ record {
          series = key;
          x = x.ann_max_ts;
          short_text = to_string x.ann_max;
          text = key ++ (codes " max " ++ to_string x.ann_max);
        }))
      × Annotated data' notes
  Annotated _ _ = true ≡ false

  -- The summary with these numbers and dates.
  abbrev pub summary_text : (most : ℤ) → Option ℕ → (least : ℤ) → Option ℕ → Text
  summary_text most most_time least least_time =
      codes "<span class='nobreak'>Maximum: "
      ++ (to_string most
          ++ (codes " at "
              ++ (to_date most_time
                  ++ (codes "</span><span class='nobreak'> Minimum: "
                      ++ (to_string least
                          ++ (codes " at " ++ (to_date least_time ++ codes "</span>")))))))

  annotations-Annotated :
      (f : Format) (times : List ℕ) (inc : Increases times) (data' : Series) (r : Range)
      → AllOnGrid f times inc data'
      → Annotated data' (annotations to_string to_date (extremes_of f times data' r))
  unfolding annotations extremes_of
  annotations-Annotated f times inc [] r h = refl
  annotations-Annotated f times inc ((key, bs) ∷ data') r h = (
    (
      (plot_series f times bs r no_extremes).extremes,
      plot_series-Spans f times bs r no_extremes inc h.0,
      refl,
      refl,
    ),
    annotations-Annotated f times inc data' (plot_series f times bs r no_extremes).range h.1,
  )

  notes-some :
      (times : List ℕ) (notes : List Annotation × Text)
      → times ≢ []
      → (elim times as (λ _. Option (List Annotation × Text)) [ [] ↦ none | _ ∷ _ ↦ some notes ])
        ≡ some notes
  notes-some [] notes h = absurd (h refl)
  notes-some (t ∷ times) notes h = refl

  -- Where every bucket with data is at the time of a row and the buckets come in order, a repaint of a span that
  -- is not empty writes two notes for each series, in order, with its name and the least and the largest value of
  -- its buckets with data; and a summary whose maximum and minimum are numbers between which all these buckets lie,
  -- each that of a bucket or the one that stands for none.
  pub repaint_notes-Extent :
      (f : Format) (start stop interval : ℕ) (data' : Series)
      → 0 < interval
      → start < stop
      → All (λ (_, bs). OnGrid (plot_times start stop interval) (filled bs)) data'
      → (notes : List Annotation) × (s : Summary) × (repaint_notes to_string to_date f start stop
            interval data'
          ≡ some (notes, summary_text s.ann_maxval s.ann_maxtime s.ann_minval s.ann_mintime))
        × Annotated data' notes
        × Extent no_summary s data'
  unfolding repaint_notes summary_html
  repaint_notes-Extent f start stop interval data' h k grid =
      let times = plot_times start stop interval in
      let inc = plot_times-Increases start stop interval h in
      let xs = extremes_of f times data' no_range in
      (
        annotations to_string to_date xs,
        summarize_all xs no_summary,
        notes-some times _ (plot_times-filled start stop interval k),
        annotations-Annotated f times inc data' no_range grid,
        summarize_all-Extent f times inc data' no_range no_summary grid no_summary-IsInside,
      )
