-- ===== src/Plot/Notes/Extent.antt =====
-- The extremes that are written about a plot are those of its buckets.
use istatd.Prelude.{
  ℕ, ◌≡◌, ◌⊎◌, inl, inr, sym, ◌∙◌, ap, refl, subst, arith, true, false, none, some, List, [], ◌∷◌,
  All, nat_eq, Bool-cases,
}
use istatd.Prelude.Int.{ℤ, ◌≤ℤ◌, ltb_ℤ}
use istatd.Surface.{Format}
use istatd.Plot.{Bucket, Range, Extremes, grow, annotate, plot_series}
use istatd.Plot.Times.{Increases}
use istatd.Plot.Steps.{step, done, taken, waits}
use istatd.Plot.Rows.{
  OnGrid, filled, filled-skip_empty, skip_empty-first, OnGrid-taken, OnGrid-waits, follows,
}

-- Some bucket has the property.
abbrev pub Some : (Bucket → Type 0) → List Bucket → Type 0
Some P [] = true ≡ false
Some P (b ∷ bs) = P b ⊎ Some P bs

-- From the extremes `x` on, these buckets give the extremes `y`: none is beyond them, and each is that of a
-- bucket or was there before.
pub record Spans (x y : Extremes) (bs : List Bucket) : Type 0 where
  pub covers : All (λ b. (y.ann_min ≤ℤ b.min) × (b.max ≤ℤ y.ann_max)) bs
  pub lower : y.ann_min ≤ℤ x.ann_min
  pub higher : x.ann_max ≤ℤ y.ann_max
  pub least : (y.ann_min ≡ x.ann_min) ⊎ Some (λ b. b.min ≡ y.ann_min) bs
  pub most : (y.ann_max ≡ x.ann_max) ⊎ Some (λ b. b.max ≡ y.ann_max) bs

-- One bucket.
annotate-Spans : (t : ℕ) (b : Bucket) (x : Extremes) → Spans x (annotate t b x) (b ∷ [])
unfolding annotate
annotate-Spans t b x = record {
  covers = ((ground arith, ground arith), tt);
  lower = ground arith;
  higher = ground arith;
  least = elim (Bool-cases (ltb_ℤ b.min x.ann_min)) [
    | inl e ↦ inr (inl (ground arith))
    | inr e ↦ inl (ground arith)
  ];
  most = elim (Bool-cases (ltb_ℤ x.ann_max b.max)) [
    | inl e ↦ inr (inl (ground arith))
    | inr e ↦ inl (ground arith)
  ];
}

-- Where a value comes from, one step earlier.
from_earlier :
    (value : Bucket → ℤ) {u v w : ℤ} (b : Bucket) (bs : List Bucket)
    → (v ≡ u) ⊎ Some (λ c. value c ≡ v) (b ∷ [])
    → (w ≡ v) ⊎ Some (λ c. value c ≡ w) bs
    → (w ≡ u) ⊎ Some (λ c. value c ≡ w) (b ∷ bs)
from_earlier value b bs h (inr m) = inr (inr m)
from_earlier value b bs (inl e) (inl k) = inl (k ∙ e)
from_earlier value b bs (inr (inl e)) (inl k) = inr (inl (e ∙ sym k))
from_earlier value b bs (inr (inr ff)) (inl k) = cc

Spans-cons :
    (x y z : Extremes) (b : Bucket) (bs : List Bucket)
    → Spans x y (b ∷ [])
    → Spans y z bs
    → Spans x z (b ∷ bs)
Spans-cons x y z b bs h k = record {
  covers =
      ((omega (arith, h.covers.0.0, k.lower), omega (arith, h.covers.0.1, k.higher)), k.covers);
  lower = omega (arith, h.lower, k.lower);
  higher = omega (arith, h.higher, k.higher);
  least = from_earlier (λ c. c.min) b bs h.least k.least;
  most = from_earlier (λ c. c.max) b bs h.most k.most;
}

twice :
    {Q : Type 0} (P : Bucket → Type 0) (b : Bucket) (bs : List Bucket)
    → Q ⊎ Some P (b ∷ b ∷ bs)
    → Q ⊎ Some P (b ∷ bs)
twice P b bs (inl q) = inl q
twice P b bs (inr (inl h)) = inr (inl h)
twice P b bs (inr (inr m)) = inr m

-- A bucket that waits is looked at again.
Spans-again :
    (x z : Extremes) (b : Bucket) (bs : List Bucket) → Spans x z (b ∷ b ∷ bs) → Spans x z (b ∷ bs)
Spans-again x z b bs h = record {
  covers = h.covers.1;
  lower = h.lower;
  higher = h.higher;
  least = twice (λ c. c.min ≡ z.ann_min) b bs h.least;
  most = twice (λ c. c.max ≡ z.ann_max) b bs h.most;
}

Spans-nil : (x : Extremes) → Spans x x []
Spans-nil x = record {
  covers = tt;
  lower = omega arith;
  higher = omega arith;
  least = inl refl;
  most = inl refl;
}

no_rows : (bs : List Bucket) → OnGrid [] bs → bs ≡ []
no_rows [] grid = refl
no_rows (b ∷ bs) grid = cc (grid.listed.0)

-- The extremes of a series are those of its buckets with data.
pub plot_series-Spans :
    (f : Format) (times : List ℕ) (bs : List Bucket) (r : Range) (x : Extremes)
    → Increases times
    → OnGrid times (filled bs)
    → Spans x (plot_series f times bs r x).extremes (filled bs)
unfolding plot_series filled
plot_series-Spans f [] bs r x inc grid =
    subst (Spans x x) (sym (no_rows (filled bs) grid)) (Spans-nil x)
plot_series-Spans f (t ∷ times) bs r x inc grid = elim (step f t times bs r x) [
  | done s e ↦
      subst (λ p. Spans x p.extremes (filled bs)) (sym e)
        (subst (Spans x (plot_series f times [] (grow f none r) x).extremes)
          (sym (filled-skip_empty bs ∙ ap filled s))
          (plot_series-Spans f times [] (grow f none r) x inc.1
            (record { ordered = tt; listed = tt })))
  | taken b later s here e ↦
      let same = filled-skip_empty bs ∙ ap filled s ∙ skip_empty-first bs b later s in
      let at = subst (OnGrid (t ∷ times)) same grid in
      let rest = plot_series f times later (grow f (some b) r) (annotate t b x) in
      subst (λ p. Spans x p.extremes (filled bs)) (sym e)
        (subst (Spans x rest.extremes) (sym same) (
          Spans-cons x (annotate t b x) rest.extremes b (filled later) (annotate-Spans t b x) (
            plot_series-Spans f times later (grow f (some b) r) (annotate t b x) inc.1
              (OnGrid-taken t times b (filled later) here at))))
  | waits b later s there e ↦
      let first = skip_empty-first bs b later s in
      let same = filled-skip_empty bs ∙ ap filled s ∙ first in
      let at = subst (OnGrid (t ∷ times)) same grid in
      let ahead = follows t times b (filled later) there inc.0 at in
      let rest = plot_series f times (b ∷ later) (grow f none r) (annotate t b x) in
      subst (λ p. Spans x p.extremes (filled bs)) (sym e)
        (subst (Spans x rest.extremes) (sym same) (
          Spans-again x rest.extremes b (filled later) (
            Spans-cons x (annotate t b x) rest.extremes b (b ∷ filled later) (annotate-Spans t b x)
              (subst (Spans (annotate t b x) rest.extremes) first (
                plot_series-Spans f times (b ∷ later) (grow f none r) (annotate t b x) inc.1 (
                  subst (OnGrid times) (sym first)
                    (OnGrid-waits t times b (filled later) ahead at)))))))
]
