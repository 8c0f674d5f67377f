-- ===== src/Plot/Steps.antt =====
-- One row of a series: no bucket is left, or the next one is taken, or it waits for its row.
use istatd.Prelude.{
  ℕ, true, false, none, some, List, [], ◌∷◌, ◌≡◌, refl, nat_eq, ◌==◌, Bool-cases, inl, inr,
}
use istatd.Surface.{Format}
use istatd.Plot.{
  Bucket, Range, Extremes, Cell, Plotted, cell, grow, annotate, skip_empty, plot_series,
}

-- A row before the others.
abbrev pub row : Cell → Plotted → Plotted
row c p = record p { cells = c ∷ p.cells }

pub data Step (f : Format) (t : ℕ) (times : List ℕ) (bs : List Bucket) (r : Range) (x : Extremes)
    : Type 0 where
  done :
      skip_empty bs ≡ []
      → plot_series f (t ∷ times) bs r x
        ≡ row (cell f none) (plot_series f times [] (grow f none r) x)
      → Step f t times bs r x
  taken :
      (b : Bucket) (later : List Bucket)
      → skip_empty bs ≡ b ∷ later
      → (b.time == t) ≡ true
      → plot_series f (t ∷ times) bs r x
        ≡ row (cell f (some b)) (plot_series f times later (grow f (some b) r) (annotate t b x))
      → Step f t times bs r x
  waits :
      (b : Bucket) (later : List Bucket)
      → skip_empty bs ≡ b ∷ later
      → (b.time == t) ≡ false
      → plot_series f (t ∷ times) bs r x
        ≡ row (cell f none) (plot_series f times (b ∷ later) (grow f none r) (annotate t b x))
      → Step f t times bs r x

data Shape (bs : List Bucket) : Type 0 where
  empty : bs ≡ [] → Shape bs
  filled : (b : Bucket) (later : List Bucket) → bs ≡ b ∷ later → Shape bs

shape : (bs : List Bucket) → Shape bs
shape [] = empty refl
shape (b ∷ later) = filled b later refl

pub step :
    (f : Format) (t : ℕ) (times : List ℕ) (bs : List Bucket) (r : Range) (x : Extremes)
    → Step f t times bs r x
unfolding plot_series
step f t times bs r x = elim (shape (skip_empty bs)) [
  | empty s ↦ done s (rw (s, plot_series))
  | filled b later s ↦ elim (Bool-cases (b.time == t)) [
    | inl e ↦ taken b later s e (rw (s, plot_series, e))
    | inr e ↦ waits b later s e (rw (s, plot_series, e))
  ]
]
