-- ===== src/Plot/Tests.antt =====
-- Two series over three rows; the first one has a gap.
use istatd.Prelude.{
  ℕ, ◌<◌, ◌+◌, ltb, ◌≡◌, refl, arith, Option, none, some, List, [], ◌∷◌, Text, map, length, nat_eq,
  All,
}
use istatd.Prelude.Int.{ℤ, pos}
use istatd.Prelude.Words.{codes}
use istatd.Surface.{error_bars, stacked, custom_bars}
use istatd.Plot.Rows.{OnGrid, filled, columns, drawn, repaint-Aligned}
use istatd.Plot.Ranges.{IsSane}
use istatd.Plot.Shown.{AllSane, ShowsAll, repaint-ShowsAll}
use istatd.Plot.Notes.{Annotation, Summary, no_summary, extremes_of, repaint_notes}
use istatd.Plot.Notes.Whole.{Annotated, summary_text, Extent, repaint_notes-Extent}
use istatd.Plot.Entries.{no_data, undefined, of_buckets, series_of, repaint_entries}
use istatd.Plot.Ends.{Reaches, plot_times-Reaches}
use istatd.Plot.{Bucket, plot_times, plot_times_from, no_range, repaint}

abbrev bucket : ℕ → ℕ → Bucket
bucket time avg = record { time = time; min = pos 0; avg = pos avg; max = pos 9; sdev = pos 1 }

abbrev cpu : List Bucket
cpu = bucket 0 0 ∷ bucket 120 5 ∷ []

abbrev net : List Bucket
net = bucket 100 1 ∷ bucket 110 2 ∷ bucket 120 3 ∷ []

abbrev both : List (Text × List Bucket)
both = (codes "cpu", cpu) ∷ (codes "net", net) ∷ []

both-OnGrid : All (λ (_, buckets). OnGrid (plot_times 100 130 10) (filled buckets)) both
unfolding plot_times filled
both-OnGrid = (
  record { ordered = (tt, tt); listed = (refl, tt) },
  (record { ordered = ground arith; listed = (refl, (refl, (refl, tt))) }, tt),
)

repaint-Aligned_example :
    drawn error_bars (repaint error_bars 100 130 10 both)
    ≡ some (map (λ (_, buckets). columns error_bars (plot_times 100 130 10) (filled buckets)) both)
repaint-Aligned_example =
    repaint-Aligned error_bars 100 130 10 both (omega arith) (omega arith) both-OnGrid

sane : (time avg : ℕ) → avg < 10 → IsSane (bucket time avg)
sane time avg h = record {
  min = (omega arith, omega arith);
  avg = (omega arith, omega arith);
  max = (omega arith, omega arith);
  sdev = (omega arith, omega arith);
  spread = omega arith;
  above_min = omega arith;
  below_max = omega arith;
}

both-AllSane : AllSane both
both-AllSane = (
  (sane 0 0 (omega arith), (sane 120 5 (omega arith), tt)),
  ((sane 100 1 (omega arith), (sane 110 2 (omega arith), (sane 120 3 (omega arith), tt))), tt),
)

repaint-ShowsAll_example : ShowsAll custom_bars (repaint custom_bars 100 130 10 both)
repaint-ShowsAll_example =
    repaint-ShowsAll custom_bars 100 130 10 both (ground arith) (omega arith) (omega arith)
      both-AllSane

abbrev short : List (Text × List Bucket)
short = (codes "cpu", bucket 100 5 ∷ []) ∷ []

abbrev written : ℤ → Text
written v = codes "0"

abbrev dated : Option ℕ → Text
dated time = codes "1"

repaint_notes-Extent_example :
    (notes : List Annotation) × (s : Summary) × (repaint_notes written dated error_bars 100 130 10
        both
      ≡ some
          (notes, summary_text written dated s.ann_maxval s.ann_maxtime s.ann_minval s.ann_mintime))
    × Annotated written dated both notes
    × Extent no_summary s both
repaint_notes-Extent_example =
    repaint_notes-Extent written dated error_bars 100 130 10 both (omega arith) (omega arith)
      both-OnGrid

-- The series has nothing before its bucket at 120, whose values are annotated at the first row.
early_test :
    extremes_of error_bars (plot_times 100 130 10) ((codes "cpu", cpu) ∷ []) no_range
    ≡ (
      codes "cpu",
      record { ann_min = pos 0; ann_min_ts = some 100; ann_max = pos 9; ann_max_ts = some 100 },
    )
      ∷ []
unfolding extremes_of plot_times istatd.Prelude.Int.◌-ℤ◌
early_test = refl

plot_times-Reaches_example :
    (plot_times_from 40 100 130 10 ≡ plot_times 100 130 10)
    × Reaches 100 130 10 (length (plot_times 100 130 10))
    × (length (plot_times_from 40 100 130 0) ≡ 40)
plot_times-Reaches_example =
    plot_times-Reaches 100 130 10 40 (omega arith) (omega arith) (omega arith)

entries_test :
    repaint_entries stacked 100 120 10 ((codes "start", no_data) ∷ (codes "x", undefined) ∷ [])
    ≡ none
unfolding repaint_entries plot_times
entries_test = refl

passed_over_test :
    series_of ((codes "start", no_data) ∷ (codes "cpu", of_buckets cpu) ∷ [])
    ≡ some ((codes "cpu", cpu) ∷ [])
unfolding series_of
passed_over_test = refl
