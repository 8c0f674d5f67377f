-- ===== src/Plot/Notes.antt =====
-- What `repaint` of files/graph.js writes about a plot: the annotations of each series, and the summary of
-- the graph. `to_string` and `to_date` are those of numbers and dates; the sizes of the texts are left out.
pub mod Extent
pub mod Whole
use istatd.Prelude.{ℕ, Option, none, some, List, [], ◌∷◌, ◌++◌, Text, if◌then◌else◌}
use istatd.Prelude.Int.{ℤ, pos, ◌-ℤ◌, eqb_ℤ}
use istatd.Prelude.Words.{codes}
use istatd.Surface.{Format}
use istatd.Plot.{
  Bucket, Range, Extremes, min_ℤ, max_ℤ, huge, no_extremes, no_range, plot_series, plot_times,
}

pub record Annotation : Type 0 where
  pub series : Text
  pub x : Option ℕ
  pub short_text : Text
  pub text : Text

-- The extremes of all series, with the times of their rows.
pub record Summary : Type 0 where
  pub ann_maxval : ℤ
  pub ann_maxtime : Option ℕ
  pub ann_minval : ℤ
  pub ann_mintime : Option ℕ

abbrev pub no_summary : Summary
no_summary = record {
  ann_maxval = pos 0 -ℤ pos huge;
  ann_maxtime = none;
  ann_minval = pos huge;
  ann_mintime = none;
}

unfoldable pub summarize : Extremes → Summary → Summary
summarize x s =
    let least = min_ℤ x.ann_min s.ann_minval in
    let most = max_ℤ x.ann_max s.ann_maxval in
    record {
      ann_minval = least;
      ann_mintime = if eqb_ℤ least x.ann_min then x.ann_min_ts else s.ann_mintime;
      ann_maxval = most;
      ann_maxtime = if eqb_ℤ most x.ann_max then x.ann_max_ts else s.ann_maxtime;
    }

-- The extremes of each series, over the same rows.
unfoldable pub extremes_of :
    Format → List ℕ → List (Text × List Bucket) → Range → List (Text × Extremes)
unfolding plot_series
extremes_of f times [] r = []
extremes_of f times ((key, buckets) ∷ data') r =
    let p = plot_series f times buckets r no_extremes in
    (key, p.extremes) ∷ extremes_of f times data' p.range

unfoldable pub summarize_all : List (Text × Extremes) → Summary → Summary
unfolding summarize
summarize_all [] s = s
summarize_all ((key, x) ∷ xs) s = summarize_all xs (summarize x s)

module _ (to_string : ℤ → Text) (to_date : Option ℕ → Text) where
  unfoldable pub annotation : (key word : Text) → Option ℕ → ℤ → Annotation
  annotation key word x value = record {
    series = key;
    x = x;
    short_text = to_string value;
    text = key ++ (word ++ to_string value);
  }

  unfoldable pub annotations : List (Text × Extremes) → List Annotation
  unfolding annotation
  annotations [] = []
  annotations ((key, x) ∷ xs) =
      annotation key (codes " min ") x.ann_min_ts x.ann_min
      ∷ annotation key (codes " max ") x.ann_max_ts x.ann_max
      ∷ annotations xs

  -- The element for the summary.
  unfoldable pub summary_html : Summary → Text
  summary_html s =
      codes "<span class='nobreak'>Maximum: "
      ++ (to_string s.ann_maxval
          ++ (codes " at "
              ++ (to_date s.ann_maxtime
                  ++ (codes "</span><span class='nobreak'> Minimum: "
                      ++ (to_string s.ann_minval
                          ++ (codes " at " ++ (to_date s.ann_mintime ++ codes "</span>")))))))

  -- The annotations and the summary of a repaint; without rows there are none.
  unfoldable pub repaint_notes :
      Format
      → (start stop interval : ℕ) → List (Text × List Bucket)
      → Option (List Annotation × Text)
  unfolding plot_times extremes_of summarize_all annotations summary_html
  repaint_notes f start stop interval data' =
      let xs = extremes_of f (plot_times start stop interval) data' no_range in
      elim (plot_times start stop interval) [
        | [] ↦ none
        | _ ∷ _ ↦ some (annotations xs, summary_html (summarize_all xs no_summary))
      ]
