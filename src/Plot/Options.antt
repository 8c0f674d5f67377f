-- ===== src/Plot/Options.antt =====
-- The options that `repaint` of files/graph.js gives to Dygraph, beside the range of values and the callbacks.
use istatd.Prelude.{◌≡◌, refl, arith, Bool, true, false, List, [], ◌∷◌, Text, ltb, length}
use istatd.Prelude.Words.{codes}
use istatd.Surface.{Format, no_bars, error_bars, custom_bars, stacked, area}
use istatd.Plot.{Bucket}

-- `highlight` stands for `highlightSeriesOpts`.
pub record Params : Type 0 where
  pub labels : List Text
  pub highlight : Bool
  pub error_bars : Bool
  pub custom_bars : Bool
  pub stacked_graph : Bool
  pub fill_graph : Bool

unfoldable pub keys_of : List (Text × List Bucket) → List Text
keys_of [] = []
keys_of ((key, buckets) ∷ data') = key ∷ keys_of data'

abbrev pub labels_of : List (Text × List Bucket) → List Text
labels_of data' = codes "time" ∷ keys_of data'

abbrev pub plain : List (Text × List Bucket) → Params
plain data' = record {
  labels = labels_of data';
  highlight = ltb 2 (length (labels_of data'));
  error_bars = false;
  custom_bars = false;
  stacked_graph = false;
  fill_graph = false;
}

unfoldable pub params : Format → List (Text × List Bucket) → Params
unfolding keys_of
params error_bars data' = record (plain data') { error_bars = true }
params custom_bars data' = record (plain data') { custom_bars = true }
params stacked data' = record (plain data') { stacked_graph = true }
params area data' = record (plain data') { fill_graph = true }
params no_bars data' = plain data'

labels-params :
    (f : Format) (data' : List (Text × List Bucket)) → (params f data').labels ≡ labels_of data'
unfolding params
labels-params error_bars data' = refl
labels-params _ data' = refl

highlight-params :
    (f : Format) (data' : List (Text × List Bucket))
    → (params f data').highlight ≡ ltb 1 (length (keys_of data'))
unfolding params
highlight-params error_bars data' = ground arith
highlight-params _ data' = ground arith
