-- ===== src/Surface/Rendered.antt =====
-- `renderData` of files/graph.js, the callback that a graph hands to the loader. No counter has the name of
-- one of the three numbers that stand beside the series.
use istatd.Prelude.{
  ℕ, ◌≡◌, refl, ◌∙◌, arith, Bool, true, false, not, Option, some, List, [], ◌∷◌, Text, text_eq_iff,
  text_eq_instance, contains, if◌then◌else◌,
}
use istatd.Prelude.Object.{Object, get, put, get-put}

-- The answer of the server.
pub record Fetched (B : Type 0) : Type 0 where
  pub start : ℕ
  pub stop : ℕ
  pub interval : ℕ
  pub series : Object Text B

-- `_lastRenderData`; a series without an answer is `undefined`.
pub record Rendered (B : Type 0) : Type 0 where
  pub start : ℕ
  pub stop : ℕ
  pub interval : ℕ
  pub series : Object Text (Option B)

-- Whether the timer repaints.
unfoldable pub on_paint : (hidden : Bool) → Bool
on_paint hidden = not hidden

module _ {B : Type 0} where
  -- The loop over the keys.
  unfoldable pub collect :
      List Text → Object Text B → Object Text (Option B) → Object Text (Option B)
  collect [] data' kept = kept
  collect (k ∷ series_keys) data' kept = collect series_keys data' (put k (get k data') kept)

  -- What the graph keeps, and whether painting is put off by a timer; a graph without series stays as it is.
  unfoldable pub render_data :
      (series_keys : List Text) → Fetched B → Option (Rendered B) → Option (Rendered B) × Bool
  unfolding collect
  render_data [] data' last = (last, false)
  render_data (k ∷ series_keys) data' last = (
    some (record {
      start = data'.start;
      stop = data'.stop;
      interval = data'.interval;
      series = collect (k ∷ series_keys) data'.series [];
    }),
    true,
  )

module _ (B : Type 0) where
  -- The graph keeps the answer for each key that it asked for, and nothing for others.
  get-collect :
      (series_keys : List Text) (data' : Object Text B) (kept : Object Text (Option B)) (k : Text)
      → get k (collect series_keys data' kept)
        ≡ (if contains series_keys k then some (get k data') else get k kept)
  unfolding collect
  get-collect [] data' kept k = refl
  get-collect (j ∷ series_keys) data' kept k =
      get-collect series_keys data' (put j (get j data') kept) k
      ∙ ground (arith, get-put j k (get j data') kept, text_eq_iff j k)
