-- ===== src/Surface.antt =====
-- `GraphSurface` of files/graph.js, one graph of the page: the series that it shows and how it
-- draws them. Its methods that reach the loader and the grid are in Page.
pub mod Toggle
mod Rendered
mod Tests
use istatd.Prelude.{
  ℕ, suc, ◌≤◌, Bool, true, false, Option, none, some, List, [], ◌∷◌, ◌++◌, Text, text_eq,
  text_eq_instance, contains, ltb, length, if◌then◌else◌, ◌==◌,
}

pub data Format : Type 0 where
  no_bars error_bars custom_bars stacked area : Format

-- `bars_fmt_to_ix`
unfoldable pub bars_fmt_to_ix : Format → ℕ
bars_fmt_to_ix no_bars = 1
bars_fmt_to_ix error_bars = 2
bars_fmt_to_ix custom_bars = 3
bars_fmt_to_ix stacked = 4
bars_fmt_to_ix area = 5

-- `bars_ix_to_fmt`; `none` is `undefined`.
unfoldable pub bars_ix_to_fmt : ℕ → Option Format
bars_ix_to_fmt ix =
    if ix == 1
    then some no_bars
    else (if ix == 2
        then some error_bars
        else (if ix == 3
            then some custom_bars
            else (if ix == 4 then some stacked else (if ix == 5 then some area else none))))

-- `series` is `none` once the graph is closed. The values of `_series` are all the identity, so its
-- keys are kept, in the order in which they were added.
pub record Surface : Type 0 where
  pub series : Option (List Text)
  pub format : Format

abbrev pub new : Surface
new = record { series = some []; format = custom_bars }

-- `delete this._series[path]`
unfoldable pub erase : Text → List Text → List Text
erase path [] = []
erase path (s ∷ series) = if text_eq s path then series else s ∷ erase path series

-- What `toggleSeries` does to the series: the last one is not taken away.
unfoldable pub toggle : Text → List Text → List Text
unfolding erase
toggle path series =
    if contains series path
    then (if ltb 1 (length series) then erase path series else series)
    else series ++ path ∷ []

-- `getSeries`
unfoldable pub get_series : Surface → List Text
get_series s = elim s.series [ none ↦ [] | some series ↦ series ]
