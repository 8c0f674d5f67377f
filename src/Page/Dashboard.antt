-- ===== src/Page/Dashboard.antt =====
-- Dashboards: `getDashboard` and `openDashboard` of files/graph.js. What is saved goes through
-- `JSON.stringify` and `JSON.parse`, which give it back.
use istatd.Prelude.{ℕ, Bool, true, Option, none, some, List, [], ◌∷◌, Text, if◌then◌else◌, zero}
use istatd.Prelude.Int.{ℤ, pos, ◌-ℤ◌}
use istatd.Window.{
  Window, duration, restore_original_interval, calc_reload_interval, set_auto_refresh,
}
use istatd.Surface.{Format, error_bars, bars_fmt_to_ix, bars_ix_to_fmt, get_series}
use istatd.Grid
use istatd.Grid.{Grid}
use istatd.Page.{
  Page, Size, Browser, Op, ◌>>◌, modify, on_grid, on_window, on_ticker, toggle_series, clear,
}
use istatd.Page.Sliding.{set_index, set_manual}

-- 'manual', `null` or an index.
pub data Choice : Type 0 where
  manual unset : Choice
  at : ℕ → Choice

-- `time_interval` is in milliseconds here. An old dashboard may have no formats.
pub record Dashboard : Type 0 where
  pub size : Option Size
  pub auto_refresh : Bool
  pub time_interval : Option ℤ
  pub time_slider : Choice
  pub size_dropdown : Choice
  pub graphs : List (List Text)
  pub formats : Option (List ℕ)

unfoldable pub graphs_of : Grid → List ℕ → List (List Text)
graphs_of g [] = []
graphs_of g (id ∷ ids) = get_series (g.surfaces id) ∷ graphs_of g ids

unfoldable pub formats_of : Grid → List ℕ → List ℕ
formats_of g [] = []
formats_of g (id ∷ ids) = bars_fmt_to_ix (g.surfaces id).format ∷ formats_of g ids

unfoldable pub get_dashboard : Page → Dashboard
unfolding graphs_of formats_of bars_fmt_to_ix get_series
get_dashboard p = record {
  size = some p.size;
  auto_refresh = p.window.is_auto_refresh;
  time_interval = some (duration p.window.current);
  time_slider =
      if p.slider.manual
      then manual
      else (elim p.slider.index [ none ↦ unset | some index ↦ at index ]);
  size_dropdown = elim p.size_dropdown [ none ↦ manual | some item ↦ at item ];
  graphs = graphs_of p.grid p.grid.all_graphs;
  formats = some (formats_of p.grid p.grid.all_graphs);
}

-- The format of a graph: an absent or unknown one is `errorBars`.
unfoldable pub format_of : Option (List ℕ) → Format
unfolding bars_ix_to_fmt
format_of none = error_bars
format_of (some []) = error_bars
format_of (some (ix ∷ _)) = elim (bars_ix_to_fmt ix) [ none ↦ error_bars | some format ↦ format ]

unfoldable pub later_formats : Option (List ℕ) → Option (List ℕ)
later_formats none = none
later_formats (some []) = some []
later_formats (some (_ ∷ ixs)) = some ixs

-- `graph_size`, with `$item` as its index in the menu.
unfoldable pub graph_size : Size → Option ℕ → Page → Page
graph_size size item p = record p { size = size; size_dropdown = item }

-- The menu item is forgotten where the time slider is manual.
unfoldable pub item_of : Choice → Choice → Option ℕ
item_of manual dropdown = none
item_of unset (at item) = some item
item_of (at _) (at item) = some item
item_of unset _ = none
item_of (at _) _ = none

-- The dates of a dashboard; an interval of 0 is none.
unfoldable pub open_interval : Option ℤ → Window → Window
unfolding restore_original_interval
open_interval none w = w
open_interval (some (pos zero)) w = w
open_interval (some interval) w =
    restore_original_interval (record w {
      original = record { start = w.original.stop -ℤ interval; stop = w.original.stop };
    })

module _ {D : Type 0} (b : Browser) where
  unfoldable pub toggle_each : ℕ → List Text → Op D
  toggle_each id [] p = (p, [])
  toggle_each id (path ∷ paths) p = (toggle_series b path id >> toggle_each id paths) p

  -- One round of the loop over the graphs.
  unfoldable pub open_graph : Format → List Text → Op D
  unfolding toggle_each
  open_graph format series p =
      (do
        on_grid Grid.new_graph
        on_grid (Grid.set_format p.grid.next format)
        toggle_each p.grid.next series)
        p

  unfoldable pub open_graphs : Option (List ℕ) → List (List Text) → Op D
  unfolding open_graph format_of later_formats
  open_graphs formats [] p = (p, [])
  open_graphs formats (series ∷ graphs) p =
      (open_graph (format_of formats) series >> open_graphs (later_formats formats) graphs) p

  unfoldable pub open_slider : Choice → Op D
  unfolding set_manual set_index
  open_slider manual = modify (set_manual true)
  open_slider unset = modify (λ p. p)
  open_slider (at index) = set_index b (pos index)

  unfoldable pub open_dashboard : Dashboard → Op D
  unfolding clear open_graphs open_slider open_interval graph_size item_of
  open_dashboard d = do
    clear
    modify (λ p. elim d.size [
      | none ↦ p
      | some size ↦ graph_size size (item_of d.time_slider d.size_dropdown) p
    ])
    open_graphs d.formats d.graphs
    on_window (open_interval d.time_interval)
    open_slider d.time_slider
    on_window calc_reload_interval
    on_ticker (set_auto_refresh b.handle d.auto_refresh)
