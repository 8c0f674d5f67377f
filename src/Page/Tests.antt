-- ===== src/Page/Tests.antt =====
-- A page with two graphs.
use istatd.Prelude.{
  true, List, ℕ, ◌≡◌, refl, false, none, some, [], ◌∷◌, text_eq, ◌==◌, if◌then◌else◌,
}
use istatd.Prelude.Int.{pos}
use istatd.Prelude.Words.{codes}
use istatd.Loader
use istatd.Window
use istatd.Surface.{Surface, Format, get_series}
use istatd.Grid
use istatd.Grid.{Grid, shown}
use istatd.Page.{Page, Browser}
use istatd.Page.Dashboard.{get_dashboard, open_dashboard}
use istatd.Page.Refreshes.{refreshes, following, refreshes-following}
use istatd.Page.Keeps.{grid_after}
use istatd.Page.Sliding.{clamp, set_index}
use istatd.Page.Chosen.{Chooses, set_index-Chooses}
use istatd.Page.Restore.{IsProper, open_dashboard-get_dashboard}

abbrev pub browser : Browser
browser = record { clock = pos 1_000_000_000; handle = 3; hidden = false }

abbrev page : Grid → Page
page grid = record {
  grid = grid;
  loader = Loader.new;
  window = Window.new (pos 1_000_000_000);
  size = record { width = 600; height = 240 };
  size_dropdown = some 1;
  max_samples = none;
  slider = record { manual = false; index = some 2; dragging = false };
}

abbrev surface : ℕ → Surface
surface id =
    if id == 0
    then record { series = some (codes "cpu" ∷ codes "net" ∷ []); format = Format.area }
    else record { series = some (codes "mem" ∷ []); format = Format.no_bars }

abbrev pub two_graphs : Page
two_graphs =
    page (record { all_graphs = 0 ∷ 1 ∷ []; selected = some 1; surfaces = surface; next = 2 })

two_graphs-IsProper : IsProper two_graphs.grid.surfaces two_graphs.grid.all_graphs
unfolding get_series text_eq
two_graphs-IsProper = ((refl, (refl, tt)), ((refl, tt), tt))

open_dashboard-get_dashboard_example :
    shown (grid_after {D = ℕ} (open_dashboard browser (get_dashboard two_graphs)) (page Grid.empty))
    ≡ shown two_graphs.grid
open_dashboard-get_dashboard_example =
    open_dashboard-get_dashboard ℕ browser two_graphs (page Grid.empty) two_graphs-IsProper

-- The slider has fourteen markers.
set_index-Chooses_example :
    Chooses ℕ browser (clamp (pos 40)) two_graphs (set_index {D = ℕ} browser (pos 40) two_graphs).0
set_index-Chooses_example = set_index-Chooses ℕ browser (pos 40) two_graphs

-- Visible, hidden, visible again a minute later, and hidden.
abbrev browsers : List Browser
browsers =
    browser
    ∷ record browser { hidden = true }
    ∷ record browser { clock = pos 1_000_060_000 }
    ∷ record browser { hidden = true; clock = pos 1_000_120_000 }
    ∷ []

refreshes-following_example :
    (refreshes {D = ℕ} browsers two_graphs).0.window
    ≡ following (some (pos 1_000_060_000)) two_graphs.window
refreshes-following_example = refreshes-following ℕ browsers two_graphs
