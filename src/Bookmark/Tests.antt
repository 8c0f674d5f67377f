-- ===== src/Bookmark/Tests.antt =====
-- The bookmark of a page with two graphs.
use istatd.Prelude.{
  ℕ, ◌≡◌, refl, arith, false, none, some, [], ◌∷◌, text_eq, ◌==◌, if◌then◌else◌, All,
}
use istatd.Prelude.Int.{pos, ◌*ℤ◌, ◌-ℤ◌}
use istatd.Prelude.Words.{codes, join}
use istatd.Prelude.Digits.{show, show_ℤ}
use istatd.Prelude.Escape.{escape, hex_digit, is_plain}
use istatd.Dates.{adjusted_now, seconds}
use istatd.Loader
use istatd.Window
use istatd.Surface.{Surface, Format, get_series, bars_fmt_to_ix}
use istatd.Grid
use istatd.Grid.{Grid, shown}
use istatd.Page.{Page, Browser}
use istatd.Page.Dashboard.{graphs_of, formats_of}
use istatd.Page.Restore.{IsProper}
use istatd.Bookmark.{packup_state_as_hash, gotohash}
use istatd.Bookmark.Items.{AreKept}
use istatd.Bookmark.RoundTrip.{Shows, gotohash-packup_state_as_hash}

abbrev browser : Browser
browser = record { clock = pos 1_000_000_000; handle = 3; hidden = false }

abbrev page : Grid → Page
page grid = record {
  grid = grid;
  loader = Loader.new;
  window = Window.new (pos 1_000_000_000);
  size = record { width = 600; height = 240 };
  size_dropdown = none;
  max_samples = none;
  slider = record { manual = false; index = none; dragging = false };
}

abbrev surface : ℕ → Surface
surface id =
    if id == 0
    then record { series = some (codes "cpu*" ∷ codes "net" ∷ []); format = Format.area }
    else record { series = some (codes "mem&x=1" ∷ []); format = Format.no_bars }

abbrev two_graphs : Page
two_graphs =
    page (record { all_graphs = 0 ∷ 1 ∷ []; selected = none; surfaces = surface; next = 2 })

hash_of_two :
    packup_state_as_hash two_graphs
    ≡ codes "#?0=cpu*%3Bnet&1=mem%26x%3D1&graphs=0%2C5%3B1%2C1&from=996390&to=999990&state="
unfolding packup_state_as_hash graphs_of formats_of join show show_ℤ escape hex_digit is_plain
    adjusted_now seconds ◌-ℤ◌ get_series bars_fmt_to_ix Window.new
hash_of_two = refl

two_graphs-IsProper : IsProper two_graphs.grid.surfaces two_graphs.grid.all_graphs
unfolding get_series text_eq
two_graphs-IsProper = ((refl, (refl, tt)), ((refl, tt), tt))

two_graphs-AreKept :
    All (λ id. AreKept (get_series (two_graphs.grid.surfaces id))) two_graphs.grid.all_graphs
unfolding get_series
two_graphs-AreKept = (
  (λ e. cc, (refl, (refl, tt)), (omega arith, (omega arith, tt))),
  ((λ e. cc, (refl, tt), (omega arith, tt)), tt),
)

gotohash-packup_state_as_hash_example :
    Shows ℕ browser
      (shown two_graphs.grid)
      (record {
        start = seconds two_graphs.window.current.start *ℤ pos 1000;
        stop = seconds two_graphs.window.current.stop *ℤ pos 1000;
      })
      (gotohash browser none (packup_state_as_hash two_graphs) (page Grid.empty))
gotohash-packup_state_as_hash_example =
    gotohash-packup_state_as_hash ℕ browser none two_graphs (page Grid.empty) (λ e. cc)
      two_graphs-IsProper two_graphs-AreKept
