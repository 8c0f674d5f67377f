-- ===== src/Page.antt =====
-- The page of files/graph.js: the globals, and the operations that reach several components. An
-- operation changes the page and has outputs, in order.
pub mod Sliding
pub mod Dashboard
pub mod Keeps
pub mod Restore
pub mod Chosen
pub mod Visibility
pub mod Interaction
pub mod Refreshes
pub mod Tests
use istatd.Prelude.{
  ℕ, ◌+◌, ◌*◌, Bool, true, false, Option, none, some, List, [], ◌∷◌, ◌++◌, map, Text, ◌==◌,
  get_elem?, if◌then◌else◌,
}
use istatd.Prelude.Int.{ℤ, pos}
use istatd.Dates.{Date, Span, adjusted_now}
use istatd.Loader
use istatd.Loader.{Loader, Effect, add_to_next_get}
use istatd.Window
use istatd.Window.{
  Window, Tick, restore_original_interval, calc_reload_interval, advance, choose_interval, zoom_in,
  zoom_out, reset_date_range, set_auto_refresh,
}
use istatd.Surface.{toggle, get_series}
use istatd.Grid
use istatd.Grid.{Grid}

-- The callback of a graph: the graph, and the series for which it asked.
pub record Reload : Type 0 where
  pub graph : ℕ
  pub series_keys : List Text

pub record Size : Type 0 where
  pub width : ℕ
  pub height : ℕ

-- `theTimeSlider`; `index` is `none` before the first choice.
pub record Slider : Type 0 where
  pub manual : Bool
  pub index : Option ℕ
  pub dragging : Bool

-- `max_samples` is `none` for `null`, `undefined`.
pub record Page : Type 0 where
  pub grid : Grid
  pub loader : Loader Reload
  pub window : Window
  pub size : Size
  pub size_dropdown : Option ℕ
  pub max_samples : Option ℕ
  pub slider : Slider

-- What the browser says while an event is handled: the clock, which stands still meanwhile, the
-- handle that the next timer gets, and whether the page is hidden.
pub record Browser : Type 0 where
  pub clock : Date
  pub handle : ℕ
  pub hidden : Bool

-- `fault` is an exception that a `guard` turned into an error dialog.
pub data Output (D : Type 0) : Type 0 where
  fetch : Effect Reload D → Output D
  tick : Tick → Output D
  fault : Output D

abbrev pub Op : Type 0 → Type 0
Op D = Page → Page × List (Output D)

infixl 5 ◌>>◌
abbrev pub ◌>>◌ : {D : Type 0} → Op D → Op D → Op D
◌>>◌ m k p = let (p', out) = m p in let (p'', more) = k p' in (p'', out ++ more)

abbrev pub modify : {D : Type 0} → (Page → Page) → Op D
modify f p = (f p, [])

abbrev pub on_grid : {D : Type 0} → (Grid → Grid) → Op D
on_grid f p = (record p { grid = f p.grid }, [])

abbrev pub on_window : {D : Type 0} → (Window → Window) → Op D
on_window f p = (record p { window = f p.window }, [])

abbrev pub on_ticker : {D : Type 0} → (Window → Window × List Tick) → Op D
on_ticker f p = let (w, ticks) = f p.window in (record p { window = w }, map tick ticks)

-- `theGraphMaxSamples ? theGraphMaxSamples : theGraphSize.width`
unfoldable pub samples : Page → ℕ
samples p = elim p.max_samples [ none ↦ p.size.width | some n ↦ if n == 0 then p.size.width else n ]

module _ {D : Type 0} where
  -- `GraphSurface.close`, with the `remove` of the grid: without graphs the zoom ends.
  unfoldable pub close : ℕ → Op D
  close id p =
      let g = Grid.close id p.grid in
      let closed = record p { grid = g } in
      elim g.all_graphs [
        | [] ↦ (record closed { window = restore_original_interval p.window }, [])
        | _ ∷ _ ↦ (closed, [])
      ]

  close_each : List ℕ → Op D
  close_each [] p = (p, [])
  close_each (id ∷ ids) p = (close id >> close_each ids) p

  -- `GraphGrid.clear`
  unfoldable pub clear : Op D
  unfolding close_each close
  clear p = close_each p.grid.all_graphs (record p { grid = record p.grid { selected = none } })

module _ {D : Type 0} (b : Browser) where
  -- `GraphSurface.reload`
  unfoldable pub reload : ℕ → Op D
  unfolding samples
  reload id p =
      let series_keys = get_series (p.grid.surfaces id) in
      let (l, effects) =
        add_to_next_get {D = D} (adjusted_now b.clock) b.handle series_keys 500 (samples p)
          (record { graph = id; series_keys = series_keys }) p.loader in
      (record p { loader = l }, map fetch effects)

  -- `GraphSurface.toggleSeries`; a closed graph has no series to look into.
  unfoldable pub toggle_series : Text → ℕ → Op D
  unfolding reload
  toggle_series path id p = elim (p.grid.surfaces id).series [
    | none ↦ (p, fault ∷ [])
    | some series ↦ reload id (record p { grid = Grid.set_series id (toggle path series) p.grid })
  ]

  unfoldable pub reload_each : List ℕ → Op D
  reload_each [] p = (p, [])
  reload_each (id ∷ ids) p = (reload id >> reload_each ids) p

  -- `GraphGrid.reloadAll`
  unfoldable pub reload_all : Op D
  unfolding reload_each
  reload_all p = reload_each p.grid.all_graphs p

  unfoldable pub refresh : Op D
  unfolding reload_all
  refresh p = if b.hidden then (p, []) else (do on_window (advance b.clock); reload_all) p

  unfoldable pub set_interval : ℕ → Op D
  unfolding refresh
  set_interval i = do
    on_window (choose_interval i)
    modify (λ p. record p { max_samples = none })
    refresh

  unfoldable pub zoom_out_intervals : Op D
  unfolding refresh
  zoom_out_intervals = do on_window zoom_out; refresh

  -- The branch of `zoomCallback` that is taken when the time axis changed.
  unfoldable pub zoom_callback : Span → Op D
  unfolding refresh
  zoom_callback range = do on_window (zoom_in range); refresh

  unfoldable pub reset_dates : (from to : Date) → Op D
  unfolding reload_all
  reset_dates from to = do
    modify (λ p. record p { slider = record p.slider { manual = true } })
    on_ticker (reset_date_range b.handle from to)
    reload_all

  -- `toggleGraphing`. Without an offset the selected graph is taken, and a new one made where none is
  -- selected; an offset beyond the graphs is an exception.
  unfoldable pub toggle_graphing : Text → Option ℕ → Op D
  unfolding toggle_series
  toggle_graphing path none p = elim p.grid.selected [
    | some id ↦ toggle_series path id p
    | none ↦
        toggle_series path p.grid.next
          (record p { grid = Grid.select p.grid.next (Grid.new_graph p.grid) })
  ]
  toggle_graphing path (some offset) p = elim (get_elem? p.grid.all_graphs offset) [
    | none ↦ (p, fault ∷ [])
    | some id ↦ toggle_series path id p
  ]
