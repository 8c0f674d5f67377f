-- ===== src/Page/Keeps.antt =====
-- What the operations of the page do to the grid.
use istatd.Prelude.{
  ℕ, ◌≡◌, refl, arith, Bool, true, false, List, [], ◌∷◌, text_eq_instance, if◌then◌else◌, ==_iff,
  get_or,
}
use istatd.Prelude.Int.{pos}
use istatd.Grid
use istatd.Grid.{Grid, set_series, array_remove}
use istatd.Dates.{Date}
use istatd.Window
use istatd.Page
use istatd.Page.{
  Page, Browser, Op, ◌>>◌, reload, reload_each, reload_all, refresh, set_interval, toggle_series,
  close, close_each, clear, reset_dates,
}
use istatd.Page.Sliding.{markers, clamp, set_manual, update, set_index}
use istatd.Page.Dashboard.{Choice, manual, unset, at, open_slider}

-- The grid after an operation.
abbrev pub grid_after : {D : Type 0} → Op D → Page → Grid
grid_after m p = (m p).0.grid

module _ (D : Type 0) where
  close-all_graphs :
      (id : ℕ) (ids : List ℕ) (p : Page)
      → p.grid.all_graphs ≡ id ∷ ids
      → (grid_after {D = D} (close id) p).all_graphs ≡ ids
  unfolding close Grid.close
  close-all_graphs id ids p e = ground (arith, ==_iff id id)

  close_each-all_graphs :
      (ids : List ℕ) (p : Page)
      → p.grid.all_graphs ≡ ids
      → (grid_after {D = D} (close_each ids) p).all_graphs ≡ []
  unfolding close_each
  close_each-all_graphs [] p e = e
  close_each-all_graphs (id ∷ ids) p e =
      close_each-all_graphs ids (close {D = D} id p).0 (close-all_graphs id ids p e)

  -- Clearing the grid closes all graphs.
  pub clear-all_graphs : (p : Page) → (grid_after {D = D} clear p).all_graphs ≡ []
  unfolding clear
  clear-all_graphs p = close_each-all_graphs p.grid.all_graphs _ refl

module _ (D : Type 0) (b : Browser) where
  reload_each-grid : (ids : List ℕ) (p : Page) → grid_after {D = D} (reload_each b ids) p ≡ p.grid
  unfolding reload_each reload
  reload_each-grid [] p = refl
  reload_each-grid (id ∷ ids) p = reload_each-grid ids (reload {D = D} b id p).0

  pub refresh-grid : (p : Page) → grid_after {D = D} (refresh b) p ≡ p.grid
  unfolding refresh reload_all
  refresh-grid p = hidden b.hidden
    where
      hidden :
          (h : Bool)
          → (if h
              then (p, [])
              else (◌>>◌ {D = D} (Page.on_window (Window.advance b.clock)) (reload_all b)) p).0.grid
            ≡ p.grid
      hidden true = refl
      hidden false = reload_each-grid p.grid.all_graphs _

  pub set_interval-grid : (i : ℕ) (p : Page) → grid_after {D = D} (set_interval b i) p ≡ p.grid
  unfolding set_interval
  set_interval-grid i p = refresh-grid _

  update-grid : (index : ℕ) (p : Page) → grid_after {D = D} (update b index) p ≡ p.grid
  unfolding update
  update-grid index p = ground (arith, set_interval-grid (get_or markers index 0) p)

  pub open_slider-grid : (c : Choice) (p : Page) → grid_after {D = D} (open_slider b c) p ≡ p.grid
  unfolding open_slider set_index
  open_slider-grid manual p = refl
  open_slider-grid unset p = refl
  open_slider-grid (at index) p = update-grid (clamp (pos index)) (set_manual false p)

  pub reset_dates-grid :
      (from to : Date) (p : Page) → grid_after {D = D} (reset_dates b from to) p ≡ p.grid
  unfolding reset_dates
  reset_dates-grid from to p = reload_each-grid p.grid.all_graphs _
