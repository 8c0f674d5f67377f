-- ===== src/Menus/Boxes/Selecting.antt =====
-- What a click on a graph leaves of the grid.
use istatd.Prelude.{
  ◌∙◌, nat_eq, contains, not, sym, ◌==◌, ==_iff, Bool-cases, inl, inr, ℕ, ◌≡◌, refl, ap, arith,
  Bool, true, false, none, some, List, [], ◌∷◌, Text, text_eq_instance, if◌then◌else◌,
}
use istatd.Surface.{toggle}
use istatd.Grid
use istatd.Grid.{Grid, array_remove, set_series}
use istatd.Page
use istatd.Page.{Page, Browser, Op, reload, toggle_series, zoom_out_intervals, on_grid}
use istatd.Page.Keeps.{grid_after, refresh-grid}
use istatd.Prelude.Object.{IsDistinct}
use istatd.Menus.Boxes.{
  on_box, go_on, Content, element, text, Box, close_box, zoom_out_box, settings_box, summary_box,
  legend_entry, beside, Board, on_legend, on_page, click_on,
}

abbrev pub closes : Box → Bool
closes close_box = true
closes _ = false

-- All but this one, in their order.
abbrev pub others : ℕ → List ℕ → List ℕ
others id [] = []
others id (x ∷ ids) = if x == id then others id ids else x ∷ others id ids

others_of_missing : (ids : List ℕ) (id : ℕ) → contains ids id ≡ false → others id ids ≡ ids
others_of_missing [] id h = refl
others_of_missing (x ∷ ids) id h = ground (arith, others_of_missing ids id)

-- The loop that removes one graph removes the graph, where each is there once.
array_remove-others : (ids : List ℕ) (id : ℕ) → IsDistinct ids → array_remove ids id ≡ others id ids
unfolding array_remove
array_remove-others [] id d = refl
array_remove-others (x ∷ ids) id d = elim (Bool-cases (x == id)) [
  | inl e ↦ rw e (sym (others_of_missing ids id (rw ((==_iff x id).0 e) at d.0)))
  | inr e ↦ rw e (ap (λ js. x ∷ js) (array_remove-others ids id d.1))
]

contains-others : (ids : List ℕ) (id : ℕ) → contains (others id ids) id ≡ false
contains-others [] id = refl
contains-others (x ∷ ids) id = ground (arith, contains-others ids id)

-- The grid when the click has gone on.
abbrev gone_on : ℕ → Grid → Grid
gone_on id g = if contains g.all_graphs id then Grid.select id g else Grid.click g

if-not : (t : Bool) (id : ℕ) → (if not t then some id else none) ≡ (if t then none else some id)
if-not true id = refl
if-not false id = refl

module _ (id : ℕ) (g : Grid) where
  all_graphs-gone_on : (gone_on id g).all_graphs ≡ g.all_graphs
  unfolding Grid.select Grid.click
  all_graphs-gone_on = ground arith

  selected-gone_on : (gone_on id g).selected ≡ (if contains g.all_graphs id then some id else none)
  unfolding Grid.select Grid.click
  selected-gone_on = ground arith

module _ (D : Type 0) (b : Browser) where
  legend-all_graphs :
      (contents : List Content) (id : ℕ) (p : Page)
      → (grid_after {D = D} (on_legend b contents id) p).all_graphs ≡ p.grid.all_graphs
  unfolding on_legend toggle_series reload set_series
  legend-all_graphs contents id p = ground arith

  closed-all_graphs :
      (id : ℕ) (p : Page)
      → (grid_after {D = D} (Page.close id) p).all_graphs ≡ array_remove p.grid.all_graphs id
  unfolding Page.close Grid.close
  closed-all_graphs id p = ground arith

  zoomed-grid : (p : Page) → grid_after {D = D} (zoom_out_intervals b) p ≡ p.grid
  unfolding zoom_out_intervals
  zoomed-grid p = refresh-grid D b _

  grid-go_on : (id : ℕ) (p : Page) → grid_after {D = D} (go_on id) p ≡ gone_on id p.grid
  unfolding go_on
  grid-go_on id p = branch (contains p.grid.all_graphs id)
    where
      branch :
          (here : Bool)
          → (if here then on_grid {D = D} (Grid.select id) p else on_grid Grid.click p).0.grid
            ≡ (if here then Grid.select id p.grid else Grid.click p.grid)
      branch true = refl
      branch false = refl

  grid-on_page :
      (box : Box) (id : ℕ) (p : Page)
      → grid_after {D = D} (on_page b box id) p
        ≡ gone_on id (grid_after {D = D} (on_box b box id) p)
  unfolding on_page
  grid-on_page box id p = grid-go_on id (on_box {D = D} b box id p).0

  on_box-all_graphs :
      (box : Box) (id : ℕ) (p : Page)
      → IsDistinct p.grid.all_graphs
      → (grid_after {D = D} (on_box b box id) p).all_graphs
        ≡ (if closes box then others id p.grid.all_graphs else p.grid.all_graphs)
  unfolding on_box
  on_box-all_graphs close_box id p d =
      closed-all_graphs id p ∙ array_remove-others p.grid.all_graphs id d
  on_box-all_graphs zoom_out_box id p d = ap (λ (g : Grid). g.all_graphs) (zoomed-grid p)
  on_box-all_graphs (legend_entry contents) id p d = legend-all_graphs contents id p
  on_box-all_graphs settings_box id p d = refl
  on_box-all_graphs summary_box id p d = refl
  on_box-all_graphs beside id p d = refl

  -- Whether the graph is there when the click goes on.
  still_there :
      (box : Box) (id : ℕ) (ids : List ℕ)
      → contains ids id ≡ true
      → contains (if closes box then others id ids else ids) id ≡ not (closes box)
  still_there close_box id ids h = contains-others ids id
  still_there zoom_out_box id ids h = h
  still_there (legend_entry contents) id ids h = h
  still_there settings_box id ids h = h
  still_there summary_box id ids h = h
  still_there beside id ids h = h

  legend-toggled :
      (id : ℕ) (label : Text) (series : List Text) (p : Page)
      → (p.grid.surfaces id).series ≡ some series
      → grid_after {D = D} (on_legend b (element ∷ text (32 ∷ label) ∷ []) id) p
        ≡ set_series id (toggle label series) p.grid
  unfolding on_legend toggle_series reload
  legend-toggled id label series p h = rw (grid_after, toggle_series, h) refl

  legend-selected :
      (id : ℕ) (label : Text) (series : List Text) (p : Page)
      → contains p.grid.all_graphs id ≡ true
      → (p.grid.surfaces id).series ≡ some series
      → gone_on id
          (grid_after {D = D} (on_box b (legend_entry (element ∷ text (32 ∷ label) ∷ [])) id) p)
        ≡ Grid.select id (set_series id (toggle label series) p.grid)
  unfolding on_box set_series
  legend-selected id label series p here h =
      ap (gone_on id) (legend-toggled id label series p h)
      ∙ ap
          (λ t.
            if t
            then Grid.select id (set_series id (toggle label series) p.grid)
            else Grid.click (set_series id (toggle label series) p.grid))
          here

  -- Where the graphs of the page are listed once each, a click on any box of one of them, on its legend or beside
  -- them leaves that graph selected, and all graphs in their order; but the box that closes it leaves all others in
  -- their order, and none selected, whichever was. A click on an entry of the legend whose label stands behind one
  -- element and a space, of a graph that has series, toggles just this series of the graph.
  pub click_on-Selects :
      (box : Box) (id : ℕ) (k : Board) (label : Text) (series : List Text)
      → IsDistinct k.page.grid.all_graphs
      → contains k.page.grid.all_graphs id ≡ true
      → (k.page.grid.surfaces id).series ≡ some series
      → ((click_on {D = D} b box id k).0.page.grid.selected
          ≡ (if closes box then none else some id))
        × ((click_on {D = D} b box id k).0.page.grid.all_graphs
            ≡ (if closes box then others id k.page.grid.all_graphs else k.page.grid.all_graphs))
        × ((click_on {D = D} b (legend_entry (element ∷ text (32 ∷ label) ∷ [])) id k).0.page.grid
            ≡ Grid.select id (set_series id (toggle label series) k.page.grid))
  unfolding click_on
  click_on-Selects box id k label series d here h =
      let g = grid_after {D = D} (on_box b box id) k.page in
      let all = on_box-all_graphs box id k.page d in
      let legend : Box = legend_entry (element ∷ text (32 ∷ label) ∷ []) in
      (
        ap (λ (g : Grid). g.selected) (grid-on_page box id k.page)
            ∙ selected-gone_on id g
            ∙ ap (λ ids. if contains ids id then some id else none) all
            ∙ ap (λ t. if t then some id else none) (still_there box id k.page.grid.all_graphs here)
            ∙ if-not (closes box) id,
        ap (λ (g : Grid). g.all_graphs) (grid-on_page box id k.page)
            ∙ all_graphs-gone_on id g
            ∙ all,
        grid-on_page legend id k.page ∙ legend-selected id label series k.page here h,
      )
