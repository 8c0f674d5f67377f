-- ===== src/Menus/Boxes.antt =====
-- The clicks on a graph in files/graph.js: the boxes that `newGraph` and `GraphSurface` set up, the legend, and
-- the graph itself. A click goes on to the graph, which is selected by it; where the graph was just removed,
-- with its handlers, the click goes on to the grid. `remove` of jQuery is what takes the handlers.
pub mod Selecting
use istatd.Prelude.{
  ℕ, Bool, true, false, not, Option, none, some, List, [], ◌∷◌, ◌++◌, Text, ◌==◌, nat_eq, contains,
  get_elem?, if◌then◌else◌,
}
use istatd.Grid
use istatd.Page.{
  Page, Browser, Output, Op, fault, modify, on_grid, ◌>>◌, close, toggle_series, zoom_out_intervals,
}
use istatd.Dialog.{Dialogs, open_dialog}
use istatd.Dialog.Callbacks.{Call, show_settings}

-- What stands in an entry of the legend.
pub data Content : Type 0 where
  element : Content
  text : Text → Content

pub data Box : Type 0 where
  close_box zoom_out_box settings_box summary_box : Box
  legend_entry : List Content → Box
  beside : Box

-- The page with its dialogs, and the graphs whose summary is visible.
pub record Board : Type 0 where
  pub page : Page
  pub dialogs : Dialogs Call
  pub visible : ℕ → Bool

-- `wholeText.slice(1)`
unfoldable pub sliced : Text → Text
sliced [] = []
sliced (c ∷ s) = s

-- `$(this).contents()[1].wholeText.slice(1)`; none is an exception.
unfoldable pub path_of : List Content → Option Text
unfolding sliced
path_of contents = elim (get_elem? contents 1) [
  | none ↦ none
  | some content ↦ elim content [ element ↦ none | text t ↦ some (sliced t) ]
]

unfoldable pub toggle_summary : ℕ → (ℕ → Bool) → ℕ → Bool
toggle_summary id visible j = if j == id then not (visible j) else visible j

module _ {D : Type 0} where
  -- The click goes on: to the graph, which stops it there, or to the grid where the graph is gone by now.
  unfoldable pub go_on : ℕ → Op D
  go_on id p =
      if contains p.grid.all_graphs id then on_grid (Grid.select id) p else on_grid Grid.click p

module _ {D : Type 0} (b : Browser) where
  unfoldable pub on_legend : List Content → ℕ → Op D
  unfolding path_of
  on_legend contents id p = elim (path_of contents) [
    | none ↦ (p, fault ∷ [])
    | some path ↦ toggle_series b path id p
  ]

  -- The handler of a box or of an entry of the legend.
  unfoldable pub on_box : Box → ℕ → Op D
  unfolding on_legend
  on_box close_box id = close id
  on_box zoom_out_box id = zoom_out_intervals b
  on_box (legend_entry contents) id = on_legend contents id
  on_box settings_box id = modify (λ p. p)
  on_box summary_box id = modify (λ p. p)
  on_box beside id = modify (λ p. p)

  unfoldable pub on_page : Box → ℕ → Op D
  unfolding on_box go_on
  on_page box id = on_box box id >> go_on id

  unfoldable pub click_on : Box → ℕ → Board → Board × List (Output D)
  unfolding on_page toggle_summary open_dialog
  click_on box id k =
      let (p, out) = on_page box id k.page in
      (
        record {
          page = p;
          dialogs = elim box as (λ _. Dialogs Call) [
            | settings_box ↦ open_dialog (show_settings id) k.dialogs
            | _ ↦ k.dialogs
          ];
          visible = elim box as (λ _. ℕ → Bool) [
            | summary_box ↦ toggle_summary id k.visible
            | _ ↦ k.visible
          ];
        },
        out,
      )
