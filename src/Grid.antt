-- ===== src/Grid.antt =====
-- `GraphGrid` of files/graph.js: the graphs of the page in their order and the one that is
-- selected. Graphs are shared by reference, so they live in a store under numbers.
use istatd.Prelude.{ℕ, ◌+◌, Option, none, some, List, [], ◌∷◌, ◌++◌, Text, ◌==◌, if◌then◌else◌}
use istatd.Surface
use istatd.Surface.{Surface, Format, toggle, get_series}

pub record Grid : Type 0 where
  pub all_graphs : List ℕ
  pub selected : Option ℕ
  pub surfaces : ℕ → Surface
  pub next : ℕ

abbrev pub empty : Grid
empty = record { all_graphs = []; selected = none; surfaces = λ _. Surface.new; next = 0 }

abbrev pub write : ℕ → Surface → (ℕ → Surface) → ℕ → Surface
write id s surfaces j = if j == id then s else surfaces j

-- `newGraph`: the constructor of the graph adds it to the grid. The graph is `g.next`.
unfoldable pub new_graph : Grid → Grid
new_graph g = record g {
  all_graphs = g.all_graphs ++ g.next ∷ [];
  surfaces = write g.next Surface.new g.surfaces;
  next = g.next + 1;
}

unfoldable pub select : ℕ → Grid → Grid
select id g = record g { selected = some id }

-- A click beside the graphs.
unfoldable pub click : Grid → Grid
click g = record g { selected = none }

-- `arrayRemove`: the first element that is equal.
unfoldable pub array_remove : List ℕ → ℕ → List ℕ
array_remove [] e = []
array_remove (x ∷ xs) e = if x == e then xs else x ∷ array_remove xs e

-- The grid's part of `remove`.
unfoldable pub remove : ℕ → Grid → Grid
unfolding array_remove
remove id g = record g {
  selected = elim g.selected [ none ↦ none | some s ↦ if id == s then none else some s ];
  all_graphs = array_remove g.all_graphs id;
}

-- The grid's part of `close`: the series are given up.
unfoldable pub close : ℕ → Grid → Grid
unfolding remove
close id g =
    remove id
      (record g { surfaces = write id (record (g.surfaces id) { series = none }) g.surfaces })

unfoldable pub set_series : ℕ → List Text → Grid → Grid
set_series id series g = record g {
  surfaces = write id (record (g.surfaces id) { series = some series }) g.surfaces;
}

-- `nu._format = format`, also from the dialog of `showSettings`
unfoldable pub set_format : ℕ → Format → Grid → Grid
set_format id format g = record g {
  surfaces = write id (record (g.surfaces id) { format = format }) g.surfaces;
}

-- What a reader of the page sees: for each graph, in order, its series and its format.
unfoldable pub shown_by : (ℕ → Surface) → List ℕ → List (List Text × Format)
shown_by surfaces [] = []
shown_by surfaces (id ∷ ids) =
    (get_series (surfaces id), (surfaces id).format) ∷ shown_by surfaces ids

abbrev pub shown : Grid → List (List Text × Format)
shown g = shown_by g.surfaces g.all_graphs
