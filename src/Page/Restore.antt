-- ===== src/Page/Restore.antt =====
-- A dashboard that is saved and opened again shows the same graphs.
use istatd.Prelude.{
  ℕ, ◌+◌, ◌<◌, ◌≡◌, ◌≢◌, refl, sym, ap, ◌∙◌, arith, false, none, some, List, [], ◌∷◌, ◌++◌, Text,
  text_eq_iff, text_eq_instance, contains, All, All-map, All-append, ap₂, append_assoc, append-nil,
  ==_iff,
}
use istatd.Prelude.Object.{IsDistinct, contains-append}
use istatd.Surface.{Surface, Format, bars_fmt_to_ix, bars_ix_to_fmt, toggle, get_series}
use istatd.Grid
use istatd.Grid.{Grid, set_series, shown, shown_by}
use istatd.Page.{Page, Browser, reload, toggle_series, clear}
use istatd.Page.Dashboard.{
  Dashboard, graphs_of, formats_of, get_dashboard, format_of, graph_size, item_of, toggle_each,
  open_graph, open_graphs, open_dashboard,
}
use istatd.Page.Keeps.{grid_after, clear-all_graphs, open_slider-grid}

-- The two tables of formats undo one another.
pub bars_ix_to_fmt-bars_fmt_to_ix : (f : Format) → bars_ix_to_fmt (bars_fmt_to_ix f) ≡ some f
unfolding bars_ix_to_fmt bars_fmt_to_ix
bars_ix_to_fmt-bars_fmt_to_ix Format.no_bars = refl
bars_ix_to_fmt-bars_fmt_to_ix _ = refl

-- Each of `paths` is new to `series`.
abbrev pub AllNew : List Text → List Text → Type 0
AllNew series paths = All (λ path. contains series path ≡ false) paths

pub AllNew-nil : (paths : List Text) → AllNew [] paths
AllNew-nil [] = tt
AllNew-nil (path ∷ paths) = (refl, AllNew-nil paths)

pub AllNew-append :
    (series : List Text) (path : Text) (paths rest : List Text)
    → AllNew series rest
    → AllNew (path ∷ []) rest
    → AllNew (series ++ path ∷ []) rest
AllNew-append series path paths [] h k = tt
AllNew-append series path paths (q ∷ rest) h k =
    (ground (arith, contains-append series path q), AllNew-append series path paths rest h.1 k.1)

pub AllNew-cons :
    (path : Text) (paths : List Text) → contains paths path ≡ false → AllNew (path ∷ []) paths
AllNew-cons path [] h = tt
AllNew-cons path (q ∷ paths) h =
    (ground (arith, text_eq_iff path q, text_eq_iff q path), AllNew-cons path paths (ground arith))

-- Only the series of one graph changed, to these.
pub record Fills (id : ℕ) (series : List Text) (g g' : Grid) : Type 0 where
  pub same_graphs : g'.all_graphs ≡ g.all_graphs
  pub same_next : g'.next ≡ g.next
  pub format : (g'.surfaces id).format ≡ (g.surfaces id).format
  pub filled : (g'.surfaces id).series ≡ some series
  pub others : (j : ℕ) → j ≢ id → g'.surfaces j ≡ g.surfaces j

pub Fills-trans :
    (id : ℕ) (series series' : List Text) (g g' g'' : Grid)
    → Fills id series g g'
    → Fills id series' g' g''
    → Fills id series' g g''
Fills-trans id series series' g g' g'' one rest = record {
  same_graphs = rest.same_graphs ∙ one.same_graphs;
  same_next = rest.same_next ∙ one.same_next;
  format = rest.format ∙ one.format;
  filled = rest.filled;
  others = λ j n. rest.others j n ∙ one.others j n;
}

module _ (D : Type 0) (b : Browser) where
  toggle_series-Fills :
      (path : Text) (id : ℕ) (series : List Text) (p : Page)
      → (p.grid.surfaces id).series ≡ some series
      → contains series path ≡ false
      → Fills id (series ++ path ∷ []) p.grid (grid_after {D = D} (toggle_series b path id) p)
  unfolding toggle_series reload Grid.set_series toggle
  toggle_series-Fills path id series p e new = record {
    same_graphs = ground arith;
    same_next = ground arith;
    format = ground (arith, ==_iff id id);
    filled = ground (arith, ==_iff id id);
    others = λ j h. ground (arith, ==_iff j id);
  }

  toggle_each-Fills :
      (id : ℕ) (paths series : List Text) (p : Page)
      → (p.grid.surfaces id).series ≡ some series
      → IsDistinct paths
      → AllNew series paths
      → Fills id (series ++ paths) p.grid (grid_after {D = D} (toggle_each b id paths) p)
  unfolding toggle_each
  toggle_each-Fills id [] series p e d h = record {
    same_graphs = refl;
    same_next = refl;
    format = refl;
    filled = rw (append-nil) e;
    others = λ j _. refl;
  }
  toggle_each-Fills id (path ∷ paths) series p e d h =
      let one = toggle_series-Fills path id series p e h.0 in
      let rest =
        toggle_each-Fills id paths (series ++ path ∷ []) (toggle_series {D = D} b path id p).0
          one.filled d.1 (AllNew-append series path paths paths h.1 (AllNew-cons path paths d.0)) in
      record {
        same_graphs = rest.same_graphs ∙ one.same_graphs;
        same_next = rest.same_next ∙ one.same_next;
        format = rest.format ∙ one.format;
        filled = rw append_assoc at rest.filled;
        others = λ j n. rest.others j n ∙ one.others j n;
      }

shown_by-append :
    (f : ℕ → Surface) (xs ys : List ℕ) → shown_by f (xs ++ ys) ≡ shown_by f xs ++ shown_by f ys
unfolding shown_by
shown_by-append f [] ys = refl
shown_by-append f (x ∷ xs) ys = rw (shown_by-append f xs ys)

shown_by_congr :
    (f g : ℕ → Surface) (xs : List ℕ) → All (λ j. f j ≡ g j) xs → shown_by f xs ≡ shown_by g xs
unfolding shown_by
shown_by_congr f g [] h = refl
shown_by_congr f g (x ∷ xs) h = rw (h.0, shown_by_congr f g xs h.1)

-- The graphs are numbered below the next number.
abbrev pub IsFresh : Grid → Type 0
IsFresh g = All (λ j. j < g.next) g.all_graphs

-- One more graph is shown, behind the others.
record Appends (item : List Text × Format) (g g' : Grid) : Type 0 where
  more : shown g' ≡ shown g ++ item ∷ []
  fresh : IsFresh g'

module _ (format : Format) (series : List Text) (g : Grid) (fresh : IsFresh g) where
  -- The grid of a round of the loop, before the series are toggled on.
  abbrev made : Grid
  made = Grid.set_format g.next format (Grid.new_graph g)

  made-series : (made.surfaces g.next).series ≡ some []
  unfolding Grid.new_graph Grid.set_format
  made-series = ground (arith, ==_iff g.next g.next)

  own :
      (q : Grid)
      → Fills g.next series made q
      → shown_by q.surfaces (g.next ∷ []) ≡ (series, format) ∷ []
  unfolding Grid.new_graph Grid.set_format shown_by get_series
  own q fills = ground (arith, ==_iff g.next g.next, fills.filled, fills.format)

  filled-Appends : (q : Grid) → Fills g.next series made q → Appends (series, format) g q
  unfolding Grid.new_graph Grid.set_format
  filled-Appends q fills = record {
    more =
        rw (fills.same_graphs, shown_by-append)
          (ap₂ ◌++◌
            (shown_by_congr q.surfaces g.surfaces g.all_graphs (
              All-map (λ j below. fills.others j (omega arith) ∙ ground (arith, ==_iff j g.next))
                g.all_graphs fresh))
            (own q fills));
    fresh =
        rw (fills.same_graphs, fills.same_next)
          (All-append (λ j. j < g.next + 1) g.all_graphs (g.next ∷ [])
            (All-map (λ j below. omega arith) g.all_graphs fresh) (omega arith, tt));
  }

pub format_of-bars_fmt_to_ix :
    (f : Format) (ixs : List ℕ) → format_of (some (bars_fmt_to_ix f ∷ ixs)) ≡ f
unfolding format_of
format_of-bars_fmt_to_ix f ixs = ground (arith, bars_ix_to_fmt-bars_fmt_to_ix f)

-- The paths of each graph are distinct, as the keys of an object are.
abbrev pub IsProper : (ℕ → Surface) → List ℕ → Type 0
IsProper surfaces ids = All (λ id. IsDistinct (get_series (surfaces id))) ids

module _ (D : Type 0) (b : Browser) where
  open_graph-Appends :
      (format : Format) (series : List Text) (p : Page)
      → IsDistinct series
      → IsFresh p.grid
      → Appends (series, format) p.grid (grid_after {D = D} (open_graph b format series) p)
  unfolding open_graph
  open_graph-Appends format series p d fresh = filled-Appends format series p.grid fresh _ (
      toggle_each-Fills D b p.grid.next series []
        (record p { grid = made format series p.grid fresh })
        (made-series format series p.grid fresh) d (AllNew-nil series))

  pub open_graphs-shown :
      (g : Grid) (ids : List ℕ) (p : Page)
      → IsProper g.surfaces ids
      → IsFresh p.grid
      → shown (grid_after {D = D} (open_graphs b (some (formats_of g ids)) (graphs_of g ids)) p)
        ≡ shown p.grid ++ shown_by g.surfaces ids
  unfolding open_graphs graphs_of formats_of shown_by
  open_graphs-shown g [] p h fresh = sym (append-nil _)
  open_graphs-shown g (id ∷ ids) p h fresh =
      let format = (g.surfaces id).format in
      let series = get_series (g.surfaces id) in
      let given = format_of (some (bars_fmt_to_ix format ∷ formats_of g ids)) in
      let one = open_graph-Appends given series p h.0 fresh in
      open_graphs-shown g ids (open_graph {D = D} b given series p).0 h.1 one.fresh
      ∙ ap (λ before. before ++ shown_by g.surfaces ids) one.more
      ∙ append_assoc (shown p.grid) ((series, given) ∷ []) (shown_by g.surfaces ids)
      ∙ ap (λ f. shown p.grid ++ (series, f) ∷ shown_by g.surfaces ids)
          (format_of-bars_fmt_to_ix format (formats_of g ids))

  open_rest-grid :
      (d : Dashboard) (p : Page)
      → grid_after {D = D} (open_dashboard b d) p
        ≡ grid_after {D = D} (open_graphs b d.formats d.graphs) (elim d.size [
          | none ↦ (clear {D = D} p).0
          | some size ↦ graph_size size (item_of d.time_slider d.size_dropdown) (clear {D = D} p).0
        ])
  unfolding open_dashboard
  open_rest-grid d p = open_slider-grid D b d.time_slider _

  -- Opening the dashboard of a page, on whatever page, shows the graphs of that page: the same series
  -- in the same formats and order.
  pub open_dashboard-get_dashboard :
      (p q : Page)
      → IsProper p.grid.surfaces p.grid.all_graphs
      → shown (grid_after {D = D} (open_dashboard b (get_dashboard p)) q) ≡ shown p.grid
  unfolding get_dashboard graph_size shown_by
  open_dashboard-get_dashboard p q h =
      let cleared = clear-all_graphs D q in
      let item = item_of (get_dashboard p).time_slider (get_dashboard p).size_dropdown in
      let start = graph_size p.size item (clear {D = D} q).0 in
      ap shown (open_rest-grid (get_dashboard p) q)
      ∙ open_graphs-shown p.grid p.grid.all_graphs start h (rw cleared tt)
      ∙ ap (λ ids. shown_by start.grid.surfaces ids ++ shown_by p.grid.surfaces p.grid.all_graphs)
          cleared
