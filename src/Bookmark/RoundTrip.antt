-- ===== src/Bookmark/RoundTrip.antt =====
-- Following the bookmark of a page shows its graphs and its dates again.
use istatd.Prelude.{
  ℕ, suc, ◌<◌, ◌≡◌, ◌≢◌, refl, ap, ◌∙◌, arith, Option, none, some, List, [], ◌∷◌, ◌++◌, Text,
  text_eq, text_eq_instance, All,
}
use istatd.Prelude.Int.{ℤ, pos, ◌*ℤ◌}
use istatd.Prelude.Object.{Object, get, put}
use istatd.Prelude.Words.{codes, split, join, IsFree, split-join}
use istatd.Prelude.Digits.{show_ℤ, parse_int-show_ℤ}
use istatd.Dates.{Span, seconds}
use istatd.Surface.{get_series, Format}
use istatd.Grid.{Grid, shown, shown_by}
use istatd.Page.{Page, Browser, Output, clear, reset_dates}
use istatd.Page.Dashboard.{graphs_of, formats_of, open_graphs}
use istatd.Page.Keeps.{clear-all_graphs, reset_dates-grid}
use istatd.Window.{Window, reset_date_range}
use istatd.Page.Chosen.{reload_each-Same}
use istatd.Page.Restore.{IsProper, open_graphs-shown}
use istatd.Bookmark.{
  items_of, run_func, packup_state_as_hash, gotohash, load_hash, load_state, load_graphs,
  load_dates, date_at, then_dates, item, key_of, Partial, Ending, finished, threw, after, state_of,
}
use istatd.Bookmark.Query.{puts}
use istatd.Bookmark.Items.{AreKept, item-IsFree, load_graphs-open_graphs}
use istatd.Bookmark.Pairs.{
  args_of, args_of-HoldsAll, HoldsAll, query-tail_of, read_pairs-args_of, join-All,
  items_of-IsUnits, show_ℤ-IsUnits,
}

items_of-IsFree : (k : ℕ) (formats : List ℕ) → All (IsFree b';') (items_of k formats)
unfolding items_of
items_of-IsFree k [] = tt
items_of-IsFree k (format ∷ formats) = (item-IsFree k format, items_of-IsFree (suc k) formats)

items_split :
    (k : ℕ) (formats : List ℕ)
    → formats ≢ []
    → split b';' (join b';' (items_of k formats)) ≡ items_of k formats
unfolding items_of
items_split k [] h = absurd (h refl)
items_split k (format ∷ formats) h =
    split-join b';' (item k format) (items_of (suc k) formats)
      (item-IsFree k format, items_of-IsFree (suc k) formats)

formats_of-ne-nil : (g : Grid) (ids : List ℕ) → ids ≢ [] → formats_of g ids ≢ []
unfolding formats_of
formats_of-ne-nil g [] h = absurd (h refl)
formats_of-ne-nil g (id ∷ ids) h = cc

graphs_of-AreKept :
    (g : Grid) (ids : List ℕ)
    → All (λ id. AreKept (get_series (g.surfaces id))) ids
    → All AreKept (graphs_of g ids)
unfolding graphs_of
graphs_of-AreKept g [] h = tt
graphs_of-AreKept g (id ∷ ids) h = (h.0, graphs_of-AreKept g ids h.1)

-- Without graphs no key is the empty one.
get-args_of : (graphs from to : Text) → get [] (args_of [] graphs from to) ≡ none
unfolding state_of puts get put text_eq
get-args_of graphs from to = refl

module _ (D : Type 0) (b : Browser) where
  load_dates-reset_dates :
      (args : Object Text Text) (from to : ℤ) (p : Page)
      → get (codes "from") args ≡ some (show_ℤ from)
      → get (codes "to") args ≡ some (show_ℤ to)
      → load_dates {D = D} b args p
        ≡ (reset_dates b (from *ℤ pos 1000) (to *ℤ pos 1000) p, finished)
  unfolding load_dates date_at
  load_dates-reset_dates args from to p f t =
      ground (arith, parse_int-show_ℤ from, parse_int-show_ℤ to)

  -- Opening the graphs of a page and then its dates, on a grid that was cleared.
  reopen : Grid → (ids : List ℕ) (from to : ℤ) → Partial D
  reopen g ids from to q = after (clear q) λ r.
      after (open_graphs b (some (formats_of g ids)) (graphs_of g ids) r)
        λ s. (reset_dates b (from *ℤ pos 1000) (to *ℤ pos 1000) s, finished)

  then_dates-reopen :
      (g : Grid) (ids : List ℕ) (args : Object Text Text) (from to : ℤ) (c : Page)
      → ids ≢ []
      → All (λ id. AreKept (get_series (g.surfaces id))) ids
      → HoldsAll args
          (graphs_of g ids)
          (join b';' (items_of 0 (formats_of g ids)))
          (show_ℤ from)
          (show_ℤ to)
      → then_dates {D = D} b args
          (load_graphs b args (split b';' (join b';' (items_of 0 (formats_of g ids)))) c)
        ≡ after
            (open_graphs b (some (formats_of g ids)) (graphs_of g ids) c)
            λ s. (reset_dates b (from *ℤ pos 1000) (to *ℤ pos 1000) s, finished)
  unfolding then_dates
  then_dates-reopen g ids args from to c some_graph kept h =
      let opened = open_graphs {D = D} b (some (formats_of g ids)) (graphs_of g ids) c in
      ap (λ ws. then_dates b args (load_graphs b args ws c))
        (items_split 0 (formats_of g ids) (formats_of-ne-nil g ids some_graph))
      ∙ ap (then_dates b args) (load_graphs-open_graphs D b g ids 0 args c h.series_held kept)
      ∙ ap (λ (r : (Page × List (Output D)) × Ending). ((r.0.0, opened.1 ++ r.0.1), r.1))
          (load_dates-reset_dates args from to opened.0 h.from_held h.to_held)

  load_state-reopen :
      (g : Grid) (ids : List ℕ) (args : Object Text Text) (from to : ℤ) (q : Page)
      → ids ≢ []
      → All (λ id. AreKept (get_series (g.surfaces id))) ids
      → HoldsAll args
          (graphs_of g ids)
          (join b';' (items_of 0 (formats_of g ids)))
          (show_ℤ from)
          (show_ℤ to)
      → load_state b args q ≡ reopen g ids from to q
  unfolding load_state reopen
  load_state-reopen g ids args from to q some_graph kept h =
      rw (h.graphs_held, load_state)
        (ap (λ (r : (Page × List (Output D)) × Ending). ((r.0.0, (clear q).1 ++ r.0.1), r.1))
          (then_dates-reopen g ids args from to (clear {D = D} q).0 some_graph kept h))

  -- The hash of a page is read back into the arguments.
  gotohash-load_state :
      (user : Option Text) (p q : Page)
      → All (λ id. AreKept (get_series (p.grid.surfaces id))) p.grid.all_graphs
      → gotohash b user (packup_state_as_hash p) q
        ≡ load_state {D = D} b
            (args_of
              (graphs_of p.grid p.grid.all_graphs)
              (join b';' (items_of 0 (formats_of p.grid p.grid.all_graphs)))
              (show_ℤ (seconds p.window.current.start))
              (show_ℤ (seconds p.window.current.stop)))
            q
  unfolding gotohash packup_state_as_hash
  gotohash-load_state user p q kept =
      let ids = p.grid.all_graphs in
      let series = graphs_of p.grid ids in
      let items = items_of 0 (formats_of p.grid ids) in
      let from = seconds p.window.current.start in
      let to = seconds p.window.current.stop in
      ap (λ hash. load_hash b user hash q)
        (query-tail_of (state_of 0 series) (join b';' items) (show_ℤ from) (show_ℤ to))
      ∙ ap (λ r. run_func b user r q)
          (read_pairs-args_of series (join b';' items) (show_ℤ from) (show_ℤ to)
            (graphs_of-AreKept p.grid ids kept)
            (join-All (λ c. c < 65_536) b';' items (omega arith)
              (items_of-IsUnits 0 (formats_of p.grid ids)))
            (show_ℤ-IsUnits from) (show_ℤ-IsUnits to))

  packup-reopen :
      (user : Option Text) (p q : Page)
      → p.grid.all_graphs ≢ []
      → All (λ id. AreKept (get_series (p.grid.surfaces id))) p.grid.all_graphs
      → gotohash b user (packup_state_as_hash p) q
        ≡ reopen p.grid p.grid.all_graphs
            (seconds p.window.current.start)
            (seconds p.window.current.stop)
            q
  packup-reopen user p q some_graph kept =
      gotohash-load_state user p q kept
      ∙ load_state-reopen p.grid p.grid.all_graphs _ (seconds p.window.current.start)
          (seconds p.window.current.stop) q some_graph kept (args_of-HoldsAll _ _ _ _)

  reset_dates-current :
      (from to : ℤ) (p : Page)
      → (reset_dates {D = D} b from to p).0.window.current ≡ record { start = from; stop = to }
  unfolding reset_dates reset_date_range
  reset_dates-current from to p =
      ap (λ (w : Window). w.current) (reload_each-Same D b p.grid.all_graphs _).window

  -- What is seen of a page.
  pub record Shows (graphs : List (List Text × Format)) (dates : Span)
      (r : (Page × List (Output D)) × Ending) : Type 0 where
    pub ended : r.1 ≡ finished
    pub same_graphs : shown r.0.0.grid ≡ graphs
    pub same_dates : r.0.0.window.current ≡ dates

  -- Following the bookmark of a page, from whatever page, shows the graphs of that page, in their formats
  -- and order, and its dates, in whole seconds. The page has a graph, every graph has a series, and the
  -- names of its series are distinct texts of code units without a ';'.
  pub gotohash-packup_state_as_hash :
      (user : Option Text) (p q : Page)
      → p.grid.all_graphs ≢ []
      → IsProper p.grid.surfaces p.grid.all_graphs
      → All (λ id. AreKept (get_series (p.grid.surfaces id))) p.grid.all_graphs
      → Shows
          (shown p.grid)
          (record {
            start = seconds p.window.current.start *ℤ pos 1000;
            stop = seconds p.window.current.stop *ℤ pos 1000;
          })
          (gotohash b user (packup_state_as_hash p) q)
  unfolding reopen shown_by
  gotohash-packup_state_as_hash user p q some_graph proper kept =
      let ids = p.grid.all_graphs in
      let cleared = clear-all_graphs D q in
      let c = (clear {D = D} q).0 in
      let opened =
        (open_graphs {D = D} b (some (formats_of p.grid ids)) (graphs_of p.grid ids) c).0 in
      let from = seconds p.window.current.start *ℤ pos 1000 in
      let to = seconds p.window.current.stop *ℤ pos 1000 in
      rw (packup-reopen user p q some_graph kept) (record {
        ended = refl;
        same_graphs =
            ap shown (reset_dates-grid D b from to opened)
            ∙ open_graphs-shown D b p.grid ids c proper (rw cleared tt)
            ∙ ap (λ ids'. shown_by c.grid.surfaces ids' ++ shown_by p.grid.surfaces ids) cleared;
        same_dates = reset_dates-current from to opened;
      })

  load_state-no_graphs :
      (args : Object Text Text) (q : Page)
      → get (codes "graphs") args ≡ some []
      → get [] args ≡ none
      → (load_state {D = D} b args q).1 ≡ threw
  unfolding load_state load_graphs then_dates split key_of
  load_state-no_graphs args q g h = ground (arith, g, h)

  load_state-args_of_nil :
      (g : Grid) (ids : List ℕ) (from to : Text) (q : Page)
      → ids ≡ []
      → (load_state {D = D} b
          (args_of (graphs_of g ids) (join b';' (items_of 0 (formats_of g ids))) from to)
          q).1
        ≡ threw
  unfolding graphs_of formats_of items_of join
  load_state-args_of_nil g ids from to q h = rw h (
      load_state-no_graphs _ q (args_of-HoldsAll [] [] from to).graphs_held
        (get-args_of [] from to))

  -- The bookmark of a page without graphs ends with an exception.
  pub gotohash-no_graphs :
      (user : Option Text) (p q : Page)
      → p.grid.all_graphs ≡ []
      → (gotohash {D = D} b user (packup_state_as_hash p) q).1 ≡ threw
  gotohash-no_graphs user p q h =
      ap (λ (r : (Page × List (Output D)) × Ending). r.1) (gotohash-load_state user p q (rw h tt))
      ∙ load_state-args_of_nil p.grid p.grid.all_graphs _ _ q h
