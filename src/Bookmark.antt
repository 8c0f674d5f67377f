-- ===== src/Bookmark.antt =====
-- Bookmarks of files/graph.js: `packup_state_as_hash` puts the page into the hash of the location, and
-- `gotohash`, `load_hash` and `load_state` bring it back.
pub mod Query
pub mod Items
pub mod Pairs
pub mod RoundTrip
mod Tests
use istatd.Prelude.{
  ℕ, suc, ◌*◌, Bool, true, false, ◌&&◌, Option, none, some, List, [], ◌∷◌, ◌++◌, Text, text_eq,
  ◌==◌, if◌then◌else◌, text_eq_instance,
}
use istatd.Prelude.Int.{ℤ, pos, ◌*ℤ◌}
use istatd.Prelude.Object.{Object, get, put}
use istatd.Prelude.Words.{codes, split, join}
use istatd.Prelude.Digits.{show, show_ℤ, parse_int}
use istatd.Prelude.Escape.{escape, unescape}
use istatd.Dates.{seconds}
use istatd.Surface.{Format, no_bars, error_bars, custom_bars, stacked, area}
use istatd.Grid
use istatd.Page.{Page, Browser, Output, Op, ◌>>◌, on_grid, clear, reset_dates}
use istatd.Page.Dashboard.{graphs_of, formats_of, open_graph}

-- `state[k]`, from the graph `k` on.
unfoldable pub state_of : (k : ℕ) → List (List Text) → List (Text × Text)
state_of k [] = []
state_of k (series ∷ graphs) = (show k, join b';' series) ∷ state_of (suc k) graphs

-- `grix`
unfoldable pub item : ℕ → ℕ → Text
item k format = show k ++ b',' ∷ show format

unfoldable pub items_of : (k : ℕ) → List ℕ → List Text
unfolding item
items_of k [] = []
items_of k (format ∷ formats) = item k format ∷ items_of (suc k) formats

-- The loop over the state.
unfoldable pub query : List (Text × Text) → Text
query [] = []
query ((k, v) ∷ state) = escape k ++ b'=' ∷ escape v ++ b'&' ∷ query state

-- `for (var k in state)` comes to the numbers first.
unfoldable pub packup_state_as_hash : Page → Text
unfolding state_of items_of query
packup_state_as_hash p =
    let graphs = graphs_of p.grid p.grid.all_graphs in
    let formats = formats_of p.grid p.grid.all_graphs in
    let state = state_of 0 graphs ++ (codes "graphs", join b';' (items_of 0 formats)) ∷ [] in
    codes "#?"
    ++ (query state
        ++ (codes "from="
            ++ (escape (show_ℤ (seconds p.window.current.start))
                ++ (codes "&to="
                    ++ (escape (show_ℤ (seconds p.window.current.stop)) ++ codes "&state=")))))

-- `kv[0]` and `kv[1]`; without a '=' the value is `undefined`, which `unescape` reads as a text.
unfoldable pub key_of : List Text → Text
key_of [] = []
key_of (key ∷ _) = key

unfoldable pub value_of : List Text → Text
value_of (key ∷ value ∷ _) = unescape value
value_of _ = codes "undefined"

-- The function that a hash asks for.
pub data Func : Type 0 where
  dashboard state : Func

unfoldable pub func_of : Text → Option Func → Option Func
func_of key func =
    if text_eq key (codes "state")
    then some state
    else (if text_eq key (codes "dashboard") then some dashboard else func)

-- The loop over the pairs.
unfoldable pub read_pairs :
    List Text → Option Func → Object Text Text → Option Func × Object Text Text
unfolding key_of value_of func_of
read_pairs [] func args = (func, args)
read_pairs (keyval ∷ keyvals) func args =
    let kv = split b'=' keyval in
    read_pairs keyvals (func_of (key_of kv) func) (put (key_of kv) (value_of kv) args)

-- How following a hash ends: to the end, by an exception, with dates that are no numbers, or by asking
-- the server for a dashboard, first in the first context. `args.dashboard` may be missing.
pub data Ending : Type 0 where
  finished threw no_date : Ending
  asks : Option Text → List Text → Ending

abbrev pub Partial : Type 0 → Type 0
Partial D = Page → (Page × List (Output D)) × Ending

-- `bars_ix_to_fmt[vals[1]] || "errorBars"`, where the index is a text.
unfoldable pub format_at : List Text → Format
format_at (_ ∷ ix ∷ _) =
    if text_eq ix (codes "1")
    then no_bars
    else (if text_eq ix (codes "3")
        then custom_bars
        else (if text_eq ix (codes "4")
            then stacked
            else (if text_eq ix (codes "5") then area else error_bars)))
format_at _ = error_bars

unfoldable pub date_at : Text → Object Text Text → Option ℤ
date_at key args = elim (get key args) [ none ↦ none | some text ↦ parse_int text ]

-- The context of the user who is logged in.
unfoldable pub own_context : Option Text → List Text
own_context none = []
own_context (some name) = if text_eq name [] then [] else name ∷ []

abbrev pub after :
    {D : Type 0} → Page × List (Output D) → Partial D → (Page × List (Output D)) × Ending
after (p, out) k = let ((p', more), ending) = k p in ((p', out ++ more), ending)

module _ {D : Type 0} (b : Browser) where
  -- The loop over the graphs. A graph whose series are not in the state has been made by then.
  unfoldable pub load_graphs : Object Text Text → List Text → Partial D
  unfolding format_at key_of
  load_graphs args [] p = ((p, []), finished)
  load_graphs args (graph ∷ graphs) p =
      let vals = split b',' graph in
      elim (get (key_of vals) args) [
        | none ↦ (
          (do on_grid Grid.new_graph; on_grid (Grid.set_format p.grid.next (format_at vals))) p,
          threw,
        )
        | some text ↦
            after (open_graph b (format_at vals) (split b';' text) p) (load_graphs args graphs)
      ]

  unfoldable pub load_dates : Object Text Text → Partial D
  unfolding date_at
  load_dates args p = elim (date_at (codes "from") args) [
    | none ↦ ((p, []), no_date)
    | some from ↦ elim (date_at (codes "to") args) [
      | none ↦ ((p, []), no_date)
      | some to ↦ (reset_dates b (from *ℤ pos 1000) (to *ℤ pos 1000) p, finished)
    ]
  ]

  -- The dates come after the graphs, unless those ended with an exception.
  unfoldable pub then_dates :
      Object Text Text → (Page × List (Output D)) × Ending → (Page × List (Output D)) × Ending
  unfolding load_dates
  then_dates args (r, finished) = after r (load_dates args)
  then_dates args (r, ending) = (r, ending)

  unfoldable pub load_state : Object Text Text → Partial D
  unfolding load_graphs then_dates
  load_state args p = elim (get (codes "graphs") args) [
    | none ↦ (clear p, threw)
    | some graphs ↦ after (clear p) λ q. then_dates args (load_graphs args (split b';' graphs) q)
  ]

  -- The call of `func`. `user` is `theUserName`.
  unfoldable pub run_func : (user : Option Text) → Option Func × Object Text Text → Partial D
  unfolding load_state own_context
  run_func user (none, args) p = ((p, []), finished)
  run_func user (some dashboard, args) p =
      ((p, []), asks (get (codes "dashboard") args) (codes "global" ∷ own_context user))
  run_func user (some state, args) p = load_state args p

  unfoldable pub load_hash : (user : Option Text) → Text → Partial D
  unfolding read_pairs run_func
  load_hash user hash p = run_func user (read_pairs (split b'&' hash) none []) p

  -- A hash that does not begin with "#?" is not ours.
  unfoldable pub gotohash : (user : Option Text) → Text → Partial D
  unfolding load_hash
  gotohash user (x ∷ y ∷ hash) p =
      if x == b'#' && y == b'?' then load_hash user hash p else ((p, []), finished)
  gotohash user _ p = ((p, []), finished)
