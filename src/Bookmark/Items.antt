-- ===== src/Bookmark/Items.antt =====
-- The graphs of a page, packed up and read back.
use istatd.Prelude.{
  ℕ, suc, ◌<◌, ◌≡◌, ◌≢◌, refl, sym, ap, ap₂, ◌∙◌, arith, some, List, [], ◌∷◌, ◌++◌, Text, text_eq,
  text_eq_instance, All, inl, inr, nat_eq,
}
use istatd.Prelude.Object.{Object, get, put}
use istatd.Prelude.Words.{
  split, join, IsFree, append-IsFree, split-append, split_of_IsFree, split-join,
}
use istatd.Prelude.Digits.{show, show-ne, show-IsFree}
use istatd.Surface.{Format, bars_fmt_to_ix, get_series}
use istatd.Grid.{Grid}
use istatd.Page.{Page, Browser, Output, ◌>>◌}
use istatd.Page.Dashboard.{graphs_of, formats_of, open_graph, open_graphs}
use istatd.Page.Restore.{format_of-bars_fmt_to_ix}
use istatd.Bookmark.{
  state_of, item, items_of, key_of, format_at, load_graphs, finished, after, Ending,
}
use istatd.Bookmark.Query.{IsUnits, puts, AreOther, get-puts-other, get-put_self}

-- The state holds the series of the graphs, from the graph `k` on.
abbrev pub Holds : Object Text Text → ℕ → List (List Text) → Type 0
Holds args k [] = Unit
Holds args k (series ∷ graphs) =
    (get (show k) args ≡ some (join b';' series)) × Holds args (suc k) graphs

state_of-AreOther :
    (j k : ℕ) (graphs : List (List Text)) → j < k → AreOther (show j) (state_of k graphs)
unfolding state_of
state_of-AreOther j k [] h = tt
state_of-AreOther j k (series ∷ graphs) h =
    (show-ne k j (ground arith), state_of-AreOther j (suc k) graphs (omega arith))

pub puts-state_of-Holds :
    (k : ℕ) (graphs : List (List Text)) (args : Object Text Text)
    → Holds (puts (state_of k graphs) args) k graphs
unfolding state_of puts
puts-state_of-Holds k [] args = tt
puts-state_of-Holds k (series ∷ graphs) args =
    let with_this = put (show k) (join b';' series) args in
    (
      get-puts-other (show k) (state_of (suc k) graphs) with_this
            (state_of-AreOther k (suc k) graphs (omega arith))
          ∙ get-put_self (show k) (join b';' series) args,
      puts-state_of-Holds (suc k) graphs with_this,
    )

-- Pairs with names for keys leave the graphs alone.
pub puts-Holds :
    (pairs : List (Text × Text)) (args : Object Text Text)
    → ((j : ℕ) → AreOther (show j) pairs)
    → (k : ℕ) (graphs : List (List Text)) → Holds args k graphs
    → Holds (puts pairs args) k graphs
puts-Holds pairs args others k [] h = tt
puts-Holds pairs args others k (series ∷ graphs) h = (
  get-puts-other (show k) pairs args (others k) ∙ h.0,
  puts-Holds pairs args others (suc k) graphs h.1,
)

split-item : (k format : ℕ) → split b',' (item k format) ≡ show k ∷ show format ∷ []
unfolding item
split-item k format =
    split-append b',' (show k) (show format) (show-IsFree b',' k (inl (omega arith)))
    ∙ ap (show k ∷◌)
        (split_of_IsFree b',' (show format) (show-IsFree b',' format (inl (omega arith))))

pub item-IsFree : (k format : ℕ) → IsFree b';' (item k format)
unfolding item
item-IsFree k format =
    append-IsFree b';' (show k) (b',' ∷ show format) (show-IsFree b';' k (inr (omega arith)))
      (show-IsFree b';' format (inr (omega arith)))

format_at-show : (k : ℕ) (f : Format) → format_at (show k ∷ show (bars_fmt_to_ix f) ∷ []) ≡ f
unfolding format_at show bars_fmt_to_ix text_eq
format_at-show k Format.no_bars = refl
format_at-show k Format.error_bars = refl
format_at-show k Format.custom_bars = refl
format_at-show k Format.stacked = refl
format_at-show k Format.area = refl

-- Series that a bookmark can keep: there is one, and no name has a ';'.
abbrev pub AreKept : List Text → Type 0
AreKept series = (series ≢ []) × All (IsFree b';') series × All IsUnits series

split-join-AreKept : (series : List Text) → AreKept series → split b';' (join b';' series) ≡ series
split-join-AreKept [] h = absurd (h.0 refl)
split-join-AreKept (w ∷ ws) h = split-join b';' w ws h.1

module _ (D : Type 0) (b : Browser) where
  load_graphs-cons :
      (args : Object Text Text) (graph text : Text) (graphs : List Text) (p : Page)
      → get (key_of (split b',' graph)) args ≡ some text
      → load_graphs {D = D} b args (graph ∷ graphs) p
        ≡ after
            (open_graph b (format_at (split b',' graph)) (split b';' text) p)
            (load_graphs b args graphs)
  unfolding load_graphs
  load_graphs-cons args graph text graphs p e = rw (e, load_graphs) refl

  -- One graph is opened as in a dashboard.
  load_graphs-item :
      (args : Object Text Text) (k : ℕ) (f : Format) (series : List Text) (graphs : List Text)
      (p : Page)
      → get (show k) args ≡ some (join b';' series)
      → AreKept series
      → load_graphs {D = D} b args (item k (bars_fmt_to_ix f) ∷ graphs) p
        ≡ after (open_graph b f series p) (load_graphs b args graphs)
  load_graphs-item args k f series graphs p e kept =
      let vals = split-item k (bars_fmt_to_ix f) in
      load_graphs-cons args (item k (bars_fmt_to_ix f)) (join b';' series) graphs p
        (ap (λ v. get (key_of v) args) vals ∙ unfold key_of in e)
      ∙ ap₂ (λ (f : Format) series. after (open_graph b f series p) (load_graphs b args graphs))
          (ap format_at vals ∙ format_at-show k f) (split-join-AreKept series kept)

  module _ (g : Grid) where
    -- The loop over the graphs does what opening a dashboard with these graphs does.
    pub load_graphs-open_graphs :
        (ids : List ℕ) (k : ℕ) (args : Object Text Text) (p : Page)
        → Holds args k (graphs_of g ids)
        → All (λ id. AreKept (get_series (g.surfaces id))) ids
        → load_graphs {D = D} b args (items_of k (formats_of g ids)) p
          ≡ (open_graphs b (some (formats_of g ids)) (graphs_of g ids) p, finished)
    unfolding load_graphs open_graphs formats_of graphs_of items_of
    load_graphs-open_graphs [] k args p h kept = refl
    load_graphs-open_graphs (id ∷ ids) k args p h kept =
        let f = (g.surfaces id).format in
        let series = get_series (g.surfaces id) in
        let one = open_graph {D = D} b f series p in
        load_graphs-item args k f series (items_of (suc k) (formats_of g ids)) p h.0 kept.0
        ∙ ap (λ (r : (Page × List (Output D)) × Ending). ((r.0.0, one.1 ++ r.0.1), r.1))
            (load_graphs-open_graphs ids (suc k) args one.0 h.1 kept.1)
        ∙ ap
            (λ (f : Format). (
              (open_graph b f series >> open_graphs b (some (formats_of g ids)) (graphs_of g ids))
                  p,
              finished,
            ))
            (sym (format_of-bars_fmt_to_ix f (formats_of g ids)))
