-- ===== src/Filter.antt =====
-- The search for counters in files/graph.js: `CounterTreeModel`, `CounterTreeFilterView`, and what
-- `CounterTreeView` makes of its pattern.
pub mod Regexp
mod Matching
mod Wildcards
mod Shown
mod Tests
use istatd.Prelude.{
  ℕ, Bool, true, false, not, ◌&&◌, Option, none, some, List, [], ◌∷◌, ◌++◌, Text, text_eq, contains,
  nat_eq, if◌then◌else◌, ◌>>=◌, ◌==◌,
}
use istatd.Prelude.Words.{codes, split}
use istatd.Page.{Page, Browser, Op, toggle_graphing}
use istatd.Tree.{Counter, Node, as_counter_tree, get_counter_name, Item, branch, leaf}
use istatd.Filter.Regexp.{read, search_in}

-- `words.join(separator)`
unfoldable pub join_with : Text → List Text → Text
join_with separator [] = []
join_with separator (w ∷ []) = w
join_with separator (w ∷ v ∷ ws) = w ++ (separator ++ join_with separator (v ∷ ws))

abbrev pub anything : Text
anything = codes ".*"

-- The source of the regular expression. The pattern "*" alone has /.*/.
unfoldable pub source_of : (proto_pat : Text) → Text
unfolding join_with
source_of proto_pat =
    if text_eq proto_pat (codes "*")
    then anything
    else (if not (contains proto_pat b'*')
        then anything ++ (proto_pat ++ anything)
        else join_with anything (split b'*' proto_pat))

-- A leaf of the server's list whose name has a match.
unfoldable pub keep_matching : (Text → Bool) → List Counter → List Counter
keep_matching found [] = []
keep_matching found (counter ∷ counters) =
    let rest = keep_matching found counters in
    if counter.is_leaf && found counter.name then counter ∷ rest else rest

-- `regexp` stands for the regular expressions of other forms; its none is a SyntaxError.
module _ (regexp : Text → Option (Text → Bool)) where
  unfoldable pub compile : Text → Option (Text → Bool)
  compile source = elim (read source) [ none ↦ regexp source | some items ↦ some (search_in items) ]

  -- The tree that `render` makes; none is an exception. `sort_by_name` is `_.sortBy("name")`.
  unfoldable pub render :
      (sort_by_name : List Counter → List Counter) → (pattern : Text) → List Counter → Option Node
  unfolding compile source_of keep_matching as_counter_tree
  render sort_by_name pattern matching_names = do
    found ← compile (source_of pattern)
    some (as_counter_tree (sort_by_name (keep_matching found matching_names)))

-- The input with its label, and the pattern of the model.
pub record Search : Type 0 where
  pub text : Text
  pub label_shown : Bool
  pub pattern : Text

pub data Event : Type 0 where
  focus blur enter clear : Event
  typed : Text → Event

-- `set("pattern", …)`; the view renders where the pattern changed.
unfoldable pub set_pattern : Text → Search → Search × Bool
set_pattern pattern s = (record s { pattern = pattern }, not (text_eq s.pattern pattern))

-- A click on the label focuses the input.
unfoldable pub on_event : Event → Search → Search × Bool
unfolding set_pattern
on_event focus s = (record s { label_shown = false }, false)
on_event blur s = (if text_eq s.text [] then record s { label_shown = true } else s, false)
on_event (typed text) s = (record s { text = text }, false)
on_event enter s = set_pattern s.text s
on_event clear s = set_pattern [] (record s { text = []; label_shown = true })

-- The click on an entry of the tree, by the texts on the way to it: a leaf has a class, the icon's, and a
-- branch is opened or closed.
unfoldable pub has_class : Item → Bool
has_class (branch text) = false
has_class (leaf text icon) = true

module _ {D : Type 0} (b : Browser) where
  -- Whether the entry is to be opened or closed, beside the operation on the page.
  unfoldable pub on_select : Item → (path : List Text) → Option (Op D)
  unfolding has_class get_counter_name
  on_select item path =
      if has_class item then some (toggle_graphing b (get_counter_name path) none) else none
