-- ===== src/Tree.antt =====
-- The tree of counters of files/graph.js: `asCounterTree` and what the tree view reads of it.
pub mod Leaves
pub mod Heads
pub mod Moving
pub mod Collapse
pub mod Parse
pub mod Compact
mod Tests
use istatd.Prelude.{
  ℕ, ◌+◌, Bool, true, false, ◌&&◌, Option, none, some, List, [], ◌∷◌, ◌++◌, Text, text_eq, ◌==◌,
  ltb, if◌then◌else◌,
}
use istatd.Prelude.Words.{codes, split, join}

-- A leaf of the server's list of names. `type` is 0 for a gauge and 1 for a counter.
pub record Counter : Type 0 where
  pub name : Text
  pub type : ℕ
  pub is_leaf : Bool

mutual
  pub data Node : Type 0 where
    node : (text : Text) → Children → (type : ℕ) → Node

  pub data Children : Type 0 where
    nil : Children
    child : (key : Text) → Node → Children → Children

abbrev pub children : Node → Children
children (node text cs type) = cs

abbrev pub type_of : Node → ℕ
type_of (node text cs type) = type

-- `newNode` with a text alone, and with nothing for the root.
abbrev pub new_node : Text → Node
new_node text = node text nil 2

abbrev pub new_root : Node
new_root = new_node (codes "#")

-- `_.size`
unfoldable pub size : Children → ℕ
size nil = 0
size (child key n cs) = size cs + 1

-- `children[key] = n`: a new key goes to the end.
unfoldable pub put_child : Text → Node → Children → Children
put_child key n nil = child key n nil
put_child key n (child k m cs) =
    if text_eq k key then child k n cs else child k m (put_child key n cs)

-- `delete children[key]`
unfoldable pub del_child : Text → Children → Children
del_child key nil = nil
del_child key (child k m cs) = if text_eq k key then cs else child k m (del_child key cs)

-- `children[key]`
unfoldable pub get_child : Text → Children → Option Node
get_child key nil = none
get_child key (child k m cs) = if text_eq k key then some m else get_child key cs

-- The step from a node to its child for a field, which is made where it is missing, and `change` there.
unfoldable pub update_child : Text → (Node → Node) → Children → Children
update_child key change nil = child key (change (new_node key)) nil
update_child key change (child k m cs) =
    if text_eq k key then child k (change m) cs else child k m (update_child key change cs)

-- The walk along the fields of a name; the type is stored in the last node.
unfoldable pub insert : List Text → ℕ → Node → Node
unfolding update_child
insert [] type (node text cs _) = node text cs type
insert (field ∷ fields) type (node text cs t) =
    node text (update_child field (insert fields type) cs) t

unfoldable pub parse_counters : List Counter → Node → Node
unfolding insert
parse_counters [] tree = tree
parse_counters (counter ∷ counters) tree =
    parse_counters counters (insert (split b'.' counter.name) counter.type tree)

-- `maybeMoveUp`, for a subtree that is collapsed already: with one child it gives way to that child,
-- under both keys.
unfoldable pub maybe_move_up : Text → Node → Children → Children
maybe_move_up key (node text (child child_key (node _ cs type) nil) _) tree =
    let new_key = key ++ b'.' ∷ child_key in
    del_child key (put_child new_key (node new_key cs type) tree)
maybe_move_up key subtree tree = put_child key subtree tree

-- `collapse` goes over the children as they were when it began, and changes them on the way.
unfoldable mutual
  unfolding maybe_move_up

  pub collapse : Node → Node
  collapse (node text cs type) = node text (move_each cs cs) type

  pub move_each : Children → Children → Children
  move_each nil tree = tree
  move_each (child key n rest) tree = move_each rest (maybe_move_up key (collapse n) tree)

unfoldable pub as_counter_tree : List Counter → Node
unfolding parse_counters collapse
as_counter_tree counters = collapse (parse_counters counters new_root)

-- An entry of jstree: a branch, or a leaf with the class of its icon.
pub data Icon : Type 0 where
  gauge counter : Icon

pub data Item : Type 0 where
  branch : (text : Text) → Item
  leaf : (text : Text) → Option Icon → Item

unfoldable pub icon_of : ℕ → Option Icon
icon_of type = if type == 0 then some gauge else (if type == 1 then some counter else none)

-- `formatTreeLevel`, of the children of a node.
unfoldable pub format_tree_level : Children → List Item
unfolding size icon_of
format_tree_level nil = []
format_tree_level (child key n cs) =
    (if ltb 0 (size (children n)) then branch key else leaf key (icon_of (type_of n)))
    ∷ format_tree_level cs

-- `findNodeInCounterTree`, by the texts on the way from the root; `none` is an exception.
unfoldable pub find_node : List Text → Node → Option Node
unfolding get_child
find_node [] n = some n
find_node (text ∷ path) n = elim (get_child text (children n)) [
  | none ↦ none
  | some m ↦ find_node path m
]

-- `getCounterName`
unfoldable pub get_counter_name : List Text → Text
get_counter_name path = join b'.' path
