-- ===== src/Xref.antt =====
-- The cross references of files/graph.js: `computeXref`, the two lists of the dialog and what its buttons ask
-- of the graphs. No category has the name of a property that arrays have, like "length".
mod Related
mod Tests
use istatd.Prelude.{
  ℕ, zero, suc, ◌*◌, ◌^◌, ltb, leb, ◌+◌, ◌-◌, Bool, true, false, not, ◌||◌, ◌&&◌, Option, none,
  some, List, [], ◌∷◌, ◌++◌, Text, text_eq, text_eq_instance, same, contains, if◌then◌else◌, ◌==◌,
  length, drop,
}
use istatd.Prelude.Object.{Object, keys, get, put, del}
use istatd.Prelude.Words.{split}
use istatd.Prelude.Digits.{show}
use istatd.Surface.{get_series}
use istatd.Grid.{Grid}
use istatd.Page.{Page, Browser, Output, Op, ◌>>◌}
use istatd.Counters.{change_counters, add_counters}

-- `ret[category][category] = 1`
abbrev pub Xrefs : Type 0
Xrefs = Object Text (Object Text ℕ)

-- `xrefs[category]`, without keys where there is none.
unfoldable pub related_to : Text → Xrefs → Object Text ℕ
related_to category xrefs = elim (get category xrefs) [ none ↦ [] | some related ↦ related ]

-- The inner loop of `computeXref`.
unfoldable pub relate : List Text → Object Text ℕ → Object Text ℕ
relate [] related = related
relate (cat2 ∷ categories) related =
    relate categories (if contains (keys related) cat2 then related else put cat2 1 related)

-- The loop over the categories of one agent.
unfoldable pub relate_each : (todo categories : List Text) → Xrefs → Xrefs
unfolding related_to relate
relate_each [] categories ret = ret
relate_each (cat ∷ todo) categories ret =
    relate_each todo categories (put cat (relate categories (related_to cat ret)) ret)

-- The loop over the agents; `none` is one without "istatd_categories".
unfoldable pub relate_agents : List (Option Text) → Xrefs → Xrefs
unfolding relate_each
relate_agents [] ret = ret
relate_agents (none ∷ agents) ret = relate_agents agents ret
relate_agents (some istatd_categories ∷ agents) ret =
    let categories = split b',' istatd_categories in
    relate_agents agents (relate_each categories categories ret)

-- A text of digits, read as a number.
unfoldable pub index_value : ℕ → Text → Option ℕ
index_value acc [] = some acc
index_value acc (c ∷ s) =
    let rest = index_value (acc * 10 + (c - 48)) s in if leb 48 c && leb c 57 then rest else none

-- Whether a key is an index of an array.
unfoldable pub is_array_index : Text → Bool
unfolding index_value
is_array_index key = elim (index_value 0 key) [
  | none ↦ false
  | some n ↦ ltb n (2 ^ 32 - 1) && text_eq (show n) key
]

unfoldable pub count_indices : Object Text ℕ → ℕ
unfolding is_array_index
count_indices [] = 0
count_indices ((k, v) ∷ related) =
    let rest = count_indices related in if is_array_index k then rest + 1 else rest

unfoldable pub non_indices : Object Text ℕ → Object Text ℕ
unfolding is_array_index
non_indices [] = []
non_indices ((k, v) ∷ related) =
    let rest = non_indices related in if is_array_index k then rest else (k, v) ∷ rest

-- So many elements from this index on, before other keys.
unfoldable pub indices : (count from : ℕ) → Object Text ℕ → Object Text ℕ
indices zero from others = others
indices (suc count) from others = (show from, 1) ∷ indices count (from + 1) others

-- `ret[k].sort()`: the elements of the array, all of them 1, move to the first indices, and the other keys stay.
unfoldable pub sort_array : Object Text ℕ → Object Text ℕ
unfolding count_indices non_indices indices
sort_array related = indices (count_indices related) 0 (non_indices related)

-- `delete ret[k][k]`, and the sort.
unfoldable pub without_self : Xrefs → Xrefs
unfolding sort_array
without_self [] = []
without_self ((k, related) ∷ ret) = (k, sort_array (del k related)) ∷ without_self ret

unfoldable pub compute_xref : List (Option Text) → Xrefs
unfolding relate_agents without_self
compute_xref agents = without_self (relate_agents agents [])

-- `all_counters[path] = 1` for the paths of a list, and of all graphs.
unfoldable note_paths : List Text → Object Text ℕ → Object Text ℕ
note_paths [] all_counters = all_counters
note_paths (path ∷ series) all_counters = note_paths series (put path 1 all_counters)

unfoldable note_graphs : Grid → List ℕ → Object Text ℕ → Object Text ℕ
unfolding note_paths
note_graphs g [] all_counters = all_counters
note_graphs g (id ∷ ids) all_counters =
    note_graphs g ids (note_paths (get_series (g.surfaces id)) all_counters)

-- `counter.substr(-1 * category.length) == category`; `substr(-0)` is the whole text.
unfoldable pub ends_with : (counter category : Text) → Bool
ends_with counter category =
    if length category == 0
    then text_eq counter category
    else text_eq (drop (length counter - length category) counter) category

unfoldable pub ends_any : List Text → Text → Bool
unfolding ends_with
ends_any [] category = false
ends_any (counter ∷ counters) category = ends_with counter category || ends_any counters category

-- `Array.prototype.sort` of texts.
module _ (sort : List Text → List Text) where
  unfoldable pub get_graphed_counters : Grid → List Text
  unfolding note_graphs
  get_graphed_counters g = sort (keys (note_graphs g g.all_graphs []))

  unfoldable pub options_from : List Text → List Text → List Text
  unfolding ends_any
  options_from graphed [] = []
  options_from graphed (category ∷ categories) =
      let rest = options_from graphed categories in
      if ends_any graphed category then category ∷ rest else rest

  -- The options that `populateXrefFrom` adds to the list.
  unfoldable pub populate_xref_from : Xrefs → Grid → List Text
  unfolding options_from
  populate_xref_from xrefs g = options_from (get_graphed_counters g) (keys xrefs)

  -- The options behind the first one that `populateXrefTo` leaves.
  unfoldable pub populate_xref_to : Xrefs → (selected : Text) → List Text
  populate_xref_to xrefs xref_from_selected = sort (keys (related_to xref_from_selected xrefs))

-- The handler of the dialog's buttons.
pub data Button : Type 0 where
  change : Button
  add : Button

module _ {D : Type 0} (b : Browser) where
  unfoldable add_each : Text → List Text → Op D
  add_each xref_from [] p = (p, [])
  add_each xref_from (to ∷ selected) p =
      (add_counters b (xref_from ++ b':' ∷ to) >> add_each xref_from selected) p

  -- `selected` are the options of the second list that are selected. A list with no option selected has no text
  -- to read, which is an exception.
  unfoldable pub on_button : Button → (xref_from : Option Text) → (selected : List Text) → Op D
  unfolding add_each
  on_button button none selected p = (p, Output.fault ∷ [])
  on_button Button.change (some xref_from) [] p = (p, Output.fault ∷ [])
  on_button Button.change (some xref_from) (to ∷ _) p =
      change_counters b (xref_from ++ b':' ∷ to) false p
  on_button Button.add (some xref_from) selected p = add_each xref_from selected p
