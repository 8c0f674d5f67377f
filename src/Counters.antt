-- ===== src/Counters.antt =====
-- Changing the counters of all graphs at once, `change_counters` of files/graph.js, which the dialogs
-- for a match and a substitution and for cross references call.
mod Changing
mod Graphs
mod Tests
use istatd.Prelude.{
  ℕ, Bool, true, false, ◌&&◌, Option, none, some, List, [], ◌∷◌, ◌++◌, Text, text_eq,
  text_eq_instance, ◌==◌, if◌then◌else◌, contains,
}
use istatd.Prelude.Words.{codes, split}
use istatd.Surface.{toggle, get_series}
use istatd.Page.{Page, Browser, Op, ◌>>◌, reload, toggle_series}

-- The rest of a text after a prefix.
unfoldable pub strip : Text → Text → Option Text
strip [] s = some s
strip (c ∷ prefix) [] = none
strip (c ∷ prefix) (x ∷ s) = if c == x then strip prefix s else none

-- What stands before and after the first occurrence of a text, as `indexOf` finds it.
unfoldable pub find : Text → Text → Option (Text × Text)
unfolding strip
find word [] = elim (strip word []) [ none ↦ none | some rest ↦ some ([], rest) ]
find word (x ∷ s) = elim (strip word (x ∷ s)) [
  | some rest ↦ some ([], rest)
  | none ↦ elim (find word s) [ none ↦ none | some (before, rest) ↦ some (x ∷ before, rest) ]
]

-- The replacement of `replace`: "$$", "$&", "$`" and "$'" stand for '$', the match, what is before it and
-- what is after it.
unfoldable pub expand : (before word after : Text) → Text → Text
expand before word after [] = []
expand before word after (x ∷ []) = x ∷ []
expand before word after (x ∷ y ∷ s) =
    let rest = expand before word after s in
    let plain = x ∷ expand before word after (y ∷ s) in
    if x == b'$'
    then (if y == b'$'
        then b'$' ∷ rest
        else (if y == b'&'
            then word ++ rest
            else (if y == 96 then before ++ rest else (if y == 39 then after ++ rest else plain))))
    else plain

-- `path.replace(from, to)`; `none` where `path.indexOf(from) < 0`.
unfoldable pub replaced : (from to : Text) → Text → Option Text
unfolding find expand
replaced from to path = elim (find from path) [
  | none ↦ none
  | some (before, after) ↦ some (before ++ (expand before from after to ++ after))
]

-- `from_to.split(":", 2)`; a missing substitution is `undefined`, which `replace` reads as a text.
unfoldable pub from_of : List Text → Text
from_of [] = []
from_of (from ∷ _) = from

unfoldable pub to_of : List Text → Text
to_of (from ∷ to ∷ _) = to
to_of _ = codes "undefined"

module _ (change : Text → Option Text) (keep : Bool) where
  -- The loop over the paths of a graph, as they were when it began; those that are gone by then are
  -- passed over, and those that come on the way are not visited. `change` is the replacement.
  unfoldable pub change_each : (paths series : List Text) → List Text
  change_each [] series = series
  change_each (path ∷ paths) series =
      if contains series path
      then (elim (change path) [
        | none ↦ change_each paths series
        | some new_path ↦
            change_each paths
              (if keep then toggle new_path series else toggle path (toggle new_path series))
      ])
      else change_each paths series

module _ {D : Type 0} (b : Browser) (change : Text → Option Text) (keep : Bool) where
  -- One round for a path that is there.
  unfoldable pub change_path : ℕ → (path new_path : Text) → Op D
  change_path id path new_path =
      if keep
      then toggle_series b new_path id
      else (toggle_series b new_path id >> toggle_series b path id)

  unfoldable pub change_paths : ℕ → List Text → Op D
  unfolding change_path
  change_paths id [] p = (p, [])
  change_paths id (path ∷ paths) p =
      if contains (get_series (p.grid.surfaces id)) path
      then (elim (change path) [
        | none ↦ change_paths id paths p
        | some new_path ↦ (change_path id path new_path >> change_paths id paths) p
      ])
      else change_paths id paths p

  unfoldable pub change_graphs : List ℕ → Op D
  unfolding change_paths
  change_graphs [] p = (p, [])
  change_graphs (id ∷ ids) p =
      (do change_paths id (get_series (p.grid.surfaces id)); reload b id; change_graphs ids) p

module _ {D : Type 0} (b : Browser) where
  unfoldable pub change_counters : (from_to : Text) (keep : Bool) → Op D
  unfolding change_graphs replaced from_of to_of
  change_counters from_to keep p =
      let ft = split b':' from_to in
      change_graphs b (replaced (from_of ft) (to_of ft)) keep p.grid.all_graphs p

  -- The dialog's callback for adding.
  unfoldable pub add_counters : Text → Op D
  unfolding change_counters
  add_counters match_add = change_counters match_add true
