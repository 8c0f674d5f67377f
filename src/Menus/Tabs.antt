-- ===== src/Menus/Tabs.antt =====
-- The tabs on the left of the page of files/graph.js: `TabCollection`, `toggle_lefttab_visibility` and
-- `HSplitter`. `upper` is `toUpperCase` of one character.
pub mod Labels
mod Panel
use istatd.Prelude.{
  ℕ, zero, suc, Bool, true, false, not, Option, none, some, List, [], ◌∷◌, ◌++◌, Text, ◌==◌,
  if◌then◌else◌, map,
}
use istatd.Prelude.Int.{ℤ, pos, negsuc, ◌-ℤ◌}
use istatd.Prelude.Words.{codes}

-- An element with the class "tab", and its label.
pub record Tab : Type 0 where
  pub id : Text
  pub is_active : Bool

pub record Label : Type 0 where
  pub text : Text
  pub is_active : Bool

pub record TabCollection : Type 0 where
  pub tabs : List Tab
  pub labels : List Label

unfoldable pub label_of : (upper : ℕ → Text) → Tab → Label
label_of upper tab = record {
  text = elim tab.id [ [] ↦ [] | c ∷ s ↦ upper c ++ s ];
  is_active = tab.is_active;
}

unfoldable pub rebuild_tabs : (upper : ℕ → Text) → TabCollection → TabCollection
unfolding label_of
rebuild_tabs upper c = record c { labels = map (label_of upper) c.tabs }

abbrev pub inactive_tab : Tab → Tab
inactive_tab t = record t { is_active = false }

abbrev pub inactive_label : Label → Label
inactive_label t = record t { is_active = false }

-- `addClass('active')` on the element at this place.
unfoldable pub add_tab : ℕ → List Tab → List Tab
add_tab i [] = []
add_tab zero (t ∷ ts) = record t { is_active = true } ∷ ts
add_tab (suc i) (t ∷ ts) = t ∷ add_tab i ts

unfoldable pub add_label : ℕ → List Label → List Label
add_label i [] = []
add_label zero (t ∷ ts) = record t { is_active = true } ∷ ts
add_label (suc i) (t ∷ ts) = t ∷ add_label i ts

-- The click on a label: the class is taken from all, and given to this label and its tab.
unfoldable pub on_label : ℕ → TabCollection → TabCollection
unfolding add_tab add_label
on_label i c = record {
  tabs = add_tab i (map inactive_tab c.tabs);
  labels = add_label i (map inactive_label c.labels);
}

-- One click after another.
unfoldable pub clicks : List ℕ → TabCollection → TabCollection
unfolding on_label
clicks [] c = c
clicks (i ∷ is) c = clicks is (on_label i c)

-- The panel with the tabs, and the width that `toggle_lefttab_visibility` keeps. Its other elements are closed
-- together with it.
pub record LeftTab : Type 0 where
  pub width : Text
  pub closed : Bool
  pub old_element_width : Text
  pub dragging : Bool

unfoldable pub toggle_lefttab_visibility : LeftTab → LeftTab
toggle_lefttab_visibility t =
    if t.closed
    then record t { width = t.old_element_width; closed = false }
    else record t { old_element_width = t.width; width = codes "0px"; closed = true }

pub data Mouse : Type 0 where
  down up : Mouse
  move : (page_x : ℤ) → Mouse

-- `set_width` is jQuery's `width`, from the width before.
unfoldable pub on_mouse : (set_width : ℤ → Text → Text) → Mouse → LeftTab → LeftTab
on_mouse set_width down t = record t { dragging = true }
on_mouse set_width up t = record t { dragging = false }
on_mouse set_width (move (negsuc x)) t = t
on_mouse set_width (move (pos x)) t =
    if t.dragging then record t { width = set_width (pos x -ℤ pos 16) t.width } else t

unfoldable pub mice : (set_width : ℤ → Text → Text) → List Mouse → LeftTab → LeftTab
unfolding on_mouse
mice set_width [] t = t
mice set_width (m ∷ ms) t = mice set_width ms (on_mouse set_width m t)
