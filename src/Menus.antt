-- ===== src/Menus.antt =====
-- The menus of files/graph.js: `IstatdDropdownView` with `UserLogoutView`, `ChartSizeView` and
-- `AdvancedToolsView`. The marks on the entries are left out.
mod Pressed
pub mod Login
pub mod Tabs
pub mod Boxes
mod Tests
use istatd.Prelude.{
  ℕ, Bool, true, false, not, ◌&&◌, Option, none, some, List, [], ◌∷◌, ◌++◌, Text, text_eq,
  get_elem?, if◌then◌else◌, ◌>>=◌,
}
use istatd.Prelude.Words.{codes}
use istatd.Page.{Page, Size}
use istatd.Page.Dashboard.{graph_size}
use istatd.Bookmark.{packup_state_as_hash}
use istatd.Users.{Session, View, get_logged_in_user, logout}
use istatd.Dialog.{Dialogs, Ask, open_dialog}
use istatd.Dialog.Callbacks.{Call, App, size_custom, regexp_change, regexp_add, ask_daterange}

pub data Menu : Type 0 where
  user chart_size advanced_tools : Menu

-- What the actions of the entries call.
pub data Action : Type 0 where
  to_size : Size → Action
  ask : Ask Call → Action
  xref_change bookmark log_out : Action

-- `items`
unfoldable pub items : Menu → List (Text × Action)
items user = (codes "Logout", log_out) ∷ []
items chart_size =
    (codes "Small (300x120)", to_size (record { width = 300; height = 120 }))
    ∷ (codes "Medium (600x240)", to_size (record { width = 600; height = 240 }))
    ∷ (codes "Large (800x480)", to_size (record { width = 800; height = 480 }))
    ∷ (codes "Custom...", ask size_custom)
    ∷ []
items advanced_tools =
    (codes "Regex/Replace...", ask regexp_change)
    ∷ (codes "Regex/Add...", ask regexp_add)
    ∷ (codes "Cross-reference Counters...", xref_change)
    ∷ (codes "Manual Date Range...", ask ask_daterange)
    ∷ (codes "Create Bookmark URL", bookmark)
    ∷ []

-- `label`; null is written out.
unfoldable pub label : Menu → Session → Text
unfolding get_logged_in_user
label user s =
    codes "User: " ++ elim (get_logged_in_user s) [ none ↦ codes "null" | some name ↦ name ]
label chart_size s = codes "Chart Size"
label advanced_tools s = codes "Advanced Tools"

-- `_.findWhere(this.items, {item: item})`
unfoldable pub find_where : Text → List (Text × Action) → Option Action
find_where item [] = none
find_where item ((text, action) ∷ definitions) =
    if text_eq text item then some action else find_where item definitions

-- Which menus have the class "open".
pub record Opened : Type 0 where
  pub user : Bool
  pub chart_size : Bool
  pub advanced_tools : Bool

-- The page with its menus. `went` holds the hashes that were set, `views` what the users' model asks for, and
-- `xref` is whether the dialog for cross references, which takes the place of another, was the last to open.
pub record Desk (D : Type 0) : Type 0 where
  pub opened : Opened
  pub dialogs : Dialogs Call
  pub xref : Bool
  pub app : App D
  pub session : Session
  pub went : List Text
  pub views : List View

-- `toggleClass('open')`
unfoldable pub toggle_class : Menu → Opened → Opened
toggle_class user o = record o { user = not o.user }
toggle_class chart_size o = record o { chart_size = not o.chart_size }
toggle_class advanced_tools o = record o { advanced_tools = not o.advanced_tools }

-- Each menu closes when a button of the mouse goes up somewhere on the page.
unfoldable pub close_all : Opened
close_all = record { user = false; chart_size = false; advanced_tools = false }

module _ {D : Type 0} where
  -- The action of the entry at this place.
  unfoldable pub perform : Action → (index : ℕ) → Desk D → Desk D
  unfolding open_dialog logout graph_size
  perform (to_size size) index k = record k {
    app = record k.app { page = graph_size size (some index) k.app.page };
  }
  perform (ask question) index k = record k {
    dialogs = open_dialog question k.dialogs;
    xref = false;
  }
  perform xref_change index k = record k {
    dialogs = record k.dialogs { shown = none };
    xref = true;
  }
  perform bookmark index k = record k { went = k.went ++ packup_state_as_hash k.app.page ∷ [] }
  perform log_out index k =
      let (s, views) = logout k.session in record k { session = s; views = k.views ++ views }

  -- The click on an entry; none is an exception. It does not reach the menu.
  unfoldable pub do_action : Menu → (index : ℕ) → Desk D → Option (Desk D)
  unfolding items find_where perform
  do_action menu index k = do
    (text, _) ← get_elem? (items menu) index
    action ← find_where text (items menu)
    some (perform action index k)

-- Where the user presses and lets go: an entry is one that the menu has.
pub data Press : Type 0 where
  elsewhere : Press
  on_label : Menu → Press
  on_item : Menu → ℕ → Press

module _ {D : Type 0} where
  -- The button goes up, and then comes the click.
  unfoldable pub press : Press → Desk D → Option (Desk D)
  unfolding close_all toggle_class do_action
  press p k =
      let closed = record k { opened = close_all } in
      elim p [
        | elsewhere ↦ some closed
        | on_label menu ↦ some (record closed { opened = toggle_class menu closed.opened })
        | on_item menu index ↦ do_action menu index closed
      ]

  unfoldable pub presses : List Press → Desk D → Option (Desk D)
  unfolding press
  presses [] k = some k
  presses (p ∷ ps) k = do k' ← press p k; presses ps k'
