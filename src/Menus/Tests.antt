-- ===== src/Menus/Tests.antt =====
-- The menus, the login form and the clicks on a graph at concrete inputs.
use istatd.Prelude.{
  ℕ, ◌<◌, ◌≡◌, refl, arith, true, false, Option, none, some, [], ◌∷◌, Text, text_eq, length,
  if◌then◌else◌,
}
use istatd.Prelude.Words.{codes}
use istatd.Users.{Session}
use istatd.Dialog.Tests.{app}
use istatd.Menus.{chart_size, user, Desk, on_label, on_item, press, presses, items, find_where}
use istatd.Menus.Pressed.{is_open, is_label_of, presses-Opens}
use istatd.Surface.{toggle}
use istatd.Grid
use istatd.Grid.{set_series}
use istatd.Page.Tests.{browser, two_graphs}
use istatd.Menus.Boxes
use istatd.Menus.Boxes.{Board, close_box, legend_entry, element, click_on}
use istatd.Menus.Boxes.Selecting.{closes, others, click_on-Selects}
use istatd.Menus.Login
use istatd.Menus.Login.{Login, login_name, click, button, run}
use istatd.Menus.Login.Typed.{typing, calling, entered, run-typing}

abbrev nobody : Session
nobody = record { users = []; cookie = none; user_name = none }

abbrev desk : Desk ℕ
desk = record {
  opened = record { user = false; chart_size = true; advanced_tools = false };
  dialogs = record { shown = none; next = 0 };
  xref = false;
  app = app;
  session = nobody;
  went = [];
  views = [];
}

third_size : 2 < length (items chart_size)
unfolding items
third_size = omega arith

-- The label of a menu that was open, behind a click on its third entry and on another menu.
presses-Opens_example :
    (k' : Desk ℕ) × (presses (on_item chart_size 2 ∷ on_label user ∷ on_label user ∷ []) desk
      ≡ some k')
    × (is_open user k'.opened ≡ is_label_of user (on_label user))
presses-Opens_example =
    presses-Opens (on_item chart_size 2 ∷ on_label user ∷ []) (on_label user) desk user
      (third_size, (refl, tt)) refl

-- The page that a press leaves has the size of the entry, and its place.
sized : Option (Desk ℕ) → Option ℕ
sized none = none
sized (some k) = k.app.page.size_dropdown

third_size_test : sized (press (on_item chart_size 2) desk) ≡ some 2
unfolding sized press items find_where text_eq
third_size_test = refl

abbrev hash : Text → Text
hash s = s

run-typing_example :
    (run hash (typing (codes "ann") (codes "pw")) (Login.new, nobody)
      ≡ calling hash (codes "ann") (codes "pw") (entered (codes "ann") (codes "pw"), nobody))
    × (run hash (click login_name ∷ button ∷ []) (entered (codes "ann") (codes "pw"), nobody)
        ≡ calling hash [] (codes "pw") (entered [] (codes "pw"), nobody))
run-typing_example =
    run-typing hash Login.new nobody (codes "ann") (codes "pw") (unfold Login.new in refl)

abbrev board : Board
board = record {
  page = two_graphs;
  dialogs = record { shown = none; next = 0 };
  visible = λ _. false;
}

-- The first graph is closed while the second is selected; "cpu" is toggled in the first one.
click_on-Selects_example :
    ((click_on {D = ℕ} browser close_box 0 board).0.page.grid.selected
      ≡ (if closes close_box then none else some 0))
    × ((click_on {D = ℕ} browser close_box 0 board).0.page.grid.all_graphs ≡ (
        if closes close_box
        then others 0 two_graphs.grid.all_graphs
        else two_graphs.grid.all_graphs))
    × ((click_on {D = ℕ} browser
          (legend_entry (element ∷ Boxes.text (32 ∷ codes "cpu") ∷ []))
          0
          board).0.page.grid
        ≡ Grid.select 0
            (set_series 0 (toggle (codes "cpu") (codes "cpu" ∷ codes "net" ∷ [])) two_graphs.grid))
click_on-Selects_example =
    click_on-Selects ℕ browser close_box 0 board (codes "cpu") (codes "cpu" ∷ codes "net" ∷ [])
      (refl, (refl, tt)) refl refl
