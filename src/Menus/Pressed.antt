-- ===== src/Menus/Pressed.antt =====
-- Which menu is open, and what the entries do.
use istatd.Prelude.{
  zero, suc, ℕ, ◌<◌, ◌≡◌, refl, ap, ◌∙◌, arith, Bool, true, false, some, List, [], ◌∷◌, ◌++◌, Text,
  text_eq, length, get_elem?, All,
}
use istatd.Menus.{
  Menu, user, chart_size, advanced_tools, Action, to_size, ask, xref_change, bookmark, log_out,
  items, find_where, Opened, Desk, toggle_class, close_all, perform, do_action, Press, elsewhere,
  on_label, on_item, press, presses,
}

abbrev pub is_open : Menu → Opened → Bool
is_open user o = o.user
is_open chart_size o = o.chart_size
is_open advanced_tools o = o.advanced_tools

abbrev pub same_menu : Menu → Menu → Bool
same_menu user user = true
same_menu chart_size chart_size = true
same_menu advanced_tools advanced_tools = true
same_menu _ _ = false

-- The press is on the label of this menu.
abbrev pub is_label_of : Menu → Press → Bool
is_label_of menu (on_label other) = same_menu other menu
is_label_of menu _ = false

-- An entry that is pressed is one of the menu's.
abbrev pub IsOnPage : Press → Type 0
IsOnPage (on_item menu index) = index < length (items menu)
IsOnPage _ = true ≡ true

is_open-closed : (menu : Menu) → is_open menu close_all ≡ false
unfolding close_all
is_open-closed user = refl
is_open-closed chart_size = refl
is_open-closed advanced_tools = refl

is_open-label :
    (pressed menu : Menu) → is_open menu (toggle_class pressed close_all) ≡ same_menu pressed menu
unfolding close_all toggle_class
is_open-label user user = refl
is_open-label user chart_size = refl
is_open-label user advanced_tools = refl
is_open-label chart_size user = refl
is_open-label chart_size chart_size = refl
is_open-label chart_size advanced_tools = refl
is_open-label advanced_tools user = refl
is_open-label advanced_tools chart_size = refl
is_open-label advanced_tools advanced_tools = refl

module _ {D : Type 0} where
  -- An entry is found again by its text.
  do_action_lem :
      (menu : Menu) (index : ℕ)
      → index < length (items menu)
      → (text : Text) × (action : Action) × (get_elem? (items menu) index ≡ some (text, action))
        × ((k : Desk D) → do_action menu index k ≡ some (perform action index k))
  unfolding items do_action find_where text_eq
  do_action_lem user zero h = (_, _, refl, λ k. refl)
  do_action_lem user (suc i) h = absurd (omega arith)
  do_action_lem chart_size zero h = (_, _, refl, λ k. refl)
  do_action_lem chart_size (suc zero) h = (_, _, refl, λ k. refl)
  do_action_lem chart_size (suc (suc zero)) h = (_, _, refl, λ k. refl)
  do_action_lem chart_size (suc (suc (suc zero))) h = (_, _, refl, λ k. refl)
  do_action_lem chart_size (suc (suc (suc (suc i)))) h = absurd (omega arith)
  do_action_lem advanced_tools zero h = (_, _, refl, λ k. refl)
  do_action_lem advanced_tools (suc zero) h = (_, _, refl, λ k. refl)
  do_action_lem advanced_tools (suc (suc zero)) h = (_, _, refl, λ k. refl)
  do_action_lem advanced_tools (suc (suc (suc zero))) h = (_, _, refl, λ k. refl)
  do_action_lem advanced_tools (suc (suc (suc (suc zero)))) h = (_, _, refl, λ k. refl)
  do_action_lem advanced_tools (suc (suc (suc (suc (suc i))))) h = absurd (omega arith)

  opened-perform :
      (action : Action) (index : ℕ) (k : Desk D) → (perform action index k).opened ≡ k.opened
  unfolding perform
  opened-perform (to_size size) index k = refl
  opened-perform (ask question) index k = refl
  opened-perform xref_change index k = refl
  opened-perform bookmark index k = refl
  opened-perform log_out index k = refl

  press-Opens :
      (p : Press) (k : Desk D)
      → IsOnPage p
      → (k' : Desk D) × (press p k ≡ some k')
        × ((menu : Menu) → is_open menu k'.opened ≡ is_label_of menu p)
  unfolding press
  press-Opens elsewhere k h = (_, refl, is_open-closed)
  press-Opens (on_label pressed) k h = (_, refl, is_open-label pressed)
  press-Opens (on_item pressed index) k h =
      let (text, action, entry, done) = do_action_lem pressed index h in
      let closed = record k { opened = close_all } in
      (
        perform action index closed,
        done closed,
        λ menu. ap (is_open menu) (opened-perform action index closed) ∙ is_open-closed menu,
      )

  -- However the user presses on entries, labels and elsewhere, every entry is found; and after the last press a
  -- menu is open exactly where that was on its label, be it open before or not.
  pub presses-Opens :
      (ps : List Press) (p : Press) (k : Desk D) (menu : Menu)
      → All IsOnPage ps
      → IsOnPage p
      → (k' : Desk D) × (presses (ps ++ p ∷ []) k ≡ some k')
        × (is_open menu k'.opened ≡ is_label_of menu p)
  unfolding presses
  presses-Opens [] p k menu hs h =
      let (k', pressed, opens) = press-Opens p k h in (k', rw pressed, opens menu)
  presses-Opens (q ∷ ps) p k menu hs h =
      let (k', pressed, opens) = press-Opens q k hs.0 in
      let (last, pressed_all, opens_last) = presses-Opens ps p k' menu hs.1 h in
      (last, rw pressed pressed_all, opens_last)
