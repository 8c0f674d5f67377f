-- ===== src/Dialog/Asking.antt =====
-- What the dialogs for a graph size and for the name of a dashboard come to.
use istatd.Prelude.{
  ℕ, ◌≡◌, ◌≤◌, ◌<◌, ◌+◌, ◌⊎◌, refl, ap, ◌∙◌, arith, true, false, Option, none, some, List, [], ◌∷◌,
  ◌++◌, Text, text_eq, text_eq_instance, contains, if◌then◌else◌, inl, inr, Bool-cases, append-nil,
  ==_iff,
}
use istatd.Prelude.Object.{Object, get}
use istatd.Dates.{Date}
use istatd.Page.{Page, Browser}
use istatd.Page.Dashboard.{Dashboard, get_dashboard}
use istatd.Settings.{Save, confirm, save, save_dashboard_named, on_choice, is_name}
use istatd.Sizing.{size_set_custom}
use istatd.Sizing.Accepted.{IsBounded, size_set_custom-IsBounded}
use istatd.DateInput.Calendar.{Local}
use istatd.Dialog.{
  prompt, Dialog, Dialogs, Event, submit, pick, answer, step, on_submit, on_pick, remove, open_next,
  open_dialog, said_else, said_false, threw,
}
use istatd.Dialog.Callbacks.{
  Call, custom_size, save_as, error, saved, App, react, value_at, with_message, on_save, logged,
  ask_overwrite,
}

-- A dialog with one input is shown.
abbrev pub prompting : Call → (id next : ℕ) (html : Text) (values : Object Text Text) → Dialogs Call
prompting call id next html values = record {
  shown = some (record { id = id; html = html; form = prompt call; values = values });
  next = next;
}

-- The dialog for the name of a dashboard, with this name in it.
abbrev pub naming : (id next : ℕ) (html name : Text) → Dialogs Call
naming id next html name = prompting save_as id next html ((answer, name) ∷ [])

-- The question whether to overwrite, in the place of the dialog for the name.
abbrev pub questioned : (id next : ℕ) (html name : Text) → Dashboard → Dialogs Call
questioned id next html name dash = open_dialog (ask_overwrite name dash) (naming id next html name)

module _ (D : Type 0) (b : Browser) (stringify : Dashboard → Text) (now : Local)
    (get_time : Local → Date) where
  abbrev pub act : Event → Dialogs Call × App D → Dialogs Call × App D
  act = step (react {D = D} b stringify now get_time)

  -- The dialog is gone and the size is within its bounds; or the dialog is as before, the page too, and there
  -- is a message.
  abbrev pub Sized : Dialogs Call × App D → Dialogs Call × App D → Type 0
  Sized s s' =
      ((s'.0.shown ≡ none)
        × (s'.1.log ≡ s.1.log)
        × (w : ℕ) × (h : ℕ) × (10 ≤ w)
        × (w ≤ 4000)
        × (10 ≤ h)
        × (h ≤ 2000)
        × (s'.1.page ≡ record s.1.page { size = record { width = w; height = h } }))
      ⊎ ((s'.0 ≡ s.0) × (s'.1.page ≡ s.1.page) × (m : Text) × (s'.1.log ≡ s.1.log ++ error m ∷ []))

  -- What the handler makes of the answer of `size_setCustom`.
  abbrev answered : Dialog Call → ℕ → App D → Page × Option Text → Dialogs Call × App D
  answered d next a (p, m) =
      let r = with_message {D = D} ((p, []), m) a in
      let ds : Dialogs Call = open_next r.opened (record { shown = some d; next = next }) in
      (
        elim r.ending as (λ _. Dialogs Call) [
          | said_else ↦ remove d.id ds
          | said_false ↦ ds
          | threw ↦ ds
        ],
        r.state,
      )

  answered-Sized :
      (d : Dialog Call) (next : ℕ) (a : App D) (r : Page × Option Text)
      → IsBounded a.page r
      → Sized (record { shown = some d; next = next }, a) (answered d next a r)
  unfolding with_message open_next remove
  answered-Sized d next a (p, none) (w, h, w1, w2, h1, h2, e) =
      inl (ground (arith, ==_iff d.id d.id), append-nil a.log, w, h, w1, w2, h1, h2, e)
  answered-Sized d next a (p, some m) e = inr (refl, e, m, refl)

  -- Whatever was typed into the dialog for a graph size, its button ends in one of two ways: the dialog is
  -- gone, the graphs have a size from 10x10 to 4000x2000, and nothing else of the page changed; or the dialog
  -- stays as it is, the page too, and there is one message.
  pub submit-Sized :
      (id next : ℕ) (html : Text) (values : Object Text Text) (a : App D)
      → Sized
          (prompting custom_size id next html values, a)
          (act submit (prompting custom_size id next html values, a))
  unfolding step react on_submit
  submit-Sized id next html values a =
      answered-Sized (record { id = id; html = html; form = prompt custom_size; values = values })
        next a (size_set_custom (value_at answer values) a.page)
        (size_set_custom-IsBounded (value_at answer values) a.page)

  -- What the handler makes of the answer of `save_dashboard_named`.
  abbrev answered_save :
      (id next : ℕ) (html name : Text) → Dashboard → App D → Save → Dialogs Call × App D
  answered_save id next html name dash a sv =
      let r = on_save {D = D} sv dash a in
      let ds : Dialogs Call = open_next r.opened (naming id next html name) in
      (
        elim r.ending as (λ _. Dialogs Call) [
          | said_else ↦ remove id ds
          | said_false ↦ ds
          | threw ↦ ds
        ],
        r.state,
      )

  submit-naming :
      (id next : ℕ) (html name : Text) (a : App D)
      → act submit (naming id next html name, a)
        ≡ answered_save id next html name
            (get_dashboard a.page)
            a
            (save_dashboard_named stringify a.user_name a.names name (get_dashboard a.page))
  unfolding step react get text_eq
  submit-naming id next html name a = refl

  -- What saving comes to for a user who is logged in, and a proper name.
  save_dashboard_named-user :
      (user name : Text) (names : List Text) (dash : Dashboard)
      → text_eq user [] ≡ false
      → text_eq name [] ≡ false
      → is_name name ≡ true
      → save_dashboard_named stringify (some user) names name dash
        ≡ (if contains names name then confirm name else save stringify user name dash)
  unfolding save_dashboard_named text_eq
  save_dashboard_named-user user [] names dash h k n = cc
  save_dashboard_named-user user (c ∷ s) names dash h k n = rw (n, h) refl

  module _ (id next : ℕ) (html user name : Text) (a : App D) (older : id < next)
      (logged_in : a.user_name ≡ some user) (some_user : text_eq user [] ≡ false)
      (some_name : text_eq name [] ≡ false) (proper : is_name name ≡ true) where
    abbrev dash : Dashboard
    dash = get_dashboard a.page

    named :
        save_dashboard_named stringify a.user_name a.names name dash
        ≡ (if contains a.names name then confirm name else save stringify user name dash)
    named =
        ap (λ u. save_dashboard_named stringify u a.names name dash) logged_in
        ∙ save_dashboard_named-user user name a.names dash some_user some_name proper

    submit-new :
        contains a.names name ≡ false
        → act submit (naming id next html name, a) ≡ (
          record { shown = none; next = next },
          logged (saved (save stringify user name dash) ∷ []) a,
        )
    unfolding open_next remove on_save save
    submit-new fresh =
        submit-naming id next html name a
        ∙ ap (answered_save id next html name dash a)
            (named ∙ ap (λ k. if k then confirm name else save stringify user name dash) fresh)
        ∙ ground (arith, ==_iff id id)

    submit-known :
        contains a.names name ≡ true
        → act submit (naming id next html name, a) ≡ ((questioned id next html name dash), a)
    unfolding open_next remove on_save open_dialog
    submit-known known =
        submit-naming id next html name a
        ∙ ap (answered_save id next html name dash a)
            (named ∙ ap (λ k. if k then confirm name else save stringify user name dash) known)
        ∙ ground (arith, ==_iff next id)

    pick-save : act (pick 0) ((questioned id next html name dash), a) ≡ (
      record { shown = none; next = next + 1 },
      logged (saved (save stringify user name dash) ∷ []) a,
    )
    unfolding step react get text_eq ask_overwrite on_pick open_dialog on_choice remove open_next
    pick-save = ground (arith, ==_iff next next)

    pick-cancel :
        (act (pick 1) ((questioned id next html name dash), a))
        ≡ (record { shown = none; next = next + 1 }, a)
    unfolding step react get text_eq ask_overwrite on_pick open_dialog on_choice remove open_next
    pick-cancel = ground (arith, ==_iff next next, append-nil a.log)

    -- A user who is logged in answers the dialog for the name of a dashboard with a proper name. If the list of
    -- dashboards does not have the name, the dashboard is saved and no dialog is left. If it has, nothing is
    -- saved and a question takes the dialog's place; then "Save" saves the dashboard, once, and "Cancel" leaves
    -- everything as it was. The dialog is older than the next one.
    pub submit-Saves :
        (act submit (naming id next html name, a) ≡ (
          if contains a.names name then ((questioned id next html name dash), a) else (
            record { shown = none; next = next },
            logged (saved (save stringify user name dash) ∷ []) a,
          )))
        × (act (pick 0) ((questioned id next html name dash), a) ≡ (
          record { shown = none; next = next + 1 },
          logged (saved (save stringify user name dash) ∷ []) a,
        ))
        × (act (pick 1) ((questioned id next html name dash), a)
            ≡ (record { shown = none; next = next + 1 }, a))
    submit-Saves = elim (Bool-cases (contains a.names name)) [
      | inl known ↦ (submit-known known ∙ rw known refl, pick-save, pick-cancel)
      | inr fresh ↦ (submit-new fresh ∙ rw fresh refl, pick-save, pick-cancel)
    ]
