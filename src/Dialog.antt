-- ===== src/Dialog.antt =====
-- The dialogs of files/graph.js that ask for something: `promptDialog`, `promptDialogN` and `choiceDialog`. A
-- new one takes the place of the one that is shown. What the callbacks do is a parameter.
pub mod Callbacks
mod Asking
pub mod Tests
use istatd.Prelude.{
  ℕ, ◌+◌, Bool, true, false, Option, none, some, List, [], ◌∷◌, Text, text_eq_instance, contains,
  get_elem?, ◌==◌, if◌then◌else◌,
}
use istatd.Prelude.Object.{Object, put}
use istatd.Prelude.Words.{codes}
use istatd.Progress.{htmlescape}

-- What stands in a dialog below its text: one input, several under names, or buttons under names. `C` stands
-- for the callbacks.
pub data Form (C : Type 0) : Type 0 where
  prompt : C → Form C
  inputs : (names : List Text) → C → Form C
  choice : (options : List Text) → C → Form C

-- `id` is the identity of the element, and `values` holds what was typed.
pub record Dialog (C : Type 0) : Type 0 where
  pub id : ℕ
  pub html : Text
  pub form : Form C
  pub values : Object Text Text

pub record Dialogs (C : Type 0) : Type 0 where
  pub shown : Option (Dialog C)
  pub next : ℕ

-- What a caller asks for, with the value that the first input begins with.
pub record Ask (C : Type 0) : Type 0 where
  pub text : Text
  pub form : Form C
  pub initial : Text

-- How a callback ends: with `false`, with another value, or with an exception.
pub data Ending : Type 0 where
  said_false said_else threw : Ending

-- What a callback comes to, with the dialog that it opens, if any.
pub record Reaction (C S : Type 0) : Type 0 where
  pub state : S
  pub opened : Option (Ask C)
  pub ending : Ending

abbrev pub answer : Text
answer = codes "answer"

module _ {C : Type 0} where
  -- The inputs begin empty, but for that of `save_dashboard`.
  unfoldable pub begin_values : Form C → Text → Object Text Text
  begin_values (prompt c) initial = (answer, initial) ∷ []
  begin_values (inputs [] c) initial = []
  begin_values (inputs (name ∷ names) c) initial =
      put name [] (begin_values (inputs names c) initial)
  begin_values (choice options c) initial = []

  unfoldable pub open_dialog : Ask C → Dialogs C → Dialogs C
  unfolding begin_values htmlescape
  open_dialog ask ds = record {
    shown = some (record {
      id = ds.next;
      html = htmlescape ask.text;
      form = ask.form;
      values = begin_values ask.form ask.initial;
    });
    next = ds.next + 1;
  }

  -- `$div.remove()`, where the dialog is still the one that is shown.
  unfoldable pub remove : ℕ → Dialogs C → Dialogs C
  remove id ds = elim ds.shown [
    | none ↦ ds
    | some d ↦ if d.id == id then record ds { shown = none } else ds
  ]

  unfoldable pub open_next : Option (Ask C) → Dialogs C → Dialogs C
  unfolding open_dialog
  open_next none ds = ds
  open_next (some ask) ds = open_dialog ask ds

-- What the user does to the dialog that is shown.
pub data Event : Type 0 where
  type_in : (name value : Text) → Event
  submit : Event
  pick : ℕ → Event
  close : Event

module _ {C S : Type 0} (react : C → Object Text Text → S → Reaction C S) where
  -- The handler of an input dialog: it stays where the callback says `false` or throws.
  unfoldable pub on_submit : Dialog C → C → Dialogs C → S → Dialogs C × S
  unfolding open_next remove
  on_submit d c ds s =
      let r = react c d.values s in
      let after = open_next r.opened ds in
      (
        elim r.ending [ said_else ↦ remove d.id after | said_false ↦ after | threw ↦ after ],
        r.state,
      )

  -- The handler of a button: the dialog goes unless the callback throws.
  unfoldable pub on_pick : Dialog C → C → Text → Dialogs C → S → Dialogs C × S
  unfolding open_next remove
  on_pick d c name ds s =
      let r = react c ((answer, name) ∷ []) s in
      let after = open_next r.opened ds in
      (
        elim r.ending [
          | threw ↦ after
          | said_else ↦ remove d.id after
          | said_false ↦ remove d.id after
        ],
        r.state,
      )

  -- An event for a dialog of this form.
  unfoldable pub on_form : Event → Form C → Dialog C → Dialogs C → S → Dialogs C × S
  unfolding on_submit on_pick remove
  on_form close form d ds s = (remove d.id ds, s)
  on_form (type_in name value) (choice options c) d ds s = (ds, s)
  on_form (type_in name value) (prompt c) d ds s =
      (record ds { shown = some (record d { values = put answer value d.values }) }, s)
  on_form (type_in name value) (inputs names c) d ds s =
      if contains names name
      then (record ds { shown = some (record d { values = put name value d.values }) }, s)
      else (ds, s)
  on_form submit (prompt c) d ds s = on_submit d c ds s
  on_form submit (inputs names c) d ds s = on_submit d c ds s
  on_form submit (choice options c) d ds s = (ds, s)
  on_form (pick i) (choice options c) d ds s = elim (get_elem? options i) [
    | none ↦ (ds, s)
    | some name ↦ on_pick d c name ds s
  ]
  on_form (pick i) _ d ds s = (ds, s)

  unfoldable pub step : Event → Dialogs C × S → Dialogs C × S
  unfolding on_form
  step e (ds, s) = elim ds.shown [ none ↦ (ds, s) | some d ↦ on_form e d.form d ds s ]

  unfoldable pub run : List Event → Dialogs C × S → Dialogs C × S
  unfolding step
  run [] s = s
  run (e ∷ es) s = run es (step e s)
