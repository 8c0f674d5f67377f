-- ===== src/Menus/Login.antt =====
-- The login form of files/graph.js: `UserLoginView`. A text that is typed goes behind what stands in the input;
-- an input is emptied whenever it gets the focus.
pub mod Typed
use istatd.Prelude.{Bool, true, false, Option, none, some, List, [], ◌∷◌, ◌++◌, Text, if◌then◌else◌}
use istatd.Prelude.Words.{codes}
use istatd.Users
use istatd.Users.{Session, View}

pub data Input : Type 0 where
  login_name login_password : Input

pub record Login : Type 0 where
  pub username : Text
  pub password : Text
  pub focus : Option Input

unfoldable pub new : Login
new = record { username = codes "Username"; password = []; focus = none }

-- `button` is a click on the button, and `away` one beside the form.
pub data Event : Type 0 where
  click : Input → Event
  typed : Text → Event
  enter button away : Event

abbrev pub same_input : Input → Input → Bool
same_input login_name login_name = true
same_input login_password login_password = true
same_input _ _ = false

-- `input_focus`
unfoldable pub input_focus : Input → Login → Login
input_focus login_name l = record l { username = [] }
input_focus login_password l = record l { password = [] }

-- `focus()` says so where the input does not have the focus.
unfoldable pub focus_on : Input → Login → Login
unfolding input_focus
focus_on input l =
    let focused = record (input_focus input l) { focus = some input } in
    elim l.focus [ none ↦ focused | some other ↦ if same_input other input then l else focused ]

unfoldable pub type_in : Option Input → Text → Login → Login
type_in none text l = l
type_in (some login_name) text l = record l { username = l.username ++ text }
type_in (some login_password) text l = record l { password = l.password ++ text }

-- A call of the model's `login`, with the name and the password.
abbrev pub Called : Type 0
Called = Option (Text × Text)

-- `input_keydown` for the enter key, where the focus is.
unfoldable pub input_keydown : Option Input → Login → Login × Called
unfolding focus_on
input_keydown none l = (l, none)
input_keydown (some login_name) l = (focus_on login_password l, none)
input_keydown (some login_password) l = (record l { focus = none }, some (l.username, l.password))

unfoldable pub on_event : Event → Login → Login × Called
unfolding focus_on type_in input_keydown
on_event (click input) l = (focus_on input l, none)
on_event (typed text) l = (type_in l.focus text l, none)
on_event enter l = input_keydown l.focus l
on_event button l = (record l { focus = none }, some (l.username, l.password))
on_event away l = (record l { focus = none }, none)

module _ (hash : Text → Text) where
  -- The form with the model: a call of `login` changes it, and asks for views.
  unfoldable pub step : Event → Login × Session → (Login × Session) × List View
  unfolding on_event
  step e (l, s) =
      let (l', called) = on_event e l in
      elim called [
        | none ↦ ((l', s), [])
        | some (username, password) ↦
            let (s', views) = Users.login hash username password false s in ((l', s'), views)
      ]

  unfoldable pub run : List Event → Login × Session → (Login × Session) × List View
  unfolding step
  run [] k = (k, [])
  run (e ∷ es) k =
      let (k', views) = step e k in let (last, more) = run es k' in (last, views ++ more)
