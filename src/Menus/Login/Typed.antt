-- ===== src/Menus/Login/Typed.antt =====
-- What the login form hands to the model.
use istatd.Prelude.{◌≡◌, Bool, false, Option, none, some, List, [], ◌∷◌, Text, append-nil}
use istatd.Users
use istatd.Users.{Session, View}
use istatd.Menus.Login.{
  Input, login_name, login_password, Login, Event, click, typed, enter, button, same_input, run,
}

-- The form with this name and password, and no focus.
abbrev pub entered : (username password : Text) → Login
entered username password = record { username = username; password = password; focus = none }

abbrev pub has_focus : Input → Login → Bool
has_focus input l = elim l.focus [ none ↦ false | some other ↦ same_input other input ]

-- A click on the input for the name, the name, enter, the password and enter.
abbrev pub typing : (username password : Text) → List Event
typing username password = click login_name ∷ typed username ∷ enter ∷ typed password ∷ enter ∷ []

module _ (hash : Text → Text) where
  -- The form after one call of the model's `login`.
  abbrev pub calling : (username password : Text) → Login × Session → (Login × Session) × List View
  calling username password (l, s) =
      let (s', views) = Users.login hash username password false s in ((l, s'), views)

  run-focused :
      (name old : Text) (focus : Option Input) (s : Session) (username password : Text)
      → has_focus login_name (record { username = name; password = old; focus = focus }) ≡ false
      → run hash
          (typing username password)
          (record { username = name; password = old; focus = focus }, s)
        ≡ calling username password (entered username password, s)
  unfolding run
  run-focused name old none s username password h = simp append-nil
  run-focused name old (some login_name) s username password h = cc
  run-focused name old (some login_password) s username password h = simp append-nil

  -- Where the focus is not in the input for the name: who clicks there, types a name, presses enter, types a
  -- password and presses enter again, calls `login` with this name and this password, whatever stood in the
  -- form before, and with nothing else; the form keeps both and has no focus. Who then clicks into the input
  -- for the name and on the button calls `login` with an empty name and the same password.
  pub run-typing :
      (l : Login) (s : Session) (username password : Text)
      → has_focus login_name l ≡ false
      → (run hash (typing username password) (l, s)
          ≡ calling username password (entered username password, s))
        × (run hash (click login_name ∷ button ∷ []) (entered username password, s)
            ≡ calling [] password (entered [] password, s))
  unfolding run
  run-typing l s username password h =
      (run-focused l.username l.password l.focus s username password h, simp append-nil)
