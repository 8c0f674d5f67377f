-- ===== src/Users.antt =====
-- The users of files/graph.js: `UserModel`, `UsersModel`, `SettingsModel` and what `UserControlsView` shows.
-- A cookie is kept as the value that it was given.
mod Stored
mod Signing
mod Tests
use istatd.Prelude.{
  ℕ, Bool, true, false, Option, none, some, List, [], ◌∷◌, ◌++◌, Text, text_eq, if◌then◌else◌,
  ◌>>=◌,
}
use istatd.Prelude.Object.{Object}
use istatd.Prelude.Words.{codes, split}

-- An attribute is `none` where it is undefined.
pub record User : Type 0 where
  pub username : Option Text
  pub password_hash : Option Text

-- `key.split('.')[1]`
unfoldable pub second : List Text → Option Text
second (_ ∷ name ∷ _) = some name
second _ = none

-- `JSON.stringify` of an object with a password, and the password of `JSON.parse`, which is none for a text
-- that is not JSON.
module _ (stringify : Text → Text) (parse_password : Text → Option (Option Text)) where
  -- `UserModel.toJSON`, with the name and the password that `create` gives a user.
  unfoldable pub to_json : (username password_hash : Text) → Object Text Text
  to_json username password_hash = (codes "user." ++ username, stringify password_hash) ∷ []

  -- `UsersModel.parse`; none is an exception.
  unfoldable pub parse : Object Text Text → Option (List User)
  unfolding second
  parse [] = some []
  parse ((key, value) ∷ response) = do
    password ← parse_password value
    users ← parse response
    some (record { username = second (split b'.' key); password_hash = password } ∷ users)

-- `user_name` is `theUserName`, and `cookie` the one called "login".
pub record Session : Type 0 where
  pub users : List User
  pub cookie : Option Text
  pub user_name : Option Text

-- What a step asks of the page: the slides of the two views, the button for saving, the list of dashboards,
-- the location, the dialog, and requests.
pub data View : Type 0 where
  slide_login slide_logout enable_save reload_dashboards go_to_hash redirect : View
  choose : (username password_hash : Text) → View
  create : (username password_hash : Text) → View
  save_user : Text → View

abbrev pub names : Text → Option Text → Bool
names name none = false
names name (some username) = text_eq username name

abbrev pub has_name : Text → User → Bool
has_name name user = names name user.username

-- `findWhere({username: name})`
unfoldable pub find_where : Text → List User → Option User
find_where name [] = none
find_where name (user ∷ users) = if has_name name user then some user else find_where name users

-- `login_cookie.split(':')[0]`; a split is never empty.
unfoldable pub first : List Text → Text
first [] = []
first (piece ∷ _) = piece

unfoldable pub get_logged_in_user : Session → Option Text
unfolding find_where first
get_logged_in_user s = do
  login_cookie ← s.cookie
  user ← find_where (first (split b':' login_cookie)) s.users
  user.username

unfoldable pub is_logged_in : Session → Bool
unfolding get_logged_in_user
is_logged_in s = elim (get_logged_in_user s) [ none ↦ false | some _ ↦ true ]

-- `showViewsWhenSomebodyIsLoggedIn`
unfoldable pub show_somebody : Session → Session × List View
unfolding get_logged_in_user
show_somebody s = (
  record s { user_name = get_logged_in_user s },
  slide_logout ∷ enable_save ∷ reload_dashboards ∷ go_to_hash ∷ [],
)

-- `showViewsWhenNobodyIsLoggedIn`
unfoldable pub show_nobody : Session → Session × List View
show_nobody s = (s, slide_login ∷ go_to_hash ∷ [])

-- The listener for `reset`, when the users came.
unfoldable pub on_reset : List User → Session → Session × List View
unfolding show_somebody show_nobody
on_reset users s =
    let fetched = record s { users = users } in
    elim (get_logged_in_user fetched) [
      | none ↦ show_nobody fetched
      | some _ ↦ show_somebody fetched
    ]

module _ (hash : Text → Text) where
  -- `login`, with the listener for `logged_in`. `hash` is `Sha256.hash`.
  unfoldable pub login :
      (username password : Text) → (hashed : Bool) → Session → Session × List View
  unfolding show_somebody
  login username password hashed s =
      let password_hash =
        if hashed then password else hash (password ++ (codes " salt " ++ username)) in
      elim (find_where username s.users) [
        | none ↦ (s, choose username password_hash ∷ [])
        | some user ↦ show_somebody (record s { cookie = some (username ++ b':' ∷ password_hash) })
      ]

  unfoldable pub create_user_and_login :
      (username password_hash : Text) → Session → Session × List View
  unfolding login
  create_user_and_login username password_hash s =
      let user : User = record { username = some username; password_hash = some password_hash } in
      let (s', views) =
        login username password_hash true (record s { users = s.users ++ user ∷ [] }) in
      (s', create username password_hash ∷ (views ++ save_user username ∷ []))

  -- The callback of the dialog for a new user.
  unfoldable pub on_choice : (opt username password_hash : Text) → Session → Session × List View
  unfolding create_user_and_login
  on_choice opt username password_hash s =
      if text_eq opt (codes "create")
      then create_user_and_login username password_hash s
      else (s, [])

-- `logout`, with the listener for `logged_out`.
unfoldable pub logout : Session → Session × List View
logout s = (record s { cookie = none }, redirect ∷ [])
