-- ===== src/Users/Tests.antt =====
-- Users with and without a dot or a colon in the name. The password stands for its JSON, and is its own hash.
use istatd.Prelude.{◌≡◌, refl, false, none, some, [], ◌∷◌, Text, text_eq}
use istatd.Prelude.Words.{codes}
use istatd.Users.{User, Session, login, get_logged_in_user, find_where}
use istatd.Users.Signing.{signed_in, signed_in-user, login-colon}

abbrev stringify : Text → Text
stringify h = h

abbrev user : Text → Text → User
user name h = record { username = some name; password_hash = some h }

abbrev session : Session
session = record {
  users = user (codes "ann") (codes "x") ∷ user (codes "ann:b") (codes "y") ∷ [];
  cookie = none;
  user_name = none;
}

signed_in-user_example :
    (get_logged_in_user (signed_in stringify (codes "bob") (codes "z") session)
      ≡ some (codes "bob"))
    × ((signed_in stringify (codes "bob") (codes "z") session).user_name ≡ some (codes "bob"))
signed_in-user_example = signed_in-user stringify (codes "bob") (codes "z") session refl

-- Who logs in as "ann:b" is taken for "ann".
login-colon_example :
    get_logged_in_user (login stringify (codes "ann:b") (codes "y") false session).0
    ≡ some (codes "ann")
unfolding find_where text_eq
login-colon_example =
    login-colon stringify (codes "ann") (codes "b") (codes "y") (user (codes "ann:b") (codes "y"))
      session refl refl
