-- ===== src/Users/Signing.antt =====
-- Who is logged in after `login`, in files/graph.js.
use istatd.Prelude.{
  ◌≡◌, refl, ap, ◌∙◌, arith, Bool, true, false, Option, none, some, List, [], ◌∷◌, ◌++◌, Text,
  text_eq, text_eq_iff, if◌then◌else◌, ◌>>=◌, append_assoc, Option-cases, inl, inr,
}
use istatd.Prelude.Words.{codes, split-append, IsFree}
use istatd.Users.{
  User, Session, find_where, has_name, names, get_logged_in_user, show_somebody, login,
  create_user_and_login, on_choice,
}

-- Who has a name, if anyone has.
abbrev pub known : Text → List User → Option Text
known name users = find_where name users >>= λ user. user.username

names-eq : (name : Text) (o : Option Text) → names name o ≡ true → o ≡ some name
names-eq name none h = cc
names-eq name (some username) h = ap some ((text_eq_iff username name).0 h)

has_name-username :
    (name : Text) (user : User) → has_name name user ≡ true → user.username ≡ some name
has_name-username name user h = names-eq name user.username h

known-some :
    (name : Text) (users : List User) (user : User)
    → find_where name users ≡ some user
    → known name users ≡ some name
unfolding find_where
known-some name [] user e = cc
known-some name (u ∷ users) user e =
    ground (arith, has_name-username name u, known-some name users user)

-- A user who was added is found, or one of that name who was there before.
known-append :
    (name h : Text) (users : List User)
    → known name (users ++ record { username = some name; password_hash = some h } ∷ []) ≡ some name
unfolding find_where
known-append name h [] = ground (arith, text_eq_iff name name)
known-append name h (u ∷ users) =
    ground (arith, has_name-username name u, known-append name h users)

-- The session when the dialog for a new user, if there is one, is answered with "create".
abbrev pub signed_in : (hash : Text → Text) → (username password : Text) → Session → Session
signed_in hash username password s = elim (find_where username s.users) [
  | some _ ↦ (login hash username password false s).0
  | none ↦
      (on_choice hash (codes "create") username (hash (password ++ (codes " salt " ++ username)))
        s).0
]

logged-known :
    (name rest : Text) (s : Session)
    → IsFree b':' name
    → get_logged_in_user (record s { cookie = some (name ++ b':' ∷ rest) }) ≡ known name s.users
unfolding get_logged_in_user
logged-known name rest s free = rw (split-append b':' name rest free) refl

login-found :
    (hash : Text → Text) (username password : Text) (hashed : Bool) (user : User) (s : Session)
    → find_where username s.users ≡ some user
    → login hash username password hashed s
      ≡ show_somebody (record s {
        cookie = some (
            username
            ++ b':'
              ∷ (if hashed then password else hash (password ++ (codes " salt " ++ username))));
      })
unfolding login
login-found hash username password hashed user s e = rw (e, login) refl

-- Both the session and the page know the name of a user who is found and has no colon in the name.
found-Signed :
    (hash : Text → Text) (username password : Text) (hashed : Bool) (user : User) (s : Session)
    → IsFree b':' username
    → find_where username s.users ≡ some user
    → (get_logged_in_user (login hash username password hashed s).0 ≡ some username)
      × ((login hash username password hashed s).0.user_name ≡ some username)
unfolding show_somebody
found-Signed hash username password hashed user s free e =
    let sent = if hashed then password else hash (password ++ (codes " salt " ++ username)) in
    let found = login-found hash username password hashed user s e in
    let is_known = logged-known username sent s free ∙ known-some username s.users user e in
    (ap (λ r. get_logged_in_user r.0) found ∙ is_known, ap (λ r. r.0.user_name) found ∙ is_known)

-- A user whose name has no colon is logged in after `login`, and after a new user was created, under that name,
-- and the page knows the name.
pub signed_in-user :
    (hash : Text → Text) (username password : Text) (s : Session)
    → IsFree b':' username
    → (get_logged_in_user (signed_in hash username password s) ≡ some username)
      × ((signed_in hash username password s).user_name ≡ some username)
unfolding login on_choice create_user_and_login show_somebody text_eq
signed_in-user hash username password s free = elim (Option-cases (find_where username s.users)) [
  | inr (user, e) ↦ rw (e, signed_in) (found-Signed hash username password false user s free e)
  | inl e ↦
      let h = hash (password ++ (codes " salt " ++ username)) in
      let user : User = record { username = some username; password_hash = some h } in
      let added = record s { users = s.users ++ user ∷ [] } in
      elim (Option-cases (find_where username added.users)) [
        | inl e' ↦
            absurd
              (cc (known-append username h s.users, ap (λ o. o >>= λ (u : User). u.username) e'))
        | inr (u, e') ↦ rw (e, signed_in) (found-Signed hash username h true u added free e')
      ]
]

-- For a name with a colon the user who is logged in is the one whose name stands before the first colon, or
-- nobody where there is no such user.
pub login-colon :
    (hash : Text → Text) (name rest password : Text) (user : User) (s : Session)
    → IsFree b':' name
    → find_where (name ++ b':' ∷ rest) s.users ≡ some user
    → get_logged_in_user (login hash (name ++ b':' ∷ rest) password false s).0 ≡ known name s.users
unfolding login show_somebody
login-colon hash name rest password user s free e =
    let named = name ++ b':' ∷ rest in
    let sent = hash (password ++ (codes " salt " ++ named)) in
    ap (λ r. get_logged_in_user r.0) (login-found hash named password false user s e)
    ∙ ap (λ c. get_logged_in_user (record s { cookie = some c }))
        (append_assoc name (b':' ∷ rest) (b':' ∷ sent))
    ∙ logged-known name (rest ++ b':' ∷ sent) s free
