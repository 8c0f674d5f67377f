-- ===== src/Users/Stored.antt =====
-- Users that are stored and fetched again, `toJSON` and `parse` of files/graph.js.
use istatd.Prelude.{
  ℕ, ◌≡◌, refl, ap, ap₂, ◌∙◌, arith, Option, some, List, [], ◌∷◌, ◌++◌, Text, map, ◌==◌,
  if◌then◌else◌, All, Bool-cases, inl, inr,
}
use istatd.Prelude.Object.{Object}
use istatd.Prelude.Words.{codes, split, prepend, IsFree}
use istatd.Users.{User, to_json, second, parse}

-- What stands before the first occurrence of a character.
abbrev pub up_to : ℕ → Text → Text
up_to c [] = []
up_to c (x ∷ s) = let rest = up_to c s in if x == c then [] else x ∷ rest

-- A user's name and the hash of the password.
abbrev pub Account : Type 0
Account = Text × Text

second-user :
    (name : Text) → second (split b'.' (codes "user." ++ name)) ≡ second ([] ∷ split b'.' name)
unfolding second split prepend
second-user name = refl

second-prepend :
    (x : ℕ) (w : Text) (ws : List Text) (name : Text)
    → second (w ∷ ws) ≡ some name
    → second (w ∷ prepend x ws) ≡ some (x ∷ name)
unfolding second prepend
second-prepend x w [] name e = cc
second-prepend x w (v ∷ ws) name e = ground arith

second-split : (c : ℕ) (w s : Text) → second (w ∷ split c s) ≡ some (up_to c s)
unfolding second split prepend
second-split c w [] = refl
second-split c w (x ∷ s) = elim (Bool-cases (x == c)) [
  | inl e ↦ rw e refl
  | inr e ↦ rw e (second-prepend x w (split c s) (up_to c s) (second-split c w s))
]

up_to-IsFree : (c : ℕ) (s : Text) → IsFree c s → up_to c s ≡ s
up_to-IsFree c [] h = refl
up_to-IsFree c (x ∷ s) h = ground (arith, up_to-IsFree c s)

map-up_to :
    (accounts : List Account)
    → All (λ account. IsFree b'.' account.0) accounts
    → map {B = User}
        (λ account. record {
          username = some (up_to b'.' account.0);
          password_hash = some account.1;
        })
        accounts
      ≡ map
          (λ account. record { username = some account.0; password_hash = some account.1 })
          accounts
map-up_to [] h = refl
map-up_to (account ∷ accounts) h =
    ap₂ (λ name rest. record { username = some name; password_hash = some account.1 } ∷ rest)
      (up_to-IsFree b'.' account.0 h.0) (map-up_to accounts h.1)

module _ (stringify : Text → Text) (parse_password : Text → Option (Option Text)) where
  -- The answer of the server for these users.
  abbrev pub stored : List Account → Object Text Text
  stored [] = []
  stored ((name, h) ∷ accounts) = to_json stringify parse_password name h ++ stored accounts

module _ (stringify : Text → Text) (parse_password : Text → Option (Option Text))
    (read : (h : Text) → parse_password (stringify h) ≡ some (some h)) where
  -- A user comes back with the hash of the password, and with what stands before the first dot of the name.
  pub parse-stored :
      (accounts : List Account)
      → parse stringify parse_password (stored stringify parse_password accounts)
        ≡ some (
            map
              (λ (account : Account). record {
                username = some (up_to b'.' account.0);
                password_hash = some account.1;
              })
              accounts)
  unfolding parse to_json split
  parse-stored [] = refl
  parse-stored ((name, h) ∷ accounts) =
      rw (read h, parse-stored accounts, second-split b'.' (codes "user") name) refl

  -- Users whose names have no dot come back as they are.
  parse-stored_free :
      (accounts : List Account)
      → All (λ account. IsFree b'.' account.0) accounts
      → parse stringify parse_password (stored stringify parse_password accounts)
        ≡ some (
            map
              (λ account. record { username = some account.0; password_hash = some account.1 })
              accounts)
  parse-stored_free accounts h = parse-stored accounts ∙ ap some (map-up_to accounts h)
