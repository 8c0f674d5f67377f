-- ===== src/Listing/Rows.antt =====
-- What the list of dashboards shows once both scopes have answered.
use istatd.Prelude.{
  ◌≡◌, ◌≢◌, refl, sym, ap, ◌∙◌, arith, Bool, false, ◌||◌, Option, some, List, [], ◌∷◌, ◌++◌, Text,
  text_eq, text_eq_iff, text_eq_instance, if◌then◌else◌, take, drop, contains, append_assoc,
  append-nil, Bool-cases, inl, inr,
}
use istatd.Prelude.Object.{keys, put, contains-keys-put}
use istatd.Prelude.Words.{codes}
use istatd.Settings.{Answer, threw, failed, succeeded}
use istatd.Listing.{
  Row, pick, separator, Listing, Act, ask, update_current, add_rows, on_user_dashboards, on_listed,
  reload,
}

-- The names of the dashboards among the names of settings.
abbrev pub dashboards : List Text → List Text
dashboards [] = []
dashboards (k ∷ ks) =
    let rest = dashboards ks in
    if text_eq (take 10 k) (codes "dashboard.") then drop 10 k ∷ rest else rest

-- The rows of a context.
abbrev pub picks : Text → List Text → List Row
picks context [] = []
picks context (name ∷ names) = pick context name ∷ picks context names

-- The names of the settings that an answer brings.
abbrev pub settings_of : Answer → List Text
settings_of threw = []
settings_of (failed json) = []
settings_of (succeeded json) = keys json

abbrev pub names_of : Answer → List Text
names_of a = dashboards (settings_of a)

add_rows-rows :
    (context : Text) (ks : List Text) (l : Listing)
    → (add_rows context ks l).rows ≡ l.rows ++ picks context (dashboards ks)
unfolding add_rows
add_rows-rows context [] l = sym (append-nil l.rows)
add_rows-rows context (k ∷ ks) l = elim (Bool-cases (text_eq (take 10 k) (codes "dashboard."))) [
  | inl e ↦
      let row = pick context (drop 10 k) in
      let grown = record l {
        rows = l.rows ++ row ∷ [];
        items_by_name = put (drop 10 k) row l.items_by_name;
      } in
      rw (e, add_rows)
        (add_rows-rows context ks grown
          ∙ append_assoc l.rows (row ∷ []) (picks context (dashboards ks)))
  | inr e ↦ rw (e, add_rows) (add_rows-rows context ks l)
]

add_rows-known :
    (context : Text) (ks : List Text) (l : Listing) (name : Text)
    → contains (keys (add_rows context ks l).items_by_name) name
      ≡ (contains (dashboards ks) name || contains (keys l.items_by_name) name)
unfolding add_rows
add_rows-known context [] l name = refl
add_rows-known context (k ∷ ks) l name =
    elim (Bool-cases (text_eq (take 10 k) (codes "dashboard."))) [
      | inl e ↦
          let row = pick context (drop 10 k) in
          let grown = record l {
            rows = l.rows ++ row ∷ [];
            items_by_name = put (drop 10 k) row l.items_by_name;
          } in
          rw (e, add_rows)
            (add_rows-known context ks grown name
              ∙ ground (
                arith,
                contains-keys-put (drop 10 k) name row l.items_by_name,
                text_eq_iff (drop 10 k) name,
              ))
      | inr e ↦ rw (e, add_rows) (add_rows-known context ks l name)
    ]

-- A save asks for a confirmation where the name is known.
abbrev pub is_known : Listing → Text → Bool
is_known l name = contains (keys l.items_by_name) name

on_listed-settings :
    (context : Option Text) (a : Answer) (l : Listing)
    → a ≢ threw
    → on_listed context a l ≡ on_user_dashboards context (settings_of a) l
unfolding on_listed
on_listed-settings context threw l h = absurd (h refl)
on_listed-settings context (failed json) l h = refl
on_listed-settings context (succeeded json) l h = refl

on_user_dashboards-user :
    (user : Text) (ks : List Text) (l : Listing)
    → text_eq user (codes "global") ≡ false
    → on_user_dashboards (some user) ks l ≡ (
      update_current
          (record (add_rows user ks l) { rows = (add_rows user ks l).rows ++ separator ∷ [] }),
      ask (codes "global") ∷ [],
    )
unfolding on_user_dashboards
on_user_dashboards-user user ks l h = rw h refl

on_user_dashboards-global :
    (ks : List Text) (l : Listing)
    → on_user_dashboards (some (codes "global")) ks l
      ≡ (update_current (add_rows (codes "global") ks l), [])
unfolding on_user_dashboards text_eq
on_user_dashboards-global ks l = refl

module _ (user : Text) (of_user of_all : Answer) (l : Listing) where
  -- The list when it was reloaded, when the user's settings came, and when those of all came.
  abbrev pub asked : Listing × List Act
  asked = reload (some user) l

  abbrev pub half : Listing × List Act
  half = on_listed (some user) of_user asked.0

  abbrev pub full : Listing × List Act
  full = on_listed (some (codes "global")) of_all half.0

  -- A user with a name other than 'global' reloads the list, and both answers can be read: it asks for the
  -- user's settings and then for those of all, shows the dashboards of both in this order, parted by a
  -- separator, with none for a scope whose answer is an error, and knows the names of these and all that it
  -- knew before.
  pub reload-rows :
      text_eq user [] ≡ false
      → text_eq user (codes "global") ≡ false
      → of_user ≢ threw
      → of_all ≢ threw
      → (asked.1 ≡ ask user ∷ [])
        × (half.1 ≡ ask (codes "global") ∷ [])
        × (full.0.rows
            ≡ picks user (names_of of_user) ++ separator ∷ picks (codes "global") (names_of of_all))
        × ((name : Text)
            → is_known full.0 name ≡ (
                contains (names_of of_all) name
                || (contains (names_of of_user) name || is_known l name)))
  unfolding reload update_current
  reload-rows some_name no_global h k =
      let cleared = record l { rows = [] } in
      let first : asked ≡ (cleared, ask user ∷ []) = rw (some_name, reload) refl in
      let filled = add_rows user (settings_of of_user) cleared in
      let parted = update_current (record filled { rows = filled.rows ++ separator ∷ [] }) in
      let second : half ≡ (parted, ask (codes "global") ∷ []) =
        ap (λ (r : Listing × List Act). on_listed (some user) of_user r.0) first
        ∙ on_listed-settings (some user) of_user cleared h
        ∙ on_user_dashboards-user user (settings_of of_user) cleared no_global in
      let third : full
          ≡ (update_current (add_rows (codes "global") (settings_of of_all) parted), []) =
        ap (λ (r : Listing × List Act). on_listed (some (codes "global")) of_all r.0) second
        ∙ on_listed-settings (some (codes "global")) of_all parted k
        ∙ on_user_dashboards-global (settings_of of_all) parted in
      (
        ap (λ r. r.1) first,
        ap (λ r. r.1) second,
        ap (λ r. r.0.rows) third
            ∙ add_rows-rows (codes "global") (settings_of of_all) parted
            ∙ ap (λ rows. rows ++ separator ∷ [] ++ picks (codes "global") (names_of of_all))
                (add_rows-rows user (settings_of of_user) cleared)
            ∙ append_assoc (picks user (names_of of_user)) (separator ∷ [])
                (picks (codes "global") (names_of of_all)),
        λ name.
            ap (λ r. is_known r.0 name) third
            ∙ add_rows-known (codes "global") (settings_of of_all) parted name
            ∙ ap (contains (names_of of_all) name ||◌)
                (add_rows-known user (settings_of of_user) cleared name),
      )
