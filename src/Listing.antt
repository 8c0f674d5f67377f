-- ===== src/Listing.antt =====
-- The list of dashboards, `DashboardList` of files/graph.js: the rows that it shows, the rows by name, and the
-- current dashboard.
mod Rows
mod Tests
use istatd.Prelude.{
  ℕ, Bool, true, false, Option, none, some, List, [], ◌∷◌, ◌++◌, Text, text_eq, text_eq_instance,
  if◌then◌else◌, take, drop,
}
use istatd.Prelude.Object.{Object, keys, get, put}
use istatd.Prelude.Words.{codes}
use istatd.Settings.{Answer, Value, dashboard_key, threw, failed, succeeded}

-- A row loads a dashboard from a context.
pub data Row : Type 0 where
  pick : (context name : Text) → Row
  separator : Row

-- `current` is `currentDashboard`, and `marked` the row with the class "current".
pub record Listing : Type 0 where
  pub rows : List Row
  pub items_by_name : Object Text Row
  pub current : Option Text
  pub marked : Option Row

-- Requests to the server, the load of a dashboard, and the location without a hash.
pub data Act : Type 0 where
  ask : (context : Text) → Act
  load : (name context : Text) → Act
  delete : (context key : Text) → Act
  leave : Act

-- The constructor takes `name`, which is no parameter but the name of the browser's window.
unfoldable pub new : (window_name : Text) → Listing
new window_name = record {
  rows = [];
  items_by_name = [];
  current = some window_name;
  marked = none;
}

unfoldable pub update_current : Listing → Listing
update_current l = record l {
  marked = elim l.current [
    | none ↦ none
    | some name ↦ if text_eq name [] then none else get name l.items_by_name
  ];
}

unfoldable pub set_current : Option Text → Listing → Listing
unfolding update_current
set_current name l = update_current (record l { current = name })

-- The loop over the settings.
unfoldable pub add_rows : (context : Text) → List Text → Listing → Listing
add_rows context [] l = l
add_rows context (k ∷ ks) l =
    let ds = drop 10 k in
    let row = pick context ds in
    add_rows context ks (
      if text_eq (take 10 k) (codes "dashboard.")
      then record l { rows = l.rows ++ row ∷ []; items_by_name = put ds row l.items_by_name }
      else l)

-- `on_userDashboards`, with the names of the settings; `context` is none where nobody is logged in.
unfoldable pub on_user_dashboards :
    (context : Option Text) → List Text → Listing → Listing × List Act
unfolding add_rows update_current
on_user_dashboards context ks l =
    let filled : Listing = elim context [
      | none ↦ add_rows (codes "null") ks l
      | some c ↦ add_rows c ks l
    ] in
    let is_global : Bool = elim context [ none ↦ false | some c ↦ text_eq c (codes "global") ] in
    if is_global then (update_current filled, []) else (
      update_current (record filled { rows = filled.rows ++ separator ∷ [] }),
      ask (codes "global") ∷ [],
    )

-- The callbacks of `loadSettings`; a body that is no JSON calls neither.
unfoldable pub on_listed : (context : Option Text) → Answer → Listing → Listing × List Act
unfolding on_user_dashboards
on_listed context threw l = (l, [])
on_listed context (failed json) l = on_user_dashboards context [] l
on_listed context (succeeded json) l = on_user_dashboards context (keys json) l

-- `reload`; an empty name is that of nobody.
unfoldable pub reload : (user_name : Option Text) → Listing → Listing × List Act
unfolding on_user_dashboards
reload user_name l =
    let cleared = record l { rows = [] } in
    elim user_name [
      | none ↦ on_user_dashboards none [] cleared
      | some user ↦
          if text_eq user []
          then on_user_dashboards (some user) [] cleared
          else (cleared, ask user ∷ [])
    ]

-- A click on a row.
unfoldable pub on_pick : Row → List Act
on_pick separator = []
on_pick (pick context name) = load name context ∷ []

-- The answer to the question that the remove button asks.
unfoldable pub on_remove : (user opt name : Text) → List Act
on_remove user opt name =
    if text_eq opt (codes "delete") then delete user (dashboard_key name) ∷ [] else []

-- The callback of the save that deletes.
unfoldable pub on_removed : (user_name : Option Text) → (name : Text) → Listing → Listing × List Act
unfolding reload
on_removed user_name name l =
    let (l', acts) = reload user_name l in
    let is_current : Bool = elim l'.current [
      | none ↦ false
      | some current ↦ text_eq name current
    ] in
    (l', if is_current then acts ++ leave ∷ [] else acts)
