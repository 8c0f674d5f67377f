-- ===== src/Settings.antt =====
-- The settings of files/graph.js, which the server keeps under a scope, the context: `loadSettings`,
-- `load_dashboard`, `saveSettings` and `save_dashboard_named`. A settings object is one of texts.
-- `JSON` stands as a parameter: `parse` reads a dashboard (`none` where it throws) and `stringify` writes
-- one.
pub mod Loading
pub mod Saving
mod Tests
use istatd.Prelude.{
  ℕ, ◌+◌, Bool, true, false, ◌&&◌, ◌||◌, not, Option, none, some, List, [], ◌∷◌, ◌++◌, Text,
  text_eq, text_eq_instance, ◌==◌, ltb, leb, if◌then◌else◌, contains,
}
use istatd.Prelude.Object.{Object, get}
use istatd.Prelude.Words.{codes}
use istatd.Prelude.Digits.{show}
use istatd.Progress.{Progress, begin, end, error}

-- An answer of the server. `json` is `none` where `JSON.parse(xhr.responseText || "{}")` throws.
pub record Reply : Type 0 where
  pub status : ℕ
  pub json : Option (Object Text Text)

-- Which callback `loadSettings` calls; `threw` is an exception.
pub data Answer : Type 0 where
  threw : Answer
  failed succeeded : Object Text Text → Answer

unfoldable pub load_settings : Reply → Answer
load_settings reply = elim reply.json [
  | none ↦ threw
  | some json ↦ if ltb 299 reply.status then failed json else succeeded json
]

-- `"dashboard." + name`
abbrev pub dashboard_key : Text → Text
dashboard_key name = codes "dashboard." ++ name

-- A call of `load_dashboard`: it waits for the settings of a context, with the contexts after it; it has
-- opened a dashboard; it had no context left; or it ended with an exception.
pub data Load (B : Type 0) : Type 0 where
  asking : (context : Text) (contexts : List Text) → Load B
  opened : (context : Text) → B → Load B
  gave_up broke : Load B

module _ {B : Type 0} where
  unfoldable pub load_dashboard : List Text → Load B
  load_dashboard [] = gave_up
  load_dashboard (context ∷ contexts) = asking context contexts

  -- `openDashboard` reads the dashboard first.
  unfoldable pub on_success : (Text → Option B) → (name context : Text) → Object Text Text → Load B
  on_success parse name context json = elim (get (dashboard_key name) json) [
    | none ↦ broke
    | some text ↦ elim (parse text) [ none ↦ broke | some dashboard ↦ opened context dashboard ]
  ]

  unfoldable pub on_answer :
      (Text → Option B) → (name context : Text) (contexts : List Text) → Answer → Load B
  unfolding load_dashboard on_success
  on_answer parse name context contexts threw = broke
  on_answer parse name context contexts (failed json) = load_dashboard contexts
  on_answer parse name context contexts (succeeded json) = on_success parse name context json

  -- What the end of a load does to the progress bar: the callback `cb` is the function of `begin`, and an
  -- exception ends in the error dialog of `guard`.
  unfoldable pub settle : Load B → Progress → Progress
  settle (asking _ _) p = p
  settle (opened _ _) p = end p
  settle gave_up p = end (error p)
  settle broke p = error p

  -- An answer of the server comes.
  unfoldable pub on_reply :
      (Text → Option B) → (name : Text) → Reply → Load B × Progress → Load B × Progress
  unfolding load_settings on_answer settle
  on_reply parse name reply (asking context contexts, p) =
      let load = on_answer parse name context contexts (load_settings reply) in
      (load, settle load p)
  on_reply parse name reply (load, p) = (load, p)

  unfoldable pub run :
      (Text → Option B) → (name : Text) → List Reply → Load B × Progress → Load B × Progress
  unfolding on_reply
  run parse name [] s = s
  run parse name (reply ∷ replies) s = run parse name replies (on_reply parse name reply s)

  -- `load_hash`, once it has the arguments: the bar begins and the first context is asked.
  unfoldable pub start : List Text → Progress → Load B × Progress
  unfolding load_dashboard settle
  start contexts p = let load = load_dashboard contexts in (load, settle load (begin p))

-- The answer to a save; `result` has `success` and `message`, and is `none` where `JSON.parse` throws.
pub record Saved : Type 0 where
  pub status : ℕ
  pub status_text : Text
  pub response_text : Text
  pub result : Option (Bool × Text)

-- What `saveSettings` does when the answer comes.
pub data Step : Type 0 where
  done callback exception : Step
  dialog : Text → Step

-- `cb` says whether there is a callback.
unfoldable pub on_saved : (cb : Bool) → Saved → List Step
on_saved cb saved =
    let then_call = if cb then callback ∷ [] else [] in
    done
    ∷ (if ltb 299 saved.status
        then dialog (
            codes "saveSettings error: "
            ++ (show saved.status
                ++ (codes " " ++ (saved.status_text ++ (10 ∷ saved.response_text)))))
          ∷ then_call
        else (elim saved.result [
          | none ↦ exception ∷ []
          | some (success, message) ↦
              if success
              then then_call
              else dialog (codes "saveSettings error: " ++ (10 ∷ message)) ∷ then_call
        ]))

-- A value to save; the empty text deletes.
pub data Value (B : Type 0) : Type 0 where
  empty : Value B
  value : B → Value B

-- The object that is sent, with its one key.
unfoldable pub save_settings :
    {B : Type 0} → (B → Text) → (name : Text) → Value B → Object Text Text
save_settings stringify name empty = (name, []) ∷ []
save_settings stringify name (value v) = (name, stringify v) ∷ []

-- Not /[^a-zA-Z_0-9]/
unfoldable pub is_name_unit : ℕ → Bool
is_name_unit c =
    (leb 97 c && leb c 122) || (leb 65 c && leb c 90) || c == b'_' || (leb 48 c && leb c 57)

unfoldable pub is_name : Text → Bool
unfolding is_name_unit
is_name [] = true
is_name (c ∷ s) = is_name_unit c && is_name s

-- What saving a dashboard under a name comes to: an error dialog, a question, or a save, with the scope,
-- the object that is sent and the new hash of the location.
pub data Save : Type 0 where
  bad_name not_logged_in : Save
  confirm : Text → Save
  saving : (scope : Text) → Object Text Text → (hash : Text) → Save

module _ {B : Type 0} (stringify : B → Text) where
  -- The function `save`.
  unfoldable pub save : (user name : Text) → B → Save
  unfolding save_settings
  save user name dashboard =
      saving user (save_settings stringify (dashboard_key name) (value dashboard))
        (codes "#?dashboard=" ++ name)

  -- `names` are the keys of `theDashboards.itemsByName`.
  unfoldable pub save_dashboard_named :
      (user : Option Text) (names : List Text) (name : Text) → B → Save
  unfolding save is_name
  save_dashboard_named user names [] dashboard = bad_name
  save_dashboard_named user names (c ∷ s) dashboard =
      if is_name (c ∷ s)
      then (elim user [
        | none ↦ not_logged_in
        | some name ↦
            if text_eq name []
            then not_logged_in
            else (if contains names (c ∷ s) then confirm (c ∷ s) else save name (c ∷ s) dashboard)
      ])
      else bad_name

  -- The choice of the question.
  unfoldable pub on_choice : (user name option : Text) → B → Option Save
  unfolding save
  on_choice user name option dashboard =
      if text_eq option (codes "save") then some (save user name dashboard) else none

  -- Saving a template, of the user `theUser`: the request, if there is one, or a dialog, and the new hash,
  -- which is set in either case.
  unfoldable pub save_template :
      (the_user : Option Text)
      → (arg_filename : Text) → B
      → Option (Option (Text × Object Text Text) × Text)
  unfolding save_settings is_name
  save_template the_user [] dashboard = none
  save_template the_user (c ∷ s) dashboard =
      let named = codes "template." ++ c ∷ s in
      let request : Option (Text × Object Text Text) = elim the_user [
        | none ↦ none
        | some user ↦
            if text_eq user []
            then none
            else some (user, save_settings stringify named (value dashboard))
      ] in
      if is_name (c ∷ s) then some (request, codes "#?template=" ++ c ∷ s) else none

-- The text that the dialog of `save_dashboard` begins with: the current dashboard, if there is one.
unfoldable pub initial_answer : (current_dashboard : Option Text) → Text
initial_answer none = []
initial_answer (some dash) = dash
