-- ===== src/Dialog/Callbacks.antt =====
-- The dialogs that the page of files/graph.js opens, and what their callbacks do to it.
use istatd.Prelude.{
  ℕ, false, Option, none, some, List, [], ◌∷◌, ◌++◌, Text, text_eq, text_eq_instance, map,
  if◌then◌else◌,
}
use istatd.Prelude.Object.{Object, get}
use istatd.Prelude.Words.{codes}
use istatd.Dates.{Date}
use istatd.Surface.{Format, no_bars, error_bars, custom_bars, stacked, area}
use istatd.Grid
use istatd.Page.{Page, Browser, Output}
use istatd.Page.Dashboard.{Dashboard, get_dashboard}
use istatd.Settings.{
  Save, bad_name, not_logged_in, confirm, saving, save_dashboard_named, on_choice, initial_answer,
}
use istatd.Counters.{change_counters, add_counters}
use istatd.Sizing.{size_set_custom}
use istatd.DateInput.{Asked, select_daterange}
use istatd.DateInput.Calendar.{Local}
use istatd.Dialog.{prompt, inputs, choice, Ask, Reaction, said_else, said_false, answer}

-- The callbacks: `overwrite` is the one of the question that saving asks, with the name and the dashboard
-- that it holds on to.
pub data Call : Type 0 where
  custom_size change add save_as date_range : Call
  overwrite : (name : Text) → Dashboard → Call
  settings : ℕ → Call

-- `size_custom`, `regexp_change`, `regexp_add`, `save_dashboard`, `select_daterange` and `showSettings`.
unfoldable pub size_custom : Ask Call
size_custom = record {
  text = codes "Please enter a graph size: (WxH)";
  form = prompt custom_size;
  initial = [];
}

unfoldable pub regexp_change : Ask Call
regexp_change = record {
  text =
      codes "Match counters, and replace them with another (can be substring)."
      ++ 10 ∷ codes "[Syntax: match:substitution]";
  form = prompt change;
  initial = [];
}

unfoldable pub regexp_add : Ask Call
regexp_add = record {
  text =
      codes "Match counters, and add their substitution to same graphs (can be substring)."
      ++ 10 ∷ codes "[Syntax: match:substitution]";
  form = prompt add;
  initial = [];
}

unfoldable pub save_dashboard : (current_dashboard : Option Text) → Ask Call
unfolding initial_answer
save_dashboard current_dashboard = record {
  text = codes "Save dashboard as: [Valid characters: A-Z, a-z, 0-9, _]";
  form = prompt save_as;
  initial = initial_answer current_dashboard;
}

unfoldable pub ask_daterange : Ask Call
ask_daterange = record {
  text = codes "Please enter a date range (YYYY-MM-DD [HH:MM]):";
  form = inputs (codes "from" ∷ codes "to" ∷ codes "maxSamples" ∷ []) date_range;
  initial = [];
}

unfoldable pub show_settings : ℕ → Ask Call
show_settings id = record {
  text = codes "Choose display format for these graphs.";
  form =
      choice
        (codes "noBars"
          ∷ codes "errorBars"
          ∷ codes "customBars"
          ∷ codes "stacked"
          ∷ codes "area"
          ∷ [])
        (settings id);
  initial = [];
}

-- The question of `save_dashboard_named`.
unfoldable pub ask_overwrite : (name : Text) → Dashboard → Ask Call
ask_overwrite name dash = record {
  text = codes "Dashboard named '" ++ (name ++ codes "' already exists. Overwrite it?");
  form = choice (codes "save" ∷ codes "no" ∷ []) (overwrite name dash);
  initial = [];
}

-- The scope of `saveSettings(theUserName, …)`; `escape` makes a text of null.
unfoldable pub scope_of : Option Text → Text
scope_of none = codes "null"
scope_of (some user) = user

-- `self._format = v`
unfoldable pub format_named : Text → Option Format
format_named v =
    if text_eq v (codes "noBars")
    then some no_bars
    else (if text_eq v (codes "errorBars")
        then some error_bars
        else (if text_eq v (codes "customBars")
            then some custom_bars
            else (if text_eq v (codes "stacked")
                then some stacked
                else (if text_eq v (codes "area") then some area else none))))

-- What the callbacks make happen, in order.
pub data Happening (D : Type 0) : Type 0 where
  output : Output D → Happening D
  error : Text → Happening D
  saved : Save → Happening D

-- The page with the globals that the callbacks read, and what happened so far.
pub record App (D : Type 0) : Type 0 where
  pub page : Page
  pub user_name : Option Text
  pub names : List Text
  pub log : List (Happening D)

-- The value of an input.
unfoldable pub value_at : Text → Object Text Text → Text
value_at name values = elim (get name values) [ none ↦ [] | some v ↦ v ]

module _ {D : Type 0} where
  abbrev pub logged : List (Happening D) → App D → App D
  logged more a = record a { log = a.log ++ more }

  -- A callback with a message of the error dialog returns `false`, and else `true`.
  unfoldable pub with_message :
      (Page × List (Output D)) × Option Text → App D → Reaction Call (App D)
  with_message ((p, out), none) a = record {
    state = logged (map output out) (record a { page = p });
    opened = none;
    ending = said_else;
  }
  with_message ((p, out), some m) a = record {
    state = logged (map output out ++ error m ∷ []) (record a { page = p });
    opened = none;
    ending = said_false;
  }

  -- The callbacks that return nothing.
  unfoldable pub returning : Page × List (Output D) → App D → Reaction Call (App D)
  returning (p, out) a = record {
    state = logged (map output out) (record a { page = p });
    opened = none;
    ending = said_else;
  }

  -- What `save_dashboard_named` does.
  unfoldable pub on_save : Save → Dashboard → App D → Reaction Call (App D)
  unfolding ask_overwrite
  on_save bad_name dash a = record {
    state =
        logged
          (error (
              codes
                "Please enter a proper file name first. Alphanumeric and underscore characters only.")
            ∷ [])
          a;
    opened = none;
    ending = said_else;
  }
  on_save not_logged_in dash a = record {
    state = logged (error (codes "You must log in to save dashboards") ∷ []) a;
    opened = none;
    ending = said_else;
  }
  on_save (confirm name) dash a = record {
    state = a;
    opened = some (ask_overwrite name dash);
    ending = said_else;
  }
  on_save (saving scope object hash) dash a = record {
    state = logged (saved (saving scope object hash) ∷ []) a;
    opened = none;
    ending = said_else;
  }

  module _ (b : Browser) (stringify : Dashboard → Text) (now : Local)
      (get_time : Local → Date) where
    unfoldable pub react : Call → Object Text Text → App D → Reaction Call (App D)
    unfolding with_message returning on_save value_at format_named scope_of
    react custom_size values a =
        let (p, m) = size_set_custom (value_at answer values) a.page in with_message ((p, []), m) a
    react change values a = returning (change_counters b (value_at answer values) false a.page) a
    react add values a = returning (add_counters b (value_at answer values) a.page) a
    react save_as values a =
        let dash = get_dashboard a.page in
        on_save (save_dashboard_named stringify a.user_name a.names (value_at answer values) dash)
          dash a
    react date_range values a =
        let asked : Asked = record {
          from = value_at (codes "from") values;
          to = value_at (codes "to") values;
          max_samples = value_at (codes "maxSamples") values;
        } in
        with_message (select_daterange b now get_time asked a.page) a
    react (overwrite name dash) values a =
        let done : List (Happening D) =
          elim (on_choice stringify (scope_of a.user_name) name (value_at answer values) dash) [
            | none ↦ []
            | some save ↦ saved save ∷ []
          ] in
        record { state = logged done a; opened = none; ending = said_else }
    react (settings id) values a =
        let p = elim (format_named (value_at answer values)) as (λ _. Page) [
          | none ↦ a.page
          | some format ↦ record a.page { grid = Grid.set_format id format a.page.grid }
        ] in
        record { state = record a { page = p }; opened = none; ending = said_else }
