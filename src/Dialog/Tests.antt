-- ===== src/Dialog/Tests.antt =====
-- The dialogs of a page with two graphs, for the user "ann".
use istatd.Prelude.{
  ℕ, ◌+◌, ◌≡◌, refl, arith, none, some, [], ◌∷◌, Text, text_eq, text_eq_instance, contains,
  if◌then◌else◌,
}
use istatd.Prelude.Int.{pos}
use istatd.Prelude.Words.{codes}
use istatd.Dates.{Date}
use istatd.Page.Dashboard.{Dashboard, get_dashboard}
use istatd.Page.Tests.{browser, two_graphs}
use istatd.Settings.{save, is_name}
use istatd.DateInput.Calendar.{Local}
use istatd.Dialog.{open_dialog, run, submit, pick, close, answer}
use istatd.Dialog.Callbacks.{App, custom_size, size_custom, save_dashboard, saved, logged, react}
use istatd.Dialog.Asking.{act, prompting, naming, questioned, Sized, submit-Sized, submit-Saves}

abbrev stringify : Dashboard → Text
stringify d = codes "{}"

abbrev now : Local
now = record { year = 2013; month = 0; day = 7; hour = 9; minute = 30; rest = 0 }

abbrev time : Local → Date
time d = pos d.day

abbrev pub app : App ℕ
app = record {
  page = two_graphs;
  user_name = some (codes "ann");
  names = codes "cpu" ∷ [];
  log = [];
}

-- A dialog that another one replaced is closed by nothing, and does nothing.
replaced_test :
    (run (react {D = ℕ} browser stringify now time) (close ∷ submit ∷ []) (
      open_dialog size_custom
          (open_dialog (save_dashboard none) (record { shown = none; next = 0 })),
      app,
    ))
    ≡ (record { shown = none; next = 2 }, app)
unfolding run open_dialog
replaced_test = refl

submit-Sized_example :
    Sized ℕ browser stringify now time
      (prompting custom_size 0 1 [] ((answer, codes "80x40") ∷ []), app)
      (act ℕ browser stringify now time submit
        (prompting custom_size 0 1 [] ((answer, codes "80x40") ∷ []), app))
submit-Sized_example =
    submit-Sized ℕ browser stringify now time 0 1 [] ((answer, codes "80x40") ∷ []) app

abbrev dash : Dashboard
dash = get_dashboard two_graphs

submit-Saves_example :
    (act ℕ browser stringify now time submit (naming 0 1 [] (codes "cpu"), app) ≡ (
      if contains app.names (codes "cpu") then (questioned 0 1 [] (codes "cpu") dash, app) else (
        record { shown = none; next = 1 },
        logged (saved (save stringify (codes "ann") (codes "cpu") dash) ∷ []) app,
      )))
    × (act ℕ browser stringify now time (pick 0) (questioned 0 1 [] (codes "cpu") dash, app) ≡ (
      record { shown = none; next = 1 + 1 },
      logged (saved (save stringify (codes "ann") (codes "cpu") dash) ∷ []) app,
    ))
    × (act ℕ browser stringify now time (pick 1) (questioned 0 1 [] (codes "cpu") dash, app)
        ≡ (record { shown = none; next = 1 + 1 }, app))
unfolding text_eq is_name
submit-Saves_example =
    submit-Saves ℕ browser stringify now time 0 1 [] (codes "ann") (codes "cpu") app (omega arith)
      refl refl refl refl
