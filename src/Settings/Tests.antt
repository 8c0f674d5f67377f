-- ===== src/Settings/Tests.antt =====
-- A dashboard of one number, and the users "ann" and "bob".
use istatd.Prelude.{
  ℕ, zero, suc, ◌≡◌, refl, arith, true, false, Option, none, some, List, [], ◌∷◌, Text, text_eq,
  text_eq_instance,
}
use istatd.Prelude.Int.{pos}
use istatd.Prelude.Object.{Object, get}
use istatd.Prelude.Words.{codes}
use istatd.Progress.{idle}
use istatd.Page.{Page, Browser}
use istatd.Grid
use istatd.Loader
use istatd.Window
use istatd.Bookmark.{gotohash, asks}
use istatd.Settings.{
  Reply, load_settings, dashboard_key, run, start, opened, broke, on_success, on_saved,
  save_dashboard_named, saving, succeeded,
}
use istatd.Settings.Loading.{Settled, start-Settled, start-broke}
use istatd.Settings.Saving.{IsAnswered, on_saved-IsAnswered, save_dashboard_named-saving}

-- A number is written as so many letters.
abbrev stringify : ℕ → Text
stringify zero = []
stringify (suc n) = b'x' ∷ stringify n

abbrev parse : Text → Option ℕ
parse [] = some 0
parse (_ ∷ s) = elim (parse s) [ none ↦ none | some n ↦ some (suc n) ]

abbrev name : Text
name = codes "cpu"

abbrev contexts : List Text
contexts = codes "global" ∷ codes "ann" ∷ []

abbrev no_settings : Reply
no_settings = record { status = 404; json = some [] }

abbrev other_settings : Reply
other_settings = record { status = 200; json = some [] }

abbrev ann_settings : Reply
ann_settings = record { status = 200; json = some ((dashboard_key name, stringify 3) ∷ []) }

start-Settled_example :
    Settled idle (run parse name (no_settings ∷ ann_settings ∷ []) (start contexts idle))
start-Settled_example =
    start-Settled parse name contexts (no_settings ∷ ann_settings ∷ []) idle (omega arith)

other_succeeded : load_settings other_settings ≡ succeeded []
unfolding load_settings
other_succeeded = refl

other_missing : get {V = Text} (dashboard_key name) [] ≡ none
unfolding get
other_missing = refl

-- The settings of 'global' have another dashboard, so that of "ann" is not found.
start-broke_example :
    (run parse name (other_settings ∷ ann_settings ∷ []) (start contexts idle)).0 ≡ broke
start-broke_example =
    start-broke parse name [] (ann_settings ∷ []) other_settings [] [] (codes "global")
      (codes "ann" ∷ []) idle tt refl other_succeeded other_missing

on_saved-IsAnswered_example :
    IsAnswered true
      (record { status = 500; status_text = codes "Error"; response_text = []; result = none })
      (on_saved true
        (record { status = 500; status_text = codes "Error"; response_text = []; result = none }))
on_saved-IsAnswered_example =
    on_saved-IsAnswered true
      (record { status = 500; status_text = codes "Error"; response_text = []; result = none })

abbrev browser : Browser
browser = record { clock = pos 1_000_000_000; handle = 3; hidden = false }

abbrev page : Page
page = record {
  grid = Grid.empty;
  loader = Loader.new;
  window = Window.new (pos 1_000_000_000);
  size = record { width = 600; height = 240 };
  size_dropdown = none;
  max_samples = none;
  slider = record { manual = false; index = none; dragging = false };
}

abbrev sent : Object Text Text
sent = (dashboard_key name, stringify 3) ∷ []

saves :
    save_dashboard_named stringify (some (codes "ann")) [] name 3
    ≡ saving (codes "ann") sent (codes "#?dashboard=cpu")
unfolding save_dashboard_named text_eq
saves = refl

save_dashboard_named-saving_example :
    (codes "ann" ≡ codes "ann")
    × (gotohash {D = ℕ} browser (some (codes "ann")) (codes "#?dashboard=cpu") page
        ≡ ((page, []), asks (some name) (codes "global" ∷ codes "ann" ∷ [])))
    × (on_success parse name (codes "ann") sent ≡ opened (codes "ann") 3)
save_dashboard_named-saving_example =
    save_dashboard_named-saving ℕ browser parse stringify (codes "ann") [] name 3 (codes "ann") sent
      (codes "#?dashboard=cpu") page saves refl
