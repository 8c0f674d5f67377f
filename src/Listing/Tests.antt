-- ===== src/Listing/Tests.antt =====
-- The dashboards of "ann" and those of all.
use istatd.Prelude.{
  ◌≡◌, refl, true, ◌||◌, some, [], ◌∷◌, ◌++◌, Text, text_eq, text_eq_instance, contains,
}
use istatd.Prelude.Object.{put}
use istatd.Prelude.Words.{codes}
use istatd.Settings.{Answer, failed, succeeded, dashboard_key}
use istatd.Listing
use istatd.Listing.{Row, pick, separator, Listing, Act, ask, on_listed, reload}
use istatd.Listing.Rows.{asked, half, full, picks, names_of, is_known, reload-rows}

abbrev of_user : Answer
of_user =
    succeeded ((dashboard_key (codes "cpu"), codes "1") ∷ (codes "template.x", codes "2") ∷ [])

-- What is shown before "cpu" was deleted.
abbrev before : Listing
before = (full (codes "ann") of_user (failed []) (Listing.new [])).0

deleted_is_known :
    is_known (full (codes "ann") (succeeded []) (failed []) before).0 (codes "cpu") ≡ true
unfolding on_listed reload Listing.new text_eq put
deleted_is_known = refl

-- Two reloads before the first answer show all rows twice.
reload_twice_test :
    (on_listed
      (some (codes "ann"))
      of_user
      (on_listed
        (some (codes "ann"))
        of_user
        (reload (some (codes "ann")) (reload (some (codes "ann")) (Listing.new [])).0).0).0).0.rows
    ≡ pick (codes "ann") (codes "cpu")
      ∷ separator
      ∷ pick (codes "ann") (codes "cpu")
      ∷ separator
      ∷ []
unfolding on_listed reload Listing.new text_eq put
reload_twice_test = refl

reload-rows_example :
    ((asked (codes "ann") of_user (failed []) before).1 ≡ ask (codes "ann") ∷ [])
    × ((half (codes "ann") of_user (failed []) before).1 ≡ ask (codes "global") ∷ [])
    × ((full (codes "ann") of_user (failed []) before).0.rows
        ≡ picks (codes "ann") (names_of of_user)
          ++ separator ∷ picks (codes "global") (names_of (failed [])))
    × ((name : Text)
        → is_known (full (codes "ann") of_user (failed []) before).0 name ≡ (
            contains (names_of (failed [])) name
            || (contains (names_of of_user) name || is_known before name)))
unfolding text_eq
reload-rows_example =
    reload-rows (codes "ann") of_user (failed []) before refl refl (λ e. cc) (λ e. cc)
