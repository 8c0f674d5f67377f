-- ===== src/Page/Refreshes.antt =====
-- A page that is refreshed again and again, hidden or not.
use istatd.Prelude.{
  ℕ, ◌≡◌, refl, ap, ◌∙◌, Bool, true, false, Option, none, some, List, [], ◌∷◌, if◌then◌else◌,
  Bool-cases, inl, inr,
}
use istatd.Prelude.Int.{ℤ, pos, ◌-ℤ◌, eqb_ℤ, int_laws}
use istatd.Dates.{Date, adjusted_now}
use istatd.Window.{Window, advance, duration}
use istatd.Page.{Page, Browser, Op, ◌>>◌, on_window, reload, reload_each, reload_all, refresh}

-- One refresh after another, each as the browser is then.
unfoldable pub refreshes : {D : Type 0} → List Browser → Op D
refreshes [] p = (p, [])
refreshes (b ∷ bs) p = (refresh b >> refreshes bs) p

-- The clock of the last refresh at which the page was visible.
abbrev pub last_seen : List Browser → Option Date
last_seen [] = none
last_seen (b ∷ bs) = elim (last_seen bs) [
  | some clock ↦ some clock
  | none ↦ if b.hidden then none else some b.clock
]

-- The range that ends ten seconds before the clock, if it is as long as the original one.
abbrev pub following : Option Date → Window → Window
following none w = w
following (some clock) w =
    if eqb_ℤ (duration w.current) (duration w.original)
    then record w {
      current = record {
        start = (clock -ℤ pos 10_000) -ℤ duration w.current;
        stop = clock -ℤ pos 10_000;
      };
    }
    else w

advance-following : (clock : Date) (w : Window) → advance clock w ≡ following (some clock) w
unfolding advance adjusted_now
advance-following clock w = refl

sub_sub : (a b : ℤ) → a -ℤ (a -ℤ b) ≡ b
sub_sub a b = omega int_laws

-- The later of two refreshes is the one that counts.
following-following :
    (first last : Date) (w : Window)
    → following (some last) (following (some first) w) ≡ following (some last) w
following-following first last w =
    elim (Bool-cases (eqb_ℤ (duration w.current) (duration w.original))) [
      | inl e ↦ rw e (rw (sub_sub (first -ℤ pos 10_000) (duration w.current)) (rw e refl))
      | inr e ↦ rw e (rw e refl)
    ]

-- What one refresh and then the ones behind it come to.
after_one :
    (hidden : Bool) (clock : Date) (seen : Option Date) (w : Window)
    → following seen (if hidden then w else following (some clock) w)
      ≡ following
          (elim seen [ some later ↦ some later | none ↦ if hidden then none else some clock ])
          w
after_one true clock none w = refl
after_one false clock none w = refl
after_one true clock (some later) w = refl
after_one false clock (some later) w = following-following clock later w

module _ (D : Type 0) where
  reload_each-window :
      (b : Browser) (ids : List ℕ) (p : Page) → (reload_each {D = D} b ids p).0.window ≡ p.window
  unfolding reload_each reload
  reload_each-window b [] p = refl
  reload_each-window b (id ∷ ids) p = reload_each-window b ids (reload {D = D} b id p).0

  refresh-window :
      (b : Browser) (p : Page)
      → (refresh {D = D} b p).0.window
        ≡ (if b.hidden then p.window else following (some b.clock) p.window)
  unfolding refresh reload_all
  refresh-window b p = branch b.hidden
    where
      branch :
          (h : Bool)
          → (if h
              then (p, [])
              else (◌>>◌ {D = D} (on_window (advance b.clock)) (reload_all b)) p).0.window
            ≡ (if h then p.window else following (some b.clock) p.window)
      branch true = refl
      branch false = reload_each-window b p.grid.all_graphs _ ∙ advance-following b.clock p.window

  -- However often the page is refreshed, hidden or visible: its range is as the last refresh at which it was
  -- visible leaves it, whichever were before. That is as long as it was and ends ten seconds before the clock of
  -- that refresh, if it is as long as the original range; any other range, as one that was zoomed into, and all
  -- else of the window stay.
  pub refreshes-following :
      (bs : List Browser) (p : Page)
      → (refreshes {D = D} bs p).0.window ≡ following (last_seen bs) p.window
  unfolding refreshes
  refreshes-following [] p = refl
  refreshes-following (b ∷ bs) p =
      refreshes-following bs (refresh {D = D} b p).0
      ∙ ap (following (last_seen bs)) (refresh-window b p)
      ∙ after_one b.hidden b.clock (last_seen bs) p.window
