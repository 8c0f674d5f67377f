-- ===== src/Window/Ticker.antt =====
-- The interval timer of the automatic refresh: at most one runs.
use istatd.Prelude.{
  ℕ, Bool, true, false, Option, none, some, List, [], ◌∷◌, ◌++◌, ◌≡◌, ◌≢◌, ◌∙◌, sym, refl, arith,
  ◌==◌, if◌then◌else◌,
}
use istatd.Dates.{Date, Span}
use istatd.Window.{
  Window, Tick, set_ticker, clear_ticker, set_auto_refresh, auto_refresh, reset_date_range,
  calc_reload_interval, new, zoom_in, zoom_out, choose_interval, advance,
}

-- What the user, the clock and a dashboard do to the window.
pub data Action : Type 0 where
  press : (handle : ℕ) → Action
  load : (handle : ℕ) → Bool → Action
  reset : (handle : ℕ) → (from to : Date) → Action
  zoom : Span → Action
  unzoom : Action
  choose : ℕ → Action
  follow : (clock : Date) → Action

pub act : Action → Window → Window × List Tick
act (press handle) w = auto_refresh handle w
act (load handle on) w = set_auto_refresh handle on (calc_reload_interval w)
act (reset handle from to) w = reset_date_range handle from to w
act (zoom range) w = (zoom_in range w, [])
act unzoom w = (zoom_out w, [])
act (choose i) w = (choose_interval i w, [])
act (follow clock) w = (advance clock w, [])

pub run : List Action → Window → Window × List Tick
run [] w = (w, [])
run (a ∷ actions) w =
    let (w', ticks) = act a w in let (w'', more) = run actions w' in (w'', ticks ++ more)

erase_all : ℕ → List ℕ → List ℕ
erase_all h [] = []
erase_all h (k ∷ ks) = if k == h then erase_all h ks else k ∷ erase_all h ks

-- The interval timers that run in the browser after the calls, of those that ran before.
pub running : List Tick → List ℕ → List ℕ
unfolding erase_all
running [] hs = hs
running (set_ticker h period ∷ ticks) hs = running ticks (h ∷ hs)
running (clear_ticker h ∷ ticks) hs = running ticks (erase_all h hs)

abbrev pub tickers : Option ℕ → List ℕ
tickers none = []
tickers (some h) = h ∷ []

running-append :
    (ts us : List Tick) (hs : List ℕ) → running (ts ++ us) hs ≡ running us (running ts hs)
unfolding running
running-append [] us hs = refl
running-append (set_ticker h p ∷ ts) us hs = running-append ts us (h ∷ hs)
running-append (clear_ticker h ∷ ts) us hs = running-append ts us (erase_all h hs)

-- The timer that the window knows is the one that runs, and it runs while the refresh is on.
pub record IsConsistent (w : Window) (hs : List ℕ) : Type 0 where
  pub known : hs ≡ tickers w.ticker
  pub on : w.is_auto_refresh ≡ true → w.ticker ≢ none
  pub off : w.is_auto_refresh ≡ false → w.ticker ≡ none

set_auto_refresh-IsConsistent :
    (handle : ℕ) (on : Bool) (w : Window) (hs : List ℕ) (r : Window × List Tick)
    → r ≡ set_auto_refresh handle on w
    → hs ≡ tickers w.ticker
    → IsConsistent r.0 (running r.1 hs)
unfolding set_auto_refresh running
set_auto_refresh-IsConsistent handle on w hs r e h = record {
  known = ground arith;
  on = ground arith;
  off = ground arith;
}

advance-ticker :
    (clock : Date) (w : Window)
    → ((advance clock w).ticker ≡ w.ticker)
      × ((advance clock w).is_auto_refresh ≡ w.is_auto_refresh)
unfolding advance
advance-ticker clock w = ground arith

new-IsConsistent : (clock : Date) → IsConsistent (new clock) []
unfolding new
new-IsConsistent clock = record { known = refl; on = λ h. cc; off = λ _. refl }

module _ (w : Window) {hs : List ℕ} (v : IsConsistent w hs) where
  -- The other operations leave the timer alone.
  keep :
      (w' : Window)
      → w'.ticker ≡ w.ticker
      → w'.is_auto_refresh ≡ w.is_auto_refresh
      → IsConsistent w' hs
  keep w' e f = record {
    known = rw e v.known;
    on = λ h. rw e (v.on (sym f ∙ h));
    off = λ h. rw e (v.off (sym f ∙ h));
  }

  act-IsConsistent : (a : Action) → IsConsistent (act a w).0 (running (act a w).1 hs)
  unfolding act running auto_refresh reset_date_range zoom_in zoom_out choose_interval
  act-IsConsistent (press handle) = pressed w.is_auto_refresh
    where
      pressed :
          (b : Bool)
          → IsConsistent
              (if b
                then set_auto_refresh handle false w
                else set_auto_refresh handle true (calc_reload_interval w)).0
              (running
                (if b
                  then set_auto_refresh handle false w
                  else set_auto_refresh handle true (calc_reload_interval w)).1
                hs)
      pressed true = set_auto_refresh-IsConsistent handle false w hs _ refl v.known
      pressed false =
          set_auto_refresh-IsConsistent handle true (calc_reload_interval w) hs _ refl v.known
  act-IsConsistent (load handle on) =
      set_auto_refresh-IsConsistent handle on (calc_reload_interval w) hs _ refl v.known
  act-IsConsistent (reset handle from to) =
      let stopped = set_auto_refresh-IsConsistent handle false w hs _ refl v.known in
      record { known = stopped.known; on = stopped.on; off = stopped.off }
  act-IsConsistent (zoom range) = keep _ refl refl
  act-IsConsistent unzoom = keep _ refl refl
  act-IsConsistent (choose i) = keep _ refl refl
  act-IsConsistent (follow clock) = keep _ (advance-ticker clock w).0 (advance-ticker clock w).1

run-IsConsistent :
    (actions : List Action) (w : Window) (hs : List ℕ)
    → IsConsistent w hs
    → IsConsistent (run actions w).0 (running (run actions w).1 hs)
unfolding run running
run-IsConsistent [] w hs v = v
run-IsConsistent (a ∷ actions) w hs v =
    rw (running-append (act a w).1 (run actions (act a w).0).1 hs)
      (run-IsConsistent actions (act a w).0 (running (act a w).1 hs) (act-IsConsistent w v a))

-- Whatever is done to the window from the start of the page on: the interval timers that run in the
-- browser are none or one, the one that the page knows; it runs while the automatic refresh is
-- switched on, and none runs while it is off.
pub run-new-IsConsistent :
    (clock : Date) (actions : List Action)
    → IsConsistent (run actions (new clock)).0 (running (run actions (new clock)).1 [])
run-new-IsConsistent clock actions =
    run-IsConsistent actions (new clock) [] (new-IsConsistent clock)
