-- ===== src/Loader/Tests.antt =====
-- Sessions of a loader whose callbacks and answers are numbers.
use istatd.Prelude.{Text, ℕ, ◌≡◌, ◌++◌, refl, arith, none, some, List, [], ◌∷◌, All, text_eq}
use istatd.Prelude.Int.{pos, ◌+ℤ◌, ◌-ℤ◌}
use istatd.Prelude.Words.{codes}
use istatd.Prelude.Object.{put, get, put_index}
use istatd.Dates.{Span}
use istatd.Loader.{Loader, Request, Response, new, add_to_next_get, on_timer, on_xhr_complete}
use istatd.Loader.Session.{Event, add, timer, complete, IsGood, step, run, called, outstanding}
use istatd.Loader.Fifo.{called-run}
use istatd.Loader.Valid.{IsValid, run-IsValid}
use istatd.Loader.Stall.{run-on_xhr_complete_stranded}
use istatd.Loader.Fetch.{Carries, dates_of, sent, run-Carries}

abbrev dates : Span
dates = record { start = pos 0; stop = pos 60_500 }

abbrev good : Response ℕ
good = record { status = 200; body = some 7 }

abbrev bad : Response ℕ
bad = record { status = 503; body = none }

-- Two graphs ask, the timer fires, a third asks while the request is under way.
abbrev asking : List (Event ℕ ℕ)
asking =
    add (pos 1000) 1 (codes "cpu" ∷ []) 500 600 11
    ∷ add (pos 1100) 2 (codes "cpu" ∷ codes "net" ∷ []) 500 300 12
    ∷ timer dates
    ∷ add (pos 1200) 3 (codes "mem" ∷ []) 500 100 13
    ∷ []

abbrev session : List (Event ℕ ℕ)
session = asking ++ complete dates good ∷ []

session-IsGood : All IsGood session
session-IsGood = (tt, (tt, (tt, (tt, ((omega arith, (7, refl)), tt)))))

-- The request was for both keys, and the answer went to both callbacks before the third request.
session-called : called (run session new).1 ≡ 11 ∷ 12 ∷ []
unfolding run step add_to_next_get on_timer on_xhr_complete put get put_index text_eq ◌+ℤ◌ ◌-ℤ◌
session-called = refl

session-outstanding : outstanding (run session new).0 ≡ 13 ∷ []
unfolding run step add_to_next_get on_timer on_xhr_complete put get put_index text_eq ◌+ℤ◌ ◌-ℤ◌
session-outstanding = refl

called-run_example :
    called (run session new).1 ++ outstanding (run session new).0 ≡ 11 ∷ 12 ∷ 13 ∷ []
called-run_example = called-run session session-IsGood (omega arith)

run-IsValid_example : IsValid (run session new).0
run-IsValid_example = run-IsValid session session-IsGood

-- The third graph's timer fired while the request was under way; then the request fails.
abbrev fired : Loader ℕ
fired = (run (asking ++ timer dates ∷ []) new).0

fired-unset : fired.next_event ≡ none
unfolding run step add_to_next_get on_timer put get put_index text_eq ◌+ℤ◌ ◌-ℤ◌
fired-unset = refl

run-on_xhr_complete_stranded_example :
    run (timer dates ∷ complete dates good ∷ []) (on_xhr_complete dates [] bad fired).0
    ≡ (record fired { xhr = none }, [])
run-on_xhr_complete_stranded_example =
    run-on_xhr_complete_stranded dates [] bad fired (timer dates ∷ complete dates good ∷ [])
      (omega arith) fired-unset refl

-- The request of the first two completes, and that of the third is sent.
run-Carries_example :
    All
      (Carries
        (dates_of {C = ℕ} (complete dates good))
        (step (complete dates good) (run {D = ℕ} asking new).0).0.xhr)
      (sent (step (complete dates good) (run {D = ℕ} asking new).0).1)
run-Carries_example = run-Carries ℕ asking (complete dates good) (omega arith)

abbrev get_keys : List Request → List (List Text)
get_keys [] = []
get_keys (request ∷ requests) = request.keys ∷ get_keys requests

sent_test :
    (get_keys (sent (step (complete dates good) (run {D = ℕ} asking new).0).1))
    ≡ (codes "mem" ∷ []) ∷ []
unfolding run step add_to_next_get on_timer on_xhr_complete put get put_index text_eq ◌+ℤ◌ ◌-ℤ◌
sent_test = refl
