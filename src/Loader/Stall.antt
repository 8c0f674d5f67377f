-- ===== src/Loader/Stall.antt =====
-- What a request that fails leaves behind.
use istatd.Prelude.{ℕ, ◌<◌, none, List, [], ◌∷◌, ◌≡◌, refl, arith, lt→ltb}
use istatd.Prelude.Object.{Object}
use istatd.Dates.{Span}
use istatd.Loader.{Entry, Loader, throw, bad_status, Response, on_xhr_complete}
use istatd.Loader.Session.{Event, timer, complete, step, run, added}

module _ {C D : Type 0} where
  -- A request that is answered with a status above 299 calls nothing and sends nothing: the error is
  -- thrown, the request is given up with its callbacks, and all else stays as it was.
  pub on_xhr_complete-bad_status :
      (dates : Span) (cb_objs : Object ℕ (Entry C)) (response : Response D) (l : Loader C)
      → 299 < response.status
      → on_xhr_complete dates cb_objs response l
        ≡ (record l { xhr = none }, throw (bad_status response.status) ∷ [])
  unfolding on_xhr_complete
  on_xhr_complete-bad_status dates cb_objs response l h = rw (lt→ltb 299 response.status h)

  stuck :
      (events : List (Event C D)) (l : Loader C)
      → added events ≡ []
      → l.next_event ≡ none
      → l.xhr ≡ none
      → run events l ≡ (l, [])
  unfolding run step
  stuck [] l quiet unset idle = refl
  stuck (Event.add _ _ _ _ _ cb ∷ events) l quiet unset idle = cc
  stuck (timer dates ∷ events) l quiet unset idle = ground (arith, stuck events l quiet unset idle)
  stuck (complete dates response ∷ events) l quiet unset idle =
      ground (arith, stuck events l quiet unset idle)

  -- A failed request strands what came to wait while it was under way: if no timer is set, then
  -- nothing that the browser does afterwards changes the loader or has an effect, until a graph asks
  -- again. The keys and callbacks that waited are still there.
  pub run-on_xhr_complete_stranded :
      (dates : Span) (cb_objs : Object ℕ (Entry C)) (response : Response D) (l : Loader C)
      (events : List (Event C D))
      → 299 < response.status
      → l.next_event ≡ none
      → added events ≡ []
      → (run events (on_xhr_complete dates cb_objs response l).0 ≡ (record l { xhr = none }, []))
  run-on_xhr_complete_stranded dates cb_objs response l events bad unset quiet =
      rw (on_xhr_complete-bad_status dates cb_objs response l bad)
        (stuck events (record l { xhr = none }) quiet unset refl)
