-- ===== src/Loader/Fetch.antt =====
-- What the request asks for.
use istatd.Prelude.{
  Bool, ℕ, ◌≤◌, true, false, Option, Text, ◌++◌, sym, subst, none, some, List, [], ◌∷◌, ◌≡◌, refl,
  arith, All, contains, text_eq_instance, ltb, if◌then◌else◌,
}
use istatd.Prelude.Object.{Object, keys, values}
use istatd.Prelude.Int.{pos}
use istatd.Dates.{Date, Span, seconds}
use istatd.Loader.{
  Flight, Effect, Response, clear_timer, set_timer, call, throw, bad_status, bad_json, new,
  deliver_data, add_to_next_get, on_timer, on_xhr_complete, Entry, Loader, send, Request,
  most_samples, start_request,
}
use istatd.Loader.Session.{Event, add, timer, complete, IsGood, step, run}
use istatd.Loader.Valid.{IsValid, Covered, run-IsValid}

module _ {C : Type 0} where
  most_samples-ge : (most : ℕ) (m : Object ℕ (Entry C)) → most ≤ most_samples most m
  most_samples-ge most [] = omega arith
  most_samples-ge most ((_, entry) ∷ m) =
      ground
        (arith, most_samples-ge (if ltb most entry.max_samples then entry.max_samples else most) m)

  most_samples-All :
      (most : ℕ) (m : Object ℕ (Entry C))
      → All (λ entry. entry.max_samples ≤ most_samples most m) (values m)
  most_samples-All most [] = tt
  most_samples-All most ((_, entry) ∷ m) = (
    ground
        (arith, most_samples-ge (if ltb most entry.max_samples then entry.max_samples else most) m),
    most_samples-All (if ltb most entry.max_samples then entry.max_samples else most) m,
  )

  -- The request serves the callback: it asks for all its keys, at its resolution at least.
  pub record Serves (request : Request) (entry : Entry C) : Type 0 where
    pub all_keys : All (λ key. contains request.keys key ≡ true) entry.keys
    pub fine : entry.max_samples ≤ request.max_samples

  serves :
      (request : Request) (entries : List (Entry C))
      → All (λ entry. All (λ key. contains request.keys key ≡ true) entry.keys) entries
      → All (λ entry. entry.max_samples ≤ request.max_samples) entries
      → All (Serves request) entries
  serves request [] h k = tt
  serves request (entry ∷ entries) h k =
      (record { all_keys = h.0; fine = k.0 }, serves request entries h.1 k.1)

module _ {C : Type 0} where
  -- The request is for these dates, rounded down to seconds, and serves every callback that goes along with it.
  abbrev pub Carries : Option Span → Option (Flight C) → Request → Type 0
  Carries none xhr request = true ≡ false
  Carries (some dates) none request = true ≡ false
  Carries (some dates) (some flight) request =
      (request.start ≡ seconds dates.start)
      × (request.stop ≡ seconds dates.stop)
      × All (Serves request) (values flight.cb_objs)

-- The dates at which an event may send something.
abbrev pub dates_of : {C D : Type 0} → Event C D → Option Span
dates_of (add _ _ _ _ _ _) = none
dates_of (timer dates) = some dates
dates_of (complete dates _) = some dates

module _ {C D : Type 0} where
  abbrev pub sent : List (Effect C D) → List Request
  sent [] = []
  sent (send request ∷ effects) = request ∷ sent effects
  sent (clear_timer _ ∷ effects) = sent effects
  sent (set_timer _ _ ∷ effects) = sent effects
  sent (call _ _ ∷ effects) = sent effects
  sent (throw _ ∷ effects) = sent effects

module _ {C : Type 0} (D : Type 0) where
  start_request-Carries :
      (dates : Span) (l : Loader C)
      → Covered l.getting (values l.cb_objs)
      → let r = start_request {C = C} {D = D} dates l in
        All (Carries (some dates) r.0.xhr) (sent r.1)
  unfolding start_request
  start_request-Carries dates l covered = branch l.xhr l.getting covered
    where
      branch :
          (xhr : Option (Flight C)) (getting : Object Text (List (Entry C)))
          → Covered getting (values l.cb_objs)
          → let r =
              start_request {C = C} {D = D} dates (record l { xhr = xhr; getting = getting }) in
            All (Carries (some dates) r.0.xhr) (sent r.1)
      branch (some flight) getting h = tt
      branch none [] h = tt
      branch none ((key, entries) ∷ getting) h = (
        (
          refl,
          refl,
          serves
              (record {
                start = seconds dates.start;
                stop = seconds dates.stop;
                keys = key ∷ keys getting;
                max_samples = most_samples 1 l.cb_objs;
              })
              (values l.cb_objs) h (most_samples-All 1 l.cb_objs),
        ),
        tt,
      )

  sent-deliver_data :
      (answer : D) (cb_objs : Object ℕ (Entry C)) (effects : List (Effect C D))
      → sent (deliver_data answer cb_objs ++ effects) ≡ sent effects
  unfolding deliver_data
  sent-deliver_data answer [] effects = refl
  sent-deliver_data answer ((_, entry) ∷ cb_objs) effects = sent-deliver_data answer cb_objs effects

  sent-add :
      (now : Date) (handle : ℕ) (ks : List Text) (max_time most : ℕ) (cb : C) (l : Loader C)
      → sent (add_to_next_get {D = D} now handle ks max_time most cb l).1 ≡ []
  unfolding add_to_next_get
  sent-add now handle ks max_time most cb l = ground arith

  on_timer-Carries :
      (dates : Span) (l : Loader C)
      → IsValid l
      → let r = on_timer {C = C} {D = D} dates l in All (Carries (some dates) r.0.xhr) (sent r.1)
  unfolding on_timer
  on_timer-Carries dates l v = branch l.xhr
    where
      branch :
          (xhr : Option (Flight C))
          → let fired = record l { next_event = none; next_event_time = pos 0 } in
            let r : Loader C × List (Effect C D) = elim xhr [
              | some _ ↦ (fired, [])
              | none ↦ start_request dates fired
            ] in
            All (Carries (some dates) r.0.xhr) (sent r.1)
      branch (some flight) = tt
      branch none =
          start_request-Carries dates (record l { next_event = none; next_event_time = pos 0 })
            v.covered

  complete-Carries :
      (dates : Span) (cb_objs : Object ℕ (Entry C)) (response : Response D) (l : Loader C)
      → IsValid l
      → let r = on_xhr_complete dates cb_objs response l in
        All (Carries (some dates) r.0.xhr) (sent r.1)
  unfolding on_xhr_complete
  complete-Carries dates cb_objs response l v = status (ltb 299 response.status)
    where
      status :
          (bad : Bool)
          → let idle = record l { xhr = none } in
            let r : Loader C × List (Effect C D) =
              if bad then (idle, throw (bad_status response.status) ∷ []) else (elim response.body [
                | none ↦ (idle, throw bad_json ∷ [])
                | some answer ↦
                    let (l', more) = start_request dates idle in
                    (l', deliver_data answer cb_objs ++ more)
              ]) in
            All (Carries (some dates) r.0.xhr) (sent r.1)
      status true = tt
      status false = body response.body
        where
          body :
              (o : Option D)
              → let idle = record l { xhr = none } in
                let r : Loader C × List (Effect C D) = elim o [
                  | none ↦ (idle, throw bad_json ∷ [])
                  | some answer ↦
                      let (l', more) = start_request dates idle in
                      (l', deliver_data answer cb_objs ++ more)
                ] in
                All (Carries (some dates) r.0.xhr) (sent r.1)
          body none = tt
          body (some answer) =
              let idle = record l { xhr = none } in
              let r = start_request {C = C} {D = D} dates idle in
              subst (All (Carries (some dates) r.0.xhr))
                (sym (sent-deliver_data answer cb_objs r.1))
                (start_request-Carries dates idle v.covered)

  step-Carries :
      (event : Event C D) (l : Loader C)
      → IsValid l
      → All (Carries (dates_of event) (step event l).0.xhr) (sent (step event l).1)
  unfolding step
  step-Carries (add now handle ks max_time most cb) l v =
      subst (All (Carries none (add_to_next_get {D = D} now handle ks max_time most cb l).0.xhr))
        (sym (sent-add now handle ks max_time most cb l)) tt
  step-Carries (timer dates) l v = fired l.next_event
    where
      fired :
          (set : Option ℕ)
          → let r : Loader C × List (Effect C D) = elim set [
            | none ↦ (l, [])
            | some _ ↦ on_timer dates l
          ] in
            All (Carries (some dates) r.0.xhr) (sent r.1)
      fired none = tt
      fired (some _) = on_timer-Carries dates l v
  step-Carries (complete dates response) l v = finished l.xhr
    where
      finished :
          (xhr : Option (Flight C))
          → let r : Loader C × List (Effect C D) = elim xhr [
            | none ↦ (l, [])
            | some flight ↦ on_xhr_complete dates flight.cb_objs response l
          ] in
            All (Carries (some dates) r.0.xhr) (sent r.1)
      finished none = tt
      finished (some flight) = complete-Carries dates flight.cb_objs response l v

  -- After any session from a new loader in which no request fails, whatever event comes next: each request that it
  -- sends is for the dates of the event, rounded down to seconds, and asks for all keys of each callback that then
  -- goes along with the request, at its resolution at least.
  pub run-Carries :
      (events : List (Event C D)) (event : Event C D)
      → All IsGood events
      → All
          (Carries (dates_of event) (step event (run events new).0).0.xhr)
          (sent (step event (run events new).0).1)
  run-Carries events event good = step-Carries event (run events new).0 (run-IsValid events good)
