-- ===== src/Loader/Valid.antt =====
-- The invariant of the loader: timers, the keys that wait, and that nothing waits in vain.
use istatd.Prelude.{
  ℕ, true, Option, none, some, List, [], ◌∷◌, ◌++◌, ◌≡◌, ◌≢◌, ◌⊎◌, inl, refl, arith, Text, All,
  All-map, contains, text_eq_iff, text_eq_instance,
}
use istatd.Prelude.Int.{ℤ, pos}
use istatd.Prelude.Object.{Object, keys, values, put_index, contains-keys-put, put, get}
use istatd.Dates.{Span}
use istatd.Loader.{
  Entry, Flight, Loader, Effect, Response, new, next_id, queue_key, queue_keys, add_to_next_get,
  start_request, on_timer, on_xhr_complete,
}
use istatd.Loader.Session.{Event, add, timer, complete, IsGood, step, run}

module _ {C : Type 0} where
  -- The key will be asked for.
  abbrev pub Queued : Object Text (List (Entry C)) → Text → Type 0
  Queued getting key = contains (keys getting) key ≡ true

  abbrev pub Covered : Object Text (List (Entry C)) → List (Entry C) → Type 0
  Covered getting entries = All (λ entry. All (Queued getting) entry.keys) entries

  pub record IsValid (l : Loader C) : Type 0 where
    -- No deadline stands without a timer.
    pub no_deadline : l.next_event ≡ none → l.next_event_time ≡ pos 0
    -- Every key of a waiting callback is queued.
    pub covered : Covered l.getting (values l.cb_objs)
    -- Where keys are queued, a timer is set or a request is under way.
    pub waits : l.getting ≢ [] → (l.next_event ≢ none) ⊎ (l.xhr ≢ none)

  queue_key-Queued :
      (entry : Entry C) (key k : Text) (g : Object Text (List (Entry C)))
      → Queued g k
      → Queued (queue_key entry key g) k
  unfolding queue_key
  queue_key-Queued entry key k g h = queued (get key g)
    where
      queued :
          (o : Option (List (Entry C)))
          → Queued
              (elim o [
                | none ↦ put key (entry ∷ []) g
                | some entries ↦ put key (entries ++ entry ∷ []) g
              ])
              k
      queued none = ground (arith, contains-keys-put key k (entry ∷ []) g)
      queued (some es) = ground (arith, contains-keys-put key k (es ++ entry ∷ []) g)

  queue_key-Queued_self :
      (entry : Entry C) (key : Text) (g : Object Text (List (Entry C)))
      → Queued (queue_key entry key g) key
  unfolding queue_key
  queue_key-Queued_self entry key g = queued (get key g)
    where
      queued :
          (o : Option (List (Entry C)))
          → Queued
              (elim o [
                | none ↦ put key (entry ∷ []) g
                | some entries ↦ put key (entries ++ entry ∷ []) g
              ])
              key
      queued none = ground (arith, text_eq_iff key key, contains-keys-put key key (entry ∷ []) g)
      queued (some es) =
          ground (arith, text_eq_iff key key, contains-keys-put key key (es ++ entry ∷ []) g)

  queue_keys-Queued :
      (entry : Entry C) (ks : List Text) (k : Text) (g : Object Text (List (Entry C)))
      → Queued g k
      → Queued (queue_keys entry ks g) k
  unfolding queue_keys
  queue_keys-Queued entry [] k g h = h
  queue_keys-Queued entry (key ∷ ks) k g h =
      queue_keys-Queued entry ks k (queue_key entry key g) (queue_key-Queued entry key k g h)

  queue_keys-All :
      (entry : Entry C) (ks : List Text) (g : Object Text (List (Entry C)))
      → All (Queued (queue_keys entry ks g)) ks
  unfolding queue_keys
  queue_keys-All entry [] g = tt
  queue_keys-All entry (key ∷ ks) g = (
    queue_keys-Queued entry ks key (queue_key entry key g) (queue_key-Queued_self entry key g),
    queue_keys-All entry ks (queue_key entry key g),
  )

  All-put_index :
      (P : Entry C → Type 0) (id : ℕ) (entry : Entry C) (m : Object ℕ (Entry C))
      → P entry
      → All P (values m)
      → All P (values (put_index id entry m))
  unfolding put_index
  All-put_index P id entry [] p h = (p, tt)
  All-put_index P id entry ((j, w) ∷ m) p h = ground (arith, All-put_index P id entry m p)

  Covered-queue_keys :
      (id : ℕ) (entry : Entry C) (g : Object Text (List (Entry C))) (m : Object ℕ (Entry C))
      → Covered g (values m)
      → Covered (queue_keys entry entry.keys g) (values (put_index id entry m))
  Covered-queue_keys id entry g m h =
      All-put_index _ id entry m (queue_keys-All entry entry.keys g) (
        All-map (λ other. All-map (λ k. queue_keys-Queued entry entry.keys k g) other.keys)
          (values m) h)

module _ {C : Type 0} where
  record Queues (entry : Entry C) (l : Loader C) (r : Loader C) : Type 0 where
    getting : r.getting ≡ queue_keys entry entry.keys l.getting
    cb_objs : r.cb_objs ≡ put_index entry.id entry l.cb_objs
    set : r.next_event ≢ none

pub new-IsValid : {C : Type 0} → IsValid (new {C = C})
new-IsValid = record {
  no_deadline = λ _. refl;
  covered = tt;
  waits = λ filled. absurd (filled refl);
}

module _ {C D : Type 0} where
  add_to_next_get-Queues :
      (now : ℤ) (handle : ℕ) (ks : List Text) (max_time most : ℕ) (cb : C) (l : Loader C)
      (r : Loader C × List (Effect C D))
      → r ≡ add_to_next_get now handle ks max_time most cb l
      → Queues (record { keys = ks; cb = cb; id = next_id l.id; max_samples = most }) l r.0
  unfolding add_to_next_get
  add_to_next_get-Queues now handle ks max_time most cb l r e = record {
    getting = ground arith;
    cb_objs = ground arith;
    set = ground arith;
  }

  add-IsValid :
      (now : ℤ) (handle : ℕ) (ks : List Text) (max_time most : ℕ) (cb : C) (l : Loader C)
      (r : Loader C × List (Effect C D))
      → r ≡ add_to_next_get now handle ks max_time most cb l
      → IsValid l
      → IsValid r.0
  add-IsValid now handle ks max_time most cb l r e v =
      let q = add_to_next_get-Queues now handle ks max_time most cb l r e in
      record {
        no_deadline = λ unset. absurd (q.set unset);
        covered = rw (q.getting, q.cb_objs) (Covered-queue_keys _ _ l.getting l.cb_objs v.covered);
        waits = λ _. inl q.set;
      }

  start_request-IsValid :
      (dates : Span) (l : Loader C) (r : Loader C × List (Effect C D))
      → r ≡ start_request dates l
      → l.xhr ≡ none
      → (l.next_event ≡ none → l.next_event_time ≡ pos 0)
      → Covered l.getting (values l.cb_objs)
      → IsValid r.0
  unfolding start_request
  start_request-IsValid dates l r e idle deadline cover = record {
    no_deadline = ground arith;
    covered = ground arith;
    waits = ground arith;
  }

  timer-IsValid :
      (dates : Span) (l : Loader C) (r : Loader C × List (Effect C D))
      → r ≡ on_timer dates l
      → IsValid l
      → IsValid r.0
  unfolding on_timer
  timer-IsValid dates l r e v = record {
    no_deadline = ground arith;
    covered = ground arith;
    waits = ground arith;
  }

  complete-IsValid :
      (dates : Span) (response : Response D) (flight : Flight C) (l : Loader C)
      (r : Loader C × List (Effect C D))
      → r ≡ on_xhr_complete dates flight.cb_objs response l
      → l.xhr ≡ some flight
      → IsGood {C = C} (complete dates response)
      → IsValid l
      → IsValid r.0
  unfolding on_xhr_complete
  complete-IsValid dates response flight l r e flying good v =
      let (answer, read) = good.1 in
      record { no_deadline = ground arith; covered = ground arith; waits = ground arith }

  -- A request that completed well, a timer that fired and a callback that was handed over leave
  -- the loader valid.
  pub step-IsValid :
      (event : Event C D) (l : Loader C) → IsGood event → IsValid l → IsValid (step event l).0
  unfolding step
  step-IsValid (add now handle ks max_time most cb) l good v =
      add-IsValid now handle ks max_time most cb l _ refl v
  step-IsValid (timer dates) l good v = fired l.next_event
    where
      fired :
          (set : Option ℕ)
          → IsValid (
              let r : Loader C × List (Effect C D) = elim set [
                | none ↦ (l, [])
                | some _ ↦ on_timer dates l
              ] in
              r.0)
      fired none = v
      fired (some _) = timer-IsValid dates l _ refl v
  step-IsValid (complete dates response) l good v = finished l.xhr refl
    where
      finished :
          (xhr : Option (Flight C))
          → l.xhr ≡ xhr
          → IsValid (
              let r : Loader C × List (Effect C D) = elim xhr [
                | none ↦ (l, [])
                | some flight ↦ on_xhr_complete dates flight.cb_objs response l
              ] in
              r.0)
      finished none e = v
      finished (some flight) e = complete-IsValid dates response flight l _ refl e good v

  run-IsValid_from :
      (events : List (Event C D)) (l : Loader C)
      → All IsGood events
      → IsValid l
      → IsValid (run events l).0
  unfolding run
  run-IsValid_from [] l good v = v
  run-IsValid_from (event ∷ events) l good v =
      run-IsValid_from events (step event l).0 good.1 (step-IsValid event l good.0 v)

  -- In every state of a session from a new loader in which no request fails: no deadline stands
  -- without a timer, every key of a waiting callback is queued, and while keys are queued a timer
  -- is set or a request is under way.
  pub run-IsValid : (events : List (Event C D)) → All IsGood events → IsValid (run events new).0
  run-IsValid events good = run-IsValid_from events new good new-IsValid
