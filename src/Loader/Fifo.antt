-- ===== src/Loader/Fifo.antt =====
-- The order of delivery: while requests succeed, callbacks are called in the order in which they
-- were handed over, each once.
use istatd.Prelude.{
  ℕ, ◌+◌, ◌≤◌, ◌<◌, Option, none, some, List, [], ◌∷◌, ◌++◌, ◌≡◌, refl, sym, ap, arith, Text,
  append_assoc, append-nil, length, All,
}
use istatd.Prelude.Object.{
  Object, values, put_index, KeysBelow, values-put_index, put_index-KeysBelow,
}
use istatd.Prelude.Int.{ℤ}
use istatd.Dates.{Span}
use istatd.Loader.{
  Entry, Flight, Loader, Effect, Response, new, add_to_next_get, start_request, on_timer,
  deliver_data, on_xhr_complete,
}
use istatd.Loader.Session.{
  Event, add, timer, complete, IsGood, step, run, added, called, callbacks, outstanding,
}

module _ {C D : Type 0} where
  called-append : (fx gx : List (Effect C D)) → called (fx ++ gx) ≡ called fx ++ called gx
  called-append [] gx = refl
  called-append (Effect.clear_timer _ ∷ fx) gx = called-append fx gx
  called-append (Effect.set_timer _ _ ∷ fx) gx = called-append fx gx
  called-append (Effect.send _ ∷ fx) gx = called-append fx gx
  called-append (Effect.call cb _ ∷ fx) gx = ap (cb ∷◌) (called-append fx gx)
  called-append (Effect.throw _ ∷ fx) gx = called-append fx gx

  called-deliver_data :
      (answer : D) (m : Object ℕ (Entry C)) → called (deliver_data answer m) ≡ callbacks (values m)
  unfolding deliver_data
  called-deliver_data answer [] = refl
  called-deliver_data answer ((_, entry) ∷ m) = ap (entry.cb ∷◌) (called-deliver_data answer m)

module _ {C : Type 0} where
  callbacks-append : (xs ys : List (Entry C)) → callbacks (xs ++ ys) ≡ callbacks xs ++ callbacks ys
  callbacks-append [] ys = refl
  callbacks-append (entry ∷ xs) ys = ap (entry.cb ∷◌) (callbacks-append xs ys)

  callbacks-put_index :
      (id : ℕ) (entry : Entry C) (m : Object ℕ (Entry C))
      → KeysBelow id m
      → callbacks (values (put_index id entry m)) ≡ callbacks (values m) ++ entry.cb ∷ []
  callbacks-put_index id entry m h =
      rw (values-put_index id entry m h) (callbacks-append (values m) (entry ∷ []))

module _ {C D : Type 0} where
  -- What handing over a callback does to the parts that deliver it.
  record Adds (ks : List Text) (most : ℕ) (cb : C) (l : Loader C) (r : Loader C × List (Effect C D))
      : Type 0 where
    same_xhr : r.0.xhr ≡ l.xhr
    next : r.0.id ≡ l.id + 1
    put :
        r.0.cb_objs
        ≡ put_index
            (l.id + 1)
            (record { keys = ks; cb = cb; id = l.id + 1; max_samples = most })
            l.cb_objs
    silent : called r.1 ≡ []

  add_to_next_get-Adds :
      (now : ℤ) (handle : ℕ) (ks : List Text) (max_time most : ℕ) (cb : C) (l : Loader C)
      → l.id < 1_000_000
      → Adds ks most cb l (add_to_next_get now handle ks max_time most cb l)
  unfolding add_to_next_get
  add_to_next_get-Adds now handle ks max_time most cb l h = ground arith

  -- Starting a request moves what waits into the request, and calls nothing.
  start_request-outstanding :
      (dates : Span) (l : Loader C) (r : Loader C × List (Effect C D))
      → r ≡ start_request dates l
      → l.xhr ≡ none
      → (called r.1 ≡ [])
        × (outstanding r.0 ≡ callbacks (values l.cb_objs))
        × (r.0.id ≡ l.id)
        × ((n : ℕ) → KeysBelow n l.cb_objs → KeysBelow n r.0.cb_objs)
  unfolding start_request
  start_request-outstanding dates l r e h = (
    ground arith,
    ground (arith, append-nil (callbacks (values l.cb_objs))),
    ground arith,
    λ n k. ground arith,
  )

  -- A step accounts for every callback: what it calls, with what is outstanding after it, is what
  -- was outstanding before it, with what it adds; and ids are still given out in order.
  record Accounts (event : Event C D) (l : Loader C) (r : Loader C × List (Effect C D))
      : Type 0 where
    account : called r.1 ++ outstanding r.0 ≡ outstanding l ++ added (event ∷ [])
    next_id_bound : r.0.id ≤ l.id + 1
    below : KeysBelow (r.0.id + 1) r.0.cb_objs

  add-Accounts :
      (now : ℤ) (handle : ℕ) (ks : List Text) (max_time most : ℕ) (cb : C) (l : Loader C)
      (r : Loader C × List (Effect C D))
      → KeysBelow (l.id + 1) l.cb_objs
      → Adds ks most cb l r
      → Accounts (add now handle ks max_time most cb) l r
  add-Accounts now handle ks max_time most cb l r k a =
      let entry : Entry C = record { keys = ks; cb = cb; id = l.id + 1; max_samples = most } in
      record {
        account = rw (
          a.silent,
          a.same_xhr,
          a.put,
          callbacks-put_index (l.id + 1) entry l.cb_objs k,
          append_assoc,
        );
        next_id_bound = rw a.next (omega arith);
        below = rw (a.next, a.put) (put_index-KeysBelow (l.id + 1) entry l.cb_objs k);
      }

  timer-Accounts :
      (dates : Span) (l : Loader C)
      → KeysBelow (l.id + 1) l.cb_objs
      → Accounts (timer dates) l (on_timer dates l)
  unfolding on_timer
  timer-Accounts dates l k = record {
    account = ground (arith, append-nil (callbacks (values l.cb_objs)), append-nil (outstanding l));
    next_id_bound = ground arith;
    below = ground arith;
  }

  complete-Accounts :
      (dates : Span) (response : Response D) (l : Loader C) (flight : Flight C)
      → l.xhr ≡ some flight
      → IsGood {C = C} (complete dates response)
      → KeysBelow (l.id + 1) l.cb_objs
      → Accounts (complete dates response) l (on_xhr_complete dates flight.cb_objs response l)
  unfolding on_xhr_complete
  complete-Accounts dates response l flight e good k =
      let (answer, read) = good.1 in
      record {
        account = ground (
          arith,
          append-nil (callbacks (values l.cb_objs)),
          append-nil (outstanding l),
          called-append (deliver_data answer flight.cb_objs)
              (start_request dates (record l { xhr = none })).1,
          called-deliver_data answer flight.cb_objs,
          append-nil (callbacks (values flight.cb_objs)),
        );
        next_id_bound = ground arith;
        below = ground arith;
      }

  Accounts-refl :
      (event : Event C D) (l : Loader C)
      → added (event ∷ []) ≡ []
      → KeysBelow (l.id + 1) l.cb_objs
      → Accounts event l (l, [])
  Accounts-refl event l e k = record {
    account = rw (e, append-nil);
    next_id_bound = omega arith;
    below = k;
  }

  -- By cases on the timer, and on the request that may be under way.
  fire-Accounts :
      (dates : Span) (l : Loader C) (set : Option ℕ)
      → KeysBelow (l.id + 1) l.cb_objs
      → Accounts (timer dates) l (elim set [ none ↦ (l, []) | some _ ↦ on_timer dates l ])
  fire-Accounts dates l none k = Accounts-refl (timer dates) l refl k
  fire-Accounts dates l (some _) k = timer-Accounts dates l k

  finish-Accounts :
      (dates : Span) (response : Response D) (l : Loader C) (xhr : Option (Flight C))
      → l.xhr ≡ xhr
      → IsGood {C = C} (complete dates response)
      → KeysBelow (l.id + 1) l.cb_objs
      → Accounts (complete dates response) l (elim xhr [
        | none ↦ (l, [])
        | some flight ↦ on_xhr_complete dates flight.cb_objs response l
      ])
  finish-Accounts dates response l none e good k = Accounts-refl (complete dates response) l refl k
  finish-Accounts dates response l (some flight) e good k =
      complete-Accounts dates response l flight e good k

  step-Accounts :
      (event : Event C D) (l : Loader C)
      → IsGood event
      → l.id < 1_000_000
      → KeysBelow (l.id + 1) l.cb_objs
      → Accounts event l (step event l)
  unfolding step
  step-Accounts (add now handle ks max_time most cb) l good h k =
      add-Accounts now handle ks max_time most cb l _ k
        (add_to_next_get-Adds now handle ks max_time most cb l h)
  step-Accounts (timer dates) l good h k = fire-Accounts dates l l.next_event k
  step-Accounts (complete dates response) l good h k =
      finish-Accounts dates response l l.xhr refl good k

  added-cons :
      (event : Event C D) (events : List (Event C D))
      → added (event ∷ events) ≡ added (event ∷ []) ++ added events
  added-cons (add _ _ _ _ _ _) events = refl
  added-cons (timer _) events = refl
  added-cons (complete _ _) events = refl

  run-account :
      (events : List (Event C D)) (l : Loader C)
      → All IsGood events
      → l.id + length events ≤ 1_000_000
      → KeysBelow (l.id + 1) l.cb_objs
      → called (run events l).1 ++ outstanding (run events l).0 ≡ outstanding l ++ added events
  unfolding run
  run-account [] l good h k = sym (append-nil (outstanding l))
  run-account (event ∷ events) l good h k =
      let done = step-Accounts event l good.0 (omega arith) k in
      let rest =
        run-account events (step event l).0 good.1 (omega (arith, done.next_id_bound)) done.below in
      rw (
        called-append (step event l).1 (run events (step event l).0).1,
        append_assoc,
        rest,
        ← append_assoc,
        done.account,
        append_assoc,
        ← added-cons,
      )

  -- From a new loader, as long as the requests succeed and up to a million events: the callbacks
  -- that were called, in the order of the calls, followed by those of the request under way and
  -- those that wait, are the callbacks that were handed over, in that order and each once.
  pub called-run :
      (events : List (Event C D))
      → All IsGood events
      → length events ≤ 1_000_000
      → called (run events new).1 ++ outstanding (run events new).0 ≡ added events
  called-run events good h = run-account events new good (omega arith) tt
