-- ===== src/Loader/Session.antt =====
-- A loader through a whole session: what the browser may do to it, one event at a time.
use istatd.Prelude.{◌≡◌, ◌≤◌, ℕ, Option, none, some, List, [], ◌∷◌, ◌++◌, Text}
use istatd.Prelude.Object.{values}
use istatd.Dates.{Date, Span}
use istatd.Loader.{
  Entry, Flight, Loader, Effect, clear_timer, set_timer, send, call, throw, Response,
  add_to_next_get, on_timer, on_xhr_complete,
}

-- `complete` stands for the handler of `onreadystatechange` in the state 4.
pub data Event (C : Type 0) (D : Type 0) : Type 0 where
  add : (now : Date) (handle : ℕ) → List Text → (max_time max_samples : ℕ) → C → Event C D
  timer : Span → Event C D
  complete : Span → Response D → Event C D

-- The server answered, and the answer could be read.
abbrev pub IsGood : {C D : Type 0} → Event C D → Type 0
IsGood (add _ _ _ _ _ _) = Unit
IsGood (timer _) = Unit
IsGood {D = D} (complete _ response) =
    (response.status ≤ 299) × ((answer : D) × (response.body ≡ some answer))

module _ {C D : Type 0} where
  -- A timer fires only while it is set, and a request completes only while it is under way.
  unfoldable pub step : Event C D → Loader C → Loader C × List (Effect C D)
  step (add now handle ks max_time max_samples cb) l =
      add_to_next_get now handle ks max_time max_samples cb l
  step (timer dates) l = elim l.next_event [ none ↦ (l, []) | some _ ↦ on_timer dates l ]
  step (complete dates response) l = elim l.xhr [
    | none ↦ (l, [])
    | some flight ↦ on_xhr_complete dates flight.cb_objs response l
  ]

  unfoldable pub run : List (Event C D) → Loader C → Loader C × List (Effect C D)
  run [] l = (l, [])
  run (event ∷ events) l =
      let (l', effects) = step event l in let (l'', more) = run events l' in (l'', effects ++ more)

  -- The callbacks that a session hands to the loader, and those that the loader calls.
  abbrev pub added : List (Event C D) → List C
  added [] = []
  added (add _ _ _ _ _ cb ∷ events) = cb ∷ added events
  added (timer _ ∷ events) = added events
  added (complete _ _ ∷ events) = added events

  abbrev pub called : List (Effect C D) → List C
  called [] = []
  called (call cb _ ∷ effects) = cb ∷ called effects
  called (clear_timer _ ∷ effects) = called effects
  called (set_timer _ _ ∷ effects) = called effects
  called (send _ ∷ effects) = called effects
  called (throw _ ∷ effects) = called effects

module _ {C : Type 0} where
  abbrev pub callbacks : List (Entry C) → List C
  callbacks [] = []
  callbacks (entry ∷ entries) = entry.cb ∷ callbacks entries

  abbrev pub flying : Option (Flight C) → List C
  flying none = []
  flying (some flight) = callbacks (values flight.cb_objs)

  -- The callbacks of the request that is under way, then those that wait.
  abbrev pub outstanding : Loader C → List C
  outstanding l = flying l.xhr ++ callbacks (values l.cb_objs)
