-- ===== src/Loader.antt =====
-- `Loader` of files/graph.js: the counters that the graphs ask for are gathered for a while and
-- fetched by one request at a time. `C` is the type of the callbacks, `D` that of the parsed answers.
pub mod Session
pub mod Fifo
pub mod Valid
pub mod Stall
pub mod Fetch
mod Tests
use istatd.Prelude.{
  ℕ, ◌+◌, Bool, true, false, Option, none, some, List, [], ◌∷◌, ◌++◌, map, Text, ltb, if◌then◌else◌,
  max, text_eq_instance,
}
use istatd.Prelude.Int.{ℤ, pos, ◌+ℤ◌, ◌-ℤ◌, ltb_ℤ}
use istatd.Prelude.Object.{Object, keys, values, get, put, put_index}
use istatd.Dates.{Date, Span, seconds}

-- `cbObj`
pub record Entry (C : Type 0) : Type 0 where
  pub keys : List Text
  pub cb : C
  pub id : ℕ
  pub max_samples : ℕ

-- What the handler of a request that is under way holds on to.
pub record Flight (C : Type 0) : Type 0 where
  pub gotten : Object Text (List (Entry C))
  pub cb_objs : Object ℕ (Entry C)

-- `next_event` is the handle of the timer that is set.
pub record Loader (C : Type 0) : Type 0 where
  pub next_event : Option ℕ
  pub next_event_time : Date
  pub getting : Object Text (List (Entry C))
  pub cb_objs : Object ℕ (Entry C)
  pub xhr : Option (Flight C)
  pub id : ℕ

-- The body of the POST.
pub record Request : Type 0 where
  pub start : ℤ
  pub stop : ℤ
  pub keys : List Text
  pub max_samples : ℕ

pub data Fault : Type 0 where
  restarted bad_json : Fault
  bad_status : ℕ → Fault

-- What an operation does outside the loader, in order. What is thrown ends in an error dialog,
-- by the `guard` around each method.
pub data Effect (C : Type 0) (D : Type 0) : Type 0 where
  clear_timer : ℕ → Effect C D
  set_timer : (handle : ℕ) (delay : ℤ) → Effect C D
  send : Request → Effect C D
  call : C → D → Effect C D
  throw : Fault → Effect C D

-- `body` is `none` where `JSON.parse` throws.
pub record Response (D : Type 0) : Type 0 where
  pub status : ℕ
  pub body : Option D

abbrev pub new : {C : Type 0} → Loader C
new = record {
  next_event = none;
  next_event_time = pos 0;
  getting = [];
  cb_objs = [];
  xhr = none;
  id = 0;
}

unfoldable pub next_id : ℕ → ℕ
next_id id = if ltb 1_000_000 (id + 1) then 0 else id + 1

module _ {C : Type 0} where
  -- `this._getting[key].push(cbObj)`, with a new array for a new key
  unfoldable pub queue_key :
      Entry C → Text → Object Text (List (Entry C)) → Object Text (List (Entry C))
  queue_key entry key getting = elim (get key getting) [
    | none ↦ put key (entry ∷ []) getting
    | some entries ↦ put key (entries ++ entry ∷ []) getting
  ]

  -- the loop over the keys
  unfoldable pub queue_keys :
      Entry C → List Text → Object Text (List (Entry C)) → Object Text (List (Entry C))
  queue_keys entry [] getting = getting
  queue_keys entry (key ∷ ks) getting = queue_keys entry ks (queue_key entry key getting)

  abbrev most_samples : ℕ → Object ℕ (Entry C) → ℕ
  most_samples most [] = most
  most_samples most ((_, entry) ∷ m) =
      most_samples (if ltb most entry.max_samples then entry.max_samples else most) m

module _ {C D : Type 0} where
  -- A timer that would fire after the deadline is taken back.
  cancel_late : Date → Loader C → Loader C × List (Effect C D)
  cancel_late deadline l =
      if ltb_ℤ deadline l.next_event_time
      then (
        record l { next_event = none; next_event_time = pos 0 },
        elim l.next_event [ none ↦ [] | some handle ↦ clear_timer handle ∷ [] ],
      )
      else (l, [])

  -- `handle` is what `setTimeout` returns if it is called.
  schedule : Date → Date → ℕ → Loader C → Loader C × List (Effect C D)
  schedule now deadline handle l = elim l.next_event [
    | none ↦ (
      record l { next_event = some handle; next_event_time = deadline },
      set_timer handle (deadline -ℤ now) ∷ [],
    )
    | some _ ↦ (l, [])
  ]

  unfoldable pub add_to_next_get :
      (now : Date) (handle : ℕ)
      → List Text
      → (max_time max_samples : ℕ) → C
      → Loader C
      → Loader C × List (Effect C D)
  unfolding next_id queue_keys queue_key cancel_late schedule
  add_to_next_get now handle ks max_time max_samples cb l =
      let id = next_id l.id in
      let deadline = now +ℤ pos max_time in
      let entry : Entry C = record { keys = ks; cb = cb; id = id; max_samples = max_samples } in
      let queued = record l {
        id = id;
        cb_objs = put_index id entry l.cb_objs;
        getting = queue_keys entry ks l.getting;
      } in
      let (timed, cleared) = cancel_late deadline queued in
      let (l', set) = schedule now deadline handle timed in (l', cleared ++ set)

  -- `dates` is `theCurrentDates`.
  unfoldable pub start_request : Span → Loader C → Loader C × List (Effect C D)
  start_request dates l = elim l.xhr [
    | some _ ↦ (l, throw restarted ∷ [])
    | none ↦ elim l.getting [
      | [] ↦ (l, [])
      | _ ∷ _ ↦ (
        record l {
          xhr = some (record { gotten = l.getting; cb_objs = l.cb_objs });
          getting = [];
          cb_objs = [];
        },
        send (record {
          start = seconds dates.start;
          stop = seconds dates.stop;
          keys = keys l.getting;
          max_samples = most_samples 1 l.cb_objs;
        })
            ∷ [],
      )
    ]
  ]

  unfoldable pub on_timer : Span → Loader C → Loader C × List (Effect C D)
  unfolding start_request
  on_timer dates l =
      let fired = record l { next_event = none; next_event_time = pos 0 } in
      elim l.xhr [ some _ ↦ (fired, []) | none ↦ start_request dates fired ]

  unfoldable pub deliver_data : D → Object ℕ (Entry C) → List (Effect C D)
  deliver_data answer [] = []
  deliver_data answer ((_, entry) ∷ cb_objs) = call entry.cb answer ∷ deliver_data answer cb_objs

  unfoldable pub on_xhr_complete :
      Span → Object ℕ (Entry C) → Response D → Loader C → Loader C × List (Effect C D)
  unfolding start_request deliver_data
  on_xhr_complete dates cb_objs response l =
      let idle = record l { xhr = none } in
      if ltb 299 response.status
      then (idle, throw (bad_status response.status) ∷ [])
      else (elim response.body [
        | none ↦ (idle, throw bad_json ∷ [])
        | some answer ↦
            let (l', sent) = start_request dates idle in (l', deliver_data answer cb_objs ++ sent)
      ])
