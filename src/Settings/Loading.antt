-- ===== src/Settings/Loading.antt =====
-- Loading a dashboard ends, and the progress bar with it.
use istatd.Prelude.{
  ◌≤◌, ◌<◌, ◌≡◌, ◌≢◌, refl, ◌∙◌, ap, arith, Option, none, some, List, [], ◌∷◌, ◌++◌, Text,
  text_eq_instance, length, All, ◌==◌, if◌then◌else◌,
}
use istatd.Prelude.Object.{Object, get}
use istatd.Progress.{Progress, begin, end, error, to_full, to_none}
use istatd.Settings.{
  Reply, Answer, threw, failed, succeeded, load_settings, dashboard_key, Load, asking, opened,
  gave_up, broke, load_dashboard, on_success, on_answer, settle, on_reply, run, start,
}

-- The bar after a load, by the way in which it ended: where it was, at its full width if nothing else was under
-- way; or with nothing under way, and no width.
abbrev pub bar_after : {B : Type 0} → Load B → Progress → Progress
bar_after (asking context contexts) p = begin p
bar_after (opened context dashboard) p = record p {
  motion = if p.nesting == 0 then some to_full else p.motion;
}
bar_after gave_up p = record { nesting = 0; motion = some to_none }
bar_after broke p = record { nesting = 0; motion = some to_none }

-- The load has ended, and the bar with it.
pub record Settled {B : Type 0} (p : Progress) (r : Load B × Progress) : Type 0 where
  pub over : (context : Text) (contexts : List Text) → r.0 ≢ asking context contexts
  pub bar : r.1 ≡ bar_after r.0 p

settle-load_dashboard :
    (B : Type 0) (before : List Text) (context : Text) (after : List Text) (p : Progress)
    → settle {B = B} (load_dashboard (before ++ context ∷ after)) p ≡ p
unfolding settle load_dashboard
settle-load_dashboard B [] context after p = refl
settle-load_dashboard B (c ∷ before) context after p = refl

module _ {B : Type 0} (parse : Text → Option B) (name : Text) where
  run-over :
      (replies : List Reply) (load : Load B) (p : Progress)
      → ((context : Text) (contexts : List Text) → load ≢ asking context contexts)
      → run parse name replies (load, p) ≡ (load, p)
  unfolding run on_reply
  run-over [] load p h = refl
  run-over (reply ∷ replies) (asking context contexts) p h = absurd (h context contexts refl)
  run-over (reply ∷ replies) (opened context dashboard) p h =
      run-over replies (opened context dashboard) p h
  run-over (reply ∷ replies) gave_up p h = run-over replies gave_up p h
  run-over (reply ∷ replies) broke p h = run-over replies broke p h

  -- The three ways in which a load ends.
  opened-Settled :
      (replies : List Reply) (context : Text) (dashboard : B) (p : Progress)
      → Settled p (run parse name replies (opened context dashboard, end (begin p)))
  unfolding begin end
  opened-Settled replies context dashboard p =
      rw (run-over replies (opened context dashboard) (end (begin p)) (λ c cs e. cc))
        (record { over = λ c cs e. cc; bar = ground arith })

  gave_up-Settled :
      (replies : List Reply) (p : Progress)
      → Settled p (run parse name replies (gave_up, end (error (begin p))))
  unfolding begin end error
  gave_up-Settled replies p =
      rw (run-over replies gave_up (end (error (begin p))) (λ c cs e. cc))
        (record { over = λ c cs e. cc; bar = ground arith })

  broke-Settled :
      (replies : List Reply) (p : Progress)
      → Settled p (run parse name replies (broke, error (begin p)))
  unfolding begin error
  broke-Settled replies p =
      rw (run-over replies broke (error (begin p)) (λ c cs e. cc))
        (record { over = λ c cs e. cc; bar = ground arith })

  on_success-Settled :
      (replies : List Reply) (context : Text) (json : Object Text Text) (p : Progress)
      → let load = on_success parse name context json in
        Settled p (run parse name replies (load, settle load (begin p)))
  unfolding on_success settle
  on_success-Settled replies context json p = found (get (dashboard_key name) json)
    where
      read :
          (o : Option B)
          → let load : Load B = elim o [
            | none ↦ broke
            | some dashboard ↦ opened context dashboard
          ] in
            Settled p (run parse name replies (load, settle load (begin p)))
      read none = broke-Settled replies p
      read (some dashboard) = opened-Settled replies context dashboard p

      found :
          (o : Option Text)
          → let load : Load B = elim o [
            | none ↦ broke
            | some text ↦ elim (parse text) [
              | none ↦ broke
              | some dashboard ↦ opened context dashboard
            ]
          ] in
            Settled p (run parse name replies (load, settle load (begin p)))
      found none = broke-Settled replies p
      found (some text) = read (parse text)

  run-Settled :
      (replies : List Reply) (context : Text) (contexts : List Text) (p : Progress)
      → length contexts < length replies
      → Settled p (run parse name replies (asking context contexts, begin p))
  unfolding run on_reply on_answer load_dashboard settle
  run-Settled [] context contexts p k = absurd (omega (arith, k))
  run-Settled (reply ∷ replies) context [] p k = answer (load_settings reply)
    where
      answer :
          (a : Answer)
          → let load = on_answer parse name context [] a in
            Settled p (run parse name replies (load, settle load (begin p)))
      answer threw = broke-Settled replies p
      answer (failed json) = gave_up-Settled replies p
      answer (succeeded json) = on_success-Settled replies context json p
  run-Settled (reply ∷ replies) context (next ∷ contexts) p k =
      answer (load_settings reply) (run-Settled replies next contexts p (omega (arith, k)))
    where
      answer :
          (a : Answer)
          → Settled p (run parse name replies (asking next contexts, begin p))
          → let load = on_answer parse name context (next ∷ contexts) a in
            Settled p (run parse name replies (load, settle load (begin p)))
      answer threw rest = broke-Settled replies p
      answer (failed json) rest = rest
      answer (succeeded json) rest = on_success-Settled replies context json p

  -- Whatever the server answers, a load ends once it has as many answers as there are contexts. A dashboard that
  -- was opened leaves the progress bar where it was, or at its full width if nothing was under way before; any
  -- other end leaves it with nothing under way and no width.
  pub start-Settled :
      (contexts : List Text) (replies : List Reply) (p : Progress)
      → length contexts ≤ length replies
      → Settled p (run parse name replies (start contexts p))
  unfolding start load_dashboard settle
  start-Settled [] replies p k = gave_up-Settled replies p
  start-Settled (context ∷ contexts) replies p k =
      run-Settled replies context contexts p (omega (arith, k))

  -- The answers of the contexts that have no settings.
  abbrev pub Failed : Reply → Type 0
  Failed reply = (json : Object Text Text) × (load_settings reply ≡ failed json)

  run-Failed :
      (fails rest : List Reply) (before : List Text) (context : Text) (after : List Text)
      (p : Progress)
      → All Failed fails
      → length fails ≡ length before
      → run parse name (fails ++ rest) (load_dashboard (before ++ context ∷ after), p)
        ≡ run parse name rest (asking context after, p)
  unfolding run on_reply on_answer load_dashboard settle
  run-Failed [] rest [] context after p h k = refl
  run-Failed [] rest (c ∷ before) context after p h k = absurd (omega (arith, k))
  run-Failed (fail ∷ fails) rest [] context after p h k = absurd (omega (arith, k))
  run-Failed (fail ∷ fails) rest (c ∷ []) context after p h k =
      ap
        (λ a. run parse name (fails ++ rest) (
          on_answer parse name c (context ∷ after) a,
          settle (on_answer parse name c (context ∷ after) a) p,
        ))
        h.0.1
      ∙ run-Failed fails rest [] context after p h.1 (omega (arith, k))
  run-Failed (fail ∷ fails) rest (c ∷ d ∷ before) context after p h k =
      let contexts = d ∷ (before ++ context ∷ after) in
      ap
        (λ a.
          run parse name (fails ++ rest)
            (on_answer parse name c contexts a, settle (on_answer parse name c contexts a) p))
        h.0.1
      ∙ run-Failed fails rest (d ∷ before) context after p h.1 (omega (arith, k))

  on_reply-succeeded :
      (reply : Reply) (json : Object Text Text) (context : Text) (contexts : List Text)
      (p : Progress)
      → load_settings reply ≡ succeeded json
      → on_reply parse name reply (asking context contexts, p)
        ≡ (on_success parse name context json, settle (on_success parse name context json) p)
  unfolding on_reply on_answer
  on_reply-succeeded reply json context contexts p h =
      ap
        (λ a. (
          on_answer parse name context contexts a,
          settle (on_answer parse name context contexts a) p,
        ))
        h

  start-first :
      (fails rest : List Reply) (reply : Reply) (json : Object Text Text) (before : List Text)
      (context : Text) (after : List Text) (p : Progress)
      → All Failed fails
      → length fails ≡ length before
      → load_settings reply ≡ succeeded json
      → run parse name (fails ++ reply ∷ rest) (start (before ++ context ∷ after) p)
        ≡ run parse name rest (
          on_success parse name context json,
          settle (on_success parse name context json) (begin p),
        )
  unfolding start run
  start-first fails rest reply json before context after p h k e =
      ap
        (λ q.
          run parse name (fails ++ reply ∷ rest) (load_dashboard (before ++ context ∷ after), q))
        (settle-load_dashboard B before context after (begin p))
      ∙ run-Failed fails (reply ∷ rest) before context after (begin p) h k
      ∙ ap (run parse name rest) (on_reply-succeeded reply json context after (begin p) e)

  -- Where the contexts before one have failed, and the settings of that one hold the dashboard as JSON that
  -- can be read, this dashboard is opened from it, whatever comes after.
  pub start-opened :
      (fails rest : List Reply) (reply : Reply) (json : Object Text Text) (before : List Text)
      (context : Text) (after : List Text) (p : Progress) (text : Text) (dashboard : B)
      → All Failed fails
      → length fails ≡ length before
      → load_settings reply ≡ succeeded json
      → get (dashboard_key name) json ≡ some text
      → parse text ≡ some dashboard
      → (run parse name (fails ++ reply ∷ rest) (start (before ++ context ∷ after) p)).0
        ≡ opened context dashboard
  unfolding on_success
  start-opened fails rest reply json before context after p text dashboard h k e found read =
      let same : on_success parse name context json ≡ opened context dashboard =
        ground (arith, found, read) in
      ap (λ (r : Load B × Progress). r.0)
        (start-first fails rest reply json before context after p h k e
          ∙ ap (λ load. run parse name rest (load, settle load (begin p))) same
          ∙ run-over rest (opened context dashboard) _ (λ c cs e. cc))

  -- Where the contexts before one have failed, and the settings of that one come without the dashboard, the
  -- load ends with an exception, whatever the contexts after it have.
  pub start-broke :
      (fails rest : List Reply) (reply : Reply) (json : Object Text Text) (before : List Text)
      (context : Text) (after : List Text) (p : Progress)
      → All Failed fails
      → length fails ≡ length before
      → load_settings reply ≡ succeeded json
      → get (dashboard_key name) json ≡ none
      → (run parse name (fails ++ reply ∷ rest) (start (before ++ context ∷ after) p)).0 ≡ broke
  unfolding on_success
  start-broke fails rest reply json before context after p h k e missing =
      let same : on_success parse name context json ≡ broke = ground (arith, missing) in
      ap (λ (r : Load B × Progress). r.0)
        (start-first fails rest reply json before context after p h k e
          ∙ ap (λ load. run parse name rest (load, settle load (begin p))) same
          ∙ run-over rest broke _ (λ c cs e. cc))
