-- ===== src/Settings/Saving.antt =====
-- Saving settings and dashboards, and what a saved dashboard is found by.
use istatd.Prelude.{
  ℕ, suc, ◌≡◌, refl, ◌∙◌, ap, arith, Bool, true, false, not, ◌&&◌, Option, none, some, List, [],
  ◌∷◌, ◌++◌, Text, text_eq, text_eq_iff, text_eq_instance, ltb, if◌then◌else◌, Bool-cases, inl, inr,
}
use istatd.Prelude.Object.{Object, get, put}
use istatd.Prelude.Words.{codes, split, IsFree, split_of_IsFree, split-append}
use istatd.Prelude.Escape.{unescape, unescape_from}
use istatd.Page.{Page, Browser}
use istatd.Bookmark.{
  own_context, Func, key_of, value_of, func_of, run_func, gotohash, read_pairs, asks,
}
use istatd.Settings.{
  Saved, Step, done, callback, exception, dialog, on_saved, Value, save_settings, is_name_unit,
  is_name, saving, save_dashboard_named, dashboard_key, on_success, opened,
}

abbrev pub count_done : List Step → ℕ
count_done [] = 0
count_done (done ∷ steps) = suc (count_done steps)
count_done (callback ∷ steps) = count_done steps
count_done (exception ∷ steps) = count_done steps
count_done (dialog _ ∷ steps) = count_done steps

abbrev pub count_callback : List Step → ℕ
count_callback [] = 0
count_callback (callback ∷ steps) = suc (count_callback steps)
count_callback (done ∷ steps) = count_callback steps
count_callback (exception ∷ steps) = count_callback steps
count_callback (dialog _ ∷ steps) = count_callback steps

abbrev pub count_error : List Step → ℕ
count_error [] = 0
count_error (exception ∷ steps) = suc (count_error steps)
count_error (dialog _ ∷ steps) = suc (count_error steps)
count_error (done ∷ steps) = count_error steps
count_error (callback ∷ steps) = count_error steps

-- The answer is one that `JSON.parse` refuses, and comes with a good status.
abbrev pub is_garbled : Saved → Bool
is_garbled saved = elim saved.result [ none ↦ not (ltb 299 saved.status) | some _ ↦ false ]

abbrev pub is_success : Saved → Bool
is_success saved = elim saved.result [
  | none ↦ false
  | some (success, _) ↦ success && not (ltb 299 saved.status)
]

-- The answer to a save ends its progress once, calls the callback once unless it is garbled, and shows one
-- error unless it is a success.
pub record IsAnswered (cb : Bool) (saved : Saved) (steps : List Step) : Type 0 where
  pub ended : count_done steps ≡ 1
  pub called : count_callback steps ≡ (if is_garbled saved then 0 else (if cb then 1 else 0))
  pub shown : count_error steps ≡ (if is_success saved then 0 else 1)

-- What is done when the answer to a save comes: its progress is ended once, the callback, if there is one,
-- is called once unless the answer has a good status and is no JSON, and there is one error, shown or
-- thrown, unless the answer is a success.
pub on_saved-IsAnswered : (cb : Bool) (saved : Saved) → IsAnswered cb saved (on_saved cb saved)
unfolding on_saved
on_saved-IsAnswered true saved = record {
  ended = ground arith;
  called = ground arith;
  shown = ground arith;
}
on_saved-IsAnswered false saved = record {
  ended = ground arith;
  called = ground arith;
  shown = ground arith;
}

is_name-IsFree : (c : ℕ) (s : Text) → is_name_unit c ≡ false → is_name s ≡ true → IsFree c s
unfolding is_name
is_name-IsFree c [] h k = refl
is_name-IsFree c (x ∷ s) h k = ground (arith, is_name-IsFree c s h)

unescape_from-is_name : (s : Text) → is_name s ≡ true → unescape_from 0 s ≡ s
unfolding unescape_from is_name
unescape_from-is_name [] h = refl
unescape_from-is_name (x ∷ s) h = ground (arith, unescape_from-is_name s)

split-hash :
    (name : Text)
    → is_name name ≡ true
    → split b'=' (codes "dashboard=" ++ name) ≡ codes "dashboard" ∷ name ∷ []
unfolding is_name
split-hash name h =
    split-append b'=' (codes "dashboard") name refl
    ∙ ap (codes "dashboard" ∷◌) (split_of_IsFree b'=' name (is_name-IsFree b'=' name refl h))

-- The arguments that the hash of a saved dashboard is read into.
read_pairs-hash :
    (name : Text)
    → is_name name ≡ true
    → read_pairs (split b'&' (codes "dashboard=" ++ name)) none []
      ≡ (some Func.dashboard, (codes "dashboard", name) ∷ [])
unfolding read_pairs func_of value_of key_of unescape text_eq is_name put
read_pairs-hash name h =
    ap (λ ws. read_pairs ws none [])
      (split_of_IsFree b'&' (codes "dashboard=" ++ name) (is_name-IsFree b'&' name refl h))
    ∙ ap (λ kv. (func_of (key_of kv) none, put (key_of kv) (value_of kv) [])) (split-hash name h)
    ∙ ap (λ text. (some Func.dashboard, (codes "dashboard", text) ∷ []))
        (unescape_from-is_name name h)

own_context-user : (user : Text) → text_eq user [] ≡ false → own_context (some user) ≡ user ∷ []
unfolding own_context
own_context-user user some_name = rw some_name refl

gotohash-hash :
    (D : Type 0) (b : Browser) (user name : Text) (p : Page)
    → is_name name ≡ true
    → text_eq user [] ≡ false
    → gotohash {D = D} b (some user) (codes "#?dashboard=" ++ name) p
      ≡ ((p, []), asks (some name) (codes "global" ∷ user ∷ []))
unfolding gotohash get text_eq
gotohash-hash D b user name p h some_name =
    ap (λ r. run_func b (some user) r p) (read_pairs-hash name h)
    ∙ ap (λ own. ((p, []), asks (some name) (codes "global" ∷ own)))
        (own_context-user user some_name)

on_success-save_settings :
    {B : Type 0} (parse : Text → Option B) (stringify : B → Text) (user name : Text) (dashboard : B)
    → parse (stringify dashboard) ≡ some dashboard
    → on_success parse name user
        (save_settings stringify (dashboard_key name) (Value.value dashboard))
      ≡ opened user dashboard
unfolding on_success save_settings get
on_success-save_settings parse stringify user name dashboard h =
    ground (arith, h, text_eq_iff (dashboard_key name) (dashboard_key name))

-- Where saving a dashboard comes to a save, the save goes to the user's own settings, the new hash asks for
-- the dashboard by its name, first of the context 'global' and then of the user's, and the object that is
-- sent opens as the same dashboard from there, if JSON reads back what it wrote.
pub save_dashboard_named-saving :
    {B : Type 0} (D : Type 0) (b : Browser) (parse : Text → Option B) (stringify : B → Text)
    (user : Text) (names : List Text) (name : Text) (dashboard : B) (scope : Text)
    (object : Object Text Text) (hash : Text) (p : Page)
    → save_dashboard_named stringify (some user) names name dashboard ≡ saving scope object hash
    → parse (stringify dashboard) ≡ some dashboard
    → (scope ≡ user)
      × (gotohash {D = D} b (some user) hash p
          ≡ ((p, []), asks (some name) (codes "global" ∷ user ∷ [])))
      × (on_success parse name user object ≡ opened user dashboard)
unfolding save_dashboard_named
save_dashboard_named-saving D b parse stringify user names [] dashboard scope object hash p e law =
    cc
save_dashboard_named-saving D b parse stringify user names (c ∷ s) dashboard scope object hash p e
      law =
    elim (Bool-cases (is_name (c ∷ s))) [
      | inl named ↦ elim (Bool-cases (text_eq user [])) [
        | inl nobody ↦ ground (arith, named, nobody)
        | inr some_name ↦ ground (
          arith,
          named,
          some_name,
          gotohash-hash D b user (c ∷ s) p named some_name,
          on_success-save_settings parse stringify user (c ∷ s) dashboard law,
        )
      ]
      | inr bad ↦ ground (arith, bad)
    ]
