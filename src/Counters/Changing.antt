-- ===== src/Counters/Changing.antt =====
-- What changing the counters does to the series of a graph.
use istatd.Prelude.{
  ◌≡◌, refl, sym, ap, ◌∙◌, arith, Bool, true, false, Option, none, some, List, [], ◌∷◌, ◌++◌, Text,
  text_eq_iff, text_eq_instance, contains, All, All-map, if◌then◌else◌, Option-cases, inl, inr,
  subst, length-append, append_assoc, append-nil,
}
use istatd.Prelude.Object.{IsDistinct}
use istatd.Surface.{toggle, erase}
use istatd.Page.Restore.{AllNew, AllNew-nil, AllNew-append, AllNew-cons}
use istatd.Counters.{change_each}

-- The paths that stay, and what the others become.
abbrev pub kept : (Text → Option Text) → List Text → List Text
kept change [] = []
kept change (path ∷ paths) = elim (change path) [
  | none ↦ path ∷ kept change paths
  | some _ ↦ kept change paths
]

abbrev pub made : (Text → Option Text) → List Text → List Text
made change [] = []
made change (path ∷ paths) = elim (change path) [
  | none ↦ made change paths
  | some new_path ↦ new_path ∷ made change paths
]

erase-middle :
    (path : Text) (before after : List Text)
    → contains before path ≡ false
    → erase path (before ++ path ∷ after) ≡ before ++ after
unfolding erase
erase-middle path [] after h = ground (arith, text_eq_iff path path)
erase-middle path (x ∷ before) after h = ground (arith, erase-middle path before after)

toggle-new :
    (path : Text) (series : List Text)
    → contains series path ≡ false
    → toggle path series ≡ series ++ path ∷ []
unfolding toggle
toggle-new path series h = rw h refl

contains-both :
    (xs ys : List Text) (q : Text)
    → contains (xs ++ ys) q ≡ (if contains xs q then true else contains ys q)
contains-both [] ys q = refl
contains-both (x ∷ xs) ys q = ground (arith, contains-both xs ys q)

contains_self : (xs : List Text) → All (λ x. contains xs x ≡ true) xs
contains_self [] = tt
contains_self (x ∷ xs) =
    (ground (arith, text_eq_iff x x), All-map (λ q here. ground arith) xs (contains_self xs))

contains-grown :
    (series : List Text) (new_path : Text) (paths : List Text)
    → All (λ path. contains series path ≡ true) paths
    → All (λ path. contains (series ++ new_path ∷ []) path ≡ true) paths
contains-grown series new_path [] h = tt
contains-grown series new_path (path ∷ paths) h = (
  rw (contains-both series (new_path ∷ []) path, h.0) refl,
  contains-grown series new_path paths h.1,
)

-- The path that changed goes, and its replacement stays.
toggle-gone :
    (path new_path : Text) (before after : List Text)
    → contains before path ≡ false
    → toggle path (before ++ path ∷ (after ++ new_path ∷ [])) ≡ before ++ (after ++ new_path ∷ [])
unfolding toggle
toggle-gone path new_path before after h = ground (
  arith,
  contains-both before (path ∷ (after ++ new_path ∷ [])) path,
  text_eq_iff path path,
  length-append before (path ∷ (after ++ new_path ∷ [])),
  length-append after (new_path ∷ []),
  erase-middle path before (after ++ new_path ∷ []),
)

AllNew-middle :
    (before after : List Text) (path : Text) (paths : List Text)
    → AllNew (before ++ path ∷ after) paths
    → AllNew (before ++ after) paths
AllNew-middle before after path [] h = tt
AllNew-middle before after path (q ∷ paths) h = (
  ground (arith, contains-both before (path ∷ after) q, contains-both before after q),
  AllNew-middle before after path paths h.1,
)

module _ (change : Text → Option Text) where
  pub change_each-gone :
      (keep : Bool) (path : Text) (paths series : List Text)
      → contains series path ≡ false
      → change_each change keep (path ∷ paths) series ≡ change_each change keep paths series
  unfolding change_each
  change_each-gone keep path paths series c = rw c refl

  pub change_each-none :
      (keep : Bool) (path : Text) (paths series : List Text)
      → change path ≡ none
      → change_each change keep (path ∷ paths) series ≡ change_each change keep paths series
  unfolding change_each
  change_each-none keep path paths series e = ground (arith, e)

  pub change_each-some :
      (keep : Bool) (path new_path : Text) (paths series : List Text)
      → contains series path ≡ true
      → change path ≡ some new_path
      → change_each change keep (path ∷ paths) series
        ≡ change_each change keep paths
            (if keep then toggle new_path series else toggle path (toggle new_path series))
  unfolding change_each
  change_each-some keep path new_path paths series c e =
      rw (c, change_each) (rw (e, change_each) refl)

  kept-none :
      (path : Text) (paths : List Text)
      → change path ≡ none
      → kept change (path ∷ paths) ≡ path ∷ kept change paths
  kept-none path paths e = rw (e, kept) refl

  kept-some :
      (path new_path : Text) (paths : List Text)
      → change path ≡ some new_path
      → kept change (path ∷ paths) ≡ kept change paths
  kept-some path new_path paths e = rw (e, kept) refl

  made-none :
      (path : Text) (paths : List Text)
      → change path ≡ none
      → made change (path ∷ paths) ≡ made change paths
  made-none path paths e = rw (e, made) refl

  made-some :
      (path new_path : Text) (paths : List Text)
      → change path ≡ some new_path
      → made change (path ∷ paths) ≡ new_path ∷ made change paths
  made-some path new_path paths e = rw (e, made) refl

  change_each-replace :
      (paths before after : List Text)
      → AllNew before paths
      → IsDistinct paths
      → AllNew (before ++ (paths ++ after)) (made change paths)
      → IsDistinct (made change paths)
      → change_each change false paths (before ++ (paths ++ after))
        ≡ before ++ (kept change paths ++ (after ++ made change paths))
  unfolding change_each
  change_each-replace [] before after h d k e = ap (before ++◌) (sym (append-nil after))
  change_each-replace (path ∷ paths) before after h d k e = elim (Option-cases (change path)) [
    | inl same ↦
        let series = before ++ (path ∷ (paths ++ after)) in
        let moved = append_assoc before (path ∷ []) (paths ++ after) in
        change_each-none false path paths series same
        ∙ ap (change_each change false paths) (sym moved)
        ∙ change_each-replace paths (before ++ path ∷ []) after
            (AllNew-append before path paths paths h.1 (AllNew-cons path paths d.0)) d.1
            (subst (λ l. AllNew l (made change paths)) (sym moved)
              (subst (AllNew series) (made-none path paths same) k))
            (subst IsDistinct (made-none path paths same) e)
        ∙ append_assoc before (path ∷ []) (kept change paths ++ (after ++ made change paths))
        ∙ rw (kept-none path paths same, made-none path paths same) refl
    | inr (new_path, same) ↦
        let series = before ++ (path ∷ (paths ++ after)) in
        let k' = subst (AllNew series) (made-some path new_path paths same) k in
        let e' = subst IsDistinct (made-some path new_path paths same) e in
        let grown = before ++ (paths ++ (after ++ new_path ∷ [])) in
        let here : contains series path ≡ true =
          ground
            (arith, contains-both before (path ∷ (paths ++ after)) path, text_eq_iff path path) in
        let tail = append_assoc paths after (new_path ∷ []) in
        let flipped : toggle path (toggle new_path series) ≡ grown =
          ap (toggle path) (
            toggle-new new_path series k'.0
            ∙ append_assoc before (path ∷ (paths ++ after)) (new_path ∷ []))
          ∙ toggle-gone path new_path before (paths ++ after) h.0
          ∙ ap (before ++◌) tail in
        let new : AllNew grown (made change paths) =
          subst (λ l. AllNew l (made change paths))
            (append_assoc before (paths ++ after) (new_path ∷ []) ∙ ap (before ++◌) tail)
            (AllNew-append (before ++ (paths ++ after)) new_path [] (made change paths)
              (AllNew-middle before (paths ++ after) path (made change paths) k'.1)
              (AllNew-cons new_path (made change paths) e'.0)) in
        change_each-some false path new_path paths series here same
        ∙ ap (change_each change false paths) flipped
        ∙ change_each-replace paths before (after ++ new_path ∷ []) h.1 d.1 new e'.1
        ∙ ap (λ l. before ++ (kept change paths ++ l))
            (append_assoc after (new_path ∷ []) (made change paths))
        ∙ rw (kept-some path new_path paths same, made-some path new_path paths same) refl
  ]

  -- Replaced counters go to the end, in their order.
  pub change_each-replaced :
      (series : List Text)
      → IsDistinct series
      → AllNew series (made change series)
      → IsDistinct (made change series)
      → change_each change false series series ≡ kept change series ++ made change series
  change_each-replaced series d k e =
      let whole = append-nil series in
      ap (change_each change false series) (sym whole)
      ∙ change_each-replace series [] [] (AllNew-nil series) d
          (subst (λ l. AllNew l (made change series)) (sym whole) k) e

  -- Added counters come after all that are there.
  change_each-add :
      (paths series : List Text)
      → All (λ path. contains series path ≡ true) paths
      → AllNew series (made change paths)
      → IsDistinct (made change paths)
      → change_each change true paths series ≡ series ++ made change paths
  unfolding change_each
  change_each-add [] series h k e = sym (append-nil series)
  change_each-add (path ∷ paths) series h k e = elim (Option-cases (change path)) [
    | inl same ↦
        change_each-none true path paths series same
        ∙ change_each-add paths series h.1 (subst (AllNew series) (made-none path paths same) k)
            (subst IsDistinct (made-none path paths same) e)
        ∙ rw (made-none path paths same) refl
    | inr (new_path, same) ↦
        let k' = subst (AllNew series) (made-some path new_path paths same) k in
        let e' = subst IsDistinct (made-some path new_path paths same) e in
        change_each-some true path new_path paths series h.0 same
        ∙ ap (change_each change true paths) (toggle-new new_path series k'.0)
        ∙ change_each-add paths (series ++ new_path ∷ []) (contains-grown series new_path paths h.1)
            (AllNew-append series new_path [] (made change paths) k'.1
              (AllNew-cons new_path (made change paths) e'.0))
            e'.1
        ∙ append_assoc series (new_path ∷ []) (made change paths)
        ∙ rw (made-some path new_path paths same) refl
  ]

  pub change_each-added :
      (series : List Text)
      → AllNew series (made change series)
      → IsDistinct (made change series)
      → change_each change true series series ≡ series ++ made change series
  change_each-added series = change_each-add series series (contains_self series)
