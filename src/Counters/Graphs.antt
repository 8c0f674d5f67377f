-- ===== src/Counters/Graphs.antt =====
-- What `change_counters` of files/graph.js does to a graph of the page.
use istatd.Prelude.{
  ℕ, ◌≡◌, refl, sym, ap, ◌∙◌, arith, Bool, true, false, Option, none, some, List, [], ◌∷◌, ◌++◌,
  Text, text_eq_instance, contains, ==_iff, if◌then◌else◌, Bool-cases, Option-cases, inl, inr,
  subst,
}
use istatd.Prelude.Object.{IsDistinct}
use istatd.Surface.{Surface, toggle, get_series}
use istatd.Grid
use istatd.Grid.{Grid, set_series}
use istatd.Page.{Page, Browser, Output, ◌>>◌, reload, toggle_series}
use istatd.Page.Restore.{Fills, Fills-trans, AllNew}
use istatd.Page.Keeps.{grid_after}
use istatd.Counters.{change_each, change_path, change_paths}
use istatd.Counters.Changing.{
  made, change_each-added, change_each-gone, change_each-none, change_each-some,
}

subst_both {ℓ κ μ} :
    {A : Type ℓ} {B : Type κ} (P : A → B → Type μ) {a a' : A} {b b' : B}
    → a ≡ a'
    → b ≡ b'
    → P a b
    → P a' b'
subst_both P {a = a} {b' = b'} p q h = subst (λ x. P x b') p (subst (P a) q h)

module _ (D : Type 0) (b : Browser) where
  toggle_series-Fills :
      (path : Text) (id : ℕ) (series : List Text) (p : Page)
      → (p.grid.surfaces id).series ≡ some series
      → Fills id (toggle path series) p.grid (grid_after {D = D} (toggle_series b path id) p)
  unfolding toggle_series reload Grid.set_series
  toggle_series-Fills path id series p e = record {
    same_graphs = ground arith;
    same_next = ground arith;
    format = ground (arith, ==_iff id id);
    filled = ground (arith, ==_iff id id);
    others = λ j h. ground (arith, ==_iff j id);
  }

  change_path-Fills :
      (change : Text → Option Text) (keep : Bool) (id : ℕ) (path new_path : Text)
      (series : List Text) (p : Page)
      → (p.grid.surfaces id).series ≡ some series
      → Fills id
          (if keep then toggle new_path series else toggle path (toggle new_path series))
          p.grid
          (grid_after {D = D} (change_path b change keep id path new_path) p)
  unfolding change_path
  change_path-Fills change true id path new_path series p e =
      toggle_series-Fills new_path id series p e
  change_path-Fills change false id path new_path series p e =
      let one = toggle_series-Fills new_path id series p e in
      let p' = (toggle_series {D = D} b new_path id p).0 in
      Fills-trans id (toggle new_path series) (toggle path (toggle new_path series)) p.grid p'.grid
        (toggle_series {D = D} b path id p').0.grid one
        (toggle_series-Fills path id (toggle new_path series) p' one.filled)

  get_series-some :
      (s : Surface) (series : List Text) → s.series ≡ some series → get_series s ≡ series
  unfolding get_series
  get_series-some s series e = rw e refl

  module _ (change : Text → Option Text) (keep : Bool) (id : ℕ) (path : Text) (paths : List Text)
      (p : Page) where
    change_paths-gone :
        contains (get_series (p.grid.surfaces id)) path ≡ false
        → change_paths {D = D} b change keep id (path ∷ paths) p
          ≡ change_paths b change keep id paths p
    unfolding change_paths
    change_paths-gone gone = rw gone refl

    change_paths-none :
        contains (get_series (p.grid.surfaces id)) path ≡ true
        → change path ≡ none
        → change_paths {D = D} b change keep id (path ∷ paths) p
          ≡ change_paths b change keep id paths p
    unfolding change_paths
    change_paths-none here same = rw (here, same) refl

    change_paths-some :
        (new_path : Text)
        → contains (get_series (p.grid.surfaces id)) path ≡ true
        → change path ≡ some new_path
        → change_paths {D = D} b change keep id (path ∷ paths) p
          ≡ (change_path b change keep id path new_path >> change_paths b change keep id paths) p
    unfolding change_paths
    change_paths-some new_path here same = rw (here, same) refl

  -- The rounds on the page are the rounds on the series of the one graph.
  change_paths-Fills :
      (change : Text → Option Text) (keep : Bool) (id : ℕ) (paths series : List Text) (p : Page)
      → (p.grid.surfaces id).series ≡ some series
      → Fills id
          (change_each change keep paths series)
          p.grid
          (grid_after {D = D} (change_paths b change keep id paths) p)
  unfolding change_paths change_each
  change_paths-Fills change keep id [] series p e = record {
    same_graphs = refl;
    same_next = refl;
    format = refl;
    filled = e;
    others = λ j _. refl;
  }
  change_paths-Fills change keep id (path ∷ paths) series p e =
      let there = ap (λ l. contains l path) (get_series-some (p.grid.surfaces id) series e) in
      let Rest : List Text → Page × List (Output D) → Type 0 = λ l m. Fills id l p.grid m.0.grid in
      let rest = change_paths-Fills change keep id paths series p e in
      elim (Bool-cases (contains series path)) [
        | inl here ↦ elim (Option-cases (change path)) [
          | inl same ↦
              subst_both Rest (sym (change_each-none change keep path paths series same))
                (sym (change_paths-none change keep id path paths p (there ∙ here) same)) rest
          | inr (new_path, same) ↦
              let one = change_path-Fills change keep id path new_path series p e in
              let p' = (change_path {D = D} b change keep id path new_path p).0 in
              let changed =
                if keep then toggle new_path series else toggle path (toggle new_path series) in
              subst_both Rest
                (sym (change_each-some change keep path new_path paths series here same))
                (sym (change_paths-some change keep id path paths p new_path (there ∙ here) same))
                (Fills-trans id changed (change_each change keep paths changed) p.grid p'.grid
                  (change_paths {D = D} b change keep id paths p').0.grid one
                  (change_paths-Fills change keep id paths changed p' one.filled))
        ]
        | inr gone ↦
            subst_both Rest (sym (change_each-gone change keep path paths series gone))
              (sym (change_paths-gone change keep id path paths p (there ∙ gone))) rest
      ]

  module _ (change : Text → Option Text) (id : ℕ) (series : List Text) (p : Page)
      (e : (p.grid.surfaces id).series ≡ some series) (fresh : AllNew series (made change series))
      (apart : IsDistinct (made change series)) where
    -- Under the same conditions, adding keeps all counters of the graph and puts the new paths behind them.
    pub change_paths-added :
        Fills id
          (series ++ made change series)
          p.grid
          (grid_after {D = D} (change_paths b change true id (get_series (p.grid.surfaces id))) p)
    change_paths-added =
        subst_both
          (λ l m. Fills id l p.grid (grid_after {D = D} (change_paths b change true id m) p))
          (change_each-added change series fresh apart)
          (sym (get_series-some (p.grid.surfaces id) series e))
          (change_paths-Fills change true id series series p e)
