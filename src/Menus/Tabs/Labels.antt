-- ===== src/Menus/Tabs/Labels.antt =====
-- The labels say which tab is shown.
use istatd.Prelude.{
  ℕ, zero, suc, ◌≡◌, refl, ap, ap₂, ◌∙◌, arith, Bool, false, Option, none, some, List, [], ◌∷◌,
  Text, ◌==◌, ltb, if◌then◌else◌, map, length, length-map, get_elem?,
}
use istatd.Menus.Tabs.{
  Tab, TabCollection, label_of, rebuild_tabs, inactive_tab, inactive_label, add_tab, add_label,
  on_label, clicks,
}

module _ (upper : ℕ → Text) where
  -- Each label is that of its tab, and is active where the tab is.
  abbrev pub Agrees : TabCollection → Type 0
  Agrees c = c.labels ≡ map (label_of upper) c.tabs

  label_of-inactive :
      (ts : List Tab)
      → map inactive_label (map (label_of upper) ts) ≡ map (label_of upper) (map inactive_tab ts)
  unfolding label_of
  label_of-inactive [] = refl
  label_of-inactive (t ∷ ts) = ap₂ (λ x xs. x ∷ xs) refl (label_of-inactive ts)

  label_of-add :
      (i : ℕ) (ts : List Tab)
      → add_label i (map (label_of upper) ts) ≡ map (label_of upper) (add_tab i ts)
  unfolding add_label add_tab label_of
  label_of-add i [] = refl
  label_of-add zero (t ∷ ts) = refl
  label_of-add (suc i) (t ∷ ts) = ap₂ (λ x xs. x ∷ xs) refl (label_of-add i ts)

  on_label-Agrees : (i : ℕ) (c : TabCollection) → Agrees c → Agrees (on_label i c)
  unfolding on_label
  on_label-Agrees i c h =
      ap (λ ls. add_label i (map inactive_label ls)) h
      ∙ ap (add_label i) (label_of-inactive c.tabs)
      ∙ label_of-add i (map inactive_tab c.tabs)

-- The activity of the tab at a place, if there is one.
abbrev pub active_at : List Tab → ℕ → Option Bool
active_at ts j = get_elem? (map (λ (t : Tab). t.is_active) ts) j

active_at-inactive :
    (ts : List Tab) (j : ℕ)
    → active_at (map inactive_tab ts) j ≡ (if ltb j (length ts) then some false else none)
active_at-inactive [] j = ground arith
active_at-inactive (t ∷ ts) zero = ground arith
active_at-inactive (t ∷ ts) (suc j) = ground (arith, active_at-inactive ts j)

active_at-add :
    (i : ℕ) (ts : List Tab) (j : ℕ)
    → active_at (add_tab i (map inactive_tab ts)) j
      ≡ (if ltb j (length ts) then some (j == i) else none)
unfolding add_tab
active_at-add i [] j = ground arith
active_at-add zero (t ∷ ts) zero = ground arith
active_at-add zero (t ∷ ts) (suc j) = ground (arith, active_at-inactive ts j)
active_at-add (suc i) (t ∷ ts) zero = ground arith
active_at-add (suc i) (t ∷ ts) (suc j) = ground (arith, active_at-add i ts j)

length-add_tab : (i : ℕ) (ts : List Tab) → length (add_tab i (map inactive_tab ts)) ≡ length ts
unfolding add_tab
length-add_tab i [] = refl
length-add_tab zero (t ∷ ts) = ap suc (length-map ts inactive_tab)
length-add_tab (suc i) (t ∷ ts) = ap suc (length-add_tab i ts)

module _ (upper : ℕ → Text) where
  clicks-Agrees :
      (is : List ℕ) (i : ℕ) (c : TabCollection)
      → Agrees upper c
      → Agrees upper (on_label i (clicks is c))
  unfolding clicks
  clicks-Agrees [] i c h = on_label-Agrees upper i c h
  clicks-Agrees (k ∷ is) i c h = clicks-Agrees is i (on_label k c) (on_label-Agrees upper k c h)

  length-clicks : (is : List ℕ) (c : TabCollection) → length (clicks is c).tabs ≡ length c.tabs
  unfolding clicks on_label
  length-clicks [] c = refl
  length-clicks (k ∷ is) c = length-clicks is (on_label k c) ∙ length-add_tab k c.tabs

  -- Once the labels are rebuilt, after any clicks on labels each label is that of its tab, active where the tab
  -- is, and the one tab that is active is that of the last click, if there are so many tabs.
  pub on_label-Shows :
      (is : List ℕ) (i j : ℕ) (c : TabCollection)
      → Agrees upper (on_label i (clicks is (rebuild_tabs upper c)))
        × (active_at (on_label i (clicks is (rebuild_tabs upper c))).tabs j
            ≡ (if ltb j (length c.tabs) then some (j == i) else none))
  unfolding rebuild_tabs on_label
  on_label-Shows is i j c = (
    clicks-Agrees is i (rebuild_tabs upper c) refl,
    active_at-add i (clicks is (rebuild_tabs upper c)).tabs j
        ∙ ap (λ n. if ltb j n then some (j == i) else none)
            (length-clicks is (rebuild_tabs upper c)),
  )
