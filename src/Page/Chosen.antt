-- ===== src/Page/Chosen.antt =====
-- What choosing a marker of the time slider does to the dates.
use istatd.Prelude.{
  ℕ, ◌*◌, ◌<◌, ◌≡◌, ◌∙◌, refl, ap, arith, false, some, List, [], ◌∷◌, if◌then◌else◌, get_or, length,
  Bool-cases, inl, inr,
}
use istatd.Prelude.Int.{ℤ, pos, ◌-ℤ◌, int_laws}
use istatd.Window.{
  Window, duration, advance, choose_interval, restore_original_interval, calc_reload_interval,
}
use istatd.Window.Range.{advance-Follows}
use istatd.Page.{Page, Slider, Browser, reload, reload_each, reload_all, refresh, set_interval}
use istatd.Page.Sliding.{markers, clamp, set_manual, is_index, update, set_index}

sub_sub : (a b : ℤ) → a -ℤ (a -ℤ b) ≡ b
sub_sub a b = omega int_laws

clamp-within : (index : ℤ) → clamp index < length markers
unfolding clamp
clamp-within index = ground arith

-- The dates after an operation, and the slider.
pub record Same (p q : Page) : Type 0 where
  pub window : q.window ≡ p.window
  pub slider : q.slider ≡ p.slider

-- What a refresh leaves.
record Keeps (p q : Page) : Type 0 where
  lasting : duration q.window.current ≡ duration p.window.current
  pub slider : q.slider ≡ p.slider

module _ (D : Type 0) (b : Browser) where
  pub reload_each-Same : (ids : List ℕ) (p : Page) → Same p (reload_each {D = D} b ids p).0
  unfolding reload_each reload
  reload_each-Same [] p = record { window = refl; slider = refl }
  reload_each-Same (id ∷ ids) p =
      let one = reload_each-Same ids (reload {D = D} b id p).0 in
      record { window = one.window; slider = one.slider }

  refresh-Keeps : (p : Page) → Keeps p (refresh {D = D} b p).0
  unfolding refresh reload_all reload
  refresh-Keeps p =
      let q = record p { window = advance b.clock p.window } in
      let all = reload_each-Same p.grid.all_graphs q in
      elim (Bool-cases b.hidden) [
        | inl e ↦ rw e (record { lasting = refl; slider = refl })
        | inr e ↦ rw e (record {
          lasting =
              ap (λ (w : Window). duration w.current) all.window
              ∙ (advance-Follows b.clock p.window).same_duration;
          slider = all.slider;
        })
      ]

  set_interval-lasting :
      (i : ℕ) (p : Page) → duration (set_interval {D = D} b i p).0.window.current ≡ pos (i * 1000)
  unfolding set_interval choose_interval restore_original_interval calc_reload_interval
  set_interval-lasting i p =
      (refresh-Keeps _).lasting ∙ sub_sub p.window.original.stop (pos (i * 1000))

  set_interval-slider : (i : ℕ) (p : Page) → (set_interval {D = D} b i p).0.slider ≡ p.slider
  unfolding set_interval
  set_interval-slider i p = (refresh-Keeps _).slider

  -- The page after a marker was chosen.
  pub record Chooses (index : ℕ) (p q : Page) : Type 0 where
    pub within : index < length markers
    pub automatic : q.slider.manual ≡ false
    pub chosen : q.slider.index ≡ some index
    pub same_drag : q.slider.dragging ≡ p.slider.dragging
    pub lasting : duration q.window.current ≡ (
        if is_index p.slider.index index
        then duration p.window.current
        else pos (get_or markers index 0 * 1000))

  -- Setting the index of the slider chooses the marker at the clamped index and ends the manual mode. The
  -- range is then as long as the marker says, or as long as before where the marker was chosen already.
  pub set_index-Chooses :
      (index : ℤ) (p : Page) → Chooses (clamp index) p (set_index {D = D} b index p).0
  unfolding set_index update set_manual
  set_index-Chooses index p =
      let i = clamp index in
      let q = set_manual false p in
      elim (Bool-cases (is_index p.slider.index i)) [
        | inl e ↦ rw e (record {
          within = clamp-within index;
          automatic = refl;
          chosen = refl;
          same_drag = refl;
          lasting = rw e refl;
        })
        | inr e ↦
            let slid = set_interval-slider (get_or markers i 0) q in
            rw e (record {
              within = clamp-within index;
              automatic = ap (λ (s : Slider). s.manual) slid;
              chosen = refl;
              same_drag = ap (λ (s : Slider). s.dragging) slid;
              lasting = rw e (set_interval-lasting (get_or markers i 0) q);
            })
      ]
