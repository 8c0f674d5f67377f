-- ===== src/Plot/Ends.antt =====
-- The loop of `repaint` that makes the times of the rows ends, unless the interval is 0.
use istatd.Prelude.{
  ℕ, zero, suc, ◌+◌, ◌-◌, ◌*◌, ◌<◌, ◌≤◌, ◌≡◌, refl, ap, subst, sym, ◌∙◌, arith, true, false, [],
  ◌∷◌, ltb, length, Bool-cases, inl, inr, ◌⊎◌,
}
use istatd.Plot.{plot_times_from, plot_times}

-- Just as many rows as it takes to come from the start to the stop.
pub record Reaches (start stop interval rows : ℕ) : Type 0 where
  pub enough : stop ≤ start + rows * interval
  pub needed : (rows ≡ 0) ⊎ (start + rows * interval < stop + interval)

module _ (fuel i stop interval : ℕ) where
  goes_on :
      ltb i stop ≡ true
      → plot_times_from (suc fuel) i stop interval
        ≡ i ∷ plot_times_from fuel (i + interval) stop interval
  unfolding plot_times_from
  goes_on e = rw (e, plot_times_from)

  ends : ltb i stop ≡ false → plot_times_from (suc fuel) i stop interval ≡ []
  unfolding plot_times_from
  ends e = rw (e, plot_times_from)

suc_rows : (rows interval : ℕ) → suc rows * interval ≡ rows * interval + interval
suc_rows rows interval = grind arith

last_below :
    (i stop interval rows : ℕ)
    → i < stop
    → (rows ≡ 0) ⊎ (i + interval + rows * interval < stop + interval)
    → i + (rows * interval + interval) < stop + interval
last_below i stop interval rows h (inl e) = rw e (omega arith)
last_below i stop interval rows h (inr k) = omega arith

Reaches-suc :
    (i stop interval rows : ℕ)
    → i < stop
    → Reaches (i + interval) stop interval rows
    → Reaches i stop interval (suc rows)
Reaches-suc i stop interval rows h k = record {
  enough = omega (arith, suc_rows rows interval, k.enough);
  needed = inr (rw (suc_rows rows interval) (last_below i stop interval rows h k.needed));
}

plot_times_from-Reaches :
    (fuel i stop interval : ℕ)
    → 0 < interval
    → stop - i ≤ fuel
    → Reaches i stop interval (length (plot_times_from fuel i stop interval))
unfolding plot_times_from
plot_times_from-Reaches zero i stop interval h k = record {
  enough = omega arith;
  needed = inl refl;
}
plot_times_from-Reaches (suc fuel) i stop interval h k = elim (Bool-cases (ltb i stop)) [
  | inl e ↦
      subst (λ ts. Reaches i stop interval (length ts)) (sym (goes_on fuel i stop interval e))
        (Reaches-suc i stop interval _ (ground arith)
          (plot_times_from-Reaches fuel (i + interval) stop interval h (ground arith)))
  | inr e ↦
      subst (λ ts. Reaches i stop interval (length ts)) (sym (ends fuel i stop interval e))
        (record { enough = ground arith; needed = inl refl })
]

-- With enough rounds their number does not matter.
same_rows :
    (fuel more i stop interval : ℕ)
    → 0 < interval
    → stop - i ≤ fuel
    → stop - i ≤ more
    → plot_times_from fuel i stop interval ≡ plot_times_from more i stop interval
unfolding plot_times_from
same_rows zero zero i stop interval h k m = refl
same_rows zero (suc more) i stop interval h k m = sym (ends more i stop interval (ground arith))
same_rows (suc fuel) zero i stop interval h k m = ends fuel i stop interval (ground arith)
same_rows (suc fuel) (suc more) i stop interval h k m = elim (Bool-cases (ltb i stop)) [
  | inl e ↦
      goes_on fuel i stop interval e
      ∙ ap (λ ts. i ∷ ts)
          (same_rows fuel more (i + interval) stop interval h (ground arith) (ground arith))
      ∙ sym (goes_on more i stop interval e)
  | inr e ↦ ends fuel i stop interval e ∙ sym (ends more i stop interval e)
]

-- Without an interval every round makes a row.
rows_forever :
    (fuel start stop : ℕ) → start < stop → length (plot_times_from fuel start stop 0) ≡ fuel
unfolding plot_times_from
rows_forever zero start stop h = refl
rows_forever (suc fuel) start stop h =
    ap length (goes_on fuel start stop 0 (ground arith))
    ∙ ap suc (
        ap (λ i. length (plot_times_from fuel i stop 0)) (omega arith)
        ∙ rows_forever fuel start stop h)

-- The loop that makes the rows ends if the interval is positive: with at least as many rounds as the span has
-- seconds the rows are always those of the model, and they are just as many as it takes to come from the start
-- to the stop. With an interval of 0 and a span that is not empty it has a row for every round it is given.
pub plot_times-Reaches :
    (start stop interval rounds : ℕ)
    → 0 < interval
    → start < stop
    → stop - start ≤ rounds
    → (plot_times_from rounds start stop interval ≡ plot_times start stop interval)
      × Reaches start stop interval (length (plot_times start stop interval))
      × (length (plot_times_from rounds start stop 0) ≡ rounds)
unfolding plot_times
plot_times-Reaches start stop interval rounds h s k = (
  same_rows rounds (stop - start) start stop interval h k (omega arith),
  plot_times_from-Reaches (stop - start) start stop interval h (omega arith),
  rows_forever rounds start stop s,
)
