-- ===== src/Plot/Scale.antt =====
-- The range of values of a repaint holds what the repaint draws.
use istatd.Prelude.{
  ◌+◌, ◌*◌, ◌≤◌, ◌^◌, ◌≡◌, arith, true, false, Option, some, ◌&&◌, Bool-cases, inl, inr,
}
use istatd.Prelude.Int.{
  ℤ, pos, ◌+ℤ◌, ◌-ℤ◌, ◌*ℤ◌, ◌≤ℤ◌, leb_ℤ, ltb_ℤ, eqb_ℤ, pos_part, neg_part, +ℤ_parts, -ℤ_parts,
  pos_part_add, neg_part_sub,
}
use istatd.Plot.Ranges.{IsFair, Holds}
use istatd.Plot.{Range, Bounds, slop, clamp_low, value_bounds}

-- A value lies between the bounds, which are in twentieths.
abbrev pub InBounds : Bounds → ℤ → Type 0
InBounds b v = (b.low ≤ℤ v *ℤ pos 20) × (v *ℤ pos 20 ≤ℤ b.high)

twentyfold :
    (v : ℤ) → pos_part (v *ℤ pos 20) + neg_part v * 20 ≡ neg_part (v *ℤ pos 20) + pos_part v * 20
unfolding ◌*ℤ◌
twentyfold v = ground arith

neg_part_twentyfold : (v : ℤ) → neg_part (v *ℤ pos 20) ≤ neg_part v * 20
unfolding ◌*ℤ◌
neg_part_twentyfold v = ground arith

pos_part_twentyfold : (v : ℤ) → pos_part (v *ℤ pos 20) ≤ pos_part v * 20
unfolding ◌*ℤ◌
pos_part_twentyfold v = ground arith

pos_part_twofold : (v : ℤ) → pos_part (v *ℤ pos 2) ≤ pos_part v * 2
unfolding ◌*ℤ◌
pos_part_twofold v = ground arith

twofold : (v : ℤ) → pos_part (v *ℤ pos 2) + neg_part v * 2 ≡ neg_part (v *ℤ pos 2) + pos_part v * 2
unfolding ◌*ℤ◌
twofold v = ground arith

slop-positive : (low high : ℤ) → low ≤ℤ high → pos 1 ≤ℤ slop low high
unfolding slop eqb_ℤ ◌-ℤ◌
slop-positive low high h = ground arith

pos_part-slop : (low high : ℤ) → pos_part (slop low high) ≤ pos_part high + neg_part low + 10
unfolding slop eqb_ℤ ◌-ℤ◌
pos_part-slop low high = ground arith

-- The bounds before the clamp.
abbrev wide : Range → Bounds
wide r = record {
  low = r.minimum *ℤ pos 20 -ℤ slop r.minimum r.maximum;
  high = r.maximum *ℤ pos 20 +ℤ slop r.minimum r.maximum *ℤ pos 2;
}

-- Bounds that hold what a range holds, and are not far off.
pub record Spans (r : Range) (b : Bounds) : Type 0 where
  pub least : neg_part b.low ≤ 2 ^ 48
  pub most : pos_part b.high ≤ 2 ^ 48
  pub proper : pos 1 +ℤ b.low ≤ℤ b.high
  pub hold : (v : ℤ) → Holds r v → InBounds b v

wide-Spans : (r : Range) → IsFair r → r.gotdata ≡ true → Spans r (wide r)
wide-Spans r fair got =
    let slope = slop-positive r.minimum r.maximum (fair.nonempty got) in
    let order = fair.nonempty got in
    let least = fair.least in
    let most = fair.most in
    let less = pos_part-slop r.minimum r.maximum in
    record {
      least = omega (
        arith,
        neg_part_twentyfold r.minimum,
        neg_part_sub (r.minimum *ℤ pos 20) (slop r.minimum r.maximum),
      );
      most = omega (
        arith,
        pos_part_twentyfold r.maximum,
        pos_part_twofold (slop r.minimum r.maximum),
        pos_part_add (r.maximum *ℤ pos 20) (slop r.minimum r.maximum *ℤ pos 2),
      );
      proper = omega (
        arith,
        slope,
        order,
        twentyfold r.minimum,
        twentyfold r.maximum,
        twofold (slop r.minimum r.maximum),
        -ℤ_parts (r.minimum *ℤ pos 20) (slop r.minimum r.maximum),
        +ℤ_parts (r.maximum *ℤ pos 20) (slop r.minimum r.maximum *ℤ pos 2),
        +ℤ_parts (pos 1) (wide r).low,
      );
      hold = λ v h.
          let from = h.from in
          let to = h.to in
          (
            omega (
              arith,
              slope,
              from,
              twentyfold r.minimum,
              twentyfold v,
              -ℤ_parts (r.minimum *ℤ pos 20) (slop r.minimum r.maximum),
            ),
            omega (
              arith,
              slope,
              to,
              twentyfold r.maximum,
              twentyfold v,
              twofold (slop r.minimum r.maximum),
              +ℤ_parts (r.maximum *ℤ pos 20) (slop r.minimum r.maximum *ℤ pos 2),
            ),
          );
    }

-- The clamp leaves the values in the bounds, since none is negative then.
nonnegative : (r : Range) (v : ℤ) → pos 0 ≤ℤ r.min_val → Holds r v → pos 0 ≤ℤ v *ℤ pos 20
nonnegative r v h k = let val = k.val in omega (arith, val, twentyfold v)

clamp_low-Spans :
    (r : Range) (b : Bounds)
    → (pos 0 ≤ℤ r.min_val → pos 1 ≤ℤ b.high)
    → Spans r b
    → Spans r (clamp_low r b)
unfolding clamp_low
clamp_low-Spans r b h s = elim (Bool-cases (leb_ℤ (pos 0) r.min_val && ltb_ℤ b.low (pos 0))) [
  | inl e ↦
      let least : pos 0 ≤ℤ r.min_val = ground (arith, e) in
      let most = h least in
      rw e (record {
        least = omega arith;
        most = s.most;
        proper = omega (arith, most, +ℤ_parts (pos 1) (pos 0));
        hold = λ v k. (nonnegative r v least k, (s.hold v k).1);
      })
  | inr e ↦ rw e s
]

wide-high : (r : Range) → IsFair r → r.gotdata ≡ true → pos 0 ≤ℤ r.min_val → pos 1 ≤ℤ (wide r).high
wide-high r fair got h =
    let slope = slop-positive r.minimum r.maximum (fair.nonempty got) in
    let seen = fair.seen got in
    omega (
      arith,
      slope,
      seen,
      twentyfold r.maximum,
      twofold (slop r.minimum r.maximum),
      +ℤ_parts (r.maximum *ℤ pos 20) (slop r.minimum r.maximum *ℤ pos 2),
    )

-- Without data nothing is held.
empty-Spans : (r : Range) → r.gotdata ≡ false → Spans r (record { low = pos 0; high = pos 22 })
unfolding ◌+ℤ◌
empty-Spans r e = record {
  least = omega arith;
  most = omega arith;
  proper = omega arith;
  hold = λ v h. let got = h.got in cc;
}

-- What a range gives: bounds that hold it.
pub record Bounded (r : Range) (found : Option Bounds) : Type 0 where
  pub bounds : Bounds
  pub same : found ≡ some bounds
  pub spans : Spans r bounds

pub value_bounds-Bounded : (r : Range) → IsFair r → Bounded r (value_bounds r (some r.maximum))
unfolding value_bounds
value_bounds-Bounded r fair = elim (Bool-cases r.gotdata) [
  | inl e ↦ record {
    bounds = clamp_low r (wide r);
    same = rw e;
    spans = clamp_low-Spans r (wide r) (wide-high r fair e) (wide-Spans r fair e);
  }
  | inr e ↦ record {
    bounds = clamp_low r (record { low = pos 0; high = pos 22 });
    same = rw e;
    spans = clamp_low-Spans r _ (λ _. omega arith) (empty-Spans r e);
  }
]
