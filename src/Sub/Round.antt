-- ===== src/Sub/Round.antt =====
-- The end of `mpfr_sub1sp1` and `mpfr_sub1sp1n`: what it stores is the correctly rounded difference.
use native.Mathlib.Nat.{pow-le-pow_right, mul-le-mul_right, lt_of_mul-lt-mul_right}
use native.Mathlib.Decide.{dec_lt, ℕ_discrete}
use mpfr.Base.{ℕ, ◌+◌, ◌-◌, ◌*◌, ◌^◌, ◌≤◌, ◌<◌, ◌≡◌, ◌≢◌, refl, sym, ap, ◌∙◌, arith}
use mpfr.Base.{
  ℤ, pos, ◌+ℤ◌, ◌-ℤ◌, +ℤ_parts, -ℤ_parts, ◌≤ℤ◌, ◌<ℤ◌, int_laws, ltb_ℤ_of_le, ltb_ℤ_of_lt,
}
use mpfr.Base.{pow-add, pow-split, mod_unique, ◌⊎◌, inl, inr, ◌==◌, if◌then◌else◌, bit_and}
use mpfr.Base.{[], ◌∷◌}
use mpfr.Words.{shl, limb_highbit}
use mpfr.Types.{Rnd, rndna, is_neg, Mpfr, Env}
use mpfr.Rounding.{Parts, Verdict, verdict, round_limb, store_limb}
use mpfr.Rounding.Fits.{round_limb-store_limb}
use mpfr.Rounding.Decision.{verdict_rounds}
use mpfr.Rounding.Limb.{IsLimb, round_limb-IsRounded, odd_bit-IsEvenFlag, units-lt, exponent_of}
use mpfr.Rounding.Spec.{RoundsTo}
use mpfr.Rounding.Correct.{captured_at_least, captured_less_than}
use mpfr.Rounding.Range.{IsCutOf, UnderflowMode, IsCorrectRange}
use mpfr.Rounding.Least.{least, not_least}
use mpfr.Sub.{round_difference, small_rnd}

-- The exact difference `exact`, a multiple of the ulp `2 ^ sh` in units of the lower operand, whose
-- exponent is `lo`, and less than the higher operand `b0`, which is `d` places above.
module _ (exact m b0 qb d sh : ℕ) (lo : ℤ) (hb : IsLimb b0 qb sh) (multiple : exact ≡ m * 2 ^ sh)
    (smaller : exact < b0 * 2 ^ d) (s : Parts)
    (c : IsCutOf (exact * 2 ^ 64) (lo -ℤ pos 64) sh s) where
  captured_low : s.limb * 2 ^ c.weight ≤ exact * 2 ^ 64
  captured_low = omega (arith, c.captures.position, ap (λ t. t * 2 ^ c.weight) c.limb.units)

  scaled : 2 ^ (d + 64) ≡ 2 ^ d * 2 ^ 64
  scaled = pow-add d 64

  -- The exponent does not exceed that of the higher operand.
  weight_le : c.weight ≤ d + 64
  weight_le = elim (dec_lt (d + 64) c.weight) [
    | yes over ↦
        let grows : 2 ^ (d + 64 + 1) ≤ 2 ^ c.weight =
          pow-le-pow_right {n = 2} (omega arith) {i = d + 64 + 1} {j = c.weight} (omega arith) in
        let doubled : 2 ^ (d + 64 + 1) ≡ 2 ^ (d + 64) * 2 = pow-add (d + 64) 1 in
        let most : b0 * 2 ^ d ≤ 2 ^ 64 * 2 ^ d =
          mul-le-mul_right {m = b0} {n = 2 ^ 64} (2 ^ d) (omega (arith, hb.bounded)) in
        let normal : 2 ^ 63 * 2 ^ c.weight ≤ s.limb * 2 ^ c.weight =
          mul-le-mul_right {m = 2 ^ 63} {n = s.limb} (2 ^ c.weight) c.limb.normalized in
        absurd (omega (arith, captured_low, smaller, scaled))
    | no within ↦ omega arith
  ]

  -- Where the exponent is that of the higher operand, the limb is below its limb, and does not carry.
  no_carry : c.weight ≡ d + 64 → s.limb + 2 ^ sh < 2 ^ 64
  no_carry h =
      let weight : 2 ^ c.weight ≡ 2 ^ d * 2 ^ 64 = rw h scaled in
      let below : s.limb < b0 =
        lt_of_mul-lt-mul_right (2 ^ c.weight) {m = s.limb} {n = b0}
          (omega (arith, captured_low, smaller, weight, ap (λ t. b0 * t) weight)) in
      omega (arith, units-lt b0 qb sh hb, hb.units, below)

  abbrev unit : ℕ
  unit = 2 ^ sh * 2 ^ c.weight

  abbrev rest : ℕ
  rest = (if s.rb == 0 then 0 else c.captures.half) + c.captures.low

  rest-lt : rest < unit
  rest-lt = ground (arith, c.captures.unit, c.captures.below)

  -- Below the exponent of the lower operand the difference is exact.
  exact_below : c.weight < 64 → (s.rb ≡ 0) × (s.sb ≡ 0)
  exact_below h = (ground (arith, none, c.captures.below), c.captures.clear (omega (arith, none)))
    where
      places : 2 ^ 64 ≡ 2 ^ c.weight * 2 ^ (64 - c.weight)
      places = pow-split 64 c.weight (omega arith)

      whole : exact * 2 ^ 64 ≡ m * 2 ^ (64 - c.weight) * unit + 0
      whole = omega (arith, ap (λ t. t * 2 ^ 64) multiple, ap (λ t. m * 2 ^ sh * t) places)

      none : rest ≡ 0
      none =
          sym (
            mod_unique (exact * 2 ^ 64) unit c.units rest (omega (arith, c.captures.position))
              rest-lt)
          ∙ mod_unique (exact * 2 ^ 64) unit (m * 2 ^ (64 - c.weight)) 0 whole
              (omega (arith, rest-lt))

  module _ (a : Mpfr) (rnd : Rnd) (supported : rnd ≢ rndna) (e : Env) (above : e.emin ≤ℤ lo)
      (within : lo +ℤ pos d ≤ℤ e.emax) where
    top : s.exponent ≤ℤ e.emax
    top = rw c.exponent (omega (int_laws, weight_le))

    tiny : s.exponent <ℤ e.emin → c.weight < 64
    tiny h = omega (int_laws, rw c.exponent at h)

    small_rnd-UnderflowMode :
        s.exponent <ℤ e.emin
        → c.weight < 64
        → UnderflowMode rnd (exact * 2 ^ 64) c.weight s.exponent e (small_rnd s rnd e)
    unfolding small_rnd
    small_rnd-UnderflowMode h k = (
      λ directed. rw directed,
      λ nearest far. ground (arith, +ℤ_parts s.exponent (pos 1), -ℤ_parts e.emin (pos 1)),
      λ nearest least_x. ground (arith, least _ c.weight c.units sh s c.limb c.captures least_x),
      λ nearest near more_x.
          ground (arith, +ℤ_parts s.exponent (pos 1), -ℤ_parts e.emin (pos 1), not_highest more_x),
    )
      where
        not_highest : 2 ^ 63 * 2 ^ c.weight < exact * 2 ^ 64 → s.limb ≢ limb_highbit
        not_highest more_x same =
            let (no_rb, no_sb) = exact_below k in
            let isnt = not_least (exact * 2 ^ 64) c.weight c.units sh s c.limb c.captures more_x in
            absurd (ground (arith, rw (no_rb, no_sb, same) at isnt))

    room : (s.exponent +ℤ pos 1 ≤ℤ e.emax) ⊎ (s.limb + 2 ^ sh < 2 ^ 64)
    room = elim (ℕ_discrete c.weight (d + 64)) [
      | yes full ↦ inr (no_carry full)
      | no less ↦ inl (rw c.exponent (omega (int_laws, weight_le)))
    ]

    stored : round_limb a rnd s.exponent sh s.limb s.rb s.sb e ≡ store_limb a rnd s sh e
    stored = round_limb-store_limb a rnd s sh e c.limb.narrow c.limb.normalized room

    same_exponent : exponent_of (c.units * 2 ^ sh) s.exponent ≡ s.exponent
    same_exponent = ground (arith, c.limb.units, c.limb.bounded)

    -- An exact difference is its own rounding.
    exact_rounds :
        s.exponent <ℤ e.emin
        → RoundsTo rnd (is_neg a.sign) (exact * 2 ^ 64) (2 ^ sh * 2 ^ c.weight) c.units
    unfolding verdict
    exact_rounds low =
        let (no_rb, no_sb) = exact_below (tiny low) in
        let odd = bit_and s.limb (shl 1 sh) in
        let kept : verdict rnd (is_neg a.sign) odd s.rb s.sb ≡ Verdict.exact = rw (no_rb, no_sb) in
        rw kept at (
          verdict_rounds (exact * 2 ^ 64) (2 ^ sh * 2 ^ c.weight) c.units s.rb s.sb odd c.captures
            (odd_bit-IsEvenFlag s.limb c.units sh c.limb) rnd (is_neg a.sign) supported)

    pub round_difference-IsCorrectRange :
        IsCorrectRange a rnd (exact * 2 ^ 64) (lo -ℤ pos 64) sh e (round_difference a s rnd sh e)
    unfolding round_difference
    round_difference-IsCorrectRange = record {
      weight = c.weight;
      at_least = captured_at_least _ c.weight s.limb c.units sh s.rb s.sb c.limb c.captures;
      less_than = captured_less_than _ c.weight s.limb c.units sh s.rb s.sb c.limb c.captures;
      in_range = rw (← c.exponent) (λ high low.
          rw (ltb_ℤ_of_le e.emin s.exponent low, ← stored)
            (round_limb-IsRounded a rnd (exact * 2 ^ 64) (2 ^ sh * 2 ^ c.weight) s.exponent sh e
              s.limb c.units s.rb s.sb supported top c.limb c.captures));
      beyond = rw (← c.exponent) (λ high. absurd (omega (arith, top)));
      below = rw (← c.exponent) (λ high low. (
        c.units,
        exact_rounds low,
        λ reaches. absurd (omega (arith, rw same_exponent at reaches)),
        λ out. (
          record a { mant = s.limb ∷ [] },
          small_rnd s rnd e,
          small_rnd-UnderflowMode low (tiny low),
          refl,
          rw (ltb_ℤ_of_lt s.exponent e.emin low),
        ),
      ));
    }
