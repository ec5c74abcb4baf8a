-- ===== src/Sub/Far.antt =====
-- The difference of two limbs that are `d >= GMP_NUMB_BITS` places apart, or not shifted at all.
use native.Mathlib.Nat.{
  mod-eq_of_lt, pow-le-pow_right, mul-le-mul_right, mul-lt-mul_of_pos_right, lt_of_mul-lt-mul_right,
}
use native.Mathlib.Decide.{ℕ_discrete, dec_lt}
use mpfr.Base.{
  ℕ, suc, ◌⊎◌, inl, inr, pow-suc_double, ◌+◌, ◌-◌, ◌*◌, ◌^◌, ◌≤◌, ◌<◌, ◌≡◌, refl, ap, ◌∙◌, arith,
  true, false, Bool,
}
use mpfr.Base.{ℤ, pos, ◌-ℤ◌, int_laws, pow-pos, pow-split, lt→ltb, ge→ltb, ltb, Bool-cases}
use mpfr.Base.{◌==◌, ◌&&◌, ◌||◌, if◌then◌else◌}
use mpfr.Words.{limb_highbit, limb_bits, lnot, lsub, shl, shl-one, limb_mask, limb_mask_lem}
use mpfr.Words.Longlong.{Longlong, count_leading_zeros_lem, count_leading_zeros}
use mpfr.Rounding.Limb.{IsLimb}
use mpfr.Rounding.Range.{IsCutOf}
use mpfr.Sub.{diff_equal, diff_far}

-- Equal exponents: the difference `a0` of the limbs is exact.
pub diff_equal-IsCutOf :
    ⦃ll : Longlong⦄
    → (a0 q sh : ℕ) (bx : ℤ) → 1 ≤ a0
    → a0 < 2 ^ 64
    → sh < 64
    → a0 ≡ q * 2 ^ sh
    → IsCutOf (a0 * 2 ^ 64) (bx -ℤ pos 64) sh (diff_equal bx a0)
unfolding diff_equal
diff_equal-IsCutOf a0 q sh bx some bounded narrow units =
    let (small, normalized, fits) = count_leading_zeros_lem a0 some bounded in
    rw (mod-eq_of_lt fits) (record {
      weight = 64 - count_leading_zeros a0;
      units = q * 2 ^ count_leading_zeros a0;
      exponent = omega int_laws;
      limb = record {
        narrow = narrow;
        units = omega (arith, ap (λ t. t * 2 ^ count_leading_zeros a0) units);
        normalized = normalized;
        bounded = fits;
      };
      captures = record {
        half = 2 ^ sh * 2 ^ (63 - count_leading_zeros a0);
        low = 0;
        unit = omega (arith, ap (λ t. 2 ^ sh * t) (halves small));
        position =
            omega (arith, ap (λ t. t * 2 ^ 64) units, ap (λ t. q * 2 ^ sh * t) (places small));
        below = positive (63 - count_leading_zeros a0);
        sticky = λ z. refl;
        clear = λ z. refl;
      };
    })
  where
    positive : (k : ℕ) → 0 < 2 ^ sh * 2 ^ k
    positive k =
        omega
          (arith, mul-lt-mul_of_pos_right {m = 0} {n = 2 ^ sh} {k = 2 ^ k} (pow-pos sh) (pow-pos k))

    halves :
        count_leading_zeros a0 < 64
        → 2 ^ (64 - count_leading_zeros a0) ≡ 2 * 2 ^ (63 - count_leading_zeros a0)
    halves h =
        let e : 64 - count_leading_zeros a0 ≡ suc (63 - count_leading_zeros a0) = omega arith in
        rw e (pow-suc_double (63 - count_leading_zeros a0))

    places :
        count_leading_zeros a0 < 64
        → 2 ^ 64 ≡ 2 ^ count_leading_zeros a0 * 2 ^ (64 - count_leading_zeros a0)
    places h = pow-split 64 (count_leading_zeros a0) (omega arith)

-- `sb` is set where it should not be for the one midpoint.
abbrev pub midpoint : ℕ → ℕ → ℕ → ℕ → Bool
midpoint b0 c0 d sh = sh == 1 && d == 64 && c0 == limb_highbit && b0 == limb_highbit

module _ (b0 c0 qb d sh : ℕ) (far : 64 ≤ d) (hb : IsLimb b0 qb sh) (pos_sh : 0 < sh)
    (hc : 2 ^ 63 ≤ c0) (lc : c0 < 2 ^ 64) where
  abbrev exact : ℕ
  exact = b0 * 2 ^ d - c0

  half : ℕ
  half = 2 ^ (sh - 1) * 2 ^ (d - 1)

  ulp : 2 ^ sh ≡ 2 * 2 ^ (sh - 1)
  ulp = let e : sh ≡ suc (sh - 1) = omega arith in ap (λ t. 2 ^ t) e ∙ pow-suc_double (sh - 1)

  double : 2 ^ d ≡ 2 * 2 ^ (d - 1)
  double = let e : d ≡ suc (d - 1) = omega arith in ap (λ t. 2 ^ t) e ∙ pow-suc_double (d - 1)

  unit : 2 ^ sh * 2 ^ (d - 1) ≡ half + half
  unfolding half
  unit = omega (arith, ap (λ t. t * 2 ^ (d - 1)) ulp)

  half_least : 2 ^ 63 ≤ half
  unfolding half
  half_least =
      let wide : 2 ^ 63 ≤ 2 ^ (d - 1) =
        pow-le-pow_right {n = 2} (omega arith) {i = 63} {j = d - 1} (omega arith) in
      let scaled : 1 * 2 ^ (d - 1) ≤ 2 ^ (sh - 1) * 2 ^ (d - 1) =
        mul-le-mul_right {m = 1} {n = 2 ^ (sh - 1)} (2 ^ (d - 1)) (pow-pos (sh - 1)) in
      omega arith

  half_large : 1 < sh ⊎ 64 < d → 2 ^ 64 ≤ half
  unfolding half
  half_large (inl wide) =
      let two : 2 ≤ 2 ^ (sh - 1) =
        pow-le-pow_right {n = 2} (omega arith) {i = 1} {j = sh - 1} (omega arith) in
      let least : 2 ^ 63 ≤ 2 ^ (d - 1) =
        pow-le-pow_right {n = 2} (omega arith) {i = 63} {j = d - 1} (omega arith) in
      let scaled : 2 * 2 ^ (d - 1) ≤ 2 ^ (sh - 1) * 2 ^ (d - 1) =
        mul-le-mul_right {m = 2} {n = 2 ^ (sh - 1)} (2 ^ (d - 1)) two in
      omega arith
  half_large (inr wide) =
      let least : 2 ^ 64 ≤ 2 ^ (d - 1) =
        pow-le-pow_right {n = 2} (omega arith) {i = 64} {j = d - 1} (omega arith) in
      let scaled : 1 * 2 ^ (d - 1) ≤ 2 ^ (sh - 1) * 2 ^ (d - 1) =
        mul-le-mul_right {m = 1} {n = 2 ^ (sh - 1)} (2 ^ (d - 1)) (pow-pos (sh - 1)) in
      omega arith

  half_small : sh ≡ 1 → d ≡ 64 → half ≡ 2 ^ 63
  unfolding half
  half_small h k = rw (h, k)

  -- `b0` is above the power of two: one unit less, and more than half a unit.
  plain-IsCutOf :
      (bx : ℤ)
      → 2 ^ 63 < b0
      → IsCutOf exact
          (bx -ℤ pos d)
          sh
          (record { exponent = bx; limb = lsub b0 (shl 1 sh); rb = 1; sb = 1 })
  plain-IsCutOf bx h =
      rw (shl-one sh hb.narrow, limb)
        (record {
          weight = d;
          units = qb - 1;
          exponent = omega int_laws;
          limb = record {
            narrow = hb.narrow;
            units = omega (arith, hb.units, one_less);
            normalized = high;
            bounded = omega (arith, hb.bounded);
          };
          captures = record {
            half = half + half;
            low = half + half - c0;
            unit = unit_d;
            position = omega (
              arith,
              half_least,
              ap (λ t. t * 2 ^ d) hb.units,
              ap (λ t. t * 2 ^ d) one_less,
              unit_d,
            );
            below = omega (arith, half_least);
            sticky = λ z. absurd (omega arith);
            clear = λ z. absurd (omega (arith, half_least, lc));
          };
        })
    where
      width : 2 ^ 63 ≡ 2 ^ sh * 2 ^ (63 - sh)
      width = pow-split 63 sh (omega (arith, hb.narrow))

      more : 2 ^ (63 - sh) < qb
      more =
          lt_of_mul-lt-mul_right (2 ^ sh) {m = 2 ^ (63 - sh)} {n = qb}
            (omega (arith, width, hb.units))

      one_less : qb * 2 ^ sh ≡ (qb - 1) * 2 ^ sh + 2 ^ sh
      one_less =
          let e : qb ≡ qb - 1 + 1 = omega (arith, more) in omega (arith, ap (λ t. t * 2 ^ sh) e)

      high : 2 ^ 63 ≤ b0 - 2 ^ sh
      high =
          let le : 2 ^ (63 - sh) * 2 ^ sh ≤ (qb - 1) * 2 ^ sh =
            mul-le-mul_right {m = 2 ^ (63 - sh)} {n = qb - 1} (2 ^ sh) (omega (arith, more)) in
          omega (arith, width, hb.units, one_less)

      unit_d : 2 ^ sh * 2 ^ d ≡ half + half + (half + half)
      unit_d = omega (arith, unit, ap (λ t. 2 ^ sh * t) double)

      limb : lsub b0 (2 ^ sh) ≡ b0 - 2 ^ sh
      limb = omega (arith, hb.units, one_less, hb.bounded)

  -- `b0` is the power of two: the exponent decreases, with half the ulp.
  module _ (power : b0 ≡ 2 ^ 63) where
    all_ones : lnot (limb_mask sh) ≡ 2 ^ 64 - 2 ^ sh
    all_ones = rw (limb_mask_lem sh hb.narrow) (omega (arith, pow-pos sh))

    power-IsCutOf :
        (bx : ℤ) (rb sb low : ℕ)
        → half + half ≡ c0 + (if rb == 0 then 0 else half) + low
        → low < half
        → (sb ≡ 0 → low ≡ 0)
        → (low ≡ 0 → sb ≡ 0)
        → IsCutOf exact
            (bx -ℤ pos d)
            sh
            (record { exponent = bx -ℤ pos 1; limb = lnot (limb_mask sh); rb = rb; sb = sb })
    power-IsCutOf bx rb sb low rest below sticky clear = rw all_ones (record {
      weight = d - 1;
      units = 2 ^ (64 - sh) - 1;
      exponent = omega int_laws;
      limb = record {
        narrow = hb.narrow;
        units = omega (arith, ones);
        normalized = omega (
          arith,
          pow-le-pow_right {n = 2} (omega arith) {i = sh} {j = 63} (omega (arith, hb.narrow)),
        );
        bounded = omega (arith, pow-pos sh);
      };
      captures = record {
        half = half;
        low = low;
        unit = unit;
        position = omega (
          arith,
          power,
          rest,
          unit,
          double,
          ap (λ t. t * 2 ^ (d - 1)) ones,
          ap (λ t. t * 2 ^ d) power,
        );
        below = below;
        sticky = sticky;
        clear = clear;
      };
    })
      where
        ones : 2 ^ 64 ≡ (2 ^ (64 - sh) - 1) * 2 ^ sh + 2 ^ sh
        ones =
            let width : 2 ^ 64 ≡ 2 ^ sh * 2 ^ (64 - sh) =
              pow-split 64 sh (omega (arith, hb.narrow)) in
            let e : 2 ^ (64 - sh) ≡ 2 ^ (64 - sh) - 1 + 1 = omega (arith, pow-pos (64 - sh)) in
            omega (arith, width, ap (λ t. 2 ^ sh * t) e)

  abbrev big : Bool
  big = ltb 1 sh || ltb limb_bits d

  big_cases : big ≡ true → 1 < sh ⊎ 64 < d
  big_cases h = elim (dec_lt 1 sh) [ yes k ↦ inl k | no k ↦ inr (ground arith) ]

  small_cases : big ≡ false → (sh ≡ 1) × (d ≡ 64)
  small_cases h = ground arith

  pub diff_far-IsCutOf :
      (bx : ℤ)
      → IsCutOf exact
          (bx -ℤ pos d)
          sh
          (record (diff_far bx b0 c0 d sh) { sb = if midpoint b0 c0 d sh then 0 else 1 })
  unfolding diff_far
  diff_far-IsCutOf bx = elim (dec_lt limb_highbit b0) [
    | yes plain ↦
        let off : midpoint b0 c0 d sh ≡ false = ground arith in
        rw (lt→ltb limb_highbit b0 plain, off) (plain-IsCutOf bx plain)
    | no power ↦
        let b0_power : b0 ≡ 2 ^ 63 = omega (arith, hb.normalized) in
        rw (ge→ltb limb_highbit b0 (omega arith)) (elim (Bool-cases big) [
          | inl large ↦
              let wide : 2 ^ 64 ≤ half = half_large (big_cases large) in
              let off : midpoint b0 c0 d sh ≡ false = ground arith in
              let on : (big || c0 == limb_highbit) ≡ true = rw large in
              rw (on, off)
                (power-IsCutOf b0_power bx 1 1 (half - c0) (omega arith) (omega arith)
                  (λ z. absurd (omega arith)) (λ z. absurd (omega arith)))
          | inr small ↦
              let (one, same) = small_cases small in
              let h : half ≡ 2 ^ 63 = half_small one same in
              elim (ℕ_discrete c0 limb_highbit) [
                | yes mid ↦
                    let on : midpoint b0 c0 d sh ≡ true = ground arith in
                    let up : (big || c0 == limb_highbit) ≡ true = ground arith in
                    rw (up, on)
                      (power-IsCutOf b0_power bx 1 0 0 (omega arith) (omega arith) (λ z. refl)
                        (λ z. refl))
                | no above ↦
                    let off : midpoint b0 c0 d sh ≡ false = ground arith in
                    let down : (big || c0 == limb_highbit) ≡ false = ground arith in
                    rw (down, off)
                      (power-IsCutOf b0_power bx 0 1 (2 ^ 64 - c0) (omega arith) (omega arith)
                        (λ z. absurd (omega arith)) (λ z. absurd (omega arith)))
              ]
        ])
  ]
