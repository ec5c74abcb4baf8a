-- ===== src/Sub/Whole.antt =====
-- `mpfr_sub1sp1n` returns the correctly rounded difference: limbs that are at least
-- `GMP_NUMB_BITS` places apart.
pub mod Correct
use native.Mathlib.Nat.{pow-le-pow_right, mul-le-mul_right, mod-eq_of_lt}
use native.Mathlib.Decide.{dec_lt, ℕ_discrete}
use mpfr.Base.{
  ℕ, suc, ◌+◌, ◌-◌, ◌*◌, ◌/◌, ◌%◌, ◌^◌, ◌≤◌, ◌<◌, ◌≡◌, ◌≢◌, refl, sym, ap, ◌∙◌, arith, true, false,
  Bool,
}
use mpfr.Base.{
  ℤ, pos, ◌+ℤ◌, ◌-ℤ◌, int_laws, pow-pos, pow-suc_double, lt→ltb, ge→ltb, Bool-cases, inl, inr,
}
use mpfr.Base.{if◌then◌else◌, ltb, ◌==◌, ◌&&◌, ◌||◌, not, ==_iff}
use mpfr.Words.{shl, shr, lsub, limb_bits, limb_highbit}
use mpfr.Rounding.{Parts}
use mpfr.Rounding.Decision.{Captures}
use mpfr.Rounding.Whole.{whole-IsLimb}
use mpfr.Rounding.Range.{IsCutOf}
use mpfr.Sub.{whole_diff_far, power_diff_far}

module _ (b0 c0 d : ℕ) (far : 64 ≤ d) (hb : 2 ^ 63 ≤ b0) (lb : b0 < 2 ^ 64) (hc : 2 ^ 63 ≤ c0)
    (lc : c0 < 2 ^ 64) where
  abbrev exact : ℕ
  exact = b0 * 2 ^ d - c0

  abbrev half : ℕ
  half = 2 ^ (d - 1)

  double : 2 ^ d ≡ 2 * half
  double = let e : d ≡ suc (d - 1) = omega arith in ap (λ t. 2 ^ t) e ∙ pow-suc_double (d - 1)

  half_least : 2 ^ 63 ≤ half
  half_least = pow-le-pow_right {n = 2} (omega arith) {i = 63} {j = d - 1} (omega arith)

  half_large : 64 < d → 2 ^ 64 ≤ half
  half_large h = pow-le-pow_right {n = 2} (omega arith) {i = 64} {j = d - 1} (omega arith)

  half_same : d ≡ 64 → half ≡ 2 ^ 63
  half_same h = rw h

  -- One unit less than `b0`, and the rest of it below.
  one_less :
      (bx : ℤ) (rb sb low : ℕ)
      → 2 ^ 63 < b0
      → 2 * half ≡ c0 + (if rb == 0 then 0 else half) + low
      → low < half
      → (sb ≡ 0 → low ≡ 0)
      → (low ≡ 0 → sb ≡ 0)
      → IsCutOf exact (bx -ℤ pos d) 0 (record { exponent = bx; limb = lsub b0 1; rb = rb; sb = sb })
  one_less bx rb sb low above rest below sticky clear =
      let limb : lsub b0 1 ≡ b0 - 1 = omega arith in
      let sum : b0 ≡ b0 - 1 + 1 = omega arith in
      rw limb (record {
        weight = d;
        units = b0 - 1;
        exponent = omega int_laws;
        limb = whole-IsLimb (b0 - 1) (omega arith) (omega arith);
        captures = record {
          half = half;
          low = low;
          unit = omega (arith, double);
          position = omega (arith, rest, double, ap (λ t. t * 2 ^ d) sum);
          below = below;
          sticky = sticky;
          clear = clear;
        };
      })

  pub whole_diff_far-IsCutOf :
      (bx : ℤ) → 2 ^ 63 < b0 → IsCutOf exact (bx -ℤ pos d) 0 (whole_diff_far bx b0 c0 d)
  unfolding whole_diff_far
  whole_diff_far-IsCutOf bx above = elim (dec_lt 64 d) [
    | yes more ↦
        let wide : 2 ^ 64 ≤ half = half_large more in
        rw (lt→ltb 64 d more) (
          one_less bx 1 1 (half - c0) above (omega arith) (omega arith) (λ z. absurd (omega arith))
            (λ z. absurd (omega arith)))
    | no most ↦
        let h : half ≡ 2 ^ 63 = half_same (omega arith) in
        rw (ge→ltb 64 d (omega arith)) (elim (ℕ_discrete c0 limb_highbit) [
          | yes mid ↦
              let on : (c0 == limb_highbit) ≡ true = (==_iff c0 limb_highbit).1 mid in
              rw on (one_less bx 1 0 0 above (omega arith) (omega arith) (λ z. refl) (λ z. refl))
          | no other ↦
              let off : (c0 == limb_highbit) ≡ false = ground arith in
              rw off (
                one_less bx 0 1 (2 ^ 64 - c0) above (omega arith) (omega arith)
                  (λ z. absurd (omega arith)) (λ z. absurd (omega arith)))
        ])
  ]

  -- Where `b0` is a power of two the exponent decreases, and the ulp halves.
  module _ (power : b0 ≡ 2 ^ 63) where
    abbrev quarter : ℕ
    quarter = 2 ^ (d - 2)

    quarters : half ≡ 2 * quarter
    quarters =
        let e : d - 1 ≡ suc (d - 2) = omega arith in ap (λ t. 2 ^ t) e ∙ pow-suc_double (d - 2)

    quarter_large : 65 < d → 2 ^ 64 ≤ quarter
    quarter_large h = pow-le-pow_right {n = 2} (omega arith) {i = 64} {j = d - 2} (omega arith)

    power_less :
        (bx : ℤ) (a0 rb sb low : ℕ)
        → 2 ^ 63 ≤ a0
        → a0 < 2 ^ 64
        → 2 ^ 64 * half ≡ a0 * half + c0 + (if rb == 0 then 0 else quarter) + low
        → low < quarter
        → (sb ≡ 0 → low ≡ 0)
        → (low ≡ 0 → sb ≡ 0)
        → IsCutOf exact
            (bx -ℤ pos d)
            0
            (record { exponent = bx -ℤ pos 1; limb = a0; rb = rb; sb = sb })
    power_less bx a0 rb sb low normalized bounded rest below sticky clear = record {
      weight = d - 1;
      units = a0;
      exponent = omega int_laws;
      limb = whole-IsLimb a0 normalized bounded;
      captures = record {
        half = quarter;
        low = low;
        unit = omega (arith, quarters);
        position = omega (arith, rest, double, ap (λ t. t * 2 ^ d) power);
        below = below;
        sticky = sticky;
        clear = clear;
      };
    }

    -- `d = GMP_NUMB_BITS`: the difference has two bits less than `b0`, or one.
    near_case : (bx : ℤ) → d ≡ 64 → IsCutOf exact (bx -ℤ pos d) 0 (power_diff_far bx c0 d)
    unfolding power_diff_far
    near_case bx same =
        let h : half ≡ 2 ^ 63 = half_same same in
        let k : quarter ≡ 2 ^ 62 = rw same in
        let size : (d == 64) ≡ true = (==_iff d 64).1 same in
        let wrap : c0 ≢ 0 = omega arith in
        let negated : lsub 0 c0 ≡ 2 ^ 64 - c0 = omega arith in
        elim (dec_lt limb_highbit c0) [
          | yes above ↦
              rw (size, lt→ltb limb_highbit c0 above, negated)
                (elim (dec_lt (2 ^ 64 - c0) (2 ^ 62)) [
                  | yes low ↦ rw (lt→ltb (2 ^ 64 - c0) (2 ^ 62) low) (
                      power_less bx (2 ^ 64 - 2) 0 (shl (2 ^ 64 - c0) 2) (2 ^ 64 - c0) (omega arith)
                        (omega arith) (omega (arith, h)) (omega (arith, k)) (λ z. omega arith)
                        (λ z. omega arith))
                  | no high ↦ rw (ge→ltb (2 ^ 64 - c0) (2 ^ 62) (omega arith)) (
                      power_less bx (2 ^ 64 - 2) 1 (shl (2 ^ 64 - c0) 2) (2 ^ 64 - c0 - 2 ^ 62)
                        (omega arith) (omega arith) (omega (arith, h, k)) (omega (arith, k))
                        (λ z. omega arith) (λ z. omega arith))
                ])
          | no least ↦
              let not_far : ltb 65 d ≡ false = ge→ltb 65 d (omega arith) in
              let not_next : (d == 65) ≡ false = ground arith in
              rw (size, ge→ltb limb_highbit c0 (omega arith), not_far, not_next)
                (power_less bx (2 ^ 64 - 1) 0 0 0 (omega arith) (omega arith) (omega (arith, h))
                  (omega (arith, k)) (λ z. refl) (λ z. refl))
        ]

    -- Further apart, one bit less.
    far_case : (bx : ℤ) → 64 < d → IsCutOf exact (bx -ℤ pos d) 0 (power_diff_far bx c0 d)
    unfolding power_diff_far
    far_case bx more =
        let other : (d == 64) ≡ false = ground arith in
        let wide : 2 ^ 64 ≤ half = half_large more in
        elim (ℕ_discrete d 65) [
          | yes next ↦
              let size : (d == 65) ≡ true = (==_iff d 65).1 next in
              let not_far : ltb 65 d ≡ false = ge→ltb 65 d (omega arith) in
              let k : quarter ≡ 2 ^ 63 = rw next in
              elim (ℕ_discrete c0 limb_highbit) [
                | yes mid ↦
                    let on : (c0 == limb_highbit) ≡ true = (==_iff c0 limb_highbit).1 mid in
                    rw (other, size, not_far, on, ge→ltb limb_highbit c0 (omega arith))
                      (power_less bx (2 ^ 64 - 1) 1 0 0 (omega arith) (omega arith)
                        (omega (arith, quarters)) (omega arith) (λ z. refl) (λ z. refl))
                | no greater ↦
                    let off : (c0 == limb_highbit) ≡ false = ground arith in
                    rw (other, size, not_far, off, lt→ltb limb_highbit c0 (omega arith))
                      (power_less bx (2 ^ 64 - 1) 0 1 (2 ^ 64 - c0) (omega arith) (omega arith)
                        (omega (arith, quarters)) (omega arith) (λ z. absurd (omega arith))
                        (λ z. absurd (omega arith)))
              ]
          | no further ↦
              let large : 2 ^ 64 ≤ quarter = quarter_large (omega arith) in
              rw (other, lt→ltb 65 d (omega arith))
                (power_less bx (2 ^ 64 - 1) 1 1 (quarter - c0) (omega arith) (omega arith)
                  (omega (arith, quarters)) (omega arith) (λ z. absurd (omega arith))
                  (λ z. absurd (omega arith)))
        ]

    pub power_diff_far-IsCutOf : (bx : ℤ) → IsCutOf exact (bx -ℤ pos d) 0 (power_diff_far bx c0 d)
    power_diff_far-IsCutOf bx = elim (ℕ_discrete d 64) [
      | yes same ↦ near_case bx same
      | no more ↦ far_case bx (omega arith)
    ]
