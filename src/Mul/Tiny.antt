-- ===== src/Mul/Tiny.antt =====
-- Results below the exponent range: the tests of the code against the rounding that they predict.
use native.Mathlib.Nat.{eq_of_mul-eq-mul_right}
use native.Mathlib.Decide.{ℕ_discrete}
use mpfr.Base.{ℕ, ◌+◌, ◌-◌, ◌*◌, ◌%◌, ◌^◌, ◌≤◌, ◌≡◌, ◌≢◌, refl, sym, ◌∙◌, arith, Bool}
use mpfr.Base.{
  true, false, not, ◌&&◌, ◌||◌, ◌==◌, if◌then◌else◌, bit_and, bit_or, pow-pos, pow-split,
}
use mpfr.Base.{pos, +ℤ_parts, -ℤ_parts, ◌≤ℤ◌, ◌<ℤ◌}
use mpfr.Words.{bit_or_ge, limb_mod, limb_mask, limb_mask_lem, lnot, shl}
use mpfr.Rounding.Cut.{bit_or_zeros, factor_zero}
use mpfr.Types.{Rnd, rndn, rndz, rndu, rndd, rnda, rndf, rndna, is_rndn, is_like_rnda, Env}
use mpfr.Rounding.{Parts, verdict}
use mpfr.Rounding.Limb.{IsLimb, exponent_of, odd_bit}
use mpfr.Rounding.Decision.{chosen}
use mpfr.Mul.{reaches_emin}

-- The test that the significand of all ones is rounded up.
abbrev pub rounds_up : Rnd → Bool → ℕ → ℕ → Bool
rounds_up rnd neg rb sb =
    (is_rndn rnd && not (rb == 0)) || (is_like_rnda rnd neg && not (bit_or rb sb == 0))

rounds_up_lem :
    (rnd : Rnd) (neg : Bool) (odd rb sb q : ℕ)
    → rnd ≢ rndna
    → odd ≢ 0
    → chosen (verdict rnd neg odd rb sb) q ≡ (if rounds_up rnd neg rb sb then q + 1 else q)
unfolding verdict
rounds_up_lem rndn neg odd rb sb q h k = ground arith
rounds_up_lem rndz neg odd rb sb q h k = ground arith
rounds_up_lem rndu true odd rb sb q h k = ground arith
rounds_up_lem rndu false odd rb sb q h k = ground (arith, bit_or_ge rb sb, bit_or_zeros rb sb)
rounds_up_lem rndd true odd rb sb q h k = ground (arith, bit_or_ge rb sb, bit_or_zeros rb sb)
rounds_up_lem rndd false odd rb sb q h k = ground arith
rounds_up_lem rnda neg odd rb sb q h k = ground (arith, bit_or_ge rb sb, bit_or_zeros rb sb)
rounds_up_lem rndf neg odd rb sb q h k = ground arith
rounds_up_lem rndna neg odd rb sb q h k = absurd (h refl)

-- A verdict adds at most one unit.
chosen_cases :
    (rnd : Rnd) (neg : Bool) (odd rb sb q : ℕ)
    → (q ≤ chosen (verdict rnd neg odd rb sb) q) × (chosen (verdict rnd neg odd rb sb) q ≤ q + 1)
unfolding verdict
chosen_cases rnd neg odd rb sb q = ground arith

module _ (a0 q sh : ℕ) (l : IsLimb a0 q sh) where
  all_ones : lnot (limb_mask sh) ≡ 2 ^ 64 - 2 ^ sh
  all_ones = rw (limb_mask_lem sh l.narrow) (omega (arith, pow-pos sh))

  -- The significand of all ones is odd.
  odd_ones : a0 ≡ 2 ^ 64 - 2 ^ sh → bit_and a0 (shl 1 sh) ≢ 0
  odd_ones full z = omega (arith, even, next, halves)
    where
      even : q % 2 ≡ 0
      even = factor_zero (q % 2) (2 ^ sh) (pow-pos sh) (sym (odd_bit a0 q sh l) ∙ z)

      width : 2 ^ 64 ≡ 2 ^ sh * 2 ^ (64 - sh)
      width = pow-split 64 sh (omega (arith, l.narrow))

      next : q + 1 ≡ 2 ^ (64 - sh)
      next =
          eq_of_mul-eq-mul_right (2 ^ sh) (pow-pos sh) (q + 1) (2 ^ (64 - sh))
            (omega (arith, width, full, l.units, l.bounded, l.normalized))

      halves : 2 ^ (64 - sh) ≡ 2 ^ 1 * 2 ^ (64 - sh - 1)
      halves = pow-split (64 - sh) 1 (omega (arith, l.narrow))

  full_case :
      a0 ≡ 2 ^ 64 - 2 ^ sh
      → (up : Bool)
      → ((if up then q + 1 else q) * 2 ^ sh == limb_mod) ≡ (a0 == 2 ^ 64 - 2 ^ sh && up)
  full_case full true =
      let e : (q + 1) * 2 ^ sh ≡ 2 ^ 64 = omega (arith, full, l.units, l.bounded, l.normalized) in
      rw (e, full) (ground arith)
  full_case full false = ground (arith, l.units, l.bounded)

  partial_case :
      a0 ≢ 2 ^ 64 - 2 ^ sh
      → (v : ℕ) (up : Bool) → (q ≤ v) × (v ≤ q + 1)
      → (v * 2 ^ sh == limb_mod) ≡ (a0 == 2 ^ 64 - 2 ^ sh && up)
  partial_case partial v up h = elim (ℕ_discrete v q) [
    | yes same ↦ rw same (ground (arith, l.units, l.bounded, partial))
    | no more ↦
        let e : v ≡ q + 1 = omega arith in
        let e' : (q + 1) * 2 ^ sh ≡ a0 + 2 ^ sh = omega (arith, l.units) in
        rw (e, e') (ground (arith, partial, l.bounded))
  ]

  module _ (rnd : Rnd) (neg : Bool) (rb sb : ℕ) (supported : rnd ≢ rndna) where
    -- What the verdict makes of the significand.
    abbrev pub rounded : ℕ
    rounded = chosen (verdict rnd neg (bit_and a0 (shl 1 sh)) rb sb) q * 2 ^ sh

    -- It reaches 2 ^ 64 exactly from all ones, rounded up.
    rounded_full : (rounded == limb_mod) ≡ (a0 == lnot (limb_mask sh) && rounds_up rnd neg rb sb)
    rounded_full = elim (ℕ_discrete a0 (2 ^ 64 - 2 ^ sh)) [
      | yes full ↦
          rw (all_ones, rounds_up_lem rnd neg _ rb sb q supported (odd_ones full))
            (full_case full (rounds_up rnd neg rb sb))
      | no partial ↦ rw all_ones (
          partial_case partial (chosen (verdict rnd neg (bit_and a0 (shl 1 sh)) rb sb) q)
            (rounds_up rnd neg rb sb) (chosen_cases rnd neg (bit_and a0 (shl 1 sh)) rb sb q))
    ]

-- The test `goto rounding` holds exactly if the rounded number has an exponent in range.
module _ (s : Parts) (q sh : ℕ) (l : IsLimb s.limb q sh) (rnd : Rnd) (neg : Bool)
    (supported : rnd ≢ rndna) (e : Env) (tiny : s.exponent <ℤ e.emin) where
  pub reached :
      reaches_emin s rnd neg sh e ≡ true
      → e.emin ≤ℤ exponent_of (rounded s.limb q sh l rnd neg s.rb s.sb supported) s.exponent
  unfolding reaches_emin
  reached h = ground (
    arith,
    rounded_full s.limb q sh l rnd neg s.rb s.sb supported,
    +ℤ_parts s.exponent (pos 1),
    -ℤ_parts e.emin (pos 1),
  )

  pub not_reached :
      reaches_emin s rnd neg sh e ≡ false
      → exponent_of (rounded s.limb q sh l rnd neg s.rb s.sb supported) s.exponent <ℤ e.emin
  unfolding reaches_emin
  not_reached h = ground (
    arith,
    rounded_full s.limb q sh l rnd neg s.rb s.sb supported,
    +ℤ_parts s.exponent (pos 1),
    -ℤ_parts e.emin (pos 1),
  )
