-- ===== src/Sub/Shifted.antt =====
-- The two ways in which `mpfr_sub1sp1` and `mpfr_sub1sp1n` reach their rounding, and the exact
-- difference that each stands for.
use native.Mathlib.Nat.{pow-le-pow_right, mul-le-mul_right}
use native.Mathlib.Decide.{dec_lt}
use mpfr.Words.Longlong.{Longlong}
use mpfr.Base.{ℕ, ◌+◌, ◌-◌, ◌*◌, ◌^◌, ◌≤◌, ◌<◌, ◌≡◌, ◌≢◌, refl, ap, ◌∙◌, arith, true, Bool}
use mpfr.Base.{ℤ, pos, ◌+ℤ◌, ◌-ℤ◌, ◌≤ℤ◌, int_laws, lt→ltb, ge→ltb, Bool-cases, inl, inr}
use mpfr.Base.{bit_and, if◌then◌else◌, ltb}
use mpfr.Words.{limb_mask, shl, limb_highbit}
use mpfr.Types.{Rnd, rndna, is_neg, Mpfr, Env}
use mpfr.Rounding.{Parts, verdict, store_limb}
use mpfr.Rounding.Limb.{IsLimb, units-lt}
use mpfr.Rounding.Range.{IsCutOf, IsCorrectRange}
use mpfr.Sub.{small_rnd, round_difference, diff_equal, diff_near, diff_far, diff_shifted}
use mpfr.Sub.Near.{IsCutOf-scale, diff_near-IsCutOf}
use mpfr.Sub.Far.{midpoint, diff_equal-IsCutOf, diff_far-IsCutOf}
use mpfr.Sub.Round.{round_difference-IsCorrectRange}

-- The difference of two multiples of a unit.
pub difference_units : (b c x y t : ℕ) → b ≡ x * t → c ≡ y * t → c ≤ b → b - c ≡ (x - y) * t
difference_units b c x y t eb ec h = elim (dec_lt x y) [
  | yes less ↦
      let le : x * t ≤ y * t = mul-le-mul_right {m = x} {n = y} t (omega arith) in
      let none : x - y ≡ 0 = omega arith in rw none (omega (arith, eb, ec))
  | no more ↦ let e : x ≡ x - y + y = omega arith in omega (arith, eb, ec, ap (λ v. v * t) e)
]

verdict_odd :
    (rnd : Rnd) (neg : Bool) (odd : ℕ) → odd ≢ 0 → verdict rnd neg odd 1 0 ≡ verdict rnd neg odd 1 1
unfolding verdict
verdict_odd rnd neg odd h = ground arith

-- Where the round bit is set on an odd significand, the sticky bit does not matter.
sticky_irrelevant :
    (a : Mpfr) (s : Parts) (rnd : Rnd) (sh : ℕ) (e : Env)
    → s.rb ≡ 1
    → bit_and s.limb (shl 1 sh) ≢ 0
    → round_difference a (record s { sb = 0 }) rnd sh e
      ≡ round_difference a (record s { sb = 1 }) rnd sh e
unfolding round_difference store_limb small_rnd
sticky_irrelevant a s rnd sh e set odd = rw (set, verdict_odd rnd (is_neg a.sign) _ odd)

midpoint_cases :
    (b0 c0 d sh : ℕ)
    → midpoint b0 c0 d sh ≡ true
    → (sh ≡ 1) × (d ≡ 64) × (c0 ≡ 2 ^ 63) × (b0 ≡ 2 ^ 63)
midpoint_cases b0 c0 d sh h = ground arith

module _ ⦃ll : Longlong⦄ (b0 c0 qb qc d sh : ℕ) (pos_d : 0 < d) (pos_sh : 0 < sh)
    (hb : IsLimb b0 qb sh) (hc : IsLimb c0 qc sh) (bx cx : ℤ) (apart : bx ≡ cx +ℤ pos d) where
  abbrev exact : ℕ
  exact = b0 * 2 ^ d - c0

  smaller : c0 < b0 * 2 ^ d
  smaller =
      let two : 2 ≤ 2 ^ d = pow-le-pow_right {n = 2} (omega arith) {i = 1} {j = d} pos_d in
      let le : 2 ^ 63 * 2 ^ d ≤ b0 * 2 ^ d =
        mul-le-mul_right {m = 2 ^ 63} {n = b0} (2 ^ d) hb.normalized in
      omega (arith, hc.bounded)

  room : c0 + 2 ≤ 2 ^ 64
  room =
      let two : 2 ≤ 2 ^ sh = pow-le-pow_right {n = 2} (omega arith) {i = 1} {j = sh} pos_sh in
      omega (arith, units-lt c0 qc sh hc, hc.units)

  multiple : exact ≡ (qb * 2 ^ d - qc) * 2 ^ sh
  multiple =
      difference_units (b0 * 2 ^ d) c0 (qb * 2 ^ d) qc (2 ^ sh)
        (omega (arith, ap (λ t. t * 2 ^ d) hb.units)) hc.units (omega (arith, smaller))

  module _ (a : Mpfr) (rnd : Rnd) (supported : rnd ≢ rndna) (e : Env) (above : e.emin ≤ℤ cx)
      (within : bx ≤ℤ e.emax) where
    rounded :
        (s : Parts)
        → IsCutOf (exact * 2 ^ 64) (cx -ℤ pos 64) sh s
        → IsCorrectRange a rnd (exact * 2 ^ 64) (cx -ℤ pos 64) sh e (round_difference a s rnd sh e)
    rounded s c =
        round_difference-IsCorrectRange exact (qb * 2 ^ d - qc) b0 qb d sh cx hb multiple
          (omega (arith, smaller, hc.normalized)) s c a rnd supported e above (rw (← apart) within)

    abbrev far_parts : Parts
    far_parts = diff_far bx b0 c0 d sh

    far_odd :
        midpoint b0 c0 d sh ≡ true → (far_parts.rb ≡ 1) × (bit_and far_parts.limb (shl 1 sh) ≢ 0)
    unfolding diff_far limb_mask
    far_odd mid =
        let (one, same, half, power) = midpoint_cases b0 c0 d sh mid in
        rw (one, same, half, power) (refl, (λ z. absurd (omega arith)))

    far_sticky : far_parts ≡ record far_parts { sb = 1 }
    unfolding diff_far
    far_sticky = elim (Bool-cases (ltb limb_highbit b0)) [ inl h ↦ rw h | inr h ↦ rw h ]

    far_rounded :
        64 ≤ d
        → IsCorrectRange a rnd
            (exact * 2 ^ 64)
            (cx -ℤ pos 64)
            sh
            e
            (round_difference a far_parts rnd sh e)
    far_rounded far = elim (Bool-cases (midpoint b0 c0 d sh)) [
      | inl mid ↦
          let (set, odd) = far_odd mid in
          let same = ap (λ s. round_difference a s rnd sh e) far_sticky in
          rw (same, ← sticky_irrelevant a far_parts rnd sh e set odd)
            (rounded (record far_parts { sb = 0 }) (rw mid at captured))
      | inr other ↦ rw far_sticky (rounded (record far_parts { sb = 1 }) (rw other at captured))
    ]
      where
        lower : bx -ℤ pos d ≡ cx -ℤ pos 64 +ℤ pos 64
        lower = ap (λ z. z -ℤ pos d) apart ∙ omega int_laws

        captured :
            IsCutOf
              (exact * 2 ^ 64)
              (cx -ℤ pos 64)
              sh
              (record far_parts { sb = if midpoint b0 c0 d sh then 0 else 1 })
        captured =
            IsCutOf-scale exact 64 (bx -ℤ pos d) (cx -ℤ pos 64) sh _ lower
              (diff_far-IsCutOf b0 c0 qb d sh far hb pos_sh hc.normalized hc.bounded bx)

    pub diff_shifted-IsCorrectRange :
        IsCorrectRange a rnd
          (exact * 2 ^ 64)
          (cx -ℤ pos 64)
          sh
          e
          (round_difference a (diff_shifted bx b0 c0 d sh) rnd sh e)
    unfolding diff_shifted
    diff_shifted-IsCorrectRange = elim (dec_lt d 64) [
      | yes near ↦ rw (lt→ltb d 64 near) (
          rounded (diff_near bx b0 c0 d sh) (
            diff_near-IsCutOf b0 c0 d pos_d near hb.normalized hb.bounded hc.bounded bx cx apart sh
              pos_sh hb.narrow room))
      | no far ↦ rw (ge→ltb d 64 (omega arith)) (far_rounded (omega arith))
    ]

-- Equal exponents, with `c0 < b0`.
module _ ⦃ll : Longlong⦄ (b0 c0 qb qc sh : ℕ) (hb : IsLimb b0 qb sh) (hc : IsLimb c0 qc sh)
    (less : c0 < b0) (a : Mpfr) (rnd : Rnd) (supported : rnd ≢ rndna) (e : Env) (bx : ℤ)
    (above : e.emin ≤ℤ bx) (within : bx ≤ℤ e.emax) where
  pub diff_equal-IsCorrectRange :
      IsCorrectRange a rnd
        ((b0 - c0) * 2 ^ 64)
        (bx -ℤ pos 64)
        sh
        e
        (round_difference a (diff_equal bx (b0 - c0)) rnd sh e)
  diff_equal-IsCorrectRange =
      let multiple : b0 - c0 ≡ (qb - qc) * 2 ^ sh =
        difference_units b0 c0 qb qc (2 ^ sh) hb.units hc.units (omega arith) in
      round_difference-IsCorrectRange (b0 - c0) (qb - qc) b0 qb 0 sh bx hb multiple
        (omega (arith, hc.normalized)) (diff_equal bx (b0 - c0))
        (diff_equal-IsCutOf (b0 - c0) (qb - qc) sh bx (omega arith) (omega (arith, hb.bounded))
          hb.narrow multiple)
        a rnd supported e above (omega (int_laws, within))
