-- ===== src/Sub/Whole/Correct.antt =====
-- `mpfr_sub1sp1n` returns the correctly rounded difference, however far the operands are apart.
use native.Mathlib.Decide.{dec_lt}
use mathlib.Core.Path.{subst}
use mpfr.Words.Longlong.{Longlong}
use mpfr.Base.{ℕ, ◌-◌, ◌*◌, ◌^◌, ◌≤◌, ◌<◌, ◌≡◌, ◌≢◌, ap, ◌∙◌, arith, true, false, [], ◌∷◌}
use mpfr.Base.{ℤ, pos, pos_part, ◌+ℤ◌, ◌-ℤ◌, ◌≤ℤ◌, int_laws, lt→ltb, ge→ltb, Bool-cases, inl, inr}
use mpfr.Base.{ltb, ◌==◌, ltb_ℤ, eqb_ℤ, ltb→lt, ltb→ge, eq_of_parts, ==_iff}
use mpfr.Words.{lsub, limb_highbit}
use mpfr.Types.{Rnd, rndna, num, Mpfr, Env, opposite}
use mpfr.Rounding.{Parts}
use mpfr.Rounding.Whole.{whole-IsLimb}
use mpfr.Rounding.Range.{IsCutOf, IsCorrectRange}
use mpfr.Sub.{sub1sp1n, round_difference, diff_equal, whole_diff_shifted}
use mpfr.Sub.{whole_diff_far, power_diff_far}
use mpfr.Sub.Near.{IsCutOf-scale, whole_diff_near-IsCutOf}
use mpfr.Sub.Round.{round_difference-IsCorrectRange}
use mpfr.Sub.Shifted.{diff_equal-IsCorrectRange}
use mpfr.Sub.Exact.{IsDifferenceOf, larger, larger_left, larger_right, equal_left, equal_right}
use mpfr.Sub.Exact.{unequal, eqb_refl, scaled_left, scaled_right}
use mpfr.Sub.Whole.{whole_diff_far-IsCutOf, power_diff_far-IsCutOf}

module _ ⦃ll : Longlong⦄ (b0 c0 d : ℕ) (pos_d : 0 < d) (hb : 2 ^ 63 ≤ b0) (lb : b0 < 2 ^ 64)
    (hc : 2 ^ 63 ≤ c0) (lc : c0 < 2 ^ 64) (bx cx : ℤ) (apart : bx ≡ cx +ℤ pos d) where
  abbrev exact : ℕ
  exact = b0 * 2 ^ d - c0

  -- The magnitude at the unit of the lower operand, scaled by a limb.
  at_lower :
      (s : Parts) → IsCutOf exact (bx -ℤ pos d) 0 s → IsCutOf (exact * 2 ^ 64) (cx -ℤ pos 64) 0 s
  at_lower s c =
      IsCutOf-scale exact 64 (bx -ℤ pos d) (cx -ℤ pos 64) 0 s
        (ap (λ z. z -ℤ pos d) apart ∙ omega int_laws) c

  whole_diff_shifted-IsCutOf :
      IsCutOf (exact * 2 ^ 64) (cx -ℤ pos 64) 0 (whole_diff_shifted bx b0 c0 d)
  unfolding whole_diff_shifted
  whole_diff_shifted-IsCutOf = elim (dec_lt d 64) [
    | yes near ↦
        rw (lt→ltb d 64 near) (whole_diff_near-IsCutOf b0 c0 d pos_d near hb lb lc bx cx apart)
    | no far ↦ rw (ge→ltb d 64 (omega arith)) (elim (dec_lt limb_highbit b0) [
      | yes above ↦ rw (lt→ltb limb_highbit b0 above) (
          at_lower (whole_diff_far bx b0 c0 d)
            (whole_diff_far-IsCutOf b0 c0 d (omega arith) hb lb hc lc bx above))
      | no least ↦ rw (ge→ltb limb_highbit b0 (omega arith)) (
          at_lower (power_diff_far bx c0 d)
            (power_diff_far-IsCutOf b0 c0 d (omega arith) hb lb hc lc (omega arith) bx))
    ])
  ]

  module _ (a : Mpfr) (rnd : Rnd) (supported : rnd ≢ rndna) (e : Env) (above : e.emin ≤ℤ cx)
      (within : bx ≤ℤ e.emax) where
    pub whole_diff_shifted-IsCorrectRange :
        IsCorrectRange a rnd
          (exact * 2 ^ 64)
          (cx -ℤ pos 64)
          0
          e
          (round_difference a (whole_diff_shifted bx b0 c0 d) rnd 0 e)
    whole_diff_shifted-IsCorrectRange =
        round_difference-IsCorrectRange exact exact b0 b0 d 0 cx (whole-IsLimb b0 hb lb)
          (omega arith) (omega (arith, larger b0 c0 d hb lc pos_d)) (whole_diff_shifted bx b0 c0 d)
          whole_diff_shifted-IsCutOf a rnd supported e above (rw (← apart) within)

module _ ⦃ll : Longlong⦄ (a b c : Mpfr) (rnd : Rnd) (e : Env) (bx cx : ℤ) (b0 c0 : ℕ)
    (supported : rnd ≢ rndna) (eb : b.exp ≡ num bx) (ec : c.exp ≡ num cx) (mb : b.mant ≡ b0 ∷ [])
    (mc : c.mant ≡ c0 ∷ []) (hb : 2 ^ 63 ≤ b0) (tb : b0 < 2 ^ 64) (hc : 2 ^ 63 ≤ c0)
    (tc : c0 < 2 ^ 64) (lb : e.emin ≤ℤ bx) (ub : bx ≤ℤ e.emax) (lc : e.emin ≤ℤ cx)
    (uc : cx ≤ℤ e.emax) where
  abbrev same : Mpfr
  same = record a { sign = b.sign }

  abbrev flipped : Mpfr
  flipped = record a { sign = opposite b.sign }

  shifted_case :
      eqb_ℤ bx cx ≡ false → IsDifferenceOf a b.sign rnd bx cx b0 c0 0 e (sub1sp1n a b c rnd e)
  unfolding sub1sp1n
  shifted_case apart = elim (Bool-cases (ltb_ℤ bx cx)) [
    | inl less ↦
        let value : sub1sp1n a b c rnd e
            ≡ round_difference flipped (whole_diff_shifted cx c0 b0 (pos_part (cx -ℤ bx))) rnd 0 e =
          rw (eb, ec, mb, mc, apart, less) in
        rw value (
          larger_right a b.sign rnd b0 c0 0 e hb tb hc tc bx cx _ (ltb→lt _ _ less)
            (λ positive distance.
              whole_diff_shifted-IsCorrectRange c0 b0 _ positive hc tc hb tb cx bx distance flipped
                rnd supported e lb uc))
    | inr more ↦
        let value : sub1sp1n a b c rnd e
            ≡ round_difference same (whole_diff_shifted bx b0 c0 (pos_part (bx -ℤ cx))) rnd 0 e =
          rw (eb, ec, mb, mc, apart, more) in
        rw value (
          larger_left a b.sign rnd b0 c0 0 e hb tb hc tc bx cx _ (unequal bx cx more apart)
            (λ positive distance.
              whole_diff_shifted-IsCorrectRange b0 c0 _ positive hb tb hc tc bx cx distance same rnd
                supported e lc ub))
  ]

  equal_case :
      bx ≡ cx → b0 ≢ c0 → IsDifferenceOf a b.sign rnd bx bx b0 c0 0 e (sub1sp1n a b c rnd e)
  unfolding sub1sp1n
  equal_case equal differ = elim (Bool-cases (ltb b0 c0)) [
    | inl less ↦
        let below : b0 < c0 = ltb→lt b0 c0 less in
        let wrap : lsub b0 c0 ≡ 2 ^ 64 - (c0 - b0) = omega arith in
        let back : lsub 0 (2 ^ 64 - (c0 - b0)) ≡ c0 - b0 = omega arith in
        let some : (2 ^ 64 - (c0 - b0) == 0) ≡ false = ground arith in
        let borrow : ltb b0 (2 ^ 64 - (c0 - b0)) ≡ true = lt→ltb _ _ (omega arith) in
        let value : sub1sp1n a b c rnd e
            ≡ round_difference flipped (diff_equal bx (c0 - b0)) rnd 0 e =
          rw (eb, ec, mb, mc, ← equal, eqb_refl bx, wrap, some, borrow, back) in
        rw value (
          equal_right a b.sign rnd b0 c0 0 e bx _ below (
            diff_equal-IsCorrectRange c0 b0 c0 b0 0 (whole-IsLimb c0 hc tc) (whole-IsLimb b0 hb tb)
              below flipped rnd supported e bx lb ub))
    | inr more ↦
        let above : c0 < b0 = omega (arith, ltb→ge b0 c0 more) in
        let wrap : lsub b0 c0 ≡ b0 - c0 = omega arith in
        let some : (b0 - c0 == 0) ≡ false = ground arith in
        let no_borrow : ltb b0 (b0 - c0) ≡ false = ge→ltb b0 (b0 - c0) (omega arith) in
        let value : sub1sp1n a b c rnd e ≡ round_difference same (diff_equal bx (b0 - c0)) rnd 0 e =
          rw (eb, ec, mb, mc, ← equal, eqb_refl bx, wrap, some, no_borrow) in
        rw value (
          equal_left a b.sign rnd b0 c0 0 e bx _ above (
            diff_equal-IsCorrectRange b0 c0 b0 c0 0 (whole-IsLimb b0 hb tb) (whole-IsLimb c0 hc tc)
              above same rnd supported e bx lb ub))
  ]

-- For two different numbers of one limb, with exponents in the range, `mpfr_sub1sp1n` delivers the
-- rounding of their exact difference to 64 bits, with its sign, ternary value and flags; it
-- underflows exactly if the rounded difference is below the range.
pub sub1sp1n-IsCorrectRange :
    ⦃ll : Longlong⦄
    → (a b c : Mpfr) (rnd : Rnd) (e : Env) (bx cx : ℤ) (b0 c0 : ℕ) → rnd ≢ rndna
    → b.exp ≡ num bx
    → c.exp ≡ num cx
    → b.mant ≡ b0 ∷ []
    → c.mant ≡ c0 ∷ []
    → 2 ^ 63 ≤ b0
    → b0 < 2 ^ 64
    → 2 ^ 63 ≤ c0
    → c0 < 2 ^ 64
    → e.emin ≤ℤ bx
    → bx ≤ℤ e.emax
    → e.emin ≤ℤ cx
    → cx ≤ℤ e.emax
    → scaled_left bx cx b0 ≢ scaled_right bx cx c0
    → IsDifferenceOf a b.sign rnd bx cx b0 c0 0 e (sub1sp1n a b c rnd e)
sub1sp1n-IsCorrectRange a b c rnd e bx cx b0 c0 supported eb ec mb mc hb tb hc tc lb ub lc uc
      differ =
    elim (Bool-cases (eqb_ℤ bx cx)) [
      | inl equal ↦
          let same_exponent : bx ≡ cx = eq_of_parts bx cx ((==_iff _ _).0 equal) in
          subst (λ z. IsDifferenceOf a b.sign rnd bx z b0 c0 0 e (sub1sp1n a b c rnd e))
            same_exponent
            (equal_case a b c rnd e bx cx b0 c0 supported eb ec mb mc hb tb hc tc lb ub lc uc
              same_exponent (λ z. differ (rw (same_exponent, z))))
      | inr apart ↦
          shifted_case a b c rnd e bx cx b0 c0 supported eb ec mb mc hb tb hc tc lb ub lc uc apart
    ]
