-- ===== src/Sub/Correct.antt =====
-- `mpfr_sub1sp1` returns the correctly rounded difference.
use mathlib.Core.Path.{subst}
use mpfr.Words.Longlong.{Longlong}
use mpfr.Base.{ℕ, ◌-◌, ◌<◌, ◌≡◌, ◌≢◌, arith, true, false, [], ◌∷◌}
use mpfr.Base.{ℤ, pos, pos_part, ◌-ℤ◌, ◌≤ℤ◌, Bool-cases, inl, inr}
use mpfr.Base.{if◌then◌else◌, ltb, ◌==◌, ltb_ℤ, eqb_ℤ, ltb→lt, ltb→ge, eq_of_parts, ==_iff}
use mpfr.Words.{lsub}
use mpfr.Types.{Rnd, rndna, num, Mpfr, Env, plus, minus, opposite, is_rndd, zero_value}
use mpfr.Rounding.Limb.{IsLimb}
use mpfr.Sub.{sub1sp1, zero_difference, round_difference, diff_equal, diff_shifted}
use mpfr.Sub.Shifted.{diff_equal-IsCorrectRange, diff_shifted-IsCorrectRange}
use mpfr.Sub.Exact.{
  IsDifferenceOf, larger_left, larger_right, equal_left, equal_right, equal_values, unequal,
  eqb_refl, scaled_left, scaled_right,
}

module _ ⦃ll : Longlong⦄ (a b c : Mpfr) (rnd : Rnd) (p : ℕ) (e : Env) (bx cx : ℤ) (b0 c0 qb qc : ℕ)
    (supported : rnd ≢ rndna) (pos_p : 0 < p) (narrow : p < 64) (eb : b.exp ≡ num bx)
    (ec : c.exp ≡ num cx) (mb : b.mant ≡ b0 ∷ []) (mc : c.mant ≡ c0 ∷ [])
    (hb : IsLimb b0 qb (64 - p)) (hc : IsLimb c0 qc (64 - p)) (lb : e.emin ≤ℤ bx)
    (ub : bx ≤ℤ e.emax) (lc : e.emin ≤ℤ cx) (uc : cx ≤ℤ e.emax) where
  abbrev same : Mpfr
  same = record a { sign = b.sign }

  abbrev flipped : Mpfr
  flipped = record a { sign = opposite b.sign }

  shifted_case :
      eqb_ℤ bx cx ≡ false
      → IsDifferenceOf a b.sign rnd bx cx b0 c0 (64 - p) e (sub1sp1 a b c rnd p e)
  unfolding sub1sp1
  shifted_case apart = elim (Bool-cases (ltb_ℤ bx cx)) [
    | inl less ↦
        let value : sub1sp1 a b c rnd p e
            ≡ round_difference flipped (diff_shifted cx c0 b0 (pos_part (cx -ℤ bx)) (64 - p)) rnd
                (64 - p) e =
          rw (eb, ec, mb, mc, apart, less) in
        rw value (
          larger_right a b.sign rnd b0 c0 (64 - p) e hb.normalized hb.bounded hc.normalized
            hc.bounded bx cx _ (ltb→lt _ _ less)
            (λ positive distance.
              diff_shifted-IsCorrectRange c0 b0 qc qb _ (64 - p) positive (omega arith) hc hb cx bx
                distance flipped rnd supported e lb uc))
    | inr more ↦
        let value : sub1sp1 a b c rnd p e
            ≡ round_difference same (diff_shifted bx b0 c0 (pos_part (bx -ℤ cx)) (64 - p)) rnd
                (64 - p) e =
          rw (eb, ec, mb, mc, apart, more) in
        rw value (
          larger_left a b.sign rnd b0 c0 (64 - p) e hb.normalized hb.bounded hc.normalized
            hc.bounded bx cx _ (unequal bx cx more apart)
            (λ positive distance.
              diff_shifted-IsCorrectRange b0 c0 qb qc _ (64 - p) positive (omega arith) hb hc bx cx
                distance same rnd supported e lc ub))
  ]

  equal_case :
      bx ≡ cx → b0 ≢ c0 → IsDifferenceOf a b.sign rnd bx bx b0 c0 (64 - p) e (sub1sp1 a b c rnd p e)
  unfolding sub1sp1
  equal_case equal differ = elim (Bool-cases (ltb b0 c0)) [
    | inl less ↦
        let wrap : lsub c0 b0 ≡ c0 - b0 = omega (arith, ltb→lt b0 c0 less, hc.bounded) in
        let value : sub1sp1 a b c rnd p e
            ≡ round_difference flipped (diff_equal bx (c0 - b0)) rnd (64 - p) e =
          rw (eb, ec, mb, mc, ← equal, eqb_refl bx, unlike, less, wrap) in
        rw value (
          equal_right a b.sign rnd b0 c0 (64 - p) e bx _ (ltb→lt b0 c0 less) (
            diff_equal-IsCorrectRange c0 b0 qc qb (64 - p) hc hb (ltb→lt b0 c0 less) flipped rnd
              supported e bx lb ub))
    | inr more ↦
        let above : c0 < b0 = omega (arith, ltb→ge b0 c0 more) in
        let wrap : lsub b0 c0 ≡ b0 - c0 = omega (arith, hb.bounded) in
        let value : sub1sp1 a b c rnd p e
            ≡ round_difference same (diff_equal bx (b0 - c0)) rnd (64 - p) e =
          rw (eb, ec, mb, mc, ← equal, eqb_refl bx, unlike, more, wrap) in
        rw value (
          equal_left a b.sign rnd b0 c0 (64 - p) e bx _ above (
            diff_equal-IsCorrectRange b0 c0 qb qc (64 - p) hb hc above same rnd supported e bx lb
              ub))
  ]
    where
      unlike : (b0 == c0) ≡ false
      unlike = ground arith

-- For a precision `p` below 64 and two different numbers of that precision, with exponents in the
-- range, `mpfr_sub1sp1` delivers the rounding of their exact difference to `p` bits, with its sign,
-- ternary value and flags; it underflows exactly if the rounded difference is below the range.
pub sub1sp1-IsCorrectRange :
    ⦃ll : Longlong⦄
    → (a b c : Mpfr) (rnd : Rnd) (p : ℕ) (e : Env) (bx cx : ℤ) (b0 c0 qb qc : ℕ) → rnd ≢ rndna
    → 0 < p
    → p < 64
    → b.exp ≡ num bx
    → c.exp ≡ num cx
    → b.mant ≡ b0 ∷ []
    → c.mant ≡ c0 ∷ []
    → IsLimb b0 qb (64 - p)
    → IsLimb c0 qc (64 - p)
    → e.emin ≤ℤ bx
    → bx ≤ℤ e.emax
    → e.emin ≤ℤ cx
    → cx ≤ℤ e.emax
    → scaled_left bx cx b0 ≢ scaled_right bx cx c0
    → IsDifferenceOf a b.sign rnd bx cx b0 c0 (64 - p) e (sub1sp1 a b c rnd p e)
sub1sp1-IsCorrectRange a b c rnd p e bx cx b0 c0 qb qc supported pos_p narrow eb ec mb mc hb hc lb
      ub lc uc differ =
    elim (Bool-cases (eqb_ℤ bx cx)) [
      | inl equal ↦
          let same_exponent : bx ≡ cx = eq_of_parts bx cx ((==_iff _ _).0 equal) in
          subst (λ z. IsDifferenceOf a b.sign rnd bx z b0 c0 (64 - p) e (sub1sp1 a b c rnd p e))
            same_exponent
            (equal_case a b c rnd p e bx cx b0 c0 qb qc supported pos_p narrow eb ec mb mc hb hc lb
              ub lc uc same_exponent (λ z. differ (rw (same_exponent, z))))
      | inr apart ↦
          shifted_case a b c rnd p e bx cx b0 c0 qb qc supported pos_p narrow eb ec mb mc hb hc lb
            ub lc uc apart
    ]

-- Two equal numbers of a precision below 64 give an exact zero without a flag, which is negative
-- for RNDD alone.
pub sub1sp1_zero :
    ⦃ll : Longlong⦄
    → (a b c : Mpfr) (rnd : Rnd) (p : ℕ) (e : Env) (bx cx : ℤ) (b0 c0 qb qc : ℕ) → b.exp ≡ num bx
    → c.exp ≡ num cx
    → b.mant ≡ b0 ∷ []
    → c.mant ≡ c0 ∷ []
    → IsLimb b0 qb (64 - p)
    → IsLimb c0 qc (64 - p)
    → scaled_left bx cx b0 ≡ scaled_right bx cx c0
    → sub1sp1 a b c rnd p e ≡ record {
      x = record a { exp = zero_value; sign = if is_rndd rnd then minus else plus };
      inex = pos 0;
      env = e;
    }
unfolding sub1sp1 zero_difference
sub1sp1_zero a b c rnd p e bx cx b0 c0 qb qc eb ec mb mc hb hc equal =
    let (same_exponent, same_limb) =
      equal_values bx cx b0 c0 hb.normalized hb.bounded hc.normalized hc.bounded equal in
    let same : eqb_ℤ bx cx ≡ true = rw same_exponent (eqb_refl cx) in
    let same' : (b0 == c0) ≡ true = (==_iff b0 c0).1 same_limb in rw (eb, ec, mb, mc, same, same')
