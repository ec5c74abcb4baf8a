-- ===== src/Add/Whole/Correct.antt =====
-- `mpfr_add1sp1n` returns the correctly rounded sum.
use native.Mathlib.Nat.{pow-le-pow_right, mod-lt, div-le_self, div-add-mod', add-zero}
use native.Mathlib.Decide.{dec_lt, ℕ_discrete}
use mathlib.Core.Path.{subst}
use mpfr.Base.{
  ℕ, zero, suc, ◌+◌, ◌-◌, ◌*◌, ◌/◌, ◌%◌, ◌^◌, ◌≤◌, ◌<◌, ◌≡◌, ◌≢◌, refl, sym, ap, ◌∙◌, eq_of_parts,
  pow-split, -ℤ_parts, ◌<ℤ◌,
}
use mpfr.Base.{==_iff, [], ◌∷◌, ℤ, pos, pos_part, ◌+ℤ◌, ◌-ℤ◌, ltb_ℤ, eqb_ℤ, ◌==◌, false, Bool-cases}
use mpfr.Base.{inl, inr, ltb→lt, ltb→ge, lt→ltb, ge→ltb, if◌then◌else◌, arith, pow-pos, pow-add}
use mpfr.Words.{shr, shl, ladd, bit_and-one}
use mpfr.Words.Value.{shl_dropped}
use mpfr.Types.{Rnd, rndna, num, Mpfr, Env}
use mpfr.Rounding.{Parts}
use mpfr.Rounding.Limb.{+ℤ_zero}
use mpfr.Rounding.Cut.{factor_zero}
use mpfr.Rounding.Whole.{whole-IsLimb, whole-Captures_at}
use mpfr.Rounding.Correct.{IsCorrect}
use mpfr.Add.Aligned.{IsSum, carried, not_carried, restore_carry}
use mpfr.Add.Single.{scaled_sum, low_exponent, distance}
use mpfr.Add.Correct.{round_sum-IsCorrect}
use mpfr.Add.Whole.{whole_equal, whole_near, whole_far, whole_shifted, whole_limbs, add1sp1n}

bit_if : (b h : ℕ) → b < 2 → (if b == 0 then 0 else h) ≡ b * h
bit_if zero h l = omega arith
bit_if (suc zero) h l = ground arith
bit_if (suc (suc b)) h l = absurd (omega arith)

module _ (b0 c0 : ℕ) (hb : 2 ^ 63 ≤ b0) (lb : b0 < 2 ^ 64) (hc : 2 ^ 63 ≤ c0)
    (lc : c0 < 2 ^ 64) where
  -- A sum that has carried out, with its last bit as round bit and `low` below it.
  carry-IsSum :
      (d a0 low sb : ℕ) (bx : ℤ)
      → a0 < 2 ^ 64
      → b0 * 2 ^ d + c0 ≡ (2 ^ 64 + a0) * 2 ^ d + low
      → low < 2 ^ d
      → (sb ≡ 0 → low ≡ 0)
      → (low ≡ 0 → sb ≡ 0)
      → IsSum
          (b0 * 2 ^ d + c0)
          d
          0
          bx
          (record { exponent = bx +ℤ pos 1; limb = 2 ^ 63 + a0 / 2; rb = a0 % 2; sb = sb })
  carry-IsSum d a0 low sb bx bounded whole below sticky clear = record {
    carry = 1;
    units = 2 ^ 63 + a0 / 2;
    exponent = refl;
    limb = whole-IsLimb (2 ^ 63 + a0 / 2) (omega arith) (omega arith);
    captures = record {
      half = 2 ^ d;
      low = low;
      unit = omega (arith, pow-add d 1);
      position =
          let doubled : 2 ^ (d + 1) ≡ 2 ^ d * 2 = pow-add d 1 in
          let halves : a0 ≡ a0 / 2 * 2 + a0 % 2 = omega arith in
          rw (bit_if (a0 % 2) (2 ^ d) (omega arith), doubled)
            (omega (arith, whole, ap (λ t. t * 2 ^ d) halves));
      below = below;
      sticky = sticky;
      clear = clear;
    };
  }

  equal-IsSum : (bx : ℤ) → IsSum (b0 * 2 ^ 0 + c0) 0 0 bx (whole_equal bx b0 c0)
  unfolding whole_equal
  equal-IsSum bx =
      rw (restore_carry (ladd b0 c0) (omega arith), bit_and-one (ladd b0 c0))
        (carry-IsSum 0 (ladd b0 c0) 0 0 bx (omega arith) (omega arith) (omega arith) (λ z. z)
          (λ z. z))

  near-IsSum :
      (bx : ℤ) (d : ℕ) → d < 64 → 0 < d → IsSum (b0 * 2 ^ d + c0) d 0 bx (whole_near bx b0 c0 d)
  unfolding whole_near
  near-IsSum bx d h k = elim (dec_lt a0 b0) [
    | yes carries ↦
        rw (lt→ltb a0 b0 carries, restore_carry a0 (omega arith), bit_and-one a0)
          (carry-IsSum d a0 (c0 % 2 ^ d) (shl c0 (64 - d)) bx (omega arith)
            (omega
              (arith, parts, ap (λ t. t * 2 ^ d) (carried b0 (shr c0 d) lb shifted-lt carries)))
            rest-lt
            (λ z.
              factor_zero (c0 % 2 ^ d) (2 ^ (64 - d)) (pow-pos (64 - d))
                (sym (shl_dropped c0 d (omega arith)) ∙ z))
            (λ z. shl_dropped c0 d (omega arith) ∙ ap (λ t. t * 2 ^ (64 - d)) z ∙ omega arith))
    | no fits ↦
        let sum : a0 ≡ b0 + shr c0 d = not_carried b0 (shr c0 d) lb shifted-lt (omega arith) in
        rw (ge→ltb a0 b0 (omega arith), shl_dropped c0 d (omega arith))
          (record {
            carry = 0;
            units = a0;
            exponent = +ℤ_zero bx;
            limb = whole-IsLimb a0 (omega (arith, sum)) (omega arith);
            captures = rw (add-zero d) (
                whole-Captures_at (b0 * 2 ^ d + c0) a0 (c0 % 2 ^ d) d k (omega arith) rest-lt
                  (omega (arith, parts, ap (λ t. t * 2 ^ d) sum)));
          })
  ]
    where
      a0 : ℕ
      a0 = ladd b0 (shr c0 d)

      shifted-lt : shr c0 d < 2 ^ 64
      shifted-lt = omega (arith, div-le_self c0 (2 ^ d))

      parts : c0 ≡ c0 / 2 ^ d * 2 ^ d + c0 % 2 ^ d
      parts = sym (div-add-mod' c0 (2 ^ d))

      rest-lt : c0 % 2 ^ d < 2 ^ d
      rest-lt = mod-lt c0 {m = 2 ^ d} (pow-pos d)

  far-IsSum : (bx : ℤ) (d : ℕ) → 64 ≤ d → IsSum (b0 * 2 ^ d + c0) d 0 bx (whole_far bx b0 c0 d)
  unfolding whole_far
  far-IsSum bx d h = elim (ℕ_discrete d 64) [
    | yes same ↦ rw same (record {
      carry = 0;
      units = b0;
      exponent = +ℤ_zero bx;
      limb = whole-IsLimb b0 hb lb;
      captures = record {
        half = 2 ^ 63;
        low = c0 - 2 ^ 63;
        unit = omega arith;
        position = omega arith;
        below = omega arith;
        sticky = λ z. ground arith;
        clear = λ z. ground arith;
      };
    })
    | no more ↦ rw (not_equal d 64 more) (record {
      carry = 0;
      units = b0;
      exponent = +ℤ_zero bx;
      limb = whole-IsLimb b0 hb lb;
      captures = rw (add-zero d) (record {
        half = 2 ^ (d - 1);
        low = c0;
        unit = omega (arith, halves);
        position = omega arith;
        below = omega (arith, wide more);
        sticky = λ z. absurd (omega arith);
        clear = λ z. absurd (omega arith);
      });
    })
  ]
    where
      halves : 2 ^ d ≡ 2 ^ 1 * 2 ^ (d - 1)
      halves = pow-split d 1 (omega arith)

      wide : ¬ (d ≡ 64) → 2 ^ 64 ≤ 2 ^ (d - 1)
      wide more = pow-le-pow_right {n = 2} (omega arith) {i = 64} {j = d - 1} (omega arith)

      not_equal : (m n : ℕ) → ¬ (m ≡ n) → (m == n) ≡ false
      not_equal m n k = ground arith

  shifted-IsSum :
      (bx : ℤ) (d : ℕ) → 0 < d → IsSum (b0 * 2 ^ d + c0) d 0 bx (whole_shifted bx b0 c0 d)
  unfolding whole_shifted
  shifted-IsSum bx d h = elim (dec_lt d 64) [
    | yes near ↦ rw (lt→ltb d 64 near) (near-IsSum bx d near h)
    | no far ↦ rw (ge→ltb d 64 (omega arith)) (far-IsSum bx d (omega arith))
  ]

-- `s` captures the exact sum of the two limbs at these exponents.
abbrev Captured : ℕ → ℕ → ℤ → ℤ → Parts → Type 0
Captured b0 c0 bx cx s =
    (d : ℕ) × (hi : ℤ) × (hi ≡ low_exponent bx cx +ℤ pos d)
    × IsSum (scaled_sum bx cx b0 c0) d 0 hi s

gap : (a b : ℤ) → ltb_ℤ a b ≡ false → eqb_ℤ a b ≡ false → b <ℤ a
gap a b h k = ground arith

module _ (b0 c0 : ℕ) (hb : 2 ^ 63 ≤ b0) (lb : b0 < 2 ^ 64) (hc : 2 ^ 63 ≤ c0)
    (lc : c0 < 2 ^ 64) where
  same_exponents : (bx : ℤ) → Captured b0 c0 bx bx (whole_equal bx b0 c0)
  same_exponents bx =
      let none : pos_part (bx -ℤ bx) ≡ 0 = (distance bx bx (omega arith)).0 in
      let lowest : bx ≡ low_exponent bx bx +ℤ pos 0 =
        rw (← +ℤ_zero (low_exponent bx bx)) (ground arith) in
      (0, bx, lowest, rw none (rw from_equal (equal-IsSum b0 c0 hb lb hc lc bx)))
    where
      from_equal : b0 * 1 + c0 * 1 ≡ b0 * 2 ^ 0 + c0
      from_equal = omega arith

  whole_limbs-Captured : (bx cx : ℤ) → Captured b0 c0 bx cx (whole_limbs bx cx b0 c0)
  unfolding whole_limbs
  whole_limbs-Captured bx cx = elim (Bool-cases (eqb_ℤ bx cx)) [
    | inl same ↦ rw same (
        subst (λ z. Captured b0 c0 bx z (whole_equal bx b0 c0))
          (eq_of_parts bx cx ((==_iff _ _).0 same)) (same_exponents bx))
    | inr differ ↦ rw differ (elim (Bool-cases (ltb_ℤ bx cx)) [
      | inl less ↦
          let (none, apart) = distance bx cx (omega (arith, ltb→lt _ _ less)) in
          let positive : 0 < pos_part (cx -ℤ bx) = omega (arith, ltb→lt _ _ less, -ℤ_parts cx bx) in
          rw less (
            pos_part (cx -ℤ bx),
            cx,
            apart,
            rw none (rw from_c (shifted-IsSum c0 b0 hc lc hb lb cx (pos_part (cx -ℤ bx)) positive)),
          )
      | inr more ↦
          let (none, apart) = distance cx bx (omega (arith, ltb→ge _ _ more)) in
          let positive : 0 < pos_part (bx -ℤ cx) =
            omega (arith, gap bx cx more differ, -ℤ_parts bx cx) in
          rw more (
            pos_part (bx -ℤ cx),
            bx,
            apart,
            rw none (rw from_b (shifted-IsSum b0 c0 hb lb hc lc bx (pos_part (bx -ℤ cx)) positive)),
          )
    ])
  ]
    where
      from_c : b0 * 1 + c0 * 2 ^ pos_part (cx -ℤ bx) ≡ c0 * 2 ^ pos_part (cx -ℤ bx) + b0
      from_c = omega arith

      from_b : b0 * 2 ^ pos_part (bx -ℤ cx) + c0 * 1 ≡ b0 * 2 ^ pos_part (bx -ℤ cx) + c0
      from_b = omega arith

-- For two numbers of one limb, `mpfr_add1sp1n` delivers the rounding of the exact sum
-- `scaled_sum * 2 ^ (low_exponent - 64)` to 64 bits, with its ternary value and flags, or overflows
-- exactly if the rounded sum has an exponent beyond `emax`.
pub add1sp1n-IsCorrect :
    (a b c : Mpfr) (rnd : Rnd) (e : Env) (bx cx : ℤ) (b0 c0 : ℕ)
    → rnd ≢ rndna
    → b.exp ≡ num bx
    → c.exp ≡ num cx
    → b.mant ≡ b0 ∷ []
    → c.mant ≡ c0 ∷ []
    → 2 ^ 63 ≤ b0
    → b0 < 2 ^ 64
    → 2 ^ 63 ≤ c0
    → c0 < 2 ^ 64
    → IsCorrect a rnd (scaled_sum bx cx b0 c0) (low_exponent bx cx) 0 e (add1sp1n a b c rnd e)
unfolding add1sp1n
add1sp1n-IsCorrect a b c rnd e bx cx b0 c0 supported eb ec mb mc hb lb hc lc =
    let (d, hi, high, captured) = whole_limbs-Captured b0 c0 hb lb hc lc bx cx in
    rw (eb, ec, mb, mc)
      (round_sum-IsCorrect a rnd supported 0 e (scaled_sum bx cx b0 c0) d (low_exponent bx cx) hi
        (whole_limbs bx cx b0 c0) high captured)
