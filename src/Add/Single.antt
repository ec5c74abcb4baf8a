-- ===== src/Add/Single.antt =====
-- `mpfr_add1sp1` returns the correctly rounded sum.
use native.Mathlib.Nat.{pow-le-pow_right, mul-le-mul_right, add-zero}
use native.Mathlib.Decide.{dec_lt}
use mathlib.Core.Path.{subst}
use mpfr.Base.{ℕ, ◌+◌, ◌-◌, ◌*◌, ◌/◌, ◌%◌, ◌^◌, ◌≤◌, ◌<◌, ◌≡◌, refl, ap, eq_of_parts, ==_iff}
use mpfr.Base.{
  ℤ, pos, pos_part, ◌+ℤ◌, ◌-ℤ◌, ◌≤ℤ◌, ltb_ℤ, eqb_ℤ, Bool-cases, inl, inr, ltb→lt, ltb→ge, lt→ltb,
  ge→ltb, if◌then◌else◌, arith, pow-pos, pow-split, mod_unique,
}
use mpfr.Words.{shr, ladd}
use mpfr.Rounding.Limb.{IsLimb, +ℤ_zero}
use mpfr.Rounding.Cut.{cut, cut_exact}
use mpfr.Rounding.{Parts}
use mpfr.Add.{sum_limbs, sum_equal, sum_shifted}
use mpfr.Add.Aligned.{IsSum, near-IsSum, far-IsSum, even_multiple}

module _ (b0 c0 qb qc sh : ℕ) (pos_sh : 0 < sh) (hb : IsLimb b0 qb sh) (hc : IsLimb c0 qc sh) where
  -- `d >= GMP_NUMB_BITS`: all of `c` lies below the round bit.
  apart-IsSum :
      (bx : ℤ) (d : ℕ)
      → 64 ≤ d
      → IsSum (b0 * 2 ^ d + c0) d sh bx (record { exponent = bx; limb = b0; rb = 0; sb = 1 })
  apart-IsSum bx d h = record {
    carry = 0;
    units = qb;
    exponent = +ℤ_zero bx;
    limb = hb;
    captures = rw (add-zero d) (record {
      half = 2 ^ (sh - 1) * 2 ^ d;
      low = c0;
      unit = omega (arith, ap (λ t. t * 2 ^ d) ulp);
      position = omega (arith, ap (λ t. t * 2 ^ d) hb.units);
      below = omega (arith, hc.bounded, large);
      sticky = λ z. absurd (omega arith);
      clear = λ z. absurd (omega (arith, hc.normalized));
    });
  }
    where
      ulp : 2 ^ sh ≡ 2 ^ 1 * 2 ^ (sh - 1)
      ulp = pow-split sh 1 pos_sh

      large : 2 ^ 64 ≤ 2 ^ (sh - 1) * 2 ^ d
      large =
          let wide : 2 ^ 64 ≤ 2 ^ d = pow-le-pow_right {n = 2} (omega arith) {i = 64} {j = d} h in
          let scaled : 1 * 2 ^ d ≤ 2 ^ (sh - 1) * 2 ^ d =
            mul-le-mul_right {m = 1} {n = 2 ^ (sh - 1)} (2 ^ d) (pow-pos (sh - 1)) in
          omega (arith, wide, scaled)

  shifted-IsSum : (bx : ℤ) (d : ℕ) → IsSum (b0 * 2 ^ d + c0) d sh bx (sum_shifted bx b0 c0 d sh)
  unfolding sum_shifted
  shifted-IsSum bx d = elim (dec_lt d sh) [
    | yes near ↦ rw (lt→ltb d sh near) (near-IsSum b0 c0 qb qc d sh pos_sh hb hc near bx)
    | no rest ↦ rw (ge→ltb d sh (omega arith)) (elim (dec_lt d 64) [
      | yes far ↦ rw (lt→ltb d 64 far) (far-IsSum b0 c0 qb qc d sh pos_sh hb hc far bx)
      | no apart ↦ rw (ge→ltb d 64 (omega arith)) (apart-IsSum bx d (omega arith))
    ])
  ]

  abbrev half_sum : ℕ
  half_sum = b0 / 2 + c0 / 2

  half_sum_units : half_sum ≡ (qb + qc) * 2 ^ (sh - 1)
  half_sum_units =
      let ulp : 2 ^ sh ≡ 2 ^ 1 * 2 ^ (sh - 1) = pow-split sh 1 pos_sh in
      omega (arith, hb.units, hc.units, ap (λ t. qb * t) ulp, ap (λ t. qc * t) ulp)

  half_sum-mod : half_sum % 2 ^ (sh - 1) ≡ 0
  half_sum-mod =
      mod_unique half_sum (2 ^ (sh - 1)) (qb + qc) 0 (omega (arith, half_sum_units))
        (pow-pos (sh - 1))

  -- Equal exponents: the sum has one bit more, and loses nothing.
  equal-IsSum : (bx : ℤ) → IsSum (b0 * 2 ^ 0 + c0) 0 sh bx (sum_equal bx b0 c0 sh)
  unfolding sum_equal
  equal-IsSum bx =
      let limb_sum : ladd (shr b0 1) (shr c0 1) ≡ half_sum =
        omega (arith, hb.bounded, hc.bounded) in
      let small : half_sum < 2 ^ 64 = omega (arith, hb.bounded, hc.bounded) in
      let (cleared, no_sticky) = cut_exact half_sum sh pos_sh hb.narrow small half_sum-mod in
      let (limb, captures) =
        cut (b0 * 2 ^ 0 + c0) (2 ^ (0 + 1)) half_sum 0 sh pos_sh hb.narrow
          (omega (arith, hb.normalized, hc.normalized)) small
          (record {
            rest = 0;
            whole =
                omega (
                  arith,
                  hb.units,
                  hc.units,
                  even_multiple qb sh pos_sh,
                  even_multiple qc sh pos_sh,
                );
            below = omega arith;
            sticky = λ _. refl;
            clear = λ _. refl;
          }) in
      rw (limb_sum, cleared)
        (record {
          carry = 1;
          units = half_sum / 2 ^ sh;
          exponent = refl;
          limb = limb;
          captures = rw no_sticky at captures;
        })

-- The exact sum, in units of `2 ^ (low_exponent bx cx - 64)`.
abbrev pub scaled_sum : ℤ → ℤ → ℕ → ℕ → ℕ
scaled_sum bx cx b0 c0 = b0 * 2 ^ pos_part (bx -ℤ cx) + c0 * 2 ^ pos_part (cx -ℤ bx)

abbrev pub low_exponent : ℤ → ℤ → ℤ
low_exponent bx cx = if ltb_ℤ bx cx then bx else cx

-- Integers in order: the difference one way is zero, the other way it is the distance.
pub distance :
    (lo hi : ℤ) → lo ≤ℤ hi → (pos_part (lo -ℤ hi) ≡ 0) × (hi ≡ lo +ℤ pos (pos_part (hi -ℤ lo)))
unfolding ◌-ℤ◌ ◌+ℤ◌
distance lo hi h = ground arith

module _ (b0 c0 qb qc sh : ℕ) (pos_sh : 0 < sh) (hb : IsLimb b0 qb sh) (hc : IsLimb c0 qc sh) where
  -- `s` captures the exact sum of the two limbs at these exponents.
  abbrev pub Captured : ℤ → ℤ → Parts → Type 0
  Captured bx cx s =
      (d : ℕ) × (hi : ℤ) × (hi ≡ low_exponent bx cx +ℤ pos d)
      × IsSum (scaled_sum bx cx b0 c0) d sh hi s

  same_exponents : (bx : ℤ) → Captured bx bx (sum_equal bx b0 c0 sh)
  same_exponents bx =
      let none : pos_part (bx -ℤ bx) ≡ 0 = (distance bx bx (omega arith)).0 in
      let lowest : bx ≡ low_exponent bx bx +ℤ pos 0 =
        rw (← +ℤ_zero (low_exponent bx bx)) (ground arith) in
      (0, bx, lowest, rw none (rw from_equal (equal-IsSum b0 c0 qb qc sh pos_sh hb hc bx)))
    where
      from_equal : b0 * 1 + c0 * 1 ≡ b0 * 2 ^ 0 + c0
      from_equal = omega arith

  -- `sum_limbs` captures the exact sum, in either order of the exponents.
  pub sum_limbs-Captured : (bx cx : ℤ) → Captured bx cx (sum_limbs bx cx b0 c0 sh)
  unfolding sum_limbs
  sum_limbs-Captured bx cx = elim (Bool-cases (eqb_ℤ bx cx)) [
    | inl same ↦ rw same (
        subst (λ z. Captured bx z (sum_equal bx b0 c0 sh)) (eq_of_parts bx cx ((==_iff _ _).0 same))
          (same_exponents bx))
    | inr differ ↦ rw differ (elim (Bool-cases (ltb_ℤ bx cx)) [
      | inl less ↦
          let (none, apart) = distance bx cx (omega (arith, ltb→lt _ _ less)) in
          rw less (
            pos_part (cx -ℤ bx),
            cx,
            apart,
            rw none
                (rw from_c (shifted-IsSum c0 b0 qc qb sh pos_sh hc hb cx (pos_part (cx -ℤ bx)))),
          )
      | inr more ↦
          let (none, apart) = distance cx bx (omega (arith, ltb→ge _ _ more)) in
          rw more (
            pos_part (bx -ℤ cx),
            bx,
            apart,
            rw none
                (rw from_b (shifted-IsSum b0 c0 qb qc sh pos_sh hb hc bx (pos_part (bx -ℤ cx)))),
          )
    ])
  ]
    where
      from_c : b0 * 1 + c0 * 2 ^ pos_part (cx -ℤ bx) ≡ c0 * 2 ^ pos_part (cx -ℤ bx) + b0
      from_c = omega arith

      from_b : b0 * 2 ^ pos_part (bx -ℤ cx) + c0 * 1 ≡ b0 * 2 ^ pos_part (bx -ℤ cx) + c0
      from_b = omega arith
