-- ===== src/Mul/Correct.antt =====
-- `mpfr_mul_1` and `mpfr_sqr_1` return the correctly rounded product, with underflow decided after
-- rounding.
use mpfr.Words.Longlong.{Longlong}
use mpfr.Base.{ℕ, ◌-◌, ◌*◌, ◌^◌, ◌<◌, ◌≡◌, ◌≢◌, refl, [], ◌∷◌}
use mpfr.Base.{
  ℤ, pos, ◌+ℤ◌, ◌-ℤ◌, +ℤ_parts, -ℤ_parts, ◌≤ℤ◌, ◌<ℤ◌, ltb_ℤ_of_le, ltb_ℤ_of_lt, arith, int_laws,
}
use mpfr.Base.{Bool-cases, inl, inr, bit_and}
use mpfr.Words.{shl}
use mpfr.Types.{Rnd, rndna, is_neg, num, Mpfr, Env, plus, mult_sign}
use mpfr.Exceptions.{underflow}
use mpfr.Rounding.{Parts, round_limb, verdict}
use mpfr.Rounding.Decision.{chosen, verdict_rounds}
use mpfr.Mul.Tiny.{reached, not_reached}
use mpfr.Rounding.Least.{least, not_least}
use mpfr.Rounding.Spec.{RoundsTo}
use mpfr.Rounding.Limb.{IsLimb, IsRounded, round_limb-IsRounded, exponent_of, odd_bit-IsEvenFlag}
use mpfr.Rounding.Correct.{captured_at_least, captured_less_than}
use mpfr.Rounding.Range.{IsCutOf, UnderflowMode, IsCorrectRange}
use mpfr.Mul.{round_product, reaches_emin, tiny_rnd, product_limbs, mul_1, sqr_1}
use mpfr.Mul.Product.{product_limbs-IsCutOf}

module _ (a : Mpfr) (rnd : Rnd) (supported : rnd ≢ rndna) (sh : ℕ) (e : Env) (x : ℕ) (base : ℤ)
    (s : Parts) (c : IsCutOf x base sh s) where
  rounds_in_range :
      s.exponent ≤ℤ e.emax
      → IsRounded a rnd x
          (2 ^ sh * 2 ^ c.weight)
          s.exponent
          sh
          e
          (round_limb a rnd s.exponent sh s.limb s.rb s.sb e)
  rounds_in_range h =
      round_limb-IsRounded a rnd x (2 ^ sh * 2 ^ c.weight) s.exponent sh e s.limb c.units s.rb s.sb
        supported h c.limb c.captures

  tiny_rnd-UnderflowMode :
      s.exponent <ℤ e.emin → UnderflowMode rnd x c.weight s.exponent e (tiny_rnd s rnd e)
  unfolding tiny_rnd
  tiny_rnd-UnderflowMode h = (
    λ directed. rw directed,
    λ nearest far. ground (arith, +ℤ_parts s.exponent (pos 1), -ℤ_parts e.emin (pos 1)),
    λ nearest least_x. ground (arith, least x c.weight c.units sh s c.limb c.captures least_x),
    λ nearest near more_x. ground (
      arith,
      +ℤ_parts s.exponent (pos 1),
      -ℤ_parts e.emin (pos 1),
      not_least x c.weight c.units sh s c.limb c.captures more_x,
    ),
  )

  abbrev odd : ℕ
  odd = bit_and s.limb (shl 1 sh)

  below_range :
      s.exponent ≤ℤ e.emax
      → s.exponent <ℤ e.emin
      → let q = chosen (verdict rnd (is_neg a.sign) odd s.rb s.sb) c.units in
        let r = round_product a s rnd sh e in
        RoundsTo rnd (is_neg a.sign) x (2 ^ sh * 2 ^ c.weight) q
        × (e.emin ≤ℤ exponent_of (q * 2 ^ sh) s.exponent
            → IsRounded a rnd x (2 ^ sh * 2 ^ c.weight) s.exponent sh e r)
        × (exponent_of (q * 2 ^ sh) s.exponent <ℤ e.emin
            → (y : Mpfr) × (mode : Rnd) × UnderflowMode rnd x c.weight s.exponent e mode
              × (y.prec ≡ a.prec)
              × (r ≡ underflow y mode a.sign e))
  unfolding round_product
  below_range top low = (
    verdict_rounds x (2 ^ sh * 2 ^ c.weight) c.units s.rb s.sb odd c.captures
        (odd_bit-IsEvenFlag s.limb c.units sh c.limb) rnd (is_neg a.sign) supported,
    λ in_range. elim (Bool-cases (reaches_emin s rnd (is_neg a.sign) sh e)) [
      | inl reaches ↦
          rw (ltb_ℤ_of_le s.exponent e.emax top, ltb_ℤ_of_lt s.exponent e.emin low, reaches)
            (rounds_in_range top)
      | inr misses ↦ absurd (
          omega (
            arith,
            in_range,
            not_reached s c.units sh c.limb rnd (is_neg a.sign) supported e low misses,
          ))
    ],
    λ out. elim (Bool-cases (reaches_emin s rnd (is_neg a.sign) sh e)) [
      | inl reaches ↦ absurd (
          omega
            (arith, out, reached s c.units sh c.limb rnd (is_neg a.sign) supported e low reaches))
      | inr misses ↦ (
        record a { mant = s.limb ∷ [] },
        tiny_rnd s rnd e,
        tiny_rnd-UnderflowMode low,
        refl,
        rw (ltb_ℤ_of_le s.exponent e.emax top, ltb_ℤ_of_lt s.exponent e.emin low, misses),
      )
    ],
  )

  pub round_product-IsCorrectRange : IsCorrectRange a rnd x base sh e (round_product a s rnd sh e)
  unfolding round_product
  round_product-IsCorrectRange = record {
    weight = c.weight;
    at_least = captured_at_least x c.weight s.limb c.units sh s.rb s.sb c.limb c.captures;
    less_than = captured_less_than x c.weight s.limb c.units sh s.rb s.sb c.limb c.captures;
    in_range = rw (← c.exponent) (λ top bottom.
        rw (ltb_ℤ_of_le s.exponent e.emax top, ltb_ℤ_of_le e.emin s.exponent bottom)
          (rounds_in_range top));
    beyond = rw (← c.exponent) (λ high.
        rw (ltb_ℤ_of_lt e.emax s.exponent high) (record a { mant = s.limb ∷ [] }, refl, refl));
    below = rw (← c.exponent) (λ top low. (
      chosen (verdict rnd (is_neg a.sign) odd s.rb s.sb) c.units,
      (below_range top low).0,
      (below_range top low).1,
      (below_range top low).2,
    ));
  }

-- For a precision `p` below 64 and two numbers of that precision, `mpfr_mul_1` delivers the rounding
-- of the exact product `b0 * c0 * 2 ^ (bx + cx - 128)` to `p` bits, with its ternary value and
-- flags; it overflows or underflows exactly if the rounded product is out of range.
pub mul_1-IsCorrectRange :
    ⦃ll : Longlong⦄
    → (a b c : Mpfr) (rnd : Rnd) (p : ℕ) (e : Env) (bx cx : ℤ) (b0 c0 qb qc : ℕ) → rnd ≢ rndna
    → 0 < p
    → p < 64
    → b.exp ≡ num bx
    → c.exp ≡ num cx
    → b.mant ≡ b0 ∷ []
    → c.mant ≡ c0 ∷ []
    → IsLimb b0 qb (64 - p)
    → IsLimb c0 qc (64 - p)
    → IsCorrectRange
        (record a { sign = mult_sign b.sign c.sign })
        rnd
        (b0 * c0)
        (bx +ℤ cx -ℤ pos 64)
        (64 - p)
        e
        (mul_1 a b c rnd p e)
unfolding mul_1
mul_1-IsCorrectRange a b c rnd p e bx cx b0 c0 qb qc supported pos_p narrow eb ec mb mc hb hc =
    rw (eb, ec, mb, mc)
      (round_product-IsCorrectRange (record a { sign = mult_sign b.sign c.sign }) rnd supported
        (64 - p) e (b0 * c0) (bx +ℤ cx -ℤ pos 64) (product_limbs (bx +ℤ cx) b0 c0 (64 - p))
        (product_limbs-IsCutOf b0 c0 qb qc (64 - p) (bx +ℤ cx) (bx +ℤ cx -ℤ pos 64) (omega arith) hb
          hc (omega int_laws)))

-- For a precision `p` below 64 and a number of that precision, `mpfr_sqr_1` delivers the rounding
-- of the exact square `b0 * b0 * 2 ^ (2 * bx - 128)` to `p` bits, with its ternary value and flags;
-- it overflows or underflows exactly if the rounded square is out of range.
pub sqr_1-IsCorrectRange :
    ⦃ll : Longlong⦄
    → (a b : Mpfr) (rnd : Rnd) (p : ℕ) (e : Env) (bx : ℤ) (b0 qb : ℕ) → rnd ≢ rndna
    → 0 < p
    → p < 64
    → b.exp ≡ num bx
    → b.mant ≡ b0 ∷ []
    → IsLimb b0 qb (64 - p)
    → IsCorrectRange
        (record a { sign = plus })
        rnd
        (b0 * b0)
        (bx +ℤ bx -ℤ pos 64)
        (64 - p)
        e
        (sqr_1 a b rnd p e)
unfolding sqr_1
sqr_1-IsCorrectRange a b rnd p e bx b0 qb supported pos_p narrow eb mb hb =
    rw (eb, mb)
      (round_product-IsCorrectRange (record a { sign = plus }) rnd supported (64 - p) e (b0 * b0)
        (bx +ℤ bx -ℤ pos 64) (product_limbs (bx +ℤ bx) b0 b0 (64 - p))
        (product_limbs-IsCutOf b0 b0 qb qb (64 - p) (bx +ℤ bx) (bx +ℤ bx -ℤ pos 64) (omega arith) hb
          hb (omega int_laws)))
