-- ===== src/Mul.antt =====
-- Multiplication and squaring in one limb: `mpfr_mul_1` and `mpfr_mul_1n` (src/mul.c), `mpfr_sqr_1`
-- and `mpfr_sqr_1n` (src/sqr.c), in the versions that are not extracted from proven code.
pub mod Product
pub mod Tiny
pub mod Correct
pub mod Whole
pub mod Square
mod Tests
use mpfr.Base.{
  ℕ, ◌-◌, List, [], ◌∷◌, get_or, ltb, ◌==◌, ◌&&◌, ◌||◌, not, if◌then◌else◌, bit_or, bit_and, Bool,
  false,
}
use mpfr.Base.{ℤ, pos, ◌+ℤ◌, ◌-ℤ◌, ltb_ℤ, eqb_ℤ}
use mpfr.Words.{limb_bits, limb_highbit, limb_max, shl, shr, lnot, limb_mask}
use mpfr.Words.Longlong.{Longlong, umul_ppmm}
use mpfr.Types.{
  Rnd, rndz, is_rndn, is_like_rnda, is_neg, plus, mult_sign, Mpfr, Env, Out, exp_value,
}
use mpfr.Exceptions.{overflow, underflow}
use mpfr.Rounding.{Parts, round_bit, sticky_part, truncated, round_limb}

-- The product of two limbs with the highest bit set, normalized and cut at the ulp `1 << sh`.
pub product : ℤ → ℕ → ℕ → ℕ → Parts
product ax a0 sb sh = record {
  exponent = ax;
  limb = truncated a0 sh;
  rb = round_bit a0 sh;
  sb = bit_or sb (sticky_part a0 sh);
}

pub product_limbs : ⦃ll : Longlong⦄ → ℤ → ℕ → ℕ → ℕ → Parts
product_limbs ax b0 c0 sh =
    let (a0, sb) = umul_ppmm b0 c0 in
    if ltb a0 limb_highbit
    then product (ax -ℤ pos 1) (bit_or (shl a0 1) (shr sb (limb_bits - 1))) (shl sb 1) sh
    else product ax a0 sb sh

-- `goto rounding`: below `emin`, but the rounding reaches `2 ^ (emin - 1)`.
pub reaches_emin : Parts → Rnd → Bool → ℕ → Env → Bool
reaches_emin s rnd neg sh e =
    eqb_ℤ s.exponent (e.emin -ℤ pos 1)
    && s.limb == lnot (limb_mask sh)
    && ((is_rndn rnd && not (s.rb == 0)) || (is_like_rnda rnd neg && not (bit_or s.rb s.sb == 0)))

-- The mode with which `underflow` is called: RNDN becomes RNDZ up to `2 ^ (emin - 2)`.
pub tiny_rnd : Parts → Rnd → Env → Rnd
tiny_rnd s rnd e =
    if is_rndn rnd
      && (ltb_ℤ s.exponent (e.emin -ℤ pos 1) || (s.limb == limb_highbit && bit_or s.rb s.sb == 0))
    then rndz
    else rnd

pub round_product : Mpfr → Parts → Rnd → ℕ → Env → Out
round_product a s rnd sh e =
    if ltb_ℤ e.emax s.exponent
    then overflow (record a { mant = s.limb ∷ [] }) rnd a.sign e
    else if ltb_ℤ s.exponent e.emin && not (reaches_emin s rnd (is_neg a.sign) sh e)
    then underflow (record a { mant = s.limb ∷ [] }) (tiny_rnd s rnd e) a.sign e
    else round_limb a rnd s.exponent sh s.limb s.rb s.sb e

pub mul_1 : ⦃ll : Longlong⦄ → Mpfr → Mpfr → Mpfr → Rnd → ℕ → Env → Out
mul_1 a b c rnd p e =
    let sh = limb_bits - p in
    let ax = exp_value b.exp +ℤ exp_value c.exp in
    let s = product_limbs ax (get_or b.mant 0 0) (get_or c.mant 0 0) sh in
    round_product (record a { sign = mult_sign b.sign c.sign }) s rnd sh e

pub sqr_1 : ⦃ll : Longlong⦄ → Mpfr → Mpfr → Rnd → ℕ → Env → Out
sqr_1 a b rnd p e =
    let sh = limb_bits - p in
    let ax = exp_value b.exp +ℤ exp_value b.exp in
    let s = product_limbs ax (get_or b.mant 0 0) (get_or b.mant 0 0) sh in
    round_product (record a { sign = plus }) s rnd sh e

-- The same in a whole limb, `prec (a) = GMP_NUMB_BITS`: the highest bit of `sb` is the round bit.
pub whole_product : ℤ → ℕ → ℕ → Parts
whole_product ax a0 sb = record {
  exponent = ax;
  limb = a0;
  rb = bit_and sb limb_highbit;
  sb = bit_and sb (lnot limb_highbit);
}

pub whole_product_limbs : ⦃ll : Longlong⦄ → ℤ → ℕ → ℕ → Parts
whole_product_limbs ax b0 c0 =
    let (a0, sb) = umul_ppmm b0 c0 in
    if ltb a0 limb_highbit
    then whole_product (ax -ℤ pos 1) (bit_or (shl a0 1) (shr sb (limb_bits - 1))) (shl sb 1)
    else whole_product ax a0 sb

-- The code from `rounding` on is that of `mpfr_mul_1`, with a shift of 0.
pub mul_1n : ⦃ll : Longlong⦄ → Mpfr → Mpfr → Mpfr → Rnd → Env → Out
mul_1n a b c rnd e =
    let ax = exp_value b.exp +ℤ exp_value c.exp in
    let s = whole_product_limbs ax (get_or b.mant 0 0) (get_or c.mant 0 0) in
    round_product (record a { sign = mult_sign b.sign c.sign }) s rnd 0 e

-- The test of `mpfr_sqr_1n` for `goto rounding`, which is simpler than that of `mpfr_mul_1n`.
pub square_reaches_emin : Parts → Rnd → Env → Bool
square_reaches_emin s rnd e =
    eqb_ℤ s.exponent (e.emin -ℤ pos 1) && s.limb == limb_max && is_like_rnda rnd false

pub round_square : Mpfr → Parts → Rnd → Env → Out
round_square a s rnd e =
    if ltb_ℤ e.emax s.exponent
    then overflow (record a { mant = s.limb ∷ [] }) rnd plus e
    else if ltb_ℤ s.exponent e.emin && not (square_reaches_emin s rnd e)
    then underflow (record a { mant = s.limb ∷ [] }) (tiny_rnd s rnd e) plus e
    else round_limb a rnd s.exponent 0 s.limb s.rb s.sb e

pub sqr_1n : ⦃ll : Longlong⦄ → Mpfr → Mpfr → Rnd → Env → Out
sqr_1n a b rnd e =
    let ax = exp_value b.exp +ℤ exp_value b.exp in
    let s = whole_product_limbs ax (get_or b.mant 0 0) (get_or b.mant 0 0) in
    round_square (record a { sign = plus }) s rnd e
