-- ===== src/Sub.antt =====
-- Subtraction of two numbers of one precision up to `GMP_NUMB_BITS` and equal signs: `mpfr_sub1sp1`
-- and `mpfr_sub1sp1n` (src/sub1sp.c).
pub mod Near
pub mod Far
pub mod Round
pub mod Shifted
pub mod Exact
pub mod Correct
pub mod Whole
mod Tests
use mpfr.Base.{
  ℕ, ◌-◌, ◌+◌, ◌/◌, List, [], ◌∷◌, get_or, ltb, ◌==◌, ◌&&◌, ◌||◌, not, if◌then◌else◌, bit_or,
  bit_and,
}
use mpfr.Base.{ℤ, pos, pos_part, neg_ℤ, ◌+ℤ◌, ◌-ℤ◌, ltb_ℤ, eqb_ℤ}
use mpfr.Words.{limb_bits, limb_highbit, shl, shr, ladd, lsub, lnot, limb_mask}
use mpfr.Words.Longlong.{Longlong, count_leading_zeros}
use mpfr.Types.{Rnd, rndz, is_rndn, is_rndd, is_neg, Sign, plus, minus, opposite, sign_int}
use mpfr.Types.{zero_value, num, Mpfr, Env, Out, exp_value, ret}
use mpfr.Exceptions.{underflow}
use mpfr.Rounding.{Parts, store_limb}
use mpfr.Add.{cut_far}

-- `bx == cx`: `a0` is the difference of the limbs, and it is not zero.
pub diff_equal : ⦃ll : Longlong⦄ → ℤ → ℕ → Parts
diff_equal bx a0 =
    let cnt = count_leading_zeros a0 in
    record { exponent = bx -ℤ pos cnt; limb = shl a0 cnt; rb = 0; sb = 0 }

-- The neglected part of `-c`, and the limb of the difference above it.
abbrev pub neglected : ℕ → ℕ → ℕ
neglected c0 d = lsub 0 (shl c0 (limb_bits - d))

abbrev pub top_limb : ℕ → ℕ → ℕ → ℕ
top_limb b0 c0 d = lsub (lsub b0 (if neglected c0 d == 0 then 0 else 1)) (shr c0 d)

-- `if (cnt) a0 = (a0 << cnt) | (sb >> (GMP_NUMB_BITS - cnt))`
abbrev pub shift_in : ℕ → ℕ → ℕ → ℕ
shift_in a0 sb cnt = if cnt == 0 then a0 else bit_or (shl a0 cnt) (shr sb (limb_bits - cnt))

-- `d < GMP_NUMB_BITS`
pub diff_near : ⦃ll : Longlong⦄ → ℤ → ℕ → ℕ → ℕ → ℕ → Parts
diff_near bx b0 c0 d sh =
    let sb = neglected c0 d in
    let a0 = top_limb b0 c0 d in
    let cnt = count_leading_zeros a0 in cut_far (bx -ℤ pos cnt) (shift_in a0 sb cnt) (shl sb cnt) sh

-- `d >= GMP_NUMB_BITS`
pub diff_far : ℤ → ℕ → ℕ → ℕ → ℕ → Parts
diff_far bx b0 c0 d sh =
    if ltb limb_highbit b0
    then record { exponent = bx; limb = lsub b0 (shl 1 sh); rb = 1; sb = 1 }
    else record {
      exponent = bx -ℤ pos 1;
      limb = lnot (limb_mask sh);
      rb = if ltb 1 sh || ltb limb_bits d || c0 == limb_highbit then 1 else 0;
      sb = 1;
    }

pub diff_shifted : ⦃ll : Longlong⦄ → ℤ → ℕ → ℕ → ℕ → ℕ → Parts
diff_shifted bx b0 c0 d sh =
    if ltb d limb_bits then diff_near bx b0 c0 d sh else diff_far bx b0 c0 d sh

-- `now perform rounding`: the mode with which `underflow` is called.
pub small_rnd : Parts → Rnd → Env → Rnd
small_rnd s rnd e =
    if is_rndn rnd && (ltb_ℤ s.exponent (e.emin -ℤ pos 1) || s.limb == limb_highbit)
    then rndz
    else rnd

pub round_difference : Mpfr → Parts → Rnd → ℕ → Env → Out
round_difference a s rnd sh e =
    if ltb_ℤ s.exponent e.emin
    then underflow (record a { mant = s.limb ∷ [] }) (small_rnd s rnd e) a.sign e
    else store_limb a rnd s sh e

-- `result is zero`
pub zero_difference : Mpfr → Rnd → Env → Out
zero_difference a rnd e =
    ret (record a { exp = zero_value; sign = if is_rndd rnd then minus else plus }) (pos 0) e

-- With equal exponents the result is exact, and `sh` is not used.
pub sub1sp1 : ⦃ll : Longlong⦄ → Mpfr → Mpfr → Mpfr → Rnd → ℕ → Env → Out
sub1sp1 a b c rnd p e =
    let bx = exp_value b.exp in
    let cx = exp_value c.exp in
    let b0 = get_or b.mant 0 0 in
    let c0 = get_or c.mant 0 0 in
    let sh = limb_bits - p in
    let same = record a { sign = b.sign } in
    let flipped = record a { sign = opposite b.sign } in
    if eqb_ℤ bx cx
    then if b0 == c0
      then zero_difference a rnd e
      else if ltb b0 c0
      then round_difference flipped (diff_equal bx (lsub c0 b0)) rnd sh e
      else round_difference same (diff_equal bx (lsub b0 c0)) rnd sh e
    else if ltb_ℤ bx cx
    then round_difference flipped (diff_shifted cx c0 b0 (pos_part (cx -ℤ bx)) sh) rnd sh e
    else round_difference same (diff_shifted bx b0 c0 (pos_part (bx -ℤ cx)) sh) rnd sh e

-- The same in a whole limb, `p = GMP_NUMB_BITS`. The limb of the difference can be zero.
pub whole_diff_near : ⦃ll : Longlong⦄ → ℤ → ℕ → ℕ → ℕ → Parts
whole_diff_near bx b0 c0 d =
    let sb = neglected c0 d in
    let a0 = top_limb b0 c0 d in
    let cnt = count_leading_zeros a0 in
    if a0 == 0
    then record { exponent = bx -ℤ pos limb_bits; limb = limb_highbit; rb = 0; sb = 0 }
    else record {
      exponent = bx -ℤ pos cnt;
      limb = shift_in a0 sb cnt;
      rb = bit_and (shl sb cnt) limb_highbit;
      sb = bit_and (shl sb cnt) (lnot limb_highbit);
    }

-- `d >= GMP_NUMB_BITS` and `b` is not a power of two
pub whole_diff_far : ℤ → ℕ → ℕ → ℕ → Parts
whole_diff_far bx b0 c0 d = record {
  exponent = bx;
  limb = lsub b0 1;
  rb = if ltb limb_bits d || c0 == limb_highbit then 1 else 0;
  sb = if ltb limb_bits d || not (c0 == limb_highbit) then 1 else 0;
}

-- `d >= GMP_NUMB_BITS` and `b` is a power of two: the exponent decreases.
pub power_diff_far : ℤ → ℕ → ℕ → Parts
power_diff_far bx c0 d =
    if d == limb_bits && ltb limb_highbit c0
    then record {
      exponent = bx -ℤ pos 1;
      limb = lsub 0 (shl 1 1);
      rb = if ltb (lsub 0 c0) (shr limb_highbit 1) then 0 else 1;
      sb = shl (lsub 0 c0) 2;
    }
    else record {
      exponent = bx -ℤ pos 1;
      limb = lsub 0 1;
      rb = if ltb (limb_bits + 1) d || (d == limb_bits + 1 && c0 == limb_highbit) then 1 else 0;
      sb = if ltb (limb_bits + 1) d || (d == limb_bits + 1 && ltb limb_highbit c0) then 1 else 0;
    }

pub whole_diff_shifted : ⦃ll : Longlong⦄ → ℤ → ℕ → ℕ → ℕ → Parts
whole_diff_shifted bx b0 c0 d =
    if ltb d limb_bits
    then whole_diff_near bx b0 c0 d
    else if ltb limb_highbit b0
    then whole_diff_far bx b0 c0 d
    else power_diff_far bx c0 d

-- The code from `now perform rounding` on is that of `mpfr_sub1sp1`, with a shift of 0.
pub sub1sp1n : ⦃ll : Longlong⦄ → Mpfr → Mpfr → Mpfr → Rnd → Env → Out
sub1sp1n a b c rnd e =
    let bx = exp_value b.exp in
    let cx = exp_value c.exp in
    let b0 = get_or b.mant 0 0 in
    let c0 = get_or c.mant 0 0 in
    let same = record a { sign = b.sign } in
    let flipped = record a { sign = opposite b.sign } in
    let a0 = lsub b0 c0 in
    if eqb_ℤ bx cx
    then if a0 == 0
      then zero_difference a rnd e
      else if ltb b0 a0
      then round_difference flipped (diff_equal bx (lsub 0 a0)) rnd 0 e
      else round_difference same (diff_equal bx a0) rnd 0 e
    else if ltb_ℤ bx cx
    then round_difference flipped (whole_diff_shifted cx c0 b0 (pos_part (cx -ℤ bx))) rnd 0 e
    else round_difference same (whole_diff_shifted bx b0 c0 (pos_part (bx -ℤ cx))) rnd 0 e
