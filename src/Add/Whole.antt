-- ===== src/Add/Whole.antt =====
-- Addition of two numbers of precision `GMP_NUMB_BITS` and equal signs: `mpfr_add1sp1n`
-- (src/add1sp.c).
pub mod Correct
use mpfr.Base.{ℕ, ◌-◌, [], ◌∷◌, get_or, ltb, ◌==◌, ◌||◌, not, if◌then◌else◌, bit_and, bit_or}
use mpfr.Base.{ℤ, pos, pos_part, ◌+ℤ◌, ◌-ℤ◌, ltb_ℤ, eqb_ℤ}
use mpfr.Words.{limb_bits, limb_highbit, shl, shr, ladd, lnot}
use mpfr.Types.{exp_value, Rnd, Mpfr, Env, Out}
use mpfr.Rounding.{Parts}
use mpfr.Add.{round_sum}

-- `bx == cx`: the sum always carries out.
pub whole_equal : ℤ → ℕ → ℕ → Parts
whole_equal bx b0 c0 =
    let a0 = ladd b0 c0 in
    record {
      exponent = bx +ℤ pos 1;
      limb = bit_or limb_highbit (shr a0 1);
      rb = bit_and a0 1;
      sb = 0;
    }

-- `d < GMP_NUMB_BITS`
pub whole_near : ℤ → ℕ → ℕ → ℕ → Parts
whole_near bx b0 c0 d =
    let a0 = ladd b0 (shr c0 d) in
    let sb = shl c0 (limb_bits - d) in
    if ltb a0 b0
    then record {
      exponent = bx +ℤ pos 1;
      limb = bit_or limb_highbit (shr a0 1);
      rb = bit_and a0 1;
      sb = sb;
    }
    else record {
      exponent = bx;
      limb = a0;
      rb = bit_and sb limb_highbit;
      sb = bit_and sb (lnot limb_highbit);
    }

-- `d >= GMP_NUMB_BITS`
pub whole_far : ℤ → ℕ → ℕ → ℕ → Parts
whole_far bx b0 c0 d = record {
  exponent = bx;
  limb = b0;
  rb = if d == limb_bits then 1 else 0;
  sb = if not (d == limb_bits) || not (c0 == limb_highbit) then 1 else 0;
}

pub whole_shifted : ℤ → ℕ → ℕ → ℕ → Parts
whole_shifted bx b0 c0 d = if ltb d limb_bits then whole_near bx b0 c0 d else whole_far bx b0 c0 d

pub whole_limbs : ℤ → ℤ → ℕ → ℕ → Parts
whole_limbs bx cx b0 c0 =
    if eqb_ℤ bx cx
    then whole_equal bx b0 c0
    else if ltb_ℤ bx cx
    then whole_shifted cx c0 b0 (pos_part (cx -ℤ bx))
    else whole_shifted bx b0 c0 (pos_part (bx -ℤ cx))

-- The code from `now perform rounding` on is that of `mpfr_add1sp1`, with a shift of 0.
pub add1sp1n : Mpfr → Mpfr → Mpfr → Rnd → Env → Out
add1sp1n a b c rnd e =
    let s =
      whole_limbs (exp_value b.exp) (exp_value c.exp) (get_or b.mant 0 0) (get_or c.mant 0 0) in
    round_sum a s rnd 0 e
