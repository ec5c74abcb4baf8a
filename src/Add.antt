-- ===== src/Add.antt =====
-- Addition of two numbers of one precision below `GMP_NUMB_BITS` and equal signs: `mpfr_add1sp1`
-- (src/add1sp.c), in the version that is not extracted from proven code.
pub mod Aligned
pub mod Single
pub mod Correct
pub mod Whole
mod Tests
use mpfr.Base.{
  ℕ, ◌+◌, ◌-◌, ◌^◌, List, [], ◌∷◌, get_or, ltb, if◌then◌else◌, bit_and, bit_or, bit_xor,
}
use mpfr.Base.{ℤ, pos, negsuc, pos_part, ◌+ℤ◌, ◌-ℤ◌, ltb_ℤ, eqb_ℤ}
use mpfr.Words.{limb_bits, limb_highbit, shl, shr, ladd}
use mpfr.Types.{exp_value, Rnd, Exp, nan, inf, zero_value, num, Mpfr, Env, Out}
use mpfr.Exceptions.{overflow}
use mpfr.Rounding.{Parts, round_bit, sticky_part, truncated, round_limb}

-- `bx == cx`
pub sum_equal : ℤ → ℕ → ℕ → ℕ → Parts
sum_equal bx b0 c0 sh =
    let a0 = ladd (shr b0 1) (shr c0 1) in
    let rb = round_bit a0 sh in
    record { exponent = bx +ℤ pos 1; limb = bit_xor a0 rb; rb = rb; sb = 0 }

-- The sum limb `a0` cut at its ulp, with the sticky bits `sb` that lie below the limb.
pub cut_near : ℤ → ℕ → ℕ → Parts
cut_near bx a0 sh = record {
  exponent = bx;
  limb = truncated a0 sh;
  rb = round_bit a0 sh;
  sb = sticky_part a0 sh;
}

unfoldable pub cut_far : ℤ → ℕ → ℕ → ℕ → Parts
cut_far bx a0 sb sh = record {
  exponent = bx;
  limb = truncated a0 sh;
  rb = round_bit a0 sh;
  sb = bit_or sb (sticky_part a0 sh);
}

-- `d < sh`: no bit of `c` is lost. A sum below `b0` has carried out.
pub sum_near : ℤ → ℕ → ℕ → ℕ → ℕ → Parts
sum_near bx b0 c0 d sh =
    let a0 = ladd b0 (shr c0 d) in
    if ltb a0 b0
    then cut_near (bx +ℤ pos 1) (bit_or limb_highbit (shr a0 1)) sh
    else cut_near bx a0 sh

-- `sh <= d < GMP_NUMB_BITS`: the bits of `c` below the limb go to the sticky bit.
pub sum_far : ℤ → ℕ → ℕ → ℕ → ℕ → Parts
sum_far bx b0 c0 d sh =
    let sb = shl c0 (limb_bits - d) in
    let a0 = ladd b0 (shr c0 d) in
    if ltb a0 b0
    then cut_far (bx +ℤ pos 1) (bit_or limb_highbit (shr a0 1)) (bit_or sb (bit_and a0 1)) sh
    else cut_far bx a0 sb sh

-- `bx > cx`, with `d` their difference.
pub sum_shifted : ℤ → ℕ → ℕ → ℕ → ℕ → Parts
sum_shifted bx b0 c0 d sh =
    if ltb d sh
    then sum_near bx b0 c0 d sh
    else if ltb d limb_bits
    then sum_far bx b0 c0 d sh
    else record { exponent = bx; limb = b0; rb = 0; sb = 1 }

-- The two operands are swapped so that the first has the larger exponent.
pub sum_limbs : ℤ → ℤ → ℕ → ℕ → ℕ → Parts
sum_limbs bx cx b0 c0 sh =
    if eqb_ℤ bx cx
    then sum_equal bx b0 c0 sh
    else if ltb_ℤ bx cx
    then sum_shifted cx c0 b0 (pos_part (cx -ℤ bx)) sh
    else sum_shifted bx b0 c0 (pos_part (bx -ℤ cx)) sh

-- `now perform rounding`
pub round_sum : Mpfr → Parts → Rnd → ℕ → Env → Out
round_sum a s rnd sh e =
    if ltb_ℤ e.emax s.exponent
    then overflow (record a { mant = s.limb ∷ [] }) rnd a.sign e
    else round_limb a rnd s.exponent sh s.limb s.rb s.sb e

pub add1sp1 : Mpfr → Mpfr → Mpfr → Rnd → ℕ → Env → Out
add1sp1 a b c rnd p e =
    let sh = limb_bits - p in
    let s =
      sum_limbs (exp_value b.exp) (exp_value c.exp) (get_or b.mant 0 0) (get_or c.mant 0 0) sh in
    round_sum a s rnd sh e
