-- ===== src/Rounding.antt =====
-- Rounding a one-limb significand: the code that ends `mpfr_add1sp1` (src/add1sp.c), `mpfr_mul_1`
-- (src/mul.c), `mpfr_sqr_1` (src/sqr.c) and their kin, and what correct rounding means.
pub mod Spec
pub mod Decision
pub mod Limb
pub mod Cut
pub mod Correct
pub mod Whole
pub mod Range
pub mod Least
pub mod Fits
use mpfr.Base.{ℕ, ◌+◌, ◌-◌, List, [], ◌∷◌, ◌==◌, ◌&&◌, ◌||◌, if◌then◌else◌, Bool}
use mpfr.Base.{ℤ, pos, neg_ℤ, ◌+ℤ◌, leb_ℤ, bit_and, bit_xor}
use mpfr.Words.{limb_highbit, shl, ladd, lnot, limb_mask}
use mpfr.Types.{Rnd, is_like_rndz, is_rndn, is_rndf, is_neg, sign_int, num, Mpfr, Env, Out, ret}
use mpfr.Exceptions.{overflow}

-- `a0 & (MPFR_LIMB_ONE << (sh - 1))`, `(a0 & mask) ^ rb` and `a0 & ~mask`
abbrev pub round_bit : ℕ → ℕ → ℕ
round_bit a0 sh = bit_and a0 (shl 1 (sh - 1))

abbrev pub sticky_part : ℕ → ℕ → ℕ
sticky_part a0 sh = bit_xor (bit_and a0 (limb_mask sh)) (round_bit a0 sh)

abbrev pub truncated : ℕ → ℕ → ℕ
truncated a0 sh = bit_and a0 (lnot (limb_mask sh))

-- A truncated result: its exponent, its limb, and the round and sticky bits of the rest.
pub record Parts : Type 0 where
  pub exponent : ℤ
  pub limb : ℕ
  pub rb : ℕ
  pub sb : ℕ

-- What the code does with the truncated significand.
pub data Verdict : Type 0 where
  exact truncate add_one_ulp : Verdict

-- The choice from the round bit `rb`, the sticky bit `sb` and the last bit `odd` of the significand.
unfoldable pub verdict : Rnd → Bool → ℕ → ℕ → ℕ → Verdict
verdict rnd neg odd rb sb =
    if (rb == 0 && sb == 0) || is_rndf rnd
    then exact
    else if is_rndn rnd
    then if rb == 0 || (sb == 0 && odd == 0) then truncate else add_one_ulp
    else if is_like_rndz rnd neg
    then truncate
    else add_one_ulp

-- `truncate:` and `add_one_ulp:`. The limb after the addition is 0 if it carried out.
carry_out : Mpfr → Rnd → ℤ → ℕ → Env → Out
carry_out a rnd ax a0 e =
    if a0 == 0
    then if leb_ℤ (ax +ℤ pos 1) e.emax
      then ret (record a { exp = num (ax +ℤ pos 1); mant = limb_highbit ∷ [] }) (sign_int a.sign) e
      else overflow (record a { exp = num ax; mant = limb_highbit ∷ [] }) rnd a.sign e
    else ret (record a { exp = num ax; mant = a0 ∷ [] }) (sign_int a.sign) e

apply_verdict : Verdict → Mpfr → Rnd → ℤ → ℕ → ℕ → Env → Out
apply_verdict exact a rnd ax sh a0 e = ret (record a { exp = num ax; mant = a0 ∷ [] }) (pos 0) e
apply_verdict truncate a rnd ax sh a0 e =
    ret (record a { exp = num ax; mant = a0 ∷ [] }) (neg_ℤ (sign_int a.sign)) e
apply_verdict add_one_ulp a rnd ax sh a0 e = carry_out a rnd ax (ladd a0 (shl 1 sh)) e

-- The rounding of `a0`, whose ulp is `1 << sh`, at exponent `ax`.
unfoldable pub round_limb : Mpfr → Rnd → ℤ → ℕ → ℕ → ℕ → ℕ → Env → Out
unfolding apply_verdict carry_out
round_limb a rnd ax sh a0 rb sb e =
    apply_verdict (verdict rnd (is_neg a.sign) (bit_and a0 (shl 1 sh)) rb sb) a rnd ax sh a0 e

-- The same where a carry out of the limb is never beyond `emax`, as a subtraction ends.
store_verdict : Verdict → Mpfr → ℤ → ℕ → ℕ → Env → Out
store_verdict exact a ax sh a0 e = ret (record a { exp = num ax; mant = a0 ∷ [] }) (pos 0) e
store_verdict truncate a ax sh a0 e =
    ret (record a { exp = num ax; mant = a0 ∷ [] }) (neg_ℤ (sign_int a.sign)) e
store_verdict add_one_ulp a ax sh a0 e =
    let next = ladd a0 (shl 1 sh) in
    if next == 0
    then ret (record a { exp = num (ax +ℤ pos 1); mant = limb_highbit ∷ [] }) (sign_int a.sign) e
    else ret (record a { exp = num ax; mant = next ∷ [] }) (sign_int a.sign) e

unfoldable pub store_limb : Mpfr → Rnd → Parts → ℕ → Env → Out
unfolding store_verdict
store_limb a rnd s sh e =
    store_verdict (verdict rnd (is_neg a.sign) (bit_and s.limb (shl 1 sh)) s.rb s.sb) a s.exponent
      sh s.limb e
