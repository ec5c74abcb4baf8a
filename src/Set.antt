-- ===== src/Set.antt =====
-- Rounding in any number of limbs (the macro `MPFR_RNDRAW` of src/mpfr-impl.h) and the functions that
-- copy a number with it: `mpfr_set4`, `mpfr_set`, `mpfr_abs` (src/set.c), `mpfr_neg` (src/neg.c),
-- `mpfr_setsign` (src/setsign.c) and `mpfr_copysign` (src/copysign.c). GMP's `mpn_add_1` is a
-- parameter.
pub mod Sticky
pub mod Masked
pub mod Rounded
pub mod Correct
pub mod Aliases
pub mod RoundTrip
mod Tests
use mpfr.Base.{
  ℕ, zero, suc, ◌+◌, ◌-◌, ◌*◌, ◌%◌, List, [], ◌∷◌, ◌++◌, get_or, set, drop, replicate, ltb, leb,
  ◌==◌, ◌||◌, if◌then◌else◌, Bool, true, false, bit_and, bit_or,
}
use mpfr.Base.{ℤ, pos, neg_ℤ, ◌+ℤ◌, ltb_ℤ}
use mpfr.Words.{limb_bits, limb_mod, limb_highbit, shl, lsub, lnot}
use mpfr.Types.{
  Rnd, is_like_rndz, is_rndn, is_rndf, Sign, plus, minus, is_neg, opposite, sign_int, Exp, nan, inf,
  zero_value, num, Mpfr, Env, Out, ret, ret_nan, prec2limbs,
}
use mpfr.Exceptions.{overflow}
use mpfr.Rounding.{Verdict, exact, truncate, add_one_ulp}
use mpfr.Next.{Mpn, unused_bits, last_limb}

-- The loop `n != 0 && _sb == 0` over the limbs below, from the highest one down.
unfoldable pub sticky_down : List ℕ → ℕ → ℕ → ℕ
sticky_down src zero sb = sb
sticky_down src (suc n) sb =
    let rest = sticky_down src n (get_or src n 0) in if sb == 0 then rest else sb

-- `_rb`, `_sb` and `_ulp`
pub record Bits : Type 0 where
  pub rb : ℕ
  pub sb : ℕ
  pub ulp : ℕ

-- The sticky bits below are looked at in RNDN, or where the round bit is clear.
unfoldable pub full_sticky : Rnd → ℕ → List ℕ → ℕ → ℕ → ℕ
full_sticky rnd rb src n sb = if is_rndn rnd || rb == 0 then sticky_down src n sb else sb

-- `_sh != 0`; `skip` is `_srcs - _dests`, so that `_sp[0]` is `src[skip]`.
unfoldable pub inner_bits : Rnd → List ℕ → ℕ → ℕ → Bits
inner_bits rnd src skip sh =
    let mask = shl 1 (sh - 1) in
    let sp0 = get_or src skip 0 in
    let rb = bit_and sp0 mask in
    record {
      rb = rb;
      sb = full_sticky rnd rb src skip (bit_and sp0 (lsub mask 1));
      ulp = shl mask 1;
    }

-- `_sh == 0`: the round bit is the highest one of `_sp[-1]`.
pub outer_bits : Rnd → List ℕ → ℕ → Bits
outer_bits rnd src skip =
    let below = get_or src (skip - 1) 0 in
    let rb = bit_and below limb_highbit in
    record {
      rb = rb;
      sb = full_sticky rnd rb src (skip - 1) (bit_and below (lsub limb_highbit 1));
      ulp = 1;
    }

unfoldable pub round_bits : Rnd → List ℕ → ℕ → ℕ → Bits
round_bits rnd src skip sh = if sh == 0 then outer_bits rnd src skip else inner_bits rnd src skip sh

-- The jumps to `trunc`, `trunc_doit` and `addoneulp`, with `odd` the last bit that is kept.
unfoldable pub rndraw_verdict : Rnd → Bool → ℕ → ℕ → ℕ → Verdict
rndraw_verdict rnd neg odd rb sb =
    let trunc = if bit_or sb rb == 0 then exact else truncate in
    if is_rndf rnd
    then exact
    else if is_rndn rnd
    then if rb == 0
      then trunc
      else if sb == 0
      then if odd == 0 then truncate else add_one_ulp
      else add_one_ulp
    else if is_like_rndz rnd neg
    then trunc
    else if bit_or sb rb == 0
    then exact
    else add_one_ulp

-- `_destp[0] &= ~(_ulp - 1)`
unfoldable pub mask_first : ℕ → List ℕ → List ℕ
mask_first ulp [] = []
mask_first ulp (y ∷ ys) = bit_and y (lnot (lsub ulp 1)) ∷ ys

-- Where the two arguments are one object, `same`, only its sign changes.
pub change_sign : Exp → Mpfr → Sign → Env → Out
change_sign nan a s e = ret_nan (record a { sign = s }) e
change_sign inf a s e = ret (record a { sign = s }) (pos 0) e
change_sign zero_value a s e = ret (record a { sign = s }) (pos 0) e
change_sign (num ax) a s e = ret (record a { sign = s }) (pos 0) e

module _ (g : Mpn) where
  -- `MPFR_RNDRAW` in `mpfr_set4`, from `_sp` on, with its overflow handler: `a` has the exponent and
  -- the sign of its new value.
  unfoldable pub store_rndraw : Verdict → Mpfr → Rnd → ℤ → List ℕ → ℕ → Env → Out
  store_rndraw exact a rnd ax sp ulp e =
      ret (record a { exp = num ax; mant = mask_first ulp sp }) (pos 0) e
  store_rndraw truncate a rnd ax sp ulp e =
      ret (record a { exp = num ax; mant = mask_first ulp sp }) (neg_ℤ (sign_int a.sign)) e
  store_rndraw add_one_ulp a rnd ax sp ulp e =
      let (r, carry) = g.add_1 sp ulp in
      let r' = set r (last_limb a) limb_highbit in
      if carry == 0
      then ret (record a { exp = num ax; mant = mask_first ulp r }) (sign_int a.sign) e
      else if ltb_ℤ e.emax (ax +ℤ pos 1)
      then overflow (record a { exp = num (ax +ℤ pos 1); mant = r' }) rnd a.sign e
      else ret (record a { exp = num (ax +ℤ pos 1); mant = mask_first ulp r' }) (sign_int a.sign) e

  unfoldable pub rndraw : Mpfr → Rnd → ℤ → List ℕ → ℕ → Env → Out
  rndraw a rnd ax src srcprec e =
      let skip = prec2limbs srcprec - prec2limbs a.prec in
      let bits = round_bits rnd src skip (unused_bits a) in
      let odd = bit_and (get_or src skip 0) bits.ulp in
      let v = rndraw_verdict rnd (is_neg a.sign) odd bits.rb bits.sb in
      if leb srcprec a.prec
      then ret
          (record a {
            exp = num ax;
            mant = replicate (prec2limbs a.prec - prec2limbs srcprec) 0 ++ src;
          })
          (pos 0) e
      else store_rndraw v a rnd ax (drop skip src) bits.ulp e

  unfoldable pub set4_field : Exp → Mpfr → Mpfr → Rnd → Sign → Env → Out
  set4_field nan a b rnd s e = ret_nan (record a { exp = nan; sign = s }) e
  set4_field inf a b rnd s e = ret (record a { exp = inf; sign = s }) (pos 0) e
  set4_field zero_value a b rnd s e = ret (record a { exp = zero_value; sign = s }) (pos 0) e
  set4_field (num bx) a b rnd s e =
      if b.prec == a.prec
      then ret (record a { exp = num bx; sign = s; mant = b.mant }) (pos 0) e
      else rndraw (record a { sign = s }) rnd bx b.mant b.prec e

  unfoldable pub set4 : Mpfr → Mpfr → Rnd → Sign → Env → Out
  set4 a b rnd s e = set4_field b.exp a b rnd s e

  unfoldable pub set_mpfr : Mpfr → Mpfr → Rnd → Env → Out
  set_mpfr a b rnd e = set4 a b rnd b.sign e

  pub abs : Bool → Mpfr → Mpfr → Rnd → Env → Out
  abs same a b rnd e = if same then change_sign b.exp a plus e else set4 a b rnd plus e

  pub neg : Bool → Mpfr → Mpfr → Rnd → Env → Out
  neg same a b rnd e =
      if same then change_sign b.exp a (opposite a.sign) e else set4 a b rnd (opposite b.sign) e

  -- The C argument `s` is an `int` that counts as true or false.
  pub setsign : Bool → Mpfr → Mpfr → Bool → Rnd → Env → Out
  setsign same z x s rnd e =
      let sign = if s then minus else plus in
      if same then change_sign x.exp z sign e else set4 z x rnd sign e

  pub copysign : Bool → Mpfr → Mpfr → Mpfr → Rnd → Env → Out
  copysign same z x y rnd e = if same then change_sign x.exp z y.sign e else set4 z x rnd y.sign e
