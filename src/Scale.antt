-- ===== src/Scale.antt =====
-- Multiplication and division by a power of two: `mpfr_mul_2si` (src/mul_2si.c), `mpfr_div_2si`
-- (src/div_2si.c), `mpfr_mul_2ui` (src/mul_2ui.c) and `mpfr_div_2ui` (src/div_2ui.c), with the macro
-- `MPFR_SETRAW` of src/mpfr-impl.h.
pub mod Range
pub mod Copy
pub mod Near
pub mod Correct
pub mod Inverse
pub mod Corner
pub mod Settled
mod Tests
use mpfr.Base.{
  ℕ, ◌+◌, ◌-◌, ◌%◌, ◌^◌, List, drop, set, ◌++◌, replicate, get_or, leb, ltb, ◌==◌, ◌&&◌, ◌||◌, not,
  if◌then◌else◌, Bool, true, false, bit_and,
}
use mpfr.Base.{ℤ, pos, negsuc, neg_ℤ, ◌+ℤ◌, ◌-ℤ◌, ltb_ℤ, leb_ℤ, pos_part, neg_part}
use mpfr.Words.{limb_highbit}
use mpfr.Types.{
  Rnd, rndz, is_rndn, is_neg, sign_int, Exp, nan, inf, zero_value, num, Mpfr, Env, Out, ret,
  prec2limbs,
}
use mpfr.Extremes.{powerof2_raw}
use mpfr.Exceptions.{emin_min, emax_max, overflow, underflow}
use mpfr.Rounding.{Verdict, exact, truncate, add_one_ulp}
use mpfr.Next.{Mpn, unused_bits, last_limb}
use mpfr.Set.{mask_first, round_bits, rndraw_verdict, set_mpfr}

-- The target with its sign and significand, the variable `exp` and the ternary value.
pub record Raw : Type 0 where
  pub x : Mpfr
  pub exp : ℤ
  pub inex : ℤ

-- A `mpfr_exp_t` that is compared with an `unsigned long` wraps around.
abbrev pub as_unsigned : ℤ → ℕ
as_unsigned z = (pos_part z + (2 ^ 64 - neg_part z)) % 2 ^ 64

module _ (g : Mpn) where
  -- `MPFR_RNDRAW` with the overflow handler `exp++`.
  pub store_setraw : Verdict → Mpfr → ℤ → List ℕ → ℕ → Raw
  store_setraw exact a ax sp ulp = record {
    x = record a { mant = mask_first ulp sp };
    exp = ax;
    inex = pos 0;
  }
  store_setraw truncate a ax sp ulp = record {
    x = record a { mant = mask_first ulp sp };
    exp = ax;
    inex = neg_ℤ (sign_int a.sign);
  }
  store_setraw add_one_ulp a ax sp ulp =
      let (r, carry) = g.add_1 sp ulp in
      let r' = set r (last_limb a) limb_highbit in
      if carry == 0
      then record { x = record a { mant = mask_first ulp r }; exp = ax; inex = sign_int a.sign }
      else record {
        x = record a { mant = mask_first ulp r' };
        exp = ax +ℤ pos 1;
        inex = sign_int a.sign;
      }

  pub setraw_round : Mpfr → Mpfr → ℤ → Rnd → Raw
  setraw_round a b exp rnd =
      let n = prec2limbs a.prec in
      let srcn = prec2limbs b.prec in
      let bits = round_bits rnd b.mant (srcn - n) (unused_bits a) in
      let odd = bit_and (get_or b.mant (srcn - n) 0) bits.ulp in
      let v = rndraw_verdict rnd (is_neg a.sign) odd bits.rb bits.sb in
      if leb b.prec a.prec
      then record {
        x = record a { mant = replicate (n - srcn) 0 ++ b.mant };
        exp = exp;
        inex = pos 0;
      }
      else store_setraw v a exp (drop (srcn - n) b.mant) bits.ulp

  -- `MPFR_SETRAW`; `same` tells that the target `y` is the source `x`.
  pub setraw : Bool → Mpfr → Mpfr → ℤ → Rnd → Raw
  setraw same y x exp rnd =
      let a = record y { sign = x.sign } in
      if same
      then record { x = y; exp = exp; inex = pos 0 }
      else if a.prec == x.prec
      then record { x = record a { mant = x.mant }; exp = exp; inex = pos 0 }
      else setraw_round a x exp rnd

  -- The rounding mode for `mpfr_underflow`: `far` tells that the exponent is below `emin - 1`.
  pub small_mode : Bool → Mpfr → ℤ → Rnd → Rnd
  small_mode far y inexact rnd =
      if is_rndn rnd
        && (far
            || ((if is_neg y.sign then leb_ℤ inexact (pos 0) else leb_ℤ (pos 0) inexact)
                && powerof2_raw y))
      then rndz
      else rnd

  pub mul_2si_number : Raw → ℤ → Rnd → Env → Out
  mul_2si_number r n rnd e =
      let y = r.x in
      let far = ltb_ℤ (emax_max +ℤ (n +ℤ pos 1)) e.emin || ltb_ℤ r.exp (e.emin -ℤ (n +ℤ pos 1)) in
      if leb_ℤ (pos 0) n && (ltb_ℤ e.emax (emin_min +ℤ n) || ltb_ℤ (e.emax -ℤ n) r.exp)
      then overflow y rnd y.sign e
      else if ltb_ℤ n (pos 0) && (ltb_ℤ (emax_max +ℤ n) e.emin || ltb_ℤ r.exp (e.emin -ℤ n))
      then underflow y (small_mode far y r.inex rnd) y.sign e
      else ret (record y { exp = num (r.exp +ℤ n) }) r.inex e

  mul_2si_field : Exp → Bool → Mpfr → Mpfr → ℤ → Rnd → Env → Out
  mul_2si_field nan same y x n rnd e = set_mpfr g y x rnd e
  mul_2si_field inf same y x n rnd e = set_mpfr g y x rnd e
  mul_2si_field zero_value same y x n rnd e = set_mpfr g y x rnd e
  mul_2si_field (num exp) same y x n rnd e = mul_2si_number (setraw same y x exp rnd) n rnd e

  pub mul_2si : Bool → Mpfr → Mpfr → ℤ → Rnd → Env → Out
  mul_2si same y x n rnd e = mul_2si_field x.exp same y x n rnd e

  pub div_2si_number : Raw → ℤ → Rnd → Env → Out
  div_2si_number r n rnd e =
      let y = r.x in
      let far = ltb_ℤ (emax_max -ℤ (n -ℤ pos 1)) e.emin || ltb_ℤ r.exp (e.emin +ℤ (n -ℤ pos 1)) in
      if ltb_ℤ (pos 0) n && (ltb_ℤ (emax_max -ℤ n) e.emin || ltb_ℤ r.exp (e.emin +ℤ n))
      then underflow y (small_mode far y r.inex rnd) y.sign e
      else if leb_ℤ n (pos 0) && (ltb_ℤ e.emax (emin_min -ℤ n) || ltb_ℤ (e.emax +ℤ n) r.exp)
      then overflow y rnd y.sign e
      else ret (record y { exp = num (r.exp -ℤ n) }) r.inex e

  div_2si_field : Exp → Bool → Mpfr → Mpfr → ℤ → Rnd → Env → Out
  div_2si_field nan same y x n rnd e = set_mpfr g y x rnd e
  div_2si_field inf same y x n rnd e = set_mpfr g y x rnd e
  div_2si_field zero_value same y x n rnd e = set_mpfr g y x rnd e
  div_2si_field (num exp) same y x n rnd e = div_2si_number (setraw same y x exp rnd) n rnd e

  pub div_2si : Bool → Mpfr → Mpfr → ℤ → Rnd → Env → Out
  div_2si same y x n rnd e = div_2si_field x.exp same y x n rnd e

  -- `diffexp` is at least 0, since the exponent is at least `emin`.
  pub div_2ui_number : Raw → ℕ → Rnd → Env → Out
  div_2ui_number r n rnd e =
      let y = r.x in
      let diffexp = pos_part (r.exp -ℤ (e.emin -ℤ pos 1)) in
      if leb diffexp n
      then underflow y (small_mode (ltb diffexp n) y r.inex rnd) y.sign e
      else ret (record y { exp = num (r.exp -ℤ pos n) }) r.inex e

  div_2ui_field : Exp → Bool → Mpfr → Mpfr → ℕ → Rnd → Env → Out
  div_2ui_field nan same y x n rnd e = set_mpfr g y x rnd e
  div_2ui_field inf same y x n rnd e = set_mpfr g y x rnd e
  div_2ui_field zero_value same y x n rnd e = set_mpfr g y x rnd e
  div_2ui_field (num exp) same y x n rnd e =
      if n == 0 then set_mpfr g y x rnd e else div_2ui_number (setraw same y x exp rnd) n rnd e

  pub div_2ui : Bool → Mpfr → Mpfr → ℕ → Rnd → Env → Out
  div_2ui same y x n rnd e = div_2ui_field x.exp same y x n rnd e

  mul_2ui_field : Exp → Out → ℕ → Rnd → Out
  mul_2ui_field nan s n rnd = s
  mul_2ui_field inf s n rnd = s
  mul_2ui_field zero_value s n rnd = s
  mul_2ui_field (num exp) s n rnd =
      let y = s.x in
      if ltb (as_unsigned (s.env.emax -ℤ exp)) n
      then overflow y rnd y.sign s.env
      else record s { x = record y { exp = num (exp +ℤ pos n) } }

  pub mul_2ui : Bool → Mpfr → Mpfr → ℕ → Rnd → Env → Out
  mul_2ui same y x n rnd e =
      let s = if same then record { x = y; inex = pos 0; env = e } else set_mpfr g y x rnd e in
      mul_2ui_field s.x.exp s n rnd
