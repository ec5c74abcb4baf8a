-- ===== src/Exceptions.antt =====
-- The global exception state (src/exceptions.c): flags, exponent range, overflow and underflow, and
-- the range check that ends a function.
pub mod FlagLaws
pub mod Range
mod Tests
use mpfr.Base.{
  ℕ, ◌+◌, ◌-◌, ◌^◌, ℤ, pos, negsuc, neg_ℤ, ◌+ℤ◌, ltb_ℤ, leb_ℤ, eqb_ℤ, Bool, true, false,
}
use mpfr.Base.{◌&&◌, ◌||◌, not, if◌then◌else◌, bit_and, bit_or, bit_xor}
use mpfr.Types.{Rnd, rndz, is_like_rndz, is_rndn, Sign, is_neg, sign_int, nan, inf, zero_value, num}
use mpfr.Types.{Exp, Mpfr, Env, Out, raise, ret, flags_underflow, flags_overflow, flags_nan}
use mpfr.Types.{flags_inexact, flags_erange, flags_divby0, flags_all}
use mpfr.Extremes.{setmin, setmax, powerof2_raw}

-- `MPFR_EXP_INVALID` for a 64-bit exponent, and the bounds that it gives.
abbrev pub exp_invalid : ℕ
exp_invalid = 2 ^ 62

abbrev pub emin_min : ℤ
emin_min = negsuc (exp_invalid - 2)

abbrev pub emin_max : ℤ
emin_max = pos (exp_invalid - 1)

abbrev pub emax_min : ℤ
emax_min = negsuc (exp_invalid - 2)

abbrev pub emax_max : ℤ
emax_max = pos (exp_invalid - 1)

-- The `int` result is 0 on success, 1 where the bound is refused.
unfoldable pub set_emin : ℤ → Env → ℕ × Env
set_emin exponent e =
    if leb_ℤ emin_min exponent && leb_ℤ exponent emin_max
    then (0, record e { emin = exponent })
    else (1, e)

unfoldable pub set_emax : ℤ → Env → ℕ × Env
set_emax exponent e =
    if leb_ℤ emax_min exponent && leb_ℤ exponent emax_max
    then (0, record e { emax = exponent })
    else (1, e)

unfoldable pub flags_clear : ℕ → Env → Env
flags_clear mask e = record e { flags = bit_and e.flags (bit_xor flags_all mask) }

unfoldable pub flags_set : ℕ → Env → Env
flags_set mask e = record e { flags = bit_or e.flags mask }

unfoldable pub flags_test : ℕ → Env → ℕ
flags_test mask e = bit_and e.flags mask

unfoldable pub flags_save : Env → ℕ
flags_save e = e.flags

unfoldable pub flags_restore : ℕ → ℕ → Env → Env
flags_restore saved mask e = record e {
  flags = bit_or (bit_and e.flags (bit_xor flags_all mask)) (bit_and saved mask);
}

unfoldable pub clear_flags : Env → Env
clear_flags e = record e { flags = 0 }

-- The six flags have a setter, a clearer and a test each.
pub data Flag : Type 0 where
  underflow_flag overflow_flag nan_flag inexact_flag erange_flag divby0_flag : Flag

abbrev pub flag_mask : Flag → ℕ
flag_mask underflow_flag = flags_underflow
flag_mask overflow_flag = flags_overflow
flag_mask nan_flag = flags_nan
flag_mask inexact_flag = flags_inexact
flag_mask erange_flag = flags_erange
flag_mask divby0_flag = flags_divby0

-- `mpfr_clear_underflow` and its five kin
unfoldable pub clear_flag : Flag → Env → Env
clear_flag f e = record e { flags = bit_and e.flags (bit_xor flags_all (flag_mask f)) }

-- `mpfr_set_underflow` and its five kin
unfoldable pub set_flag : Flag → Env → Env
set_flag f e = record e { flags = bit_or e.flags (flag_mask f) }

-- `mpfr_underflow_p` and its five kin
unfoldable pub flag_p : Flag → Env → ℕ
flag_p f e = bit_and e.flags (flag_mask f)

-- `sign > 0 ? inex : -inex`
abbrev pub with_sign : Sign → ℤ → ℤ
with_sign s i = if is_neg s then neg_ℤ i else i

unfoldable pub underflow : Mpfr → Rnd → Sign → Env → Out
underflow x rnd s e =
    let e' = raise (bit_or flags_inexact flags_underflow) e in
    if is_like_rndz rnd (is_neg s)
    then record {
      x = record x { exp = zero_value; sign = s };
      inex = with_sign s (negsuc 0);
      env = e';
    }
    else record { x = record (setmin x e.emin) { sign = s }; inex = with_sign s (pos 1); env = e' }

unfoldable pub overflow : Mpfr → Rnd → Sign → Env → Out
overflow x rnd s e =
    let e' = raise (bit_or flags_inexact flags_overflow) e in
    if is_like_rndz rnd (is_neg s)
    then record {
      x = record (setmax x e.emax) { sign = s };
      inex = with_sign s (negsuc 0);
      env = e';
    }
    else record { x = record x { exp = inf; sign = s }; inex = with_sign s (pos 1); env = e' }

-- The rounding mode with which `check_range` calls `underflow`.
abbrev pub underflow_rnd : Mpfr → ℤ → ℤ → Rnd → Env → Rnd
underflow_rnd x exp t rnd e =
    if is_rndn rnd
      && (ltb_ℤ (exp +ℤ pos 1) e.emin
          || (powerof2_raw x && (if is_neg x.sign then leb_ℤ t (pos 0) else leb_ℤ (pos 0) t)))
    then rndz
    else rnd

-- `mpfr_check_range`, by the exponent field of `x`.
pub check_exp : Exp → Mpfr → ℤ → Rnd → Env → Out
check_exp (num exp) x t rnd e =
    if ltb_ℤ exp e.emin
    then underflow x (underflow_rnd x exp t rnd e) x.sign e
    else if ltb_ℤ e.emax exp
    then overflow x rnd x.sign e
    else ret x t e
check_exp inf x t rnd e = if eqb_ℤ t (pos 0) then ret x t e else ret x t (raise flags_overflow e)
check_exp nan x t rnd e = ret x t e
check_exp zero_value x t rnd e = ret x t e

unfoldable pub check_range : Mpfr → ℤ → Rnd → Env → Out
unfolding check_exp
check_range x t rnd e = check_exp x.exp x t rnd e
