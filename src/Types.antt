-- ===== src/Types.antt =====
-- The data of the library (src/mpfr.h, src/mpfr-impl.h): rounding modes, signs, the exponent field,
-- the `mpfr_t` structure, and the thread's global state.
mod Flags
pub use Flags.*
use mpfr.Base.{ℕ, ◌+◌, ◌-◌, ◌/◌, ◌^◌, ℤ, pos, negsuc, neg_ℤ, Bool, true, false, not, List, eqb_ℤ}
use mpfr.Base.{if◌then◌else◌, bit_or, get_or}
use mpfr.Words.{limb_bits}

-- `mpfr_rnd_t`
pub data Rnd : Type 0 where
  rndn rndz rndu rndd rnda rndf rndna : Rnd

-- `MPFR_IS_LIKE_RNDZ (rnd, neg)`: RNDZ, or RNDU (2) with `neg` 1, or RNDD (3) with `neg` 0.
abbrev pub is_like_rndz : Rnd → Bool → Bool
is_like_rndz rndz neg = true
is_like_rndz rndu neg = neg
is_like_rndz rndd neg = not neg
is_like_rndz rndn neg = false
is_like_rndz rnda neg = false
is_like_rndz rndf neg = false
is_like_rndz rndna neg = false

-- `MPFR_IS_LIKE_RNDA (rnd, neg)`
abbrev pub is_like_rnda : Rnd → Bool → Bool
is_like_rnda rnda neg = true
is_like_rnda rndu neg = not neg
is_like_rnda rndd neg = neg
is_like_rnda rndn neg = false
is_like_rnda rndz neg = false
is_like_rnda rndf neg = false
is_like_rnda rndna neg = false

-- `mpfr_sign_t`, which is 1 or -1.
pub data Sign : Type 0 where
  plus minus : Sign

abbrev pub is_neg : Sign → Bool
is_neg plus = false
is_neg minus = true

abbrev pub is_rndn : Rnd → Bool
is_rndn rndn = true
is_rndn rndz = false
is_rndn rndu = false
is_rndn rndd = false
is_rndn rnda = false
is_rndn rndf = false
is_rndn rndna = false

abbrev pub is_rndf : Rnd → Bool
is_rndf rndf = true
is_rndf rndn = false
is_rndf rndz = false
is_rndf rndu = false
is_rndf rndd = false
is_rndf rnda = false
is_rndf rndna = false

abbrev pub is_rndd : Rnd → Bool
is_rndd rndd = true
is_rndd rndn = false
is_rndd rndz = false
is_rndd rndu = false
is_rndd rnda = false
is_rndd rndf = false
is_rndd rndna = false

abbrev pub is_rndna : Rnd → Bool
is_rndna rndna = true
is_rndna rndn = false
is_rndna rndz = false
is_rndna rndu = false
is_rndna rndd = false
is_rndna rnda = false
is_rndna rndf = false

abbrev pub opposite : Sign → Sign
opposite plus = minus
opposite minus = plus

-- `MPFR_MULT_SIGN`
abbrev pub mult_sign : Sign → Sign → Sign
mult_sign plus t = t
mult_sign minus t = opposite t

-- The sign as the `int` that it is.
abbrev pub sign_int : Sign → ℤ
sign_int plus = pos 1
sign_int minus = negsuc 0

-- The `_mpfr_exp` field: three reserved values tag the singular numbers, any other is the exponent.
pub data Exp : Type 0 where
  nan inf zero_value : Exp
  num : ℤ → Exp

-- `MPFR_GET_EXP`. The reserved values are the lowest of the type; the callers exclude them.
abbrev pub exp_value : Exp → ℤ
exp_value (num e) = e
exp_value zero_value = negsuc (2 ^ 63 - 2)
exp_value nan = negsuc (2 ^ 63 - 3)
exp_value inf = negsuc (2 ^ 63 - 4)

-- `__mpfr_struct`. `mant` holds the limbs of the significand, the least significant one first.
pub record Mpfr : Type 0 where
  pub prec : ℕ
  pub sign : Sign
  pub exp : Exp
  pub mant : List ℕ

-- `MPFR_PREC2LIMBS`
abbrev pub prec2limbs : ℕ → ℕ
prec2limbs p = (p - 1) / limb_bits + 1

-- `__gmpfr_flags`, `__gmpfr_emin` and `__gmpfr_emax`.
pub record Env : Type 0 where
  pub flags : ℕ
  pub emin : ℤ
  pub emax : ℤ

-- What a function that sets `x` leaves: `x`, its ternary value, and the global state.
pub record Out : Type 0 where
  pub x : Mpfr
  pub inex : ℤ
  pub env : Env

-- `__gmpfr_flags |= mask`
abbrev pub raise : ℕ → Env → Env
raise mask e = record e { flags = bit_or e.flags mask }

-- `MPFR_RET (i)`: a nonzero ternary value raises the inexact flag.
abbrev pub ret : Mpfr → ℤ → Env → Out
ret x i e =
    if eqb_ℤ i (pos 0)
    then record { x = x; inex = pos 0; env = e }
    else record { x = x; inex = i; env = raise flags_inexact e }

-- `MPFR_RET_NAN`
abbrev pub ret_nan : Mpfr → Env → Out
ret_nan x e = record { x = x; inex = pos 0; env = raise flags_nan e }
