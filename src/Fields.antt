-- ===== src/Fields.antt =====
-- The functions that look at, or set, the fields of a number: src/isnan.c, src/isinf.c,
-- src/isnum.c, src/iszero.c, src/isregular.c, src/signbit.c, src/isinteger.c, src/odd_p.c,
-- src/set_exp.c, src/set_nan.c, src/set_inf.c and src/swap.c.
pub mod Integer
pub mod Odd
pub mod Range
mod Tests
use mpfr.Base.{
  ℕ, ◌-◌, ◌*◌, ◌/◌, ◌%◌, List, get_or, ◌==◌, ◌&&◌, leb, if◌then◌else◌, Bool, true, false, not,
  bit_and,
}
use mpfr.Base.{ℤ, pos, pos_part, leb_ℤ, ltb_ℤ}
use mpfr.Words.{limb_bits, limb_highbit, shl}
use mpfr.Types.{
  Sign, plus, minus, is_neg, Exp, nan, inf, zero_value, num, Mpfr, Env, prec2limbs, raise,
  flags_nan,
}
use mpfr.Extremes.{all_zero_below}

abbrev pub nan_p : Exp → Bool
nan_p nan = true
nan_p inf = false
nan_p zero_value = false
nan_p (num z) = false

abbrev pub inf_p : Exp → Bool
inf_p nan = false
inf_p inf = true
inf_p zero_value = false
inf_p (num z) = false

abbrev pub zero_p : Exp → Bool
zero_p nan = false
zero_p inf = false
zero_p zero_value = true
zero_p (num z) = false

-- `MPFR_IS_FP`
abbrev pub number_p : Exp → Bool
number_p x = not (nan_p x) && not (inf_p x)

-- `MPFR_IS_SINGULAR (x) == 0`
abbrev pub regular_p : Exp → Bool
regular_p nan = false
regular_p inf = false
regular_p zero_value = false
regular_p (num z) = true

abbrev pub signbit : Mpfr → Bool
signbit x = is_neg x.sign

-- The `int` result is 0 where the exponent is set, 1 where it is refused.
unfoldable pub set_exp : Mpfr → ℤ → Env → ℕ × Mpfr
set_exp x z e =
    if regular_p x.exp && leb_ℤ e.emin z && leb_ℤ z e.emax
    then (0, record x { exp = num z })
    else (1, x)

unfoldable pub set_nan : Mpfr → Env → Mpfr × Env
set_nan x e = (record x { exp = nan }, raise flags_nan e)

unfoldable pub set_inf : Mpfr → ℤ → Mpfr
set_inf x s = record x { exp = inf; sign = if leb_ℤ (pos 0) s then plus else minus }

-- The two structures exchange all fields.
unfoldable pub swap : Mpfr → Mpfr → Mpfr × Mpfr
swap u v = (
  record { prec = v.prec; sign = v.sign; exp = v.exp; mant = v.mant },
  record { prec = u.prec; sign = u.sign; exp = u.exp; mant = u.mant },
)

-- The limbs that hold the fractional part: the highest, shifted past its integer bits, and the
-- `xn` limbs below.
pub no_fraction : List ℕ → ℕ → ℕ → Bool
no_fraction xp xn r = if shl (get_or xp xn 0) r == 0 then all_zero_below xp xn else false

pub integer_field : Exp → Mpfr → Bool
integer_field nan x = false
integer_field inf x = false
integer_field zero_value x = true
integer_field (num expo) x =
    if leb_ℤ expo (pos 0)
    then false
    else if leb_ℤ (pos x.prec) expo
    then true
    else no_fraction x.mant ((x.prec - 1) / limb_bits - pos_part expo / limb_bits)
        (pos_part expo % limb_bits)

pub integer_p : Mpfr → Bool
integer_p x = integer_field x.exp x

-- `expo` is the exponent of `y`, which is not singular.
pub odd_p : ℤ → Mpfr → Bool
odd_p expo y =
    let prec = prec2limbs y.prec * limb_bits - pos_part expo in
    let yn = prec / limb_bits in
    let t = get_or y.mant yn 0 in
    let r = pos_part expo % limb_bits in
    if leb_ℤ expo (pos 0)
    then false
    else if ltb_ℤ (pos y.prec) expo
    then false
    else if (if r == 0 then bit_and t 1 == 0 else not (shl t (r - 1) == limb_highbit))
    then false
    else all_zero_below y.mant yn
