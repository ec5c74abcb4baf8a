-- ===== src/Special.antt =====
-- The operations that first decide on singular operands: `mpfr_add` (src/add.c), `mpfr_sub`
-- (src/sub.c), `mpfr_min` and `mpfr_max` (src/minmax.c). The operations that they hand regular
-- operands to are an interface. The extended numbers of src/ubf.c are left out.
pub mod Signs
pub mod Extrema
pub mod Limb
mod Tests
use mpfr.Base.{ℕ, ◌==◌, ◌&&◌, not, if◌then◌else◌, Bool, true, false, ℤ, pos, neg_ℤ, ltb_ℤ, leb_ℤ}
use mpfr.Types.{
  is_rndd, Rnd, rndn, rndz, rndu, rndd, rnda, rndf, rndna, Sign, plus, minus, is_neg, opposite,
}
use mpfr.Types.{Exp, nan, inf, zero_value, num, Mpfr, Env, Out, ret, ret_nan}
use mpfr.Compare.{same_sign, cmp, is_nan}
use mpfr.Fields.{zero_p}

-- `mpfr_set`, `mpfr_neg`, and the additions and subtractions of regular numbers.
pub record Kernel : Type 0 where
  pub set : Mpfr → Mpfr → Rnd → Env → Out
  pub neg : Mpfr → Mpfr → Rnd → Env → Out
  pub add1sp : Mpfr → Mpfr → Mpfr → Rnd → Env → Out
  pub add1 : Mpfr → Mpfr → Mpfr → Rnd → Env → Out
  pub sub1sp : Mpfr → Mpfr → Mpfr → Rnd → Env → Out
  pub sub1 : Mpfr → Mpfr → Mpfr → Rnd → Env → Out

-- `MPFR_INVERT_RND`
abbrev pub invert_rnd : Rnd → Rnd
invert_rnd rndu = rndd
invert_rnd rndd = rndu
invert_rnd rndn = rndn
invert_rnd rndz = rndz
invert_rnd rnda = rnda
invert_rnd rndf = rndf
invert_rnd rndna = rndna

-- The sign of a sum of two zeros.
pub zero_sum_sign : Rnd → Sign → Sign → Sign
zero_sum_sign rnd b c =
    if is_rndd rnd
    then if not (is_neg b) && not (is_neg c) then plus else minus
    else if is_neg b && is_neg c
    then minus
    else plus

-- The sign of a difference of two zeros.
pub zero_difference_sign : Rnd → Sign → Sign → Sign
zero_difference_sign rnd b c =
    if is_rndd rnd
    then if not (is_neg b) && is_neg c then plus else minus
    else if is_neg b && not (is_neg c)
    then minus
    else plus

abbrev pub same_prec : Mpfr → Mpfr → Mpfr → Bool
same_prec a b c = a.prec == b.prec && b.prec == c.prec

-- `MPFR_CHANGE_SIGN (a); return -inexact;`
abbrev pub negated : Out → Out
negated r = record r { x = record r.x { sign = opposite r.x.sign }; inex = neg_ℤ r.inex }

abbrev pub exact_inf : Mpfr → Sign → Env → Out
exact_inf a s e = ret (record a { exp = inf; sign = s }) (pos 0) e

abbrev pub exact_zero : Mpfr → Sign → Env → Out
exact_zero a s e = ret (record a { exp = zero_value; sign = s }) (pos 0) e

abbrev pub invalid : Mpfr → Env → Out
invalid a e = ret_nan (record a { exp = nan }) e

module _ (k : Kernel) where
  pub add_regular : ℤ → ℤ → Mpfr → Mpfr → Mpfr → Rnd → Env → Out
  add_regular bx cx a b c rnd e =
      if not (same_sign b.sign c.sign)
      then if same_prec a b c then k.sub1sp a b c rnd e else k.sub1 a b c rnd e
      else if same_prec a b c
      then k.add1sp a b c rnd e
      else if ltb_ℤ bx cx
      then k.add1 a c b rnd e
      else k.add1 a b c rnd e

  pub add_field : Exp → Exp → Mpfr → Mpfr → Mpfr → Rnd → Env → Out
  add_field nan y a b c rnd e = invalid a e
  add_field inf nan a b c rnd e = invalid a e
  add_field inf inf a b c rnd e =
      if same_sign b.sign c.sign then exact_inf a b.sign e else invalid a e
  add_field inf zero_value a b c rnd e = exact_inf a b.sign e
  add_field inf (num cx) a b c rnd e = exact_inf a b.sign e
  add_field zero_value nan a b c rnd e = invalid a e
  add_field zero_value inf a b c rnd e = exact_inf a c.sign e
  add_field zero_value zero_value a b c rnd e = exact_zero a (zero_sum_sign rnd b.sign c.sign) e
  add_field zero_value (num cx) a b c rnd e = k.set a c rnd e
  add_field (num bx) nan a b c rnd e = invalid a e
  add_field (num bx) inf a b c rnd e = exact_inf a c.sign e
  add_field (num bx) zero_value a b c rnd e = k.set a b rnd e
  add_field (num bx) (num cx) a b c rnd e = add_regular bx cx a b c rnd e

  pub add : Mpfr → Mpfr → Mpfr → Rnd → Env → Out
  add a b c rnd e = add_field b.exp c.exp a b c rnd e

  pub sub_regular : ℤ → ℤ → Mpfr → Mpfr → Mpfr → Rnd → Env → Out
  sub_regular bx cx a b c rnd e =
      if same_sign b.sign c.sign
      then if same_prec a b c then k.sub1sp a b c rnd e else k.sub1 a b c rnd e
      else if ltb_ℤ bx cx
      then if same_prec a b c
        then negated (k.add1sp a c b (invert_rnd rnd) e)
        else negated (k.add1 a c b (invert_rnd rnd) e)
      else if same_prec a b c
      then k.add1sp a b c rnd e
      else k.add1 a b c rnd e

  pub sub_field : Exp → Exp → Mpfr → Mpfr → Mpfr → Rnd → Env → Out
  sub_field nan y a b c rnd e = invalid a e
  sub_field inf nan a b c rnd e = invalid a e
  sub_field inf inf a b c rnd e =
      if same_sign b.sign c.sign then invalid a e else exact_inf a b.sign e
  sub_field inf zero_value a b c rnd e = exact_inf a b.sign e
  sub_field inf (num cx) a b c rnd e = exact_inf a b.sign e
  sub_field zero_value nan a b c rnd e = invalid a e
  sub_field zero_value inf a b c rnd e = exact_inf a (opposite c.sign) e
  sub_field zero_value zero_value a b c rnd e =
      exact_zero a (zero_difference_sign rnd b.sign c.sign) e
  sub_field zero_value (num cx) a b c rnd e = k.neg a c rnd e
  sub_field (num bx) nan a b c rnd e = invalid a e
  sub_field (num bx) inf a b c rnd e = exact_inf a (opposite c.sign) e
  sub_field (num bx) zero_value a b c rnd e = k.set a b rnd e
  sub_field (num bx) (num cx) a b c rnd e = sub_regular bx cx a b c rnd e

  pub sub : Mpfr → Mpfr → Mpfr → Rnd → Env → Out
  sub a b c rnd e = sub_field b.exp c.exp a b c rnd e

  pub min : Mpfr → Mpfr → Mpfr → Rnd → Env → Out
  min z x y rnd e =
      if is_nan x.exp && is_nan y.exp
      then invalid z e
      else if is_nan x.exp
      then k.set z y rnd e
      else if is_nan y.exp
      then k.set z x rnd e
      else if zero_p x.exp && zero_p y.exp
      then if is_neg x.sign then k.set z x rnd e else k.set z y rnd e
      else if leb_ℤ (cmp x y e).value (pos 0)
      then k.set z x rnd (cmp x y e).env
      else k.set z y rnd (cmp x y e).env

  pub max : Mpfr → Mpfr → Mpfr → Rnd → Env → Out
  max z x y rnd e =
      if is_nan x.exp && is_nan y.exp
      then invalid z e
      else if is_nan x.exp
      then k.set z y rnd e
      else if is_nan y.exp
      then k.set z x rnd e
      else if zero_p x.exp && zero_p y.exp
      then if is_neg x.sign then k.set z y rnd e else k.set z x rnd e
      else if leb_ℤ (cmp x y e).value (pos 0)
      then k.set z y rnd (cmp x y e).env
      else k.set z x rnd (cmp x y e).env
