-- ===== src/Machine.antt =====
-- Machine integers: `mpfr_set_ui_2exp` (src/set_ui_2exp.c), `mpfr_set_si_2exp` (src/set_si_2exp.c),
-- `mpfr_set_ui` (src/set_ui.c), `mpfr_set_si` (src/set_si.c), and the comparisons with such integers,
-- src/cmp_ui.c and src/cmp_si.c. The type `long` fits into a limb (`MPFR_LONG_WITHIN_LIMB`): an
-- `unsigned long` is a number below 2 ^ 64, a `long` an integer of absolute value 2 ^ 63 at most.
pub mod Equal
pub mod Rounded
mod Tests
use mpfr.Base.{
  ℕ, ◌+◌, ◌-◌, ◌/◌, List, [], ◌∷◌, ◌++◌, replicate, get_or, ltb, ◌==◌, ◌&&◌, if◌then◌else◌,
}
use mpfr.Base.{ℤ, pos, negsuc, neg_ℤ, ◌+ℤ◌, ◌-ℤ◌, ltb_ℤ, leb_ℤ, eqb_ℤ, pos_part, neg_part}
use mpfr.Words.{limb_bits, limb_highbit, shl}
use mpfr.Words.Longlong.{Longlong, count_leading_zeros}
use mpfr.Types.{
  Rnd, rndz, is_rndn, Sign, plus, minus, is_neg, sign_int, Exp, nan, inf, zero_value, num, Mpfr,
  Env, Out, ret, raise, flags_erange,
}
use mpfr.Exceptions.{emax_max, overflow, underflow, check_range}
use mpfr.Compare.{Answer, answer, tail_limbs, same_sign}
use mpfr.Next.{Mpn}
use mpfr.Round.{round_raw}

-- `SAFE_ABS`
abbrev pub absolute : ℤ → ℕ
absolute i = pos_part i + neg_part i

-- The sign of an integer that is not 0, and `si` of the comparison.
abbrev pub sign_of : ℤ → Sign
sign_of i = if ltb_ℤ i (pos 0) then minus else plus

-- `nbits`
pub limb_width : ⦃ll : Longlong⦄ → ℕ → ℕ
limb_width a = limb_bits - count_leading_zeros a

module _ ⦃ll : Longlong⦄ (g : Mpn) where
  -- What follows the test of 0 in both functions, with `a` the absolute value and `s` the sign.
  pub set_limb_2exp : Mpfr → Sign → ℕ → ℤ → Rnd → Env → Out
  set_limb_2exp x s a e rnd env =
      let xn = (x.prec - 1) / limb_bits in
      let limb = shl a (count_leading_zeros a) in
      let e' = e +ℤ pos (limb_width a) in
      let r = round_raw g (limb ∷ []) (limb_width a) (is_neg s) x.prec rnd in
      let y = record x { sign = s; exp = num e'; mant = replicate xn 0 ++ limb ∷ [] } in
      if ltb_ℤ e (env.emin -ℤ pos (limb_bits + 1))
      then underflow x (if is_rndn rnd then rndz else rnd) s env
      else if leb_ℤ env.emax e
      then overflow x rnd s env
      else if ltb x.prec (limb_width a)
      then if r.carry == 0
        then check_range (record y { mant = r.limbs }) r.inexp rnd env
        else check_range (record y { exp = num (e' +ℤ pos 1); mant = limb_highbit ∷ [] }) r.inexp
            rnd env
      else check_range y (pos 0) rnd env

  pub set_ui_2exp : Mpfr → ℕ → ℤ → Rnd → Env → Out
  set_ui_2exp x i e rnd env =
      let x' = record x { sign = plus } in
      if i == 0
      then ret (record x' { exp = zero_value }) (pos 0) env
      else set_limb_2exp x' plus i e rnd env

  pub set_si_2exp : Mpfr → ℤ → ℤ → Rnd → Env → Out
  set_si_2exp x i e rnd env =
      if eqb_ℤ i (pos 0)
      then ret (record x { exp = zero_value; sign = plus }) (pos 0) env
      else set_limb_2exp x (sign_of i) (absolute i) e rnd env

  pub set_ui : Mpfr → ℕ → Rnd → Env → Out
  set_ui x i rnd env = set_ui_2exp x i (pos 0) rnd env

  pub set_si : Mpfr → ℤ → Rnd → Env → Out
  set_si x i rnd env = set_si_2exp x i (pos 0) rnd env

-- Two numbers of one sign, the integer's absolute value being `a`. The cast `(int) (e - f)` is the
-- identity, since `f < e <= f + GMP_NUMB_BITS` where it stands.
pub cmp_limb_2exp : ⦃ll : Longlong⦄ → Mpfr → ℕ → ℤ → ℤ → ℤ → ℤ
cmp_limb_2exp b a f e s =
    let c = shl a (count_leading_zeros a) in
    let bn = (b.prec - 1) / limb_bits in
    if leb_ℤ e f
    then neg_ℤ s
    else if ltb_ℤ f (emax_max -ℤ pos limb_bits) && ltb_ℤ (f +ℤ pos limb_bits) e
    then s
    else if ltb_ℤ (pos (limb_width a)) (e -ℤ f)
    then s
    else if ltb_ℤ (e -ℤ f) (pos (limb_width a))
    then neg_ℤ s
    else if ltb c (get_or b.mant bn 0)
    then s
    else if ltb (get_or b.mant bn 0) c
    then neg_ℤ s
    else tail_limbs b.mant bn s

pub cmp_ui_field : ⦃ll : Longlong⦄ → Exp → Mpfr → ℕ → ℤ → Env → Answer
cmp_ui_field nan b i f e = answer (pos 0) (raise flags_erange e)
cmp_ui_field inf b i f e = answer (sign_int b.sign) e
cmp_ui_field zero_value b i f e = answer (if i == 0 then pos 0 else negsuc 0) e
cmp_ui_field (num be) b i f e =
    if is_neg b.sign
    then answer (negsuc 0) e
    else if i == 0
    then answer (pos 1) e
    else answer (cmp_limb_2exp b i f be (pos 1)) e

pub cmp_ui_2exp : ⦃ll : Longlong⦄ → Mpfr → ℕ → ℤ → Env → Answer
cmp_ui_2exp b i f e = cmp_ui_field b.exp b i f e

pub cmp_ui : ⦃ll : Longlong⦄ → Mpfr → ℕ → Env → Answer
cmp_ui b i e = cmp_ui_2exp b i (pos 0) e

pub cmp_si_field : ⦃ll : Longlong⦄ → Exp → Mpfr → ℤ → ℤ → Env → Answer
cmp_si_field nan b i f e = answer (pos 0) (raise flags_erange e)
cmp_si_field inf b i f e = answer (sign_int b.sign) e
cmp_si_field zero_value b i f e =
    answer (if eqb_ℤ i (pos 0) then pos 0 else neg_ℤ (sign_int (sign_of i))) e
cmp_si_field (num be) b i f e =
    if same_sign b.sign (sign_of i)
    then if eqb_ℤ i (pos 0)
      then answer (sign_int b.sign) e
      else answer (cmp_limb_2exp b (absolute i) f be (sign_int (sign_of i))) e
    else answer (sign_int b.sign) e

pub cmp_si_2exp : ⦃ll : Longlong⦄ → Mpfr → ℤ → ℤ → Env → Answer
cmp_si_2exp b i f e = cmp_si_field b.exp b i f e

pub cmp_si : ⦃ll : Longlong⦄ → Mpfr → ℤ → Env → Answer
cmp_si b i e = cmp_si_2exp b i (pos 0) e
