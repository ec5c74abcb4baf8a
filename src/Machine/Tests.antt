-- ===== src/Machine/Tests.antt =====
-- Runs of the functions on machine integers, and the theorems at concrete numbers.
use mpfr.Base.{◌+◌, ◌*◌, ◌^◌, ◌≡◌, refl, arith, pos, negsuc, ◌+ℤ◌, ◌-ℤ◌, [], ◌∷◌}
use mpfr.Words.Reference.{reference, leading_zeros}
use mpfr.Types.{rndn, rndz, plus, minus, num, inf, Mpfr, Env}
use mpfr.Compare.{answer, cmp, tail_limbs}
use mpfr.Next.Ripple.{ripple, ripple-IsMpn}
use mpfr.Machine.{
  set_ui_2exp, set_si_2exp, cmp_ui_2exp, cmp_si_2exp, cmp_si_field, cmp_limb_2exp, limb_width,
}
use mpfr.Machine.Rounded.{IsConverted, set_si_2exp-IsConverted}
use mpfr.Machine.Equal.{extended_range, cmp_ui_2exp-cmp, cmp_si_2exp-cmp}

abbrev env : Env
env = record { flags = 0; emin = negsuc 99; emax = pos 100 }

-- -6.5
abbrev number : Mpfr
number = record {
  prec = 70;
  sign = minus;
  exp = num (pos 3);
  mant = 0 ∷ (2 ^ 63 + 2 ^ 62 + 2 ^ 60) ∷ [];
}

abbrev one_limb : Mpfr
one_limb = record { prec = 64; sign = minus; exp = inf; mant = [] }

-- -6.5 is less than -6, and greater than -7.
above : cmp_si_2exp number (negsuc 5) (pos 0) env ≡ answer (negsuc 0) env
unfolding cmp_si_2exp cmp_si_field cmp_limb_2exp limb_width leading_zeros tail_limbs ◌+ℤ◌ ◌-ℤ◌
above = refl

below : cmp_si_2exp number (negsuc 6) (pos 0) env ≡ answer (pos 1) env
unfolding cmp_si_2exp cmp_si_field cmp_limb_2exp limb_width leading_zeros tail_limbs ◌+ℤ◌ ◌-ℤ◌
below = refl

cmp_ui_2exp-cmp_example :
    cmp_ui_2exp number 13 (negsuc 0) env
    ≡ cmp number (set_ui_2exp ripple one_limb 13 (negsuc 0) rndz (extended_range env)).x env
unfolding ◌+ℤ◌
cmp_ui_2exp-cmp_example =
    cmp_ui_2exp-cmp ripple number one_limb 13 (negsuc 0) env refl (omega arith) (omega arith)
      (omega arith)

cmp_si_2exp-cmp_example :
    cmp_si_2exp number (negsuc 12) (negsuc 0) env
    ≡ cmp number
        (set_si_2exp ripple one_limb (negsuc 12) (negsuc 0) rndz (extended_range env)).x
        env
unfolding ◌+ℤ◌
cmp_si_2exp-cmp_example =
    cmp_si_2exp-cmp ripple number one_limb (negsuc 12) (negsuc 0) env refl (omega arith)
      (omega arith) (omega arith)

abbrev short : Mpfr
short = record { prec = 2; sign = plus; exp = inf; mant = [] }

set_si_2exp-IsConverted_example :
    IsConverted rndn minus 2
      (7 * 2 ^ leading_zeros 63 7)
      62
      (pos 0 +ℤ pos (limb_width 7))
      env
      (set_si_2exp ripple short (negsuc 6) (pos 0) rndn env)
unfolding ◌+ℤ◌ limb_width leading_zeros
set_si_2exp-IsConverted_example =
    set_si_2exp-IsConverted ripple short (negsuc 6) (pos 0) rndn env ripple-IsMpn (cc) (omega arith)
      (omega arith) (omega arith) (omega arith) (omega arith)
