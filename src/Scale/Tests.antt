-- ===== src/Scale/Tests.antt =====
-- Runs of the multiplications by powers of two, and the theorems at concrete numbers.
use mpfr.Base.{
  zero, suc, ◌+◌, ◌-◌, ◌*◌, ◌^◌, ◌≡◌, refl, arith, pos, negsuc, neg_ℤ, [], ◌∷◌, true, false, ◌&&◌,
  if◌then◌else◌, ◌+ℤ◌, ◌-ℤ◌, ltb_ℤ,
}
use mpfr.Words.{limb_mask}
use mpfr.Words.Value.{low_value, IsLimbs}
use mpfr.Types.{rndn, rndz, is_rndn, plus, minus, num, inf, Mpfr, Env, ret, prec2limbs}
use mpfr.Exceptions.{emax_max, overflow, underflow}
use mpfr.Compare.Magnitude.{IsRegular}
use mpfr.Next.Ripple.{ripple, ripple-IsMpn}
use mpfr.Scale.{
  Raw, setraw, setraw_round, store_setraw, mul_2si, mul_2si_field, mul_2si_number, div_2si, div_2ui,
  mul_2ui,
}
use mpfr.Set.{set4, sticky_down, mask_first, full_sticky, inner_bits, round_bits, rndraw_verdict}
use mpfr.Scale.Copy.{delivered, setraw-set4}
use mpfr.Scale.Correct.{at_most_one, mul_2si_lem}
use mpfr.Scale.Settled.{scaling-mul_2si, scaling-IsSettled}
use mpfr.Exceptions.Range.{IsSettled}
use mpfr.Scale.Corner.{mul_2si_corner}

-- The largest significand of 64 bits.
abbrev source : Mpfr
source = record { prec = 64; sign = plus; exp = num (pos 2); mant = (2 ^ 64 - 1) ∷ [] }

abbrev target : Mpfr
target = record { prec = 53; sign = minus; exp = inf; mant = [] }

abbrev env : Env
env = record { flags = 0; emin = negsuc 99; emax = pos 100 }

source-IsLimbs : IsLimbs source.mant
source-IsLimbs zero = omega arith
source-IsLimbs (suc i) = omega arith

source-IsRegular : IsRegular source (pos 2)
source-IsRegular = record { exponent = refl; limbs = source-IsLimbs; normalized = omega arith }

-- In place, 3.99 times 2 ^ 97 is in the range, and 2 ^ 99 times it is not.
in_place :
    mul_2si ripple true source source (pos 97) rndz env
    ≡ record { x = record source { exp = num (pos 99) }; inex = pos 0; env = env }
unfolding mul_2si mul_2si_field mul_2si_number setraw ◌+ℤ◌ ◌-ℤ◌
in_place = refl

setraw-set4_example :
    set4 ripple target source rndn plus env
    ≡ delivered (setraw ripple false target source (pos 2) rndn) env
unfolding ◌+ℤ◌
setraw-set4_example = setraw-set4 ripple target source rndn env (pos 2) refl (omega arith)

abbrev half_least : Raw
half_least = setraw ripple false target source (pos 2) rndn

mul_2si_lem_example : mul_2si ripple false target source (negsuc 101) rndn env ≡ (
    if ltb_ℤ (half_least.exp +ℤ negsuc 101) (negsuc 99)
    then underflow half_least.x
        (if is_rndn rndn
            && at_most_one
                (low_value source.mant (prec2limbs 64))
                (2 ^ (64 * prec2limbs 64))
                ((pos 2 +ℤ negsuc 101) -ℤ (negsuc 99 -ℤ pos 2))
          then rndz
          else rndn)
        half_least.x.sign
        env
    else if ltb_ℤ (pos 100) (half_least.exp +ℤ negsuc 101)
    then overflow half_least.x rndn half_least.x.sign env
    else ret (record half_least.x { exp = num (half_least.exp +ℤ negsuc 101) }) half_least.inex env)
mul_2si_lem_example =
    mul_2si_lem ripple false target source (negsuc 101) rndn env (pos 2) ripple-IsMpn (cc)
      source-IsRegular refl (omega arith) (omega arith) (omega arith) (omega arith) (omega arith)

scaling-mul_2si_example :
    (mul_2ui ripple false target source 98 rndn env
      ≡ mul_2si ripple false target source (pos 98) rndn env)
    × (div_2ui ripple false target source 98 rndn env
        ≡ mul_2si ripple false target source (neg_ℤ (pos 98)) rndn env)
    × (div_2si ripple false target source (pos 200) rndn env
        ≡ mul_2si ripple false target source (neg_ℤ (pos 200)) rndn env)
unfolding ◌+ℤ◌
scaling-mul_2si_example =
    scaling-mul_2si ripple false target source (pos 200) 98 rndn env (pos 2) ripple-IsMpn (cc) refl
      (omega arith) (omega arith) (omega arith) (omega arith) (omega arith)

scaling-IsSettled_example :
    IsSettled env (mul_2si ripple false target source (pos 200) rndn env)
    × IsSettled env (div_2si ripple false target source (pos 200) rndn env)
    × IsSettled env (mul_2ui ripple false target source 98 rndn env)
    × IsSettled env (div_2ui ripple false target source 98 rndn env)
unfolding ◌+ℤ◌
scaling-IsSettled_example =
    scaling-IsSettled ripple false target source (pos 200) 98 rndn env (pos 2) ripple-IsMpn (cc)
      refl (omega arith) (omega arith) (omega arith) (omega arith)

abbrev largest : Env
largest = record { flags = 0; emin = negsuc 99; emax = emax_max }

abbrev huge : Mpfr
huge = record source { exp = num emax_max }

huge-IsRegular : IsRegular huge emax_max
huge-IsRegular = record { exponent = refl; limbs = source-IsLimbs; normalized = omega arith }

abbrev rounded : Raw
rounded = setraw ripple false target huge emax_max rndn

carries : rounded.exp ≡ emax_max +ℤ pos 1
unfolding setraw setraw_round store_setraw ◌+ℤ◌ sticky_down mask_first round_bits inner_bits
    full_sticky rndraw_verdict limb_mask
carries = refl

least : emax_max +ℤ pos 1 +ℤ neg_ℤ (pos (2 ^ 62 + 100)) ≡ negsuc 99
unfolding ◌+ℤ◌
least = refl

mul_2si_corner_example :
    (mul_2si ripple false target huge (neg_ℤ (pos (2 ^ 62 + 100))) rndn largest
      ≡ underflow rounded.x rndz rounded.x.sign largest)
    × (div_2ui ripple false target huge (2 ^ 62 + 100) rndn largest
        ≡ ret (record rounded.x { exp = num (negsuc 99) }) rounded.inex largest)
mul_2si_corner_example =
    mul_2si_corner ripple target huge (2 ^ 62 + 100) largest ripple-IsMpn huge-IsRegular refl
      (omega arith) (omega arith) (omega arith) refl carries least
