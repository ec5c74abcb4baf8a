-- ===== src/Special/Tests.antt =====
-- The theorems on the dispatch, with the operations on one limb.
use mpfr.Base.{◌-◌, ◌*◌, ◌^◌, ◌≡◌, ◌≢◌, refl, [], ◌∷◌, pos, negsuc, arith, ◌-ℤ◌}
use mpfr.Words.Reference.{reference}
use mpfr.Types.{Rnd, rndn, rndd, rndna, plus, num, zero_value, Mpfr, Env, Out, ret}
use mpfr.Rounding.Limb.{IsLimb}
use mpfr.Rounding.Correct.{IsCorrect}
use mpfr.Add.Single.{scaled_sum, low_exponent}
use mpfr.Sub.Exact.{IsDifferenceOf}
use mpfr.Next.Ripple.{ripple}
use mpfr.Next.Symmetry.{mirror}
use mpfr.Set.Aliases.{neg-set_mpfr}
use mpfr.Special.{Kernel, add, sub}
use mpfr.Special.Signs.{sub-add}
use mpfr.Special.Limb.{Longer, kernel, add_one_limb, sub_one_limb}

abbrev copy : Mpfr → Mpfr → Mpfr → Rnd → Env → Out
copy a b c rnd e = ret b (pos 0) e

abbrev longer : Longer
longer = record { add1sp = copy; add1 = copy; sub1sp = copy; sub1 = copy }

abbrev one_limb : Kernel
one_limb = kernel ripple longer

abbrev env : Env
env = record { flags = 0; emin = negsuc 99; emax = pos 100 }

abbrev number : Mpfr
number = record { prec = 53; sign = plus; exp = num (pos 2); mant = (3 * 2 ^ 62) ∷ [] }

abbrev zero_number : Mpfr
zero_number = record number { exp = zero_value }

sub-add_example :
    sub one_limb number zero_number zero_number rndd env
    ≡ add one_limb number zero_number (mirror zero_number) rndd env
sub-add_example =
    sub-add one_limb (neg-set_mpfr ripple) number zero_number zero_number rndd env refl

abbrev small : Mpfr
small = record { prec = 53; sign = plus; exp = num (pos 1); mant = (2 ^ 63) ∷ [] }

three-IsLimb : IsLimb (3 * 2 ^ 62) (3 * 2 ^ 51) (64 - 53)
three-IsLimb = omega arith

one-IsLimb : IsLimb (2 ^ 63) (2 ^ 52) (64 - 53)
one-IsLimb = omega arith

nearest_supported : rndn ≢ rndna
nearest_supported = cc

add_one_limb_example :
    IsCorrect number rndn
      (scaled_sum (pos 2) (pos 1) (3 * 2 ^ 62) (2 ^ 63))
      (low_exponent (pos 2) (pos 1))
      (64 - 53)
      env
      (add one_limb number number small rndn env)
add_one_limb_example =
    add_one_limb ripple longer number number small rndn 53 env (pos 2) (pos 1) (3 * 2 ^ 62) (2 ^ 63)
      (3 * 2 ^ 51) (2 ^ 52) nearest_supported (omega arith) (omega arith) refl refl refl refl refl
      refl refl refl three-IsLimb one-IsLimb

sub_one_limb_example :
    IsDifferenceOf number plus rndn
      (pos 2)
      (pos 1)
      (3 * 2 ^ 62)
      (2 ^ 63)
      (64 - 53)
      env
      (sub one_limb number number small rndn env)
unfolding ◌-ℤ◌
sub_one_limb_example =
    sub_one_limb ripple longer number number small rndn 53 env (pos 2) (pos 1) (3 * 2 ^ 62) (2 ^ 63)
      (3 * 2 ^ 51) (2 ^ 52) nearest_supported (omega arith) (omega arith) refl refl refl refl refl
      refl refl refl three-IsLimb one-IsLimb (omega arith) (omega arith) (omega arith) (omega arith)
      (omega arith)
