-- ===== src/Exceptions/Tests.antt =====
-- The theorems on the exception state at concrete states.
use mpfr.Base.{◌≡◌, refl, arith, pos, negsuc, if◌then◌else◌, ◌==◌, [], ◌∷◌, ◌^◌}
use mpfr.Words.{bit_at}
use mpfr.Types.{rndn, plus, num, inf, Mpfr, Env}
use mpfr.Exceptions.{flags_restore, flags_clear, flags_set, flags_test, check_range, overflow}
use mpfr.Exceptions.FlagLaws.{flags_lem}
use mpfr.Exceptions.Range.{IsSettled, check_range-IsSettled}

abbrev env : Env
env = record { flags = 8; emin = negsuc 99; emax = pos 100 }

abbrev huge : Mpfr
huge = record { prec = 53; sign = plus; exp = num (pos 101); mant = (2 ^ 63) ∷ [] }

huge_overflows :
    check_range huge (pos 0) rndn env
    ≡ record { x = record huge { exp = inf }; inex = pos 1; env = record env { flags = 10 } }
unfolding check_range overflow
huge_overflows = refl

flags_lem_example :
    (bit_at 3 (flags_clear 9 env).flags ≡ (if bit_at 3 9 == 0 then bit_at 3 8 else 0))
    × (bit_at 3 (flags_set 9 env).flags ≡ (if bit_at 3 9 == 0 then bit_at 3 8 else 1))
    × (bit_at 3 (flags_test 9 env) ≡ (if bit_at 3 9 == 0 then 0 else bit_at 3 8))
    × (bit_at 3 (flags_restore 0 9 env).flags
        ≡ (if bit_at 3 9 == 0 then bit_at 3 8 else bit_at 3 0))
flags_lem_example = flags_lem 0 9 3 env (omega arith)

check_range-IsSettled_example : IsSettled env (check_range huge (pos 0) rndn env)
check_range-IsSettled_example = check_range-IsSettled huge (pos 0) rndn env (omega arith)
