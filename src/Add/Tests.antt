-- ===== src/Add/Tests.antt =====
-- Runs of `add1sp1` on concrete numbers, and the theorem at one of them.
use mpfr.Base.{ℕ, ◌-◌, ◌*◌, ◌^◌, ◌≡◌, ◌≢◌, refl, [], ◌∷◌, ℤ, pos, negsuc, arith, ◌+ℤ◌, ◌-ℤ◌}
use mpfr.Words.{limb_mask}
use mpfr.Types.{rndn, rnda, rndna, plus, num, inf, Mpfr, Env}
use mpfr.Exceptions.{overflow}
use mpfr.Rounding.{verdict, round_limb}
use mpfr.Rounding.Limb.{IsLimb}
use mpfr.Rounding.Correct.{IsCorrect}
use mpfr.Add.{sum_equal, cut_near, cut_far, sum_near, sum_far, sum_shifted, sum_limbs, round_sum}
use mpfr.Add.{add1sp1}
use mpfr.Add.Single.{scaled_sum, low_exponent}
use mpfr.Add.Correct.{add1sp1-IsCorrect}
use mpfr.Add.Whole.{add1sp1n}
use mpfr.Add.Whole.Correct.{add1sp1n-IsCorrect}

abbrev double : ℕ → ℕ → ℤ → Mpfr
double p m e = record { prec = p; sign = plus; exp = num e; mant = m ∷ [] }

abbrev env : Env
env = record { flags = 0; emin = negsuc 1072; emax = pos 1024 }

-- 3 + 1 = 4, exactly.
three_plus_one :
    add1sp1
      (double 53 0 (pos 0))
      (double 53 (3 * 2 ^ 62) (pos 2))
      (double 53 (2 ^ 63) (pos 1))
      rndn
      53
      env
    ≡ record { x = double 53 (2 ^ 63) (pos 3); inex = pos 0; env = env }
unfolding add1sp1 round_sum sum_limbs sum_shifted sum_near cut_near round_limb verdict ◌+ℤ◌ ◌-ℤ◌
    limb_mask
three_plus_one = refl

-- 3 + 2 ^ -60 is inexact: toward zero it is 3, away from zero the next number.
tiny_addend :
    add1sp1
      (double 4 0 (pos 0))
      (double 4 (3 * 2 ^ 62) (pos 2))
      (double 4 (2 ^ 63) (negsuc 58))
      rnda
      4
      env
    ≡ record { x = double 4 (13 * 2 ^ 60) (pos 2); inex = pos 1; env = record env { flags = 8 } }
unfolding add1sp1 round_sum sum_limbs sum_shifted sum_far cut_far round_limb verdict ◌+ℤ◌ ◌-ℤ◌
    limb_mask
tiny_addend = refl

-- The largest number plus itself overflows.
doubled_max :
    add1sp1
      (double 4 0 (pos 0))
      (double 4 (15 * 2 ^ 60) (pos 1024))
      (double 4 (15 * 2 ^ 60) (pos 1024))
      rndn
      4
      env
    ≡ record {
      x = record (double 4 (15 * 2 ^ 60) (pos 0)) { exp = inf };
      inex = pos 1;
      env = record env { flags = 10 };
    }
unfolding add1sp1 round_sum sum_limbs sum_equal overflow ◌+ℤ◌ ◌-ℤ◌ limb_mask
doubled_max = refl

three-IsLimb : IsLimb (3 * 2 ^ 62) (3 * 2 ^ 51) (64 - 53)
three-IsLimb = omega arith

one-IsLimb : IsLimb (2 ^ 63) (2 ^ 52) (64 - 53)
one-IsLimb = omega arith

nearest_supported : rndn ≢ rndna
nearest_supported = cc

add1sp1-IsCorrect_example :
    IsCorrect
      (double 53 0 (pos 0))
      rndn
      (scaled_sum (pos 2) (pos 1) (3 * 2 ^ 62) (2 ^ 63))
      (low_exponent (pos 2) (pos 1))
      (64 - 53)
      env
      (add1sp1
        (double 53 0 (pos 0))
        (double 53 (3 * 2 ^ 62) (pos 2))
        (double 53 (2 ^ 63) (pos 1))
        rndn
        53
        env)
add1sp1-IsCorrect_example =
    add1sp1-IsCorrect (double 53 0 (pos 0)) (double 53 (3 * 2 ^ 62) (pos 2))
      (double 53 (2 ^ 63) (pos 1)) rndn 53 env (pos 2) (pos 1) (3 * 2 ^ 62) (2 ^ 63) (3 * 2 ^ 51)
      (2 ^ 52) nearest_supported (omega arith) (omega arith) refl refl refl refl three-IsLimb
      one-IsLimb

add1sp1n-IsCorrect_example :
    IsCorrect
      (double 64 0 (pos 0))
      rndn
      (scaled_sum (pos 70) (pos 6) (2 ^ 64 - 1) (2 ^ 63))
      (low_exponent (pos 70) (pos 6))
      0
      env
      (add1sp1n
        (double 64 0 (pos 0))
        (double 64 (2 ^ 64 - 1) (pos 70))
        (double 64 (2 ^ 63) (pos 6))
        rndn
        env)
add1sp1n-IsCorrect_example =
    add1sp1n-IsCorrect (double 64 0 (pos 0)) (double 64 (2 ^ 64 - 1) (pos 70))
      (double 64 (2 ^ 63) (pos 6)) rndn env (pos 70) (pos 6) (2 ^ 64 - 1) (2 ^ 63) nearest_supported
      refl refl refl refl (omega arith) (omega arith) (omega arith) (omega arith)
