-- ===== src/Sub/Tests.antt =====
-- Runs of `mpfr_sub1sp1` and `mpfr_sub1sp1n`, and the theorems at concrete numbers.
use mpfr.Base.{ℕ, ◌-◌, ◌*◌, ◌^◌, ◌+◌, ◌≡◌, ◌≢◌, refl, arith, [], ◌∷◌, ℤ, pos, negsuc, ◌+ℤ◌, ◌-ℤ◌}
use mpfr.Words.{limb_mask}
use mpfr.Words.Reference.{reference, leading_zeros}
use mpfr.Types.{rndn, rndd, rndna, plus, minus, num, zero_value, Mpfr, Env}
use mpfr.Exceptions.{underflow}
use mpfr.Rounding.{store_limb, verdict}
use mpfr.Rounding.Limb.{IsLimb}
use mpfr.Add.{cut_far}
use mpfr.Sub.{
  sub1sp1, sub1sp1n, round_difference, diff_equal, diff_shifted, diff_near, diff_far, small_rnd,
}
use mpfr.Sub.Exact.{IsDifferenceOf}
use mpfr.Sub.Correct.{sub1sp1-IsCorrectRange, sub1sp1_zero}
use mpfr.Sub.Whole.Correct.{sub1sp1n-IsCorrectRange}

abbrev number : ℕ → ℕ → ℤ → Mpfr
number p m e = record { prec = p; sign = plus; exp = num e; mant = m ∷ [] }

abbrev env : Env
env = record { flags = 0; emin = negsuc 1072; emax = pos 1024 }

-- 3 - 1 = 2, exactly.
three_less_one :
    sub1sp1
      (number 53 0 (pos 0))
      (number 53 (3 * 2 ^ 62) (pos 2))
      (number 53 (2 ^ 63) (pos 1))
      rndn
      53
      env
    ≡ record { x = number 53 (2 ^ 63) (pos 2); inex = pos 0; env = env }
unfolding sub1sp1 round_difference diff_shifted diff_near cut_far store_limb verdict ◌+ℤ◌ ◌-ℤ◌
    limb_mask leading_zeros
three_less_one = refl

-- The midpoint with `p` 63 and `d` 64, which rounds up to the power of two.
midpoint_up :
    sub1sp1
      (number 63 0 (pos 0))
      (number 63 (2 ^ 63) (pos 65))
      (number 63 (2 ^ 63) (pos 1))
      rndn
      63
      env
    ≡ record { x = number 63 (2 ^ 63) (pos 65); inex = pos 1; env = record env { flags = 8 } }
unfolding sub1sp1 round_difference diff_shifted diff_far store_limb verdict ◌+ℤ◌ ◌-ℤ◌ limb_mask
midpoint_up = refl

-- Two neighbours at the least exponent: the difference underflows to zero.
neighbours :
    sub1sp1
      (number 4 0 (pos 0))
      (number 4 (9 * 2 ^ 60) (negsuc 1072))
      (number 4 (2 ^ 63) (negsuc 1072))
      rndn
      4
      env
    ≡ record {
      x = record (number 4 (2 ^ 63) (pos 0)) { exp = zero_value };
      inex = negsuc 0;
      env = record env { flags = 9 };
    }
unfolding sub1sp1 round_difference diff_equal small_rnd underflow ◌+ℤ◌ ◌-ℤ◌ leading_zeros
neighbours = refl

three-IsLimb : IsLimb (3 * 2 ^ 62) (3 * 2 ^ 51) (64 - 53)
three-IsLimb = omega arith

one-IsLimb : IsLimb (2 ^ 63) (2 ^ 52) (64 - 53)
one-IsLimb = omega arith

nearest_supported : rndn ≢ rndna
nearest_supported = cc

sub1sp1-IsCorrectRange_example :
    IsDifferenceOf
      (number 53 0 (pos 0))
      plus
      rndn
      (pos 1)
      (pos 70)
      (3 * 2 ^ 62)
      (2 ^ 63)
      (64 - 53)
      env
      (sub1sp1
        (number 53 0 (pos 0))
        (number 53 (3 * 2 ^ 62) (pos 1))
        (number 53 (2 ^ 63) (pos 70))
        rndn
        53
        env)
unfolding ◌-ℤ◌
sub1sp1-IsCorrectRange_example =
    sub1sp1-IsCorrectRange (number 53 0 (pos 0)) (number 53 (3 * 2 ^ 62) (pos 1))
      (number 53 (2 ^ 63) (pos 70)) rndn 53 env (pos 1) (pos 70) (3 * 2 ^ 62) (2 ^ 63) (3 * 2 ^ 51)
      (2 ^ 52) nearest_supported (omega arith) (omega arith) refl refl refl refl three-IsLimb
      one-IsLimb (omega arith) (omega arith) (omega arith) (omega arith) (omega arith)

sub1sp1_zero_example :
    sub1sp1
      (number 53 0 (pos 0))
      (number 53 (3 * 2 ^ 62) (pos 2))
      (number 53 (3 * 2 ^ 62) (pos 2))
      rndd
      53
      env
    ≡ record {
      x = record (number 53 0 (pos 0)) { exp = zero_value; sign = minus };
      inex = pos 0;
      env = env;
    }
sub1sp1_zero_example =
    sub1sp1_zero (number 53 0 (pos 0)) (number 53 (3 * 2 ^ 62) (pos 2))
      (number 53 (3 * 2 ^ 62) (pos 2)) rndd 53 env (pos 2) (pos 2) (3 * 2 ^ 62) (3 * 2 ^ 62)
      (3 * 2 ^ 51) (3 * 2 ^ 51) refl refl refl refl three-IsLimb three-IsLimb refl

sub1sp1n-IsCorrectRange_example :
    IsDifferenceOf (number 64 0 (pos 0)) plus rndn (pos 66) (pos 1) (2 ^ 63) (2 ^ 63 + 5) 0 env (
      sub1sp1n
        (number 64 0 (pos 0))
        (number 64 (2 ^ 63) (pos 66))
        (number 64 (2 ^ 63 + 5) (pos 1))
        rndn
        env)
unfolding ◌-ℤ◌
sub1sp1n-IsCorrectRange_example =
    sub1sp1n-IsCorrectRange (number 64 0 (pos 0)) (number 64 (2 ^ 63) (pos 66))
      (number 64 (2 ^ 63 + 5) (pos 1)) rndn env (pos 66) (pos 1) (2 ^ 63) (2 ^ 63 + 5)
      nearest_supported refl refl refl refl (omega arith) (omega arith) (omega arith) (omega arith)
      (omega arith) (omega arith) (omega arith) (omega arith) (omega arith)
