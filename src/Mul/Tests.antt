-- ===== src/Mul/Tests.antt =====
-- Runs of `mul_1` and `sqr_1` on concrete numbers, and the theorems at some of them.
use mpfr.Base.{ℕ, ◌+◌, ◌-◌, ◌*◌, ◌^◌, ◌≡◌, ◌≢◌, refl, [], ◌∷◌, ℤ, pos, negsuc, arith, ◌+ℤ◌, ◌-ℤ◌}
use mpfr.Words.{limb_mask}
use mpfr.Words.Reference.{reference}
use mpfr.Types.{rndn, rnda, rndna, plus, mult_sign, num, zero_value, Mpfr, Env}
use mpfr.Exceptions.{underflow}
use mpfr.Rounding.{verdict, round_limb}
use mpfr.Rounding.Limb.{IsLimb}
use mpfr.Mul.{
  product, product_limbs, reaches_emin, tiny_rnd, round_product, mul_1n, mul_1, sqr_1, sqr_1n,
}
use mpfr.Mul.Whole.{mul_1n-IsCorrectRange}
use mpfr.Mul.Square.{top_root, sqr_1n-IsCorrectRange}
use mpfr.Rounding.Range.{IsCorrectRange}
use mpfr.Mul.Correct.{mul_1-IsCorrectRange, sqr_1-IsCorrectRange}

abbrev number : ℕ → ℕ → ℤ → Mpfr
number p m e = record { prec = p; sign = plus; exp = num e; mant = m ∷ [] }

abbrev env : Env
env = record { flags = 0; emin = negsuc 99; emax = pos 100 }

-- 3 * 3 = 9 needs four bits; to two bits it is a tie and goes to the even 8.
three_times_three :
    mul_1
      (number 3 0 (pos 0))
      (number 3 (3 * 2 ^ 62) (pos 2))
      (number 3 (3 * 2 ^ 62) (pos 2))
      rndn
      3
      env
    ≡ record { x = number 3 (2 ^ 63) (pos 4); inex = negsuc 0; env = record env { flags = 8 } }
unfolding mul_1 round_product product_limbs product round_limb verdict ◌+ℤ◌ ◌-ℤ◌ limb_mask
    reaches_emin
three_times_three = refl

-- The square of the least number underflows to zero in RNDN.
least_squared : sqr_1 (number 3 0 (pos 0)) (number 3 (2 ^ 63) (negsuc 99)) rndn 3 env ≡ record {
  x = record (number 3 (2 ^ 63) (pos 0)) { exp = zero_value };
  inex = negsuc 0;
  env = record env { flags = 9 };
}
unfolding sqr_1 round_product product_limbs product tiny_rnd ◌+ℤ◌ ◌-ℤ◌ limb_mask reaches_emin
    underflow
least_squared = refl

three-IsLimb : IsLimb (3 * 2 ^ 62) (3 * 2 ^ 51) (64 - 53)
three-IsLimb = omega arith

nearest_supported : rndn ≢ rndna
nearest_supported = cc

mul_1-IsCorrectRange_example :
    IsCorrectRange
      (record (number 53 0 (pos 0)) { sign = mult_sign plus plus })
      rndn
      (3 * 2 ^ 62 * (3 * 2 ^ 62))
      (pos 2 +ℤ pos 2 -ℤ pos 64)
      (64 - 53)
      env
      (mul_1
        (number 53 0 (pos 0))
        (number 53 (3 * 2 ^ 62) (pos 2))
        (number 53 (3 * 2 ^ 62) (pos 2))
        rndn
        53
        env)
mul_1-IsCorrectRange_example =
    mul_1-IsCorrectRange (number 53 0 (pos 0)) (number 53 (3 * 2 ^ 62) (pos 2))
      (number 53 (3 * 2 ^ 62) (pos 2)) rndn 53 env (pos 2) (pos 2) (3 * 2 ^ 62) (3 * 2 ^ 62)
      (3 * 2 ^ 51) (3 * 2 ^ 51) nearest_supported (omega arith) (omega arith) refl refl refl refl
      three-IsLimb three-IsLimb

sqr_1-IsCorrectRange_example :
    IsCorrectRange
      (record (number 53 0 (pos 0)) { sign = plus })
      rndn
      (3 * 2 ^ 62 * (3 * 2 ^ 62))
      (pos 2 +ℤ pos 2 -ℤ pos 64)
      (64 - 53)
      env
      (sqr_1 (number 53 0 (pos 0)) (number 53 (3 * 2 ^ 62) (pos 2)) rndn 53 env)
sqr_1-IsCorrectRange_example =
    sqr_1-IsCorrectRange (number 53 0 (pos 0)) (number 53 (3 * 2 ^ 62) (pos 2)) rndn 53 env (pos 2)
      (3 * 2 ^ 62) (3 * 2 ^ 51) nearest_supported (omega arith) (omega arith) refl refl three-IsLimb

mul_1n-IsCorrectRange_example :
    IsCorrectRange
      (record (number 64 0 (pos 0)) { sign = mult_sign plus plus })
      rndn
      ((2 ^ 64 - 1) * (2 ^ 63 + 1))
      (pos 2 +ℤ negsuc 4 -ℤ pos 64)
      0
      env
      (mul_1n
        (number 64 0 (pos 0))
        (number 64 (2 ^ 64 - 1) (pos 2))
        (number 64 (2 ^ 63 + 1) (negsuc 4))
        rndn
        env)
mul_1n-IsCorrectRange_example =
    mul_1n-IsCorrectRange (number 64 0 (pos 0)) (number 64 (2 ^ 64 - 1) (pos 2))
      (number 64 (2 ^ 63 + 1) (negsuc 4)) rndn env (pos 2) (negsuc 4) (2 ^ 64 - 1) (2 ^ 63 + 1)
      nearest_supported refl refl refl refl (omega arith) (omega arith) (omega arith) (omega arith)

away_supported : rnda ≢ rndna
away_supported = cc

-- The one square with 64 leading ones, just below the exponent range.
sqr_1n-IsCorrectRange_example :
    IsCorrectRange
      (record (number 64 0 (pos 0)) { sign = plus })
      rnda
      (top_root * top_root)
      (negsuc 49 +ℤ negsuc 49 -ℤ pos 64)
      0
      env
      (sqr_1n (number 64 0 (pos 0)) (number 64 top_root (negsuc 49)) rnda env)
sqr_1n-IsCorrectRange_example =
    sqr_1n-IsCorrectRange (number 64 0 (pos 0)) (number 64 top_root (negsuc 49)) rnda env
      (negsuc 49) top_root away_supported refl refl (omega arith) (omega arith)
