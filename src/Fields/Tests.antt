-- ===== src/Fields/Tests.antt =====
-- Runs of the functions on the fields, and the theorems at concrete numbers.
use mpfr.Base.{
  zero, suc, ◌+◌, ◌-◌, ◌*◌, ◌%◌, ◌^◌, ◌≡◌, refl, arith, pos, negsuc, pos_part, neg_part, [], ◌∷◌,
  ◌==◌, false,
}
use mpfr.Words.Value.{low_value, IsLimbs}
use mpfr.Types.{plus, num, Mpfr, Env, prec2limbs}
use mpfr.Compare.Magnitude.{IsRegular}
use mpfr.Fields.{integer_p, odd_p}
use mpfr.Fields.Integer.{integer_p_lem}
use mpfr.Fields.Odd.{odd_p_lem}

-- 2.5 in 100 bits.
abbrev number : Mpfr
number = record { prec = 100; sign = plus; exp = num (pos 2); mant = 0 ∷ (5 * 2 ^ 61) ∷ [] }

abbrev env : Env
env = record { flags = 0; emin = negsuc 99; emax = pos 100 }

number-IsLimbs : IsLimbs (0 ∷ (5 * 2 ^ 61) ∷ [])
number-IsLimbs zero = omega arith
number-IsLimbs (suc zero) = omega arith
number-IsLimbs (suc (suc i)) = omega arith

number-IsRegular : IsRegular number (pos 2)
number-IsRegular = record { exponent = refl; limbs = number-IsLimbs; normalized = omega arith }

clean : low_value number.mant (prec2limbs 100) % 2 ^ (64 * prec2limbs 100 - 100) ≡ 0
unfolding low_value
clean = refl

integer_p_lem_example : integer_p number ≡ (
    low_value number.mant (prec2limbs 100)
      % 2 ^ (64 * prec2limbs 100 + neg_part (pos 2) - pos_part (pos 2))
    == 0)
integer_p_lem_example = integer_p_lem number (pos 2) number-IsRegular clean

-- 5 in 100 bits; with a larger or a smaller exponent it is not an odd integer.
abbrev five : Mpfr
five = record number { exp = num (pos 3) }

five-IsRegular : IsRegular five (pos 3)
five-IsRegular = record { exponent = refl; limbs = number-IsLimbs; normalized = omega arith }

five_shifted :
    (odd_p (pos 4) five ≡ false) × (odd_p (pos 2) five ≡ false) × (odd_p (pos 0) five ≡ false)
unfolding odd_p
five_shifted = (refl, refl, refl)

odd_p_lem_example : odd_p (pos 3) five ≡ (
    low_value five.mant (prec2limbs 100)
      * 2 ^ pos_part (pos 3)
      % (2 * 2 ^ (64 * prec2limbs 100 + neg_part (pos 3)))
    == 2 ^ (64 * prec2limbs 100 + neg_part (pos 3)))
odd_p_lem_example = odd_p_lem five (pos 3) five-IsRegular clean
