-- ===== src/Extremes/Tests.antt =====
-- The theorems on the extreme significands at concrete numbers.
use mpfr.Base.{zero, suc, ◌+◌, ◌-◌, ◌*◌, ◌^◌, ◌≡◌, refl, arith, pos, [], ◌∷◌, ◌==◌, true}
use mpfr.Words.{limb_bits}
use mpfr.Words.Value.{low_value, IsLimbs}
use mpfr.Types.{plus, num, Mpfr, prec2limbs}
use mpfr.Extremes.{setmin, setmax, powerof2_raw}
use mpfr.Extremes.Power.{extremes_lem}

abbrev number : Mpfr
number = record { prec = 100; sign = plus; exp = num (pos 1); mant = 5 ∷ (2 ^ 63) ∷ [] }

-- 100 bits in two limbs: the lowest 28 bits are not used.
largest : (setmax number (pos 3)).mant ≡ (2 ^ 64 - 2 ^ 28) ∷ (2 ^ 64 - 1) ∷ []
unfolding setmax
largest = refl

number-IsLimbs : IsLimbs (5 ∷ (2 ^ 63) ∷ [])
number-IsLimbs zero = omega arith
number-IsLimbs (suc zero) = omega arith
number-IsLimbs (suc (suc i)) = omega arith

extremes_lem_example :
    (powerof2_raw number
      ≡ (2 * low_value (5 ∷ (2 ^ 63) ∷ []) (prec2limbs 100) == 2 ^ (64 * prec2limbs 100)))
    × (powerof2_raw (setmin number (pos 3)) ≡ true)
    × (low_value (setmax number (pos 3)).mant (prec2limbs 100)
          + 2 ^ (prec2limbs 100 * limb_bits - 100)
        ≡ 2 ^ (64 * prec2limbs 100))
extremes_lem_example = extremes_lem number (pos 3) number-IsLimbs (omega arith)
