-- ===== src/Compare/Tests.antt =====
-- Runs of the comparisons on concrete numbers, and the theorems at some of them.
use mpfr.Base.{zero, suc, ◌*◌, ◌^◌, ◌≡◌, refl, [], ◌∷◌, pos, negsuc, arith, neg_ℤ, ◌||◌}
use mpfr.Base.{true}
use mpfr.Types.{plus, minus, num, nan, Mpfr, Env, mult_sign, prec2limbs}
use mpfr.Compare.{answer, cmp, cmp3, cmpabs, total_order_p}
use mpfr.Words.Value.{IsLimbs}
use mpfr.Compare.Limbs.{signed_compare}
use mpfr.Compare.Magnitude.{IsRegular, magnitude, cmpabs_lem}
use mpfr.Compare.Signed.{signed, compare_ℤ, cmp3_lem}
use mpfr.Compare.Laws.{cmp_antisym, total_order_p_total}

abbrev env : Env
env = record { flags = 0; emin = negsuc 99; emax = pos 100 }

-- 1.5 to 53 bits, and 1.5 + 2 ^ -100 to 128 bits.
abbrev short : Mpfr
short = record { prec = 53; sign = plus; exp = num (pos 1); mant = (3 * 2 ^ 62) ∷ [] }

abbrev long : Mpfr
long = record { prec = 128; sign = plus; exp = num (pos 1); mant = 2 ^ 27 ∷ (3 * 2 ^ 62) ∷ [] }

abbrev not_a_number : Mpfr
not_a_number = record short { exp = nan }

short_below_long : cmp short long env ≡ answer (negsuc 0) env
unfolding cmp cmp3
short_below_long = refl

nan_unordered : cmp short not_a_number env ≡ answer (pos 0) (record env { flags = 16 })
unfolding cmp cmp3
nan_unordered = refl

short-IsLimbs : IsLimbs ((3 * 2 ^ 62) ∷ [])
short-IsLimbs zero = omega arith
short-IsLimbs (suc i) = omega arith

long-IsLimbs : IsLimbs (2 ^ 27 ∷ (3 * 2 ^ 62) ∷ [])
long-IsLimbs zero = omega arith
long-IsLimbs (suc zero) = omega arith
long-IsLimbs (suc (suc i)) = omega arith

short-IsRegular : IsRegular short (pos 1)
short-IsRegular = record { exponent = refl; limbs = short-IsLimbs; normalized = omega arith }

long-IsRegular : IsRegular long (pos 1)
long-IsRegular = record { exponent = refl; limbs = long-IsLimbs; normalized = omega arith }

cmpabs_lem_example :
    cmpabs short long env
    ≡ answer
        (signed_compare
          (pos 1)
          (magnitude short (pos 1) (pos 0) (prec2limbs 128))
          (magnitude long (pos 1) (pos 0) (prec2limbs 53)))
        env
cmpabs_lem_example =
    cmpabs_lem short long (pos 1) (pos 1) (pos 0) short-IsRegular long-IsRegular (omega arith)
      (omega arith) env

cmp3_lem_example :
    cmp3 short long minus env
    ≡ answer
        (compare_ℤ
          (signed plus (magnitude short (pos 1) (pos 0) (prec2limbs 128)))
          (signed (mult_sign minus plus) (magnitude long (pos 1) (pos 0) (prec2limbs 53))))
        env
cmp3_lem_example =
    cmp3_lem short long (pos 1) (pos 1) (pos 0) minus env short-IsRegular long-IsRegular
      (omega arith) (omega arith)

cmp_antisym_example : (cmp long short env).value ≡ neg_ℤ (cmp short long env).value
cmp_antisym_example = cmp_antisym short long env

total_order_p_total_example :
    ((total_order_p short not_a_number env).0 || (total_order_p not_a_number short env).0) ≡ true
total_order_p_total_example = total_order_p_total short not_a_number env
