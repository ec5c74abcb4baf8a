-- ===== src/Next/Tests.antt =====
-- Runs of the neighbours of a number, and the theorems at concrete numbers.
use mpfr.Base.{zero, suc, ◌-◌, ◌*◌, ◌%◌, ◌^◌, ◌≡◌, refl, arith, ◌+◌, pos, negsuc, ◌-ℤ◌, [], ◌∷◌}
use mpfr.Words.Value.{low_value, IsLimbs}
use mpfr.Types.{plus, num, Mpfr, Env, prec2limbs}
use mpfr.Compare.Magnitude.{IsRegular}
use mpfr.Next.{
  nexttoinf, nexttozero, nexttozero_field, down_regular, nextbelow, nextabove, unused_bits,
}
use mpfr.Next.Ripple.{ripple, ripple-IsMpn, ripple-IsMpnSub}
use mpfr.Next.Neighbour.{nexttoinf_lem, up_exp, up_value}
use mpfr.Next.Down.{nexttozero_lem, down_exp, down_value}
use mpfr.Next.Symmetry.{mirror, nextbelow-mirror}

-- The largest significand of 100 bits.
abbrev number : Mpfr
number = record {
  prec = 100;
  sign = plus;
  exp = num (pos 2);
  mant = (2 ^ 64 - 2 ^ 28) ∷ (2 ^ 64 - 1) ∷ [];
}

abbrev env : Env
env = record { flags = 0; emin = negsuc 99; emax = pos 100 }

number-IsLimbs : IsLimbs ((2 ^ 64 - 2 ^ 28) ∷ (2 ^ 64 - 1) ∷ [])
number-IsLimbs zero = omega arith
number-IsLimbs (suc zero) = omega arith
number-IsLimbs (suc (suc i)) = omega arith

number-IsRegular : IsRegular number (pos 2)
number-IsRegular = record { exponent = refl; limbs = number-IsLimbs; normalized = omega arith }

clean : low_value number.mant (prec2limbs 100) % 2 ^ unused_bits number ≡ 0
unfolding low_value
clean = refl

nexttoinf_lem_example :
    ((nexttoinf ripple number env).exp
      ≡ up_exp ripple ripple-IsMpn number (pos 2) env number-IsRegular refl)
    × (2 * low_value (nexttoinf ripple number env).mant (prec2limbs 100)
        ≡ up_value ripple ripple-IsMpn number (pos 2) env number-IsRegular refl)
    × ((nexttoinf ripple number env).sign ≡ plus)
    × ((nexttoinf ripple number env).prec ≡ 100)
nexttoinf_lem_example =
    nexttoinf_lem ripple ripple-IsMpn number (pos 2) env number-IsRegular refl clean

nextbelow-mirror_example :
    ((nextbelow ripple number env).0 ≡ mirror (nextabove ripple (mirror number) env).0)
    × ((nextbelow ripple number env).1 ≡ (nextabove ripple (mirror number) env).1)
nextbelow-mirror_example = nextbelow-mirror ripple number env

-- The least significand of 100 bits.
abbrev power : Mpfr
power = record { prec = 100; sign = plus; exp = num (pos 2); mant = 0 ∷ (2 ^ 63) ∷ [] }

below_power :
    nexttozero ripple power env
    ≡ record power { exp = num (pos 1); mant = (2 ^ 64 - 2 ^ 28) ∷ (2 ^ 64 - 1) ∷ [] }
unfolding nexttozero nexttozero_field down_regular ◌-ℤ◌
below_power = refl

nexttozero_lem_example :
    ((nexttozero ripple number env).exp
      ≡ down_exp ripple ripple-IsMpnSub number (pos 2) env number-IsRegular refl clean)
    × (low_value (nexttozero ripple number env).mant (prec2limbs 100) + 2 ^ unused_bits number
        ≡ down_value ripple ripple-IsMpnSub number (pos 2) env number-IsRegular refl clean)
    × ((nexttozero ripple number env).sign ≡ plus)
    × ((nexttozero ripple number env).prec ≡ 100)
nexttozero_lem_example =
    nexttozero_lem ripple ripple-IsMpnSub number (pos 2) env number-IsRegular refl clean
