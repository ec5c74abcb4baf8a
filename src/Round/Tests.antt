-- ===== src/Round/Tests.antt =====
-- Runs of `mpfr_round_raw` and `mpfr_prec_round`, and the theorems at concrete numbers.
use mpfr.Base.{
  if◌then◌else◌, ℕ, zero, suc, ◌+◌, ◌-◌, ◌*◌, ◌^◌, ◌≡◌, refl, arith, pos, negsuc, [], ◌∷◌, List,
  true, false,
}
use mpfr.Words.{limb_mask}
use mpfr.Words.Value.{low_value, IsLimbs}
use mpfr.Types.{is_rndf, rndn, rndz, rndd, plus, num, Mpfr, Env, prec2limbs}
use mpfr.Compare.Magnitude.{IsRegular}
use mpfr.Next.Ripple.{ripple, ripple-IsMpn}
use mpfr.Set.{sticky_down}
use mpfr.Round.{
  himask, lomask, toward_zero, away_from_zero, nearest, raw_choice, mask_low, round_raw_generic,
  round_raw, round_raw_4, round_raw_2, rest_bits, kept_limbs, round_number, prec_round_field,
  prec_round,
}
use mpfr.Round.Masks.{cut_bits}
use mpfr.Round.Correct.{IsRawRounding, round_raw-IsRawRounding}
use mpfr.Round.Prec.{IsReduced, prec_round-IsReduced}
use mpfr.Round.Variants.{round_raw_variants}

-- 2 ^ 127 + 3 * 2 ^ 63: halfway between two numbers of 64 bits.
abbrev half : List ℕ
half = (2 ^ 63) ∷ (2 ^ 63 + 1) ∷ []

-- A tie goes to the even number, which is signalled by 2.
half_up :
    round_raw ripple half 128 false 64 rndn
    ≡ record { limbs = (2 ^ 63 + 2) ∷ []; carry = 0; inexp = pos 2 }
unfolding round_raw round_raw_generic raw_choice nearest himask lomask mask_low sticky_down
half_up = refl

half_down :
    round_raw ripple half 128 false 64 rndz
    ≡ record { limbs = (2 ^ 63 + 1) ∷ []; carry = 0; inexp = negsuc 0 }
unfolding round_raw round_raw_generic raw_choice toward_zero himask lomask mask_low sticky_down
half_down = refl

-- The largest significand of 128 bits, rounded up to 100, carries out.
abbrev ones : List ℕ
ones = (2 ^ 64 - 1) ∷ (2 ^ 64 - 1) ∷ []

ones_up :
    round_raw ripple ones 128 true 100 rndd
    ≡ record { limbs = 0 ∷ 0 ∷ []; carry = 1; inexp = negsuc 0 }
unfolding round_raw round_raw_generic raw_choice away_from_zero himask lomask limb_mask mask_low
    sticky_down
ones_up = refl

half-IsLimbs : IsLimbs half
half-IsLimbs zero = omega arith
half-IsLimbs (suc zero) = omega arith
half-IsLimbs (suc (suc i)) = omega arith

round_raw-IsRawRounding_example :
    IsRawRounding rndn false
      (low_value half (prec2limbs 128))
      (2 ^ cut_bits (rest_bits 64) * 2 ^ (64 * (prec2limbs 128 - kept_limbs 64)))
      (cut_bits (rest_bits 64))
      (kept_limbs 64)
      (round_raw ripple half 128 false 64 rndn)
round_raw-IsRawRounding_example =
    round_raw-IsRawRounding ripple half 128 64 false rndn ripple-IsMpn half-IsLimbs refl
      (omega arith) (omega arith)

round_raw_variants_example :
    ((round_raw_4 ripple half 128 false 64 rndn).limbs
      ≡ (round_raw ripple half 128 false 64 rndn).limbs)
    × ((round_raw_4 ripple half 128 false 64 rndn).carry
        ≡ (round_raw ripple half 128 false 64 rndn).carry)
    × (low_value (round_raw ripple half 128 false 64 rndn).limbs (kept_limbs 64)
          + (round_raw ripple half 128 false 64 rndn).carry * 2 ^ (64 * kept_limbs 64)
        ≡ low_value (round_raw ripple half 128 false 64 rndz).limbs (kept_limbs 64)
          + (round_raw ripple half 128 false 64 rndz).carry * 2 ^ (64 * kept_limbs 64)
          + (if is_rndf rndn then 0 else round_raw_2 half 128 false 64 rndn)
            * 2 ^ cut_bits (rest_bits 64))
round_raw_variants_example =
    round_raw_variants ripple half 128 64 false rndn ripple-IsMpn half-IsLimbs refl (omega arith)
      (omega arith)

abbrev number : Mpfr
number = record { prec = 128; sign = plus; exp = num (pos 1); mant = half }

number-IsRegular : IsRegular number (pos 1)
number-IsRegular = record { exponent = refl; limbs = half-IsLimbs; normalized = omega arith }

abbrev env : Env
env = record { flags = 0; emin = negsuc 99; emax = pos 100 }

-- The inexact flag stays clear.
shorter :
    prec_round ripple number 64 rndn env
    ≡ record { x = record number { prec = 64; mant = (2 ^ 63 + 2) ∷ [] }; inex = pos 2; env = env }
unfolding prec_round prec_round_field round_number round_raw round_raw_generic raw_choice nearest
    himask lomask mask_low sticky_down
shorter = refl

prec_round-IsReduced_example :
    IsReduced number 64 rndn
      (low_value half (prec2limbs 128))
      (2 ^ cut_bits (rest_bits 64) * 2 ^ (64 * (prec2limbs 128 - kept_limbs 64)))
      (pos 1)
      (cut_bits (rest_bits 64))
      (kept_limbs 64)
      env
      (prec_round ripple number 64 rndn env)
prec_round-IsReduced_example =
    prec_round-IsReduced ripple number 64 rndn env (pos 1) ripple-IsMpn number-IsRegular refl
      (omega arith) (omega arith) (omega arith)
