-- ===== src/Set/Tests.antt =====
-- Runs of `mpfr_set4` and its kin, and the theorems at concrete numbers.
use mpfr.Base.{
  ℕ, zero, suc, ◌-◌, ◌*◌, ◌^◌, ◌≡◌, ◌≢◌, refl, arith, pos, negsuc, [], ◌∷◌, true, false, ◌+ℤ◌,
}
use mpfr.Words.Value.{low_value, IsLimbs}
use mpfr.Types.{rndn, rndz, rndna, plus, minus, inf, num, Mpfr, Env, Out, prec2limbs}
use mpfr.Compare.Magnitude.{IsRegular}
use mpfr.Next.{unused_bits}
use mpfr.Next.Ripple.{ripple, ripple-IsMpn}
use mpfr.Set.{
  set4, set4_field, rndraw, round_bits, inner_bits, outer_bits, full_sticky, sticky_down,
  rndraw_verdict, store_rndraw, mask_first, abs, neg, setsign, copysign,
}
use mpfr.Set.Rounded.{IsStored}
use mpfr.Set.Correct.{skipped, set4-IsStored}
use mpfr.Set.Aliases.{same_object_lem}
use mpfr.Set.RoundTrip.{set4-set4}

-- The largest significand of 100 bits.
abbrev source : Mpfr
source = record {
  prec = 100;
  sign = plus;
  exp = num (pos 2);
  mant = (2 ^ 64 - 2 ^ 28) ∷ (2 ^ 64 - 1) ∷ [];
}

abbrev target : ℕ → Mpfr
target p = record { prec = p; sign = minus; exp = inf; mant = [] }

abbrev env : Env
env = record { flags = 0; emin = negsuc 99; emax = pos 100 }

-- To 64 bits, toward zero and to the nearest, which is the next power of two.
cut_limb : set4 ripple (target 64) source rndz plus env ≡ record {
  x = record (target 64) { sign = plus; exp = num (pos 2); mant = (2 ^ 64 - 1) ∷ [] };
  inex = negsuc 0;
  env = record env { flags = 8 };
}
unfolding set4 set4_field rndraw round_bits outer_bits full_sticky sticky_down rndraw_verdict
    store_rndraw mask_first
cut_limb = refl

carried : set4 ripple (target 53) source rndn plus env ≡ record {
  x = record (target 53) { sign = plus; exp = num (pos 3); mant = 2 ^ 63 ∷ [] };
  inex = pos 1;
  env = record env { flags = 8 };
}
unfolding set4 set4_field rndraw round_bits inner_bits full_sticky sticky_down rndraw_verdict
    store_rndraw mask_first ◌+ℤ◌
carried = refl

source-IsLimbs : IsLimbs source.mant
source-IsLimbs zero = omega arith
source-IsLimbs (suc zero) = omega arith
source-IsLimbs (suc (suc i)) = omega arith

source-IsRegular : IsRegular source (pos 2)
source-IsRegular = record { exponent = refl; limbs = source-IsLimbs; normalized = omega arith }

nearest_supported : rndn ≢ rndna
nearest_supported = cc

set4-IsStored_example :
    IsStored
      (record (target 53) { sign = minus })
      rndn
      (low_value source.mant (prec2limbs 100))
      (2 ^ unused_bits (target 53) * 2 ^ (64 * skipped (target 53) source))
      (pos 2)
      (unused_bits (target 53))
      (prec2limbs 53)
      env
      (set4 ripple (target 53) source rndn minus env)
set4-IsStored_example =
    set4-IsStored ripple (target 53) source rndn minus env (pos 2) ripple-IsMpn nearest_supported
      source-IsRegular refl (omega arith) (omega arith) (omega arith)

same_object_lem_example :
    (abs ripple true source source rndn env ≡ abs ripple false source source rndn env)
    × (neg ripple true source source rndn env ≡ neg ripple false source source rndn env)
    × (setsign ripple true source source true rndn env
        ≡ setsign ripple false source source true rndn env)
    × (copysign ripple true source source (target 53) rndn env
        ≡ copysign ripple false source source (target 53) rndn env)
same_object_lem_example = same_object_lem ripple source (target 53) true rndn env

abbrev wide : Out
wide = set4 ripple (target 200) source rndz plus env

abbrev again : Out
again = set4 ripple (target 100) wide.x rndn minus wide.env

set4-set4_example :
    (wide.inex ≡ pos 0)
    × (wide.env ≡ env)
    × (again.x.exp ≡ num (pos 2))
    × (again.x.sign ≡ minus)
    × (again.x.prec ≡ 100)
    × (low_value again.x.mant (prec2limbs 100) ≡ low_value source.mant (prec2limbs 100))
    × (again.inex ≡ pos 0)
    × (again.env ≡ env)
unfolding low_value
set4-set4_example =
    set4-set4 ripple (target 200) source (target 100) rndz rndn plus minus env (pos 2) (2 ^ 100 - 1)
      ripple-IsMpn nearest_supported refl source-IsRegular refl refl (omega arith) (omega arith)
      refl (omega arith)
