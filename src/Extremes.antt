-- ===== src/Extremes.antt =====
-- `mpfr_setmin` (src/setmin.c), `mpfr_setmax` (src/setmax.c), `mpfr_powerof2_raw` (src/powerof2.c):
-- the smallest and the largest significand of a precision, and the test for the smallest.
pub mod Power
mod Tests
use mpfr.Base.{ℕ, zero, suc, ◌+◌, ◌-◌, ◌*◌, ◌/◌, List, [], ◌∷◌, ◌++◌, replicate, get_or, length}
use mpfr.Base.{Bool, true, false, ◌==◌, if◌then◌else◌, ℤ}
use mpfr.Words.{limb_bits, limb_highbit, limb_max, shl}
use mpfr.Types.{Mpfr, num, prec2limbs}

-- The sign is kept. `xn` zero limbs lie under the highest bit.
unfoldable pub setmin : Mpfr → ℤ → Mpfr
setmin x e =
    let xn = (x.prec - 1) / limb_bits in
    record x { exp = num e; mant = replicate xn 0 ++ (limb_highbit ∷ []) }

-- The lowest limb has ones down to the ulp, the others are all ones.
unfoldable pub setmax : Mpfr → ℤ → Mpfr
setmax x e =
    let xn = prec2limbs x.prec in
    let sh = xn * limb_bits - x.prec in
    record x { exp = num e; mant = shl limb_max sh ∷ replicate (xn - 1) limb_max }

-- `while (xn > 0) if (xp[--xn] != 0) return 0;`
pub all_zero_below : List ℕ → ℕ → Bool
all_zero_below xp zero = true
all_zero_below xp (suc i) =
    let rest = all_zero_below xp i in if get_or xp i 0 == 0 then rest else false

-- `mpfr_powerof2_raw2`
pub powerof2_raw2 : List ℕ → ℕ → Bool
powerof2_raw2 xp xn =
    if get_or xp (xn - 1) 0 == limb_highbit then all_zero_below xp (xn - 1) else false

unfoldable pub powerof2_raw : Mpfr → Bool
unfolding powerof2_raw2 all_zero_below
powerof2_raw x = powerof2_raw2 x.mant (prec2limbs x.prec)
