-- ===== src/Rounding/Correct.antt =====
-- What the arithmetic functions promise: the correctly rounded value of an exact number.
use native.Mathlib.Nat.{mul-le-mul_right}
use mpfr.Base.{ℕ, ◌+◌, ◌*◌, ◌^◌, ◌≤◌, ◌<◌, ◌≡◌, ℤ, pos, ◌+ℤ◌, ◌≤ℤ◌, ◌<ℤ◌, arith, ◌==◌}
use mpfr.Base.{if◌then◌else◌}
use mpfr.Types.{Rnd, Mpfr, Env, Out}
use mpfr.Exceptions.{overflow}
use mpfr.Rounding.Limb.{IsLimb, IsRounded, units-lt}
use mpfr.Rounding.Decision.{Captures}

-- `r` is the rounding to `64 - sh` bits, for the target `a`, of the exact magnitude
-- `x * 2 ^ (base - 64)`. The weight is the number of bits that `x` has beyond 64, so `base + weight`
-- is the exponent of the exact number and `2 ^ sh * 2 ^ weight` its ulp.
pub record IsCorrect (a : Mpfr) (rnd : Rnd) (x : ℕ) (base : ℤ) (sh : ℕ) (e : Env) (r : Out)
    : Type 0 where
  pub weight : ℕ
  pub at_least : 2 ^ 63 * 2 ^ weight ≤ x
  pub less_than : x < 2 ^ 64 * 2 ^ weight
  pub in_range :
      base +ℤ pos weight ≤ℤ e.emax
      → IsRounded a rnd x (2 ^ sh * 2 ^ weight) (base +ℤ pos weight) sh e r
  pub beyond :
      e.emax <ℤ base +ℤ pos weight → (y : Mpfr) × (y.prec ≡ a.prec) × (r ≡ overflow y rnd a.sign e)

-- A normalized limb that captures `x` fixes the weight of `x`.
module _ (x t a0 q sh rb sb : ℕ) (l : IsLimb a0 q sh)
    (c : Captures x (2 ^ sh * 2 ^ t) q rb sb) where
  pub captured_at_least : 2 ^ 63 * 2 ^ t ≤ x
  captured_at_least =
      let le : 2 ^ 63 * 2 ^ t ≤ q * 2 ^ sh * 2 ^ t =
        mul-le-mul_right {m = 2 ^ 63} {n = q * 2 ^ sh} (2 ^ t)
          (omega (arith, l.normalized, l.units)) in
      omega (arith, le, c.position)

  pub captured_less_than : x < 2 ^ 64 * 2 ^ t
  captured_less_than =
      let le : (q + 1) * 2 ^ sh * 2 ^ t ≤ 2 ^ 64 * 2 ^ t =
        mul-le-mul_right {m = (q + 1) * 2 ^ sh} {n = 2 ^ 64} (2 ^ t) (units-lt a0 q sh l) in
      omega (arith, le, upper_part, c.position)
    where
      upper_part : (if rb == 0 then 0 else c.half) + c.low < 2 ^ sh * 2 ^ t
      upper_part = ground (arith, c.unit, c.below)
