-- ===== src/Rounding/Range.antt =====
-- What the arithmetic functions promise over the whole exponent range, underflow included.
use mpfr.Base.{ℕ, ◌*◌, ◌^◌, ◌≤◌, ◌<◌, ◌≡◌, true, false, ℤ, pos, ◌+ℤ◌, ◌≤ℤ◌, ◌<ℤ◌}
use mpfr.Types.{Rnd, rndz, is_rndn, is_neg, Mpfr, Env, Out}
use mpfr.Exceptions.{overflow, underflow}
use mpfr.Rounding.{Parts}
use mpfr.Rounding.Spec.{RoundsTo}
use mpfr.Rounding.Decision.{Captures}
use mpfr.Rounding.Limb.{IsLimb, IsRounded, exponent_of}

-- `s` captures the exact magnitude `x * 2 ^ (base - 64)`, of which its limb is the top.
pub record IsCutOf (x : ℕ) (base : ℤ) (sh : ℕ) (s : Parts) : Type 0 where
  pub weight : ℕ
  pub units : ℕ
  pub exponent : s.exponent ≡ base +ℤ pos weight
  pub limb : IsLimb s.limb units sh
  pub captures : Captures x (2 ^ sh * 2 ^ weight) units s.rb s.sb

-- The mode that decides between 0 and the least number for an exact magnitude below the range, of
-- exponent `ax` and significand `x` of weight `w`: RNDN goes to 0 up to half of the least number.
abbrev pub UnderflowMode : Rnd → ℕ → ℕ → ℤ → Env → Rnd → Type 0
UnderflowMode rnd x w ax e mode =
    ((is_rndn rnd ≡ false) → mode ≡ rnd)
    × ((is_rndn rnd ≡ true) → (ax +ℤ pos 1 <ℤ e.emin) → mode ≡ rndz)
    × ((is_rndn rnd ≡ true) → x ≡ 2 ^ 63 * 2 ^ w → mode ≡ rndz)
    × ((is_rndn rnd ≡ true) → (e.emin ≤ℤ ax +ℤ pos 1) → 2 ^ 63 * 2 ^ w < x → mode ≡ rnd)

-- As `IsCorrect`, with the lower end of the exponent range: below it, the number is rounded as if
-- the exponent were unbounded, kept if that reaches `emin`, and handed to `underflow` otherwise.
pub record IsCorrectRange (a : Mpfr) (rnd : Rnd) (x : ℕ) (base : ℤ) (sh : ℕ) (e : Env) (r : Out)
    : Type 0 where
  pub weight : ℕ
  pub at_least : 2 ^ 63 * 2 ^ weight ≤ x
  pub less_than : x < 2 ^ 64 * 2 ^ weight
  pub in_range :
      base +ℤ pos weight ≤ℤ e.emax
      → e.emin ≤ℤ base +ℤ pos weight
      → IsRounded a rnd x (2 ^ sh * 2 ^ weight) (base +ℤ pos weight) sh e r
  pub beyond :
      e.emax <ℤ base +ℤ pos weight → (y : Mpfr) × (y.prec ≡ a.prec) × (r ≡ overflow y rnd a.sign e)
  pub below :
      base +ℤ pos weight ≤ℤ e.emax
      → base +ℤ pos weight <ℤ e.emin
      → (q : ℕ) × RoundsTo rnd (is_neg a.sign) x (2 ^ sh * 2 ^ weight) q
        × (e.emin ≤ℤ exponent_of (q * 2 ^ sh) (base +ℤ pos weight)
            → IsRounded a rnd x (2 ^ sh * 2 ^ weight) (base +ℤ pos weight) sh e r)
        × (exponent_of (q * 2 ^ sh) (base +ℤ pos weight) <ℤ e.emin
            → (y : Mpfr) × (mode : Rnd) × UnderflowMode rnd x weight (base +ℤ pos weight) e mode
              × (y.prec ≡ a.prec)
              × (r ≡ underflow y mode a.sign e))
