-- ===== src/Rounding/Spec.antt =====
-- Correct rounding, stated on numbers: an exact significand `x` is measured in units of which the
-- target precision keeps the multiples of `d`, and `q` is the multiple that is chosen.
use mpfr.Base.{ℕ, ◌+◌, ◌*◌, ◌%◌, ◌^◌, ◌≤◌, ◌<◌, ◌≡◌, Bool, true, false, [], ◌∷◌}
use mpfr.Base.{ℤ, pos, negsuc, ◌+ℤ◌, ltb, ◌==◌, if◌then◌else◌}
use mpfr.Types.{Rnd, rndn, rndz, rndu, rndd, rnda, rndf, rndna, is_rndf, Sign, num, Mpfr}
use mpfr.Exceptions.{with_sign}

abbrev pub IsDown : ℕ → ℕ → ℕ → Type 0
IsDown x d q = (q * d ≤ x) × (x < q * d + d)

abbrev pub IsUp : ℕ → ℕ → ℕ → Type 0
IsUp x d q = (x ≤ q * d) × (q * d < x + d)

-- The distance is at most half a unit, and a tie goes to an even multiple.
abbrev pub IsNearestEven : ℕ → ℕ → ℕ → Type 0
IsNearestEven x d q =
    (2 * (q * d) ≤ 2 * x + d)
    × (2 * x ≤ 2 * (q * d) + d)
    × ((2 * (q * d) ≡ 2 * x + d) → q % 2 ≡ 0)
    × ((2 * x ≡ 2 * (q * d) + d) → q % 2 ≡ 0)

-- The distance is at most half a unit, and a tie goes up.
abbrev pub IsNearestAway : ℕ → ℕ → ℕ → Type 0
IsNearestAway x d q = (2 * (q * d) ≤ 2 * x + d) × (2 * x < 2 * (q * d) + d)

-- One of the two neighbours.
abbrev pub IsFaithful : ℕ → ℕ → ℕ → Type 0
IsFaithful x d q = (q * d < x + d) × (x < q * d + d)

-- The rounding of a magnitude whose sign is negative or not.
abbrev pub RoundsTo : Rnd → Bool → ℕ → ℕ → ℕ → Type 0
RoundsTo rndn neg x d q = IsNearestEven x d q
RoundsTo rndz neg x d q = IsDown x d q
RoundsTo rndu true x d q = IsDown x d q
RoundsTo rndu false x d q = IsUp x d q
RoundsTo rndd true x d q = IsUp x d q
RoundsTo rndd false x d q = IsDown x d q
RoundsTo rnda neg x d q = IsUp x d q
RoundsTo rndf neg x d q = IsFaithful x d q
RoundsTo rndna neg x d q = IsNearestAway x d q

-- The sign of `a - b`.
abbrev pub compare_int : ℕ → ℕ → ℤ
compare_int a b = if ltb a b then negsuc 0 else if a == b then pos 0 else pos 1

-- The ternary value is the sign of the rounded minus the exact number; RNDF leaves it open.
abbrev pub IsTernary : Rnd → Sign → ℕ → ℕ → ℕ → ℤ → Type 0
IsTernary rnd s x d q t =
    if is_rndf rnd then Unit {0} else (t ≡ with_sign s (compare_int (q * d) x))

-- `x` is the normalized one-limb number `n * 2 ^ (e - 64)`.
pub record IsValue (x : Mpfr) (n : ℕ) (e : ℤ) : Type 0 where
  pub limb : ℕ
  pub shift : ℕ
  pub exponent : x.exp ≡ num (e +ℤ pos shift)
  pub limbs : x.mant ≡ limb ∷ []
  pub scaled : limb * 2 ^ shift ≡ n
  pub normalized : 2 ^ 63 ≤ limb
  pub bounded : limb < 2 ^ 64
