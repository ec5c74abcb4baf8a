-- ===== src/Round/Decide.antt =====
-- The choice of `mpfr_round_raw_generic` is correct rounding, with `MPFR_EVEN_INEX` for a tie.
use mpfr.Base.{
  ℕ, ◌+◌, ◌*◌, ◌≡◌, ◌≢◌, ◌↔◌, refl, arith, ◌==◌, ◌&&◌, ◌||◌, if◌then◌else◌, Bool, true, false, ℤ,
  pos, negsuc,
}
use mpfr.Types.{Rnd, rndn, rndz, rndu, rndd, rnda, rndf, rndna, is_rndn, is_rndna, is_like_rndz}
use mpfr.Rounding.Spec.{RoundsTo, compare_int}
use mpfr.Rounding.Decision.{Captures, IsEvenFlag}
use mpfr.Round.{Choice, signed, toward_zero, away_from_zero, nearest}

add_one_mul : (q d : ℕ) → (q + 1) * d ≡ q * d + d
add_one_mul q d = omega arith

-- The ternary value of the choice of `u` units `d` for `x`, which tells a tie in RNDN.
abbrev pub raw_inex : Rnd → Bool → ℕ → ℕ → ℕ → ℤ
raw_inex rnd neg x d u = signed neg (
    if is_rndn rnd && (2 * (u * d) == 2 * x + d)
    then pos 2
    else if is_rndn rnd && (2 * x == 2 * (u * d) + d)
    then negsuc 1
    else compare_int (u * d) x)

-- The units that the choice gives to a number with `q` whole units.
abbrev pub chosen : Choice → ℕ → ℕ
chosen c q = if c.up then q + 1 else q

-- The same code with its tests on the bits that decide: the round bit `rb`, the bits `sb` below it,
-- all of these, `below`, and the last bit that is kept.
abbrev pub decide : Rnd → Bool → ℕ → ℕ → ℕ → ℕ → Choice
decide rnd neg rb sb below odd =
    if is_rndn rnd || is_rndna rnd
    then if rb == 0 then toward_zero neg below else nearest rnd neg sb odd
    else if is_like_rndz rnd neg
    then toward_zero neg below
    else away_from_zero neg below

module _ (x d q rb sb below odd : ℕ) (c : Captures x d q rb sb) (even : IsEvenFlag odd q)
    (both : (below ≡ 0) ↔ ((rb ≡ 0) × (sb ≡ 0))) where
  pub decide_rounds :
      (rnd : Rnd) (neg : Bool)
      → rnd ≢ rndf
      → RoundsTo rnd neg x d (chosen (decide rnd neg rb sb below odd) q)
  unfolding toward_zero away_from_zero nearest
  decide_rounds rndn neg h = ground (arith, add_one_mul q d)
  decide_rounds rndz neg h = ground (arith, add_one_mul q d)
  decide_rounds rndu true h = ground (arith, add_one_mul q d)
  decide_rounds rndu false h = ground (arith, add_one_mul q d)
  decide_rounds rndd true h = ground (arith, add_one_mul q d)
  decide_rounds rndd false h = ground (arith, add_one_mul q d)
  decide_rounds rnda neg h = ground (arith, add_one_mul q d)
  decide_rounds rndf neg h = absurd (h refl)
  decide_rounds rndna neg h = ground (arith, add_one_mul q d)

  pub decide_inexp :
      (rnd : Rnd) (neg : Bool)
      → rnd ≢ rndf
      → rnd ≢ rndna
      → (decide rnd neg rb sb below odd).inexp
        ≡ raw_inex rnd neg x d (chosen (decide rnd neg rb sb below odd) q)
  unfolding toward_zero away_from_zero nearest
  decide_inexp rndn true h k = ground (arith, add_one_mul q d)
  decide_inexp rndn false h k = ground (arith, add_one_mul q d)
  decide_inexp rndz neg h k = ground (arith, add_one_mul q d)
  decide_inexp rndu true h k = ground (arith, add_one_mul q d)
  decide_inexp rndu false h k = ground (arith, add_one_mul q d)
  decide_inexp rndd true h k = ground (arith, add_one_mul q d)
  decide_inexp rndd false h k = ground (arith, add_one_mul q d)
  decide_inexp rnda neg h k = ground (arith, add_one_mul q d)
  decide_inexp rndf neg h k = absurd (h refl)
  decide_inexp rndna neg h k = absurd (k refl)
