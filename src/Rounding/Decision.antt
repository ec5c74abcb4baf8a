-- ===== src/Rounding/Decision.antt =====
-- The round and sticky bits decide the rounding: whatever significand they describe, the verdict
-- gives the correctly rounded multiple and the ternary value.
use mpfr.Base.{ℕ, ◌+◌, ◌*◌, ◌%◌, ◌<◌, ◌≡◌, ◌≢◌, refl, Bool, true, false}
use mpfr.Base.{ℤ, pos, neg_ℤ, ◌==◌, if◌then◌else◌, arith}
use mpfr.Types.{Rnd, rndn, rndz, rndu, rndd, rnda, rndf, rndna, Sign, is_neg, sign_int}
use mpfr.Rounding.{Verdict, exact, truncate, add_one_ulp, verdict}
use mpfr.Rounding.Spec.{RoundsTo, IsTernary}

add_one_mul : (q d : ℕ) → (q + 1) * d ≡ q * d + d
add_one_mul q d = omega arith

-- `x` lies at `q` units of size `d`, plus half a unit if `rb` is set, plus a part below half a unit
-- that is zero exactly if `sb` is.
pub record Captures (x d q rb sb : ℕ) : Type 0 where
  pub half : ℕ
  pub low : ℕ
  pub unit : d ≡ half + half
  pub position : x ≡ q * d + (if rb == 0 then 0 else half) + low
  pub below : low < half
  pub sticky : sb ≡ 0 → low ≡ 0
  pub clear : low ≡ 0 → sb ≡ 0

-- The multiple that a verdict chooses, and the ternary value that goes with it.
abbrev pub chosen : Verdict → ℕ → ℕ
chosen exact q = q
chosen truncate q = q
chosen add_one_ulp q = q + 1

abbrev pub outcome : Verdict → Sign → ℤ
outcome exact s = pos 0
outcome truncate s = neg_ℤ (sign_int s)
outcome add_one_ulp s = sign_int s

abbrev pub IsEvenFlag : ℕ → ℕ → Type 0
IsEvenFlag odd q = (odd ≡ 0 → q % 2 ≡ 0) × (q % 2 ≡ 0 → odd ≡ 0)

module _ (x d q rb sb odd : ℕ) (c : Captures x d q rb sb) (ev : IsEvenFlag odd q) where
  pub verdict_rounds :
      (rnd : Rnd) (neg : Bool)
      → rnd ≢ rndna
      → RoundsTo rnd neg x d (chosen (verdict rnd neg odd rb sb) q)
  unfolding verdict
  verdict_rounds rndn neg h = ground (arith, add_one_mul q d)
  verdict_rounds rndz neg h = ground (arith, add_one_mul q d)
  verdict_rounds rndu true h = ground (arith, add_one_mul q d)
  verdict_rounds rndu false h = ground (arith, add_one_mul q d)
  verdict_rounds rndd true h = ground (arith, add_one_mul q d)
  verdict_rounds rndd false h = ground (arith, add_one_mul q d)
  verdict_rounds rnda neg h = ground (arith, add_one_mul q d)
  verdict_rounds rndf neg h = ground (arith, add_one_mul q d)
  verdict_rounds rndna neg h = absurd (h refl)

  pub verdict-IsTernary :
      (rnd : Rnd) (s : Sign)
      → IsTernary rnd s x d
          (chosen (verdict rnd (is_neg s) odd rb sb) q)
          (outcome (verdict rnd (is_neg s) odd rb sb) s)
  unfolding verdict
  verdict-IsTernary rndn s = ground (arith, add_one_mul q d)
  verdict-IsTernary rndz s = ground (arith, add_one_mul q d)
  verdict-IsTernary rndu s = ground (arith, add_one_mul q d)
  verdict-IsTernary rndd s = ground (arith, add_one_mul q d)
  verdict-IsTernary rnda s = ground (arith, add_one_mul q d)
  verdict-IsTernary rndf s = tt
  verdict-IsTernary rndna s = ground (arith, add_one_mul q d)
