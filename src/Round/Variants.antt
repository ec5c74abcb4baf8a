-- ===== src/Round/Variants.antt =====
-- The three functions that src/round_prec.c compiles from src/round_raw_generic.c agree.
use mpfr.Base.{
  ℕ, ◌+◌, ◌*◌, ◌^◌, ◌<◌, ◌≡◌, refl, arith, List, length, leb, if◌then◌else◌, Bool, true, false,
}
use mpfr.Words.Value.{low_value, IsLimbs}
use mpfr.Types.{Rnd, rndn, rndz, rndu, rndd, rnda, rndf, rndna, is_rndf, is_like_rndz, prec2limbs}
use mpfr.Next.{Mpn}
use mpfr.Next.Neighbour.{IsMpn}
use mpfr.Round.{
  toward_zero, raw_choice, rest_bits, kept_limbs, round_raw_generic, round_raw, round_raw_4,
  round_raw_2,
}
use mpfr.Round.Masks.{cut_bits}
use mpfr.Round.Bits.{kept_lem}
use mpfr.Round.Correct.{q, round_raw_value}

module _ (neg : Bool) (xp : List ℕ) (xsize yprec : ℕ) where
  toward_zero_keeps :
      (rnd : Rnd) → is_like_rndz rnd neg ≡ true → (raw_choice rnd neg xp xsize yprec).up ≡ false
  unfolding raw_choice toward_zero
  toward_zero_keeps rndn h = cc
  toward_zero_keeps rndz h = refl
  toward_zero_keeps rndu h = rw h
  toward_zero_keeps rndd h = rw h
  toward_zero_keeps rnda h = cc
  toward_zero_keeps rndf h = cc
  toward_zero_keeps rndna h = cc

module _ (g : Mpn) (xp : List ℕ) (xprec yprec : ℕ) (neg : Bool) where
  without_inexp :
      (rnd : Rnd)
      → ((round_raw_4 g xp xprec neg yprec rnd).limbs ≡ (round_raw g xp xprec neg yprec rnd).limbs)
        × ((round_raw_4 g xp xprec neg yprec rnd).carry
            ≡ (round_raw g xp xprec neg yprec rnd).carry)
  unfolding round_raw_4 round_raw round_raw_generic
  without_inexp rndn = ground (arith, toward_zero_keeps neg xp (prec2limbs xprec) yprec rndn)
  without_inexp rndz = ground (arith, toward_zero_keeps neg xp (prec2limbs xprec) yprec rndz)
  without_inexp rndu = ground (arith, toward_zero_keeps neg xp (prec2limbs xprec) yprec rndu)
  without_inexp rndd = ground (arith, toward_zero_keeps neg xp (prec2limbs xprec) yprec rndd)
  without_inexp rnda = ground (arith, toward_zero_keeps neg xp (prec2limbs xprec) yprec rnda)
  without_inexp rndf = ground (arith, toward_zero_keeps neg xp (prec2limbs xprec) yprec rndz)
  without_inexp rndna = ground (arith, toward_zero_keeps neg xp (prec2limbs xprec) yprec rndna)

add_unit :
    (like up : Bool) (q w : ℕ)
    → (like ≡ true → up ≡ false)
    → (if up then q + 1 else q) * w ≡ q * w + (if like then 0 else if up then 1 else 0) * w
add_unit true true q w h = cc (h refl)
add_unit true false q w h = omega arith
add_unit false true q w h = omega arith
add_unit false false q w h = omega arith

module _ (g : Mpn) (xp : List ℕ) (xprec yprec : ℕ) (neg : Bool) (laws : IsMpn g)
    (limbs : IsLimbs xp) (sized : length xp ≡ prec2limbs xprec) (some : 0 < yprec)
    (less : yprec < xprec) where
  -- The number that `mpfr_round_raw` gives.
  abbrev number : Rnd → ℕ
  number rnd =
      low_value (round_raw g xp xprec neg yprec rnd).limbs (kept_limbs yprec)
      + (round_raw g xp xprec neg yprec rnd).carry * 2 ^ (64 * kept_limbs yprec)

  abbrev unit : ℕ
  unit = 2 ^ cut_bits (rest_bits yprec)

  decided_units :
      (rnd : Rnd)
      → is_rndf rnd ≡ false
      → number rnd ≡ number rndz + round_raw_2 xp xprec neg yprec rnd * unit
  unfolding round_raw_2
  decided_units rnd plain =
      let count = kept_lem xp limbs (prec2limbs xprec) yprec some (omega arith) in
      let longer : leb xprec yprec ≡ false = ground arith in
      let this = round_raw_value g laws xp xprec yprec neg limbs sized some less rnd plain in
      let down = round_raw_value g laws xp xprec yprec neg limbs sized some less rndz refl in
      let none = toward_zero_keeps neg xp (prec2limbs xprec) yprec rndz refl in
      let keeps = toward_zero_keeps neg xp (prec2limbs xprec) yprec rnd in
      rw (count, this, down, longer, none) (add_unit (is_like_rndz rnd neg) _ _ _ keeps)

  -- RNDF cuts.
  faithful_cut : number rndf ≡ number rndz
  unfolding round_raw round_raw_generic
  faithful_cut =
      let longer : leb xprec yprec ≡ false = ground arith in
      let none = toward_zero_keeps neg xp (prec2limbs xprec) yprec rndz refl in
      rw (longer, none) refl

  added :
      (rnd : Rnd)
      → number rnd
        ≡ number rndz + (if is_rndf rnd then 0 else round_raw_2 xp xprec neg yprec rnd) * unit
  added rndn = decided_units rndn refl
  added rndz = decided_units rndz refl
  added rndu = decided_units rndu refl
  added rndd = decided_units rndd refl
  added rnda = decided_units rnda refl
  added rndf = omega (arith, faithful_cut)
  added rndna = decided_units rndna refl

-- For a significand of `xprec` bits that is rounded to fewer, at least one, `mpfr_round_raw_4` gives in
-- every mode the limbs and the carry of `mpfr_round_raw`. The units that `mpfr_round_raw` adds to what
-- it gives in RNDZ are those that `mpfr_round_raw_2` tells, and none in RNDF, which is not allowed for
-- `mpfr_round_raw_2`.
pub round_raw_variants :
    (g : Mpn) (xp : List ℕ) (xprec yprec : ℕ) (neg : Bool) (rnd : Rnd)
    → IsMpn g
    → IsLimbs xp
    → length xp ≡ prec2limbs xprec
    → 0 < yprec
    → yprec < xprec
    → ((round_raw_4 g xp xprec neg yprec rnd).limbs ≡ (round_raw g xp xprec neg yprec rnd).limbs)
      × ((round_raw_4 g xp xprec neg yprec rnd).carry ≡ (round_raw g xp xprec neg yprec rnd).carry)
      × (low_value (round_raw g xp xprec neg yprec rnd).limbs (kept_limbs yprec)
            + (round_raw g xp xprec neg yprec rnd).carry * 2 ^ (64 * kept_limbs yprec)
          ≡ low_value (round_raw g xp xprec neg yprec rndz).limbs (kept_limbs yprec)
            + (round_raw g xp xprec neg yprec rndz).carry * 2 ^ (64 * kept_limbs yprec)
            + (if is_rndf rnd then 0 else round_raw_2 xp xprec neg yprec rnd)
              * 2 ^ cut_bits (rest_bits yprec))
round_raw_variants g xp xprec yprec neg rnd laws limbs sized some less =
    let (same_limbs, same_carry) = without_inexp g xp xprec yprec neg rnd in
    (same_limbs, same_carry, added g xp xprec yprec neg laws limbs sized some less rnd)
