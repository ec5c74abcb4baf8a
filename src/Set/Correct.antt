-- ===== src/Set/Correct.antt =====
-- `mpfr_set4` rounds to a smaller precision and extends to a larger one.
use mathlib.Core.Path.{subst}
use native.Mathlib.Decide.{ℕ_discrete}
use mpfr.Base.{
  ℕ, zero, suc, ◌+◌, ◌-◌, ◌*◌, ◌/◌, ◌^◌, ◌≤◌, ◌<◌, ◌≡◌, ◌≢◌, refl, sym, ap, ◌∙◌, arith, List, ◌++◌,
  get_or, drop, replicate, length, length-drop, ◌==◌, leb, bit_and, Bool-cases, inl, inr, true,
  false, ◌||◌, ==_iff, lt→ltb,
}
use mpfr.Base.{ℤ, pos, ◌≤ℤ◌}
use mpfr.Words.Update.{get_replicated}
use mpfr.Words.Value.{low_value, low_value-drop, get-drop, drop-IsLimbs, IsLimbs}
use mpfr.Types.{Rnd, rndna, is_rndn, Sign, is_neg, num, Mpfr, Env, prec2limbs}
use mpfr.Rounding.{verdict}
use mpfr.Rounding.Decision.{IsEvenFlag, verdict_rounds, verdict-IsTernary}
use mpfr.Compare.Magnitude.{IsRegular}
use mpfr.Next.{Mpn, unused_bits}
use mpfr.Next.Neighbour.{IsMpn}
use mpfr.Set.{Bits, round_bits, rndraw_verdict, store_rndraw, rndraw, set4_field, set4}
use mpfr.Set.Sticky.{round_bits-IsDecided, round_bits-ulp}
use mpfr.Set.Masked.{unit_bit-IsEvenFlag}
use mpfr.Set.Rounded.{IsStored, rndraw_verdict_lem, verdict_decided, store_rndraw-IsStored}

-- The number of limbs that the target does not keep.
abbrev pub skipped : Mpfr → Mpfr → ℕ
skipped a b = prec2limbs b.prec - prec2limbs a.prec

module _ (g : Mpn) (laws : IsMpn g) (a b : Mpfr) (rnd : Rnd) (supported : rnd ≢ rndna) (s : Sign)
    (e : Env) (bx : ℤ) (h : IsRegular b bx) (sized : length b.mant ≡ prec2limbs b.prec)
    (pos_a : 0 < a.prec) (less : a.prec < b.prec) (in_range : bx ≤ℤ e.emax) where
  abbrev n : ℕ
  n = prec2limbs a.prec - 1

  abbrev sh : ℕ
  sh = unused_bits a

  abbrev skip : ℕ
  skip = skipped a b

  sizes : (prec2limbs a.prec ≡ suc n) × (prec2limbs b.prec ≡ skip + suc n)
  sizes = omega arith

  whole_limbs : sh ≡ 0 → 0 < skip
  whole_limbs z = omega arith

  narrow : sh < 64
  narrow = omega arith

  limbs : IsLimbs (drop skip b.mant)
  limbs = drop-IsLimbs skip b.mant h.limbs

  kept : length (drop skip b.mant) ≡ suc n
  kept = length-drop skip b.mant ∙ omega (arith, sized, sizes)

  abbrev bits : Bits
  bits = round_bits rnd b.mant skip sh

  abbrev odd : ℕ
  odd = bit_and (get_or b.mant skip 0) (2 ^ sh)

  even : IsEvenFlag odd (low_value (drop skip b.mant) (suc n) / 2 ^ sh)
  even =
      let e : skip + 0 ≡ skip = omega arith in
      let first : get_or (drop skip b.mant) 0 0 ≡ get_or b.mant skip 0 =
        get-drop skip b.mant 0 ∙ ap (λ t. get_or b.mant t 0) e in
      rw first at (unit_bit-IsEvenFlag (drop skip b.mant) n sh narrow)

  -- The choice is that of the full sticky bits `sb`.
  choice :
      (sb : ℕ)
      → ((is_rndn rnd || bits.rb == 0) ≡ true → sb ≡ bits.sb)
      → rndraw_verdict rnd (is_neg s) odd bits.rb bits.sb ≡ verdict rnd (is_neg s) odd bits.rb sb
  choice sb same =
      rndraw_verdict_lem rnd (is_neg s) odd bits.rb bits.sb
      ∙ elim (Bool-cases (is_rndn rnd || bits.rb == 0)) [
        | inl full ↦ ap (verdict rnd (is_neg s) odd bits.rb) (sym (same full))
        | inr decides ↦ verdict_decided rnd (is_neg s) odd bits.rb bits.sb sb decides
      ]

  rounded :
      IsStored
        (record a { sign = s })
        rnd
        (low_value b.mant (skip + suc n))
        (2 ^ sh * 2 ^ (64 * skip))
        bx
        sh
        (suc n)
        e
        (rndraw g (record a { sign = s }) rnd bx b.mant b.prec e)
  unfolding rndraw
  rounded =
      let (sb, captured, same) =
        round_bits-IsDecided rnd b.mant h.limbs skip n sh narrow whole_limbs in
      let shorter : leb b.prec a.prec ≡ false = ground arith in
      let v = verdict rnd (is_neg s) odd bits.rb sb in
      let value : rndraw g (record a { sign = s }) rnd bx b.mant b.prec e
          ≡ store_rndraw g v (record a { sign = s }) rnd bx (drop skip b.mant) (2 ^ sh) e =
        rw (shorter, round_bits-ulp rnd b.mant h.limbs skip n sh narrow, choice sb same) in
      rw value (
        store_rndraw-IsStored g laws (record a { sign = s }) rnd (low_value b.mant (skip + suc n))
          (2 ^ sh * 2 ^ (64 * skip)) bx sh n e in_range (drop skip b.mant) limbs kept narrow sizes.0
          v (verdict_rounds _ _ _ bits.rb sb odd captured even rnd (is_neg s) supported)
          (verdict-IsTernary _ _ _ bits.rb sb odd captured even rnd s))

-- For a regular `b` of more bits than `a`, whose exponent is at most `emax`, `mpfr_set4` delivers
-- the rounding of the magnitude of `b` to the precision of `a` with the sign `s`: its exponent,
-- limbs, ternary value and flags, or an overflow exactly if the exponent grows beyond `emax`.
pub set4-IsStored :
    (g : Mpn) (a b : Mpfr) (rnd : Rnd) (s : Sign) (e : Env) (bx : ℤ)
    → IsMpn g
    → rnd ≢ rndna
    → IsRegular b bx
    → length b.mant ≡ prec2limbs b.prec
    → 0 < a.prec
    → a.prec < b.prec
    → bx ≤ℤ e.emax
    → IsStored
        (record a { sign = s })
        rnd
        (low_value b.mant (prec2limbs b.prec))
        (2 ^ unused_bits a * 2 ^ (64 * skipped a b))
        bx
        (unused_bits a)
        (prec2limbs a.prec)
        e
        (set4 g a b rnd s e)
unfolding set4 set4_field
set4-IsStored g a b rnd s e bx laws supported h sized pos_a less in_range =
    let differ : (b.prec == a.prec) ≡ false = ground arith in
    let value : set4 g a b rnd s e ≡ rndraw g (record a { sign = s }) rnd bx b.mant b.prec e =
      rw (h.exponent, differ) in
    let (na, nb) = sizes g laws a b rnd supported s e bx h sized pos_a less in_range in
    let a' = record a { sign = s } in
    let d = 2 ^ unused_bits a * 2 ^ (64 * skipped a b) in
    let r = rndraw g a' rnd bx b.mant b.prec e in
    rw value (
      subst (λ k. IsStored a' rnd (low_value b.mant (prec2limbs b.prec)) d bx (unused_bits a) k e r)
        (sym na)
        (subst
          (λ m.
            IsStored a' rnd (low_value b.mant m) d bx (unused_bits a) (suc (prec2limbs a.prec - 1))
              e r)
          (sym nb) (rounded g laws a b rnd supported s e bx h sized pos_a less in_range)))

zero_limbs : (k : ℕ) (src : List ℕ) (i : ℕ) → i ≤ k → low_value (replicate k 0 ++ src) i ≡ 0
unfolding low_value
zero_limbs k src zero h = refl
zero_limbs k src (suc i) h =
    let none : get_or (replicate k 0 ++ src) i 0 ≡ 0 =
      get_replicated k 0 src i ∙ rw (lt→ltb i k h) in
    rw (none, zero_limbs k src i (omega arith)) (omega arith)

drop_zeros : (k : ℕ) (src : List ℕ) → drop k (replicate k 0 ++ src) ≡ src
drop_zeros zero src = refl
drop_zeros (suc k) src = drop_zeros k src

pub extended :
    (k m : ℕ) (src : List ℕ)
    → low_value (replicate k 0 ++ src) (k + m) ≡ low_value src m * 2 ^ (64 * k)
extended k m src =
    low_value-drop (replicate k 0 ++ src) k m
    ∙ rw (drop_zeros k src, zero_limbs k src k (omega arith)) (omega arith)

-- For a regular `b` of at most as many bits as `a`, `mpfr_set4` copies the number with the sign `s`
-- and without a flag: the limbs of `a` stand for the number of those of `b`, extended by zeros.
pub set4_exact :
    (g : Mpn) (a b : Mpfr) (rnd : Rnd) (s : Sign) (e : Env) (bx : ℤ)
    → b.exp ≡ num bx
    → b.prec ≤ a.prec
    → let r = set4 g a b rnd s e in
      (r.x.exp ≡ num bx)
      × (r.x.sign ≡ s)
      × (r.x.prec ≡ a.prec)
      × (low_value r.x.mant (prec2limbs a.prec)
          ≡ low_value b.mant (prec2limbs b.prec)
            * 2 ^ (64 * (prec2limbs a.prec - prec2limbs b.prec)))
      × (r.inex ≡ pos 0)
      × (r.env ≡ e)
unfolding set4 set4_field rndraw
set4_exact g a b rnd s e bx exponent more = elim (ℕ_discrete b.prec a.prec) [
  | yes same ↦
      let equal : (b.prec == a.prec) ≡ true = (==_iff b.prec a.prec).1 same in
      let none : prec2limbs a.prec - prec2limbs a.prec ≡ 0 = omega arith in
      rw (exponent, equal, same, none) (refl, refl, refl, omega arith, refl, refl)
  | no differ ↦
      let unequal : (b.prec == a.prec) ≡ false = ground arith in
      let fits : leb b.prec a.prec ≡ true = ground arith in
      let k = prec2limbs a.prec - prec2limbs b.prec in
      let size : prec2limbs a.prec ≡ k + prec2limbs b.prec = omega arith in
      rw (exponent, unequal, fits)
        (
          refl,
          refl,
          refl,
          ap (low_value (replicate k 0 ++ b.mant)) size ∙ extended k (prec2limbs b.prec) b.mant,
          refl,
          refl,
        )
]
