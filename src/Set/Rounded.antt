-- ===== src/Set/Rounded.antt =====
-- `MPFR_RNDRAW` rounds correctly, in any number of limbs.
use native.Mathlib.Nat.{div-add-mod'}
use mpfr.Base.{
  ℕ, suc, ◌+◌, ◌*◌, ◌/◌, ◌^◌, ◌<◌, ◌≡◌, refl, ap, arith, List, set, length, ◌==◌, ◌||◌, true, false,
  Bool, Bool-cases, inl, inr, if◌then◌else◌, ltb→lt, ltb→ge, ==_iff,
}
use mpfr.Base.{ℤ, pos, neg_ℤ, ◌+ℤ◌, ◌≤ℤ◌, ◌<ℤ◌, ltb_ℤ}
use mpfr.Words.{limb_highbit, bit_or_ge}
use mpfr.Words.Value.{low_value, low_value-lt, IsLimbs, pow-limb}
use mpfr.Types.{Rnd, is_rndn, is_neg, sign_int, num, Mpfr, Env, Out, ret, prec2limbs}
use mpfr.Exceptions.{overflow}
use mpfr.Rounding.{Verdict, exact, truncate, add_one_ulp, verdict}
use mpfr.Rounding.Spec.{RoundsTo, IsTernary}
use mpfr.Rounding.Decision.{chosen, outcome}
use mpfr.Rounding.Limb.{ret-x, ret-inex, ret-env, settle}
use mpfr.Rounding.Cut.{bit_or_zeros}
use mpfr.Next.{Mpn, last_limb}
use mpfr.Next.Neighbour.{IsMpn}
use mpfr.Set.{mask_first, rndraw_verdict, store_rndraw}
use mpfr.Set.Masked.{mask_first_lem, sum_within, sum_beyond}

-- `r` is the rounding of the exact significand `x` in units of `d` to the `n` limbs of `a`, of which
-- the lowest has `sh` bits unused: its exponent, value, sign, precision, ternary value and flags, or
-- an overflow. Rounding up to a power of two gives the exponent one more.
pub record IsStored (a : Mpfr) (rnd : Rnd) (x d : ℕ) (ax : ℤ) (sh n : ℕ) (e : Env) (r : Out)
    : Type 0 where
  pub units : ℕ
  pub rounds : RoundsTo rnd (is_neg a.sign) x d units
  pub fits :
      (if units * 2 ^ sh == 2 ^ (64 * n) then ax +ℤ pos 1 else ax) ≤ℤ e.emax
      → (r.x.exp ≡ num (if units * 2 ^ sh == 2 ^ (64 * n) then ax +ℤ pos 1 else ax))
        × (2 * low_value r.x.mant n
            ≡ (if units * 2 ^ sh == 2 ^ (64 * n) then 2 ^ (64 * n) else 2 * (units * 2 ^ sh)))
        × (r.x.sign ≡ a.sign)
        × (r.x.prec ≡ a.prec)
        × IsTernary rnd a.sign x d units r.inex
        × (r.env ≡ settle r.inex e)
  pub overflows :
      e.emax <ℤ (if units * 2 ^ sh == 2 ^ (64 * n) then ax +ℤ pos 1 else ax)
      → (y : Mpfr) × (y.prec ≡ a.prec) × (r ≡ overflow y rnd a.sign e)

-- The jumps of the macro make the same choice as the code for one limb.
pub rndraw_verdict_lem :
    (rnd : Rnd) (neg : Bool) (odd rb sb : ℕ)
    → rndraw_verdict rnd neg odd rb sb ≡ verdict rnd neg odd rb sb
unfolding rndraw_verdict verdict
rndraw_verdict_lem rnd neg odd rb sb = ground (arith, bit_or_ge sb rb, bit_or_zeros sb rb)

-- In the directed modes a round bit that is set decides.
pub verdict_decided :
    (rnd : Rnd) (neg : Bool) (odd rb sb sb' : ℕ)
    → (is_rndn rnd || rb == 0) ≡ false
    → verdict rnd neg odd rb sb ≡ verdict rnd neg odd rb sb'
unfolding verdict
verdict_decided rnd neg odd rb sb sb' h = ground arith

module _ (g : Mpn) (laws : IsMpn g) (a : Mpfr) (rnd : Rnd) (x d : ℕ) (ax : ℤ) (sh n : ℕ) (e : Env)
    (in_range : ax ≤ℤ e.emax) where
  -- A result that is not a power of two above the range.
  within :
      (q : ℕ) (y : Mpfr) (t : ℤ)
      → RoundsTo rnd (is_neg a.sign) x d q
      → IsTernary rnd a.sign x d q t
      → q * 2 ^ sh < 2 ^ (64 * n)
      → y.exp ≡ num ax
      → low_value y.mant n ≡ q * 2 ^ sh
      → y.sign ≡ a.sign
      → y.prec ≡ a.prec
      → IsStored a rnd x d ax sh n e (ret y t e)
  within q y t rounds ternary small exponent value same_sign same_prec =
      let part : (q * 2 ^ sh == 2 ^ (64 * n)) ≡ false = ground arith in
      record {
        units = q;
        rounds = rounds;
        fits = λ h. rw part (
          rw (ret-x y t e) exponent,
          rw (ret-x y t e) (ap (λ v. 2 * v) value),
          rw (ret-x y t e) same_sign,
          rw (ret-x y t e) same_prec,
          rw (ret-inex y t e) ternary,
          rw (ret-inex y t e) (ret-env y t e),
        );
        overflows = rw part (λ h. absurd (omega (arith, in_range)));
      }

  -- A result that is the next power of two.
  next_power :
      (q : ℕ) (y z : Mpfr) (t : ℤ)
      → RoundsTo rnd (is_neg a.sign) x d q
      → IsTernary rnd a.sign x d q t
      → q * 2 ^ sh ≡ 2 ^ (64 * n)
      → y.exp ≡ num (ax +ℤ pos 1)
      → 2 * low_value y.mant n ≡ 2 ^ (64 * n)
      → y.sign ≡ a.sign
      → y.prec ≡ a.prec
      → z.prec ≡ a.prec
      → IsStored a rnd x d ax sh n e
          (if ltb_ℤ e.emax (ax +ℤ pos 1) then overflow z rnd a.sign e else ret y t e)
  next_power q y z t rounds ternary full exponent value same_sign same_prec same_prec' =
      let whole : (q * 2 ^ sh == 2 ^ (64 * n)) ≡ true = (==_iff _ _).1 full in
      elim (Bool-cases (ltb_ℤ e.emax (ax +ℤ pos 1))) [
        | inl beyond ↦ rw beyond (record {
          units = q;
          rounds = rounds;
          fits = rw whole (λ h. absurd (omega (arith, ltb→lt _ _ beyond)));
          overflows = λ h. (z, same_prec', refl);
        })
        | inr fitting ↦ rw fitting (record {
          units = q;
          rounds = rounds;
          fits = λ h. rw whole (
            rw (ret-x y t e) exponent,
            rw (ret-x y t e) value,
            rw (ret-x y t e) same_sign,
            rw (ret-x y t e) same_prec,
            rw (ret-inex y t e) ternary,
            rw (ret-inex y t e) (ret-env y t e),
          );
          overflows = rw whole (λ h. absurd (omega (arith, ltb→ge _ _ fitting)));
        })
      ]

-- The limbs `sp` that are kept, for a target of as many limbs.
module _ (g : Mpn) (laws : IsMpn g) (a : Mpfr) (rnd : Rnd) (x d : ℕ) (ax : ℤ) (sh n : ℕ) (e : Env)
    (in_range : ax ≤ℤ e.emax) (sp : List ℕ) (limbs : IsLimbs sp) (sized : length sp ≡ suc n)
    (narrow : sh < 64) (size : prec2limbs a.prec ≡ suc n) where
  abbrev q : ℕ
  q = low_value sp (suc n) / 2 ^ sh

  small : q * 2 ^ sh < 2 ^ (64 * suc n)
  small = omega (arith, div-add-mod' (low_value sp (suc n)) (2 ^ sh), low_value-lt sp (suc n) limbs)

  keep :
      (t : ℤ)
      → RoundsTo rnd (is_neg a.sign) x d q
      → IsTernary rnd a.sign x d q t
      → IsStored a rnd x d ax sh
          (suc n)
          e
          (ret (record a { exp = num ax; mant = mask_first (2 ^ sh) sp }) t e)
  keep t rounds ternary =
      within g laws a rnd x d ax sh (suc n) e in_range q
        (record a { exp = num ax; mant = mask_first (2 ^ sh) sp }) t rounds ternary small refl
        (mask_first_lem sp n sh limbs narrow) refl refl

  pub store_rndraw-IsStored :
      (v : Verdict)
      → RoundsTo rnd (is_neg a.sign) x d (chosen v q)
      → IsTernary rnd a.sign x d (chosen v q) (outcome v a.sign)
      → IsStored a rnd x d ax sh (suc n) e (store_rndraw g v a rnd ax sp (2 ^ sh) e)
  unfolding store_rndraw
  store_rndraw-IsStored exact rounds ternary = keep (pos 0) rounds ternary
  store_rndraw-IsStored truncate rounds ternary = keep (neg_ℤ (sign_int a.sign)) rounds ternary
  store_rndraw-IsStored add_one_ulp rounds ternary =
      let last : last_limb a ≡ n = omega (arith, size) in
      let sum = g.add_1 sp (2 ^ sh) in
      elim (Bool-cases (sum.1 == 0)) [
        | inl none ↦
            let (value, below) = sum_within g laws sp n sh limbs sized narrow none in
            rw none (
              within g laws a rnd x d ax sh (suc n) e in_range (q + 1)
                (record a { exp = num ax; mant = mask_first (2 ^ sh) sum.0 }) (sign_int a.sign)
                rounds ternary below refl value refl refl)
        | inr some ↦
            let (value, full) = sum_beyond g laws sp n sh limbs sized narrow some in
            rw (some, last)
              (next_power g laws a rnd x d ax sh (suc n) e in_range (q + 1)
                (record a {
                  exp = num (ax +ℤ pos 1);
                  mant = mask_first (2 ^ sh) (set sum.0 n limb_highbit);
                })
                (record a { exp = num (ax +ℤ pos 1); mant = set sum.0 n limb_highbit })
                (sign_int a.sign) rounds ternary full refl (omega (arith, value, pow-limb n)) refl
                refl refl)
      ]
