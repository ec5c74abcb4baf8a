-- ===== src/Rounding/Limb.antt =====
-- `round_limb` delivers the correctly rounded number, or calls `overflow` exactly if that number
-- has an exponent beyond `emax`.
use native.Mathlib.Nat.{mod-eq_of_lt, mul-le-mul_right, mul-div_cancel}
use native.Mathlib.Nat.{lt_of_mul-lt-mul_right}
use native.Mathlib.Decide.{dec_lt}
use mpfr.Base.{ℕ, zero, suc, ◌+◌, ◌-◌, ◌*◌, ◌/◌, ◌%◌, ◌^◌, ◌≤◌, ◌<◌, ◌≡◌, ◌≢◌, refl, sym, ap, ◌∙◌}
use mpfr.Base.{inl, inr, false, [], ◌∷◌, ◌==◌, if◌then◌else◌, arith, bit_and}
use mpfr.Base.{ℤ, pos, neg_ℤ, ◌+ℤ◌, ◌≤ℤ◌, ◌<ℤ◌, leb_ℤ, eqb_ℤ, int_laws, pow-split, pow-pos}
use mpfr.Base.{Bool-cases, leb, leb→le}
use mpfr.Words.{limb_mod, limb_highbit, shl, shl-one, and_bit}
use mpfr.Types.{Rnd, rndna, is_neg, sign_int, num, Mpfr, Env, Out, raise, ret}
use mpfr.Types.{flags_inexact}
use mpfr.Exceptions.{overflow}
use mpfr.Rounding.{Verdict, exact, truncate, add_one_ulp, verdict, carry_out, apply_verdict}
use mpfr.Rounding.{round_limb}
use mpfr.Rounding.Spec.{RoundsTo, IsTernary, IsValue}
use mpfr.Rounding.Decision.{
  Captures, IsEvenFlag, chosen, outcome, verdict_rounds, verdict-IsTernary,
}

-- The state after a nonzero ternary value.
abbrev pub settle : ℤ → Env → Env
settle t e = if eqb_ℤ t (pos 0) then e else raise flags_inexact e

-- The exponent of `n * 2 ^ (ax - 64)`, which is `ax` unless `n` has reached 2 ^ 64.
abbrev pub exponent_of : ℕ → ℤ → ℤ
exponent_of n ax = if n == limb_mod then ax +ℤ pos 1 else ax

-- `r` is the rounding of the exact significand `x` in units of `d`, for the target `a`: with an
-- exponent in range, its value, sign, precision, ternary value and flags; beyond it, `overflow`.
pub record IsRounded (a : Mpfr) (rnd : Rnd) (x d : ℕ) (ax : ℤ) (sh : ℕ) (e : Env) (r : Out)
    : Type 0 where
  pub units : ℕ
  pub rounds : RoundsTo rnd (is_neg a.sign) x d units
  pub fits :
      exponent_of (units * 2 ^ sh) ax ≤ℤ e.emax
      → IsValue r.x (units * 2 ^ sh) ax
        × (r.x.sign ≡ a.sign)
        × (r.x.prec ≡ a.prec)
        × IsTernary rnd a.sign x d units r.inex
        × (r.env ≡ settle r.inex e)
  pub overflows :
      e.emax <ℤ exponent_of (units * 2 ^ sh) ax
      → (y : Mpfr) × (y.prec ≡ a.prec) × (r ≡ overflow y rnd a.sign e)

-- A one-limb significand: `q` units of `1 << sh`, with the highest bit set.
pub record IsLimb (a0 q sh : ℕ) : Type 0 where
  pub narrow : sh < 64
  pub units : a0 ≡ q * 2 ^ sh
  pub normalized : 2 ^ 63 ≤ a0
  pub bounded : a0 < 2 ^ 64

pub +ℤ_zero : (z : ℤ) → z ≡ z +ℤ pos 0
+ℤ_zero z = omega int_laws

-- One more unit stays within 2 ^ 64.
pub units-lt : (a0 q sh : ℕ) → IsLimb a0 q sh → (q + 1) * 2 ^ sh ≤ 2 ^ 64
units-lt a0 q sh l = rw width (mul-le-mul_right {m = q + 1} {n = 2 ^ (64 - sh)} (2 ^ sh) small)
  where
    width : 2 ^ 64 ≡ 2 ^ (64 - sh) * 2 ^ sh
    width = omega (arith, pow-split 64 sh (omega (arith, l.narrow)))

    small : q + 1 ≤ 2 ^ (64 - sh)
    small =
        let lt : q < 2 ^ (64 - sh) =
          lt_of_mul-lt-mul_right (2 ^ sh) {m = q} {n = 2 ^ (64 - sh)}
            (omega (arith, width, l.units, l.bounded)) in
        omega arith

-- The last bit of the significand, in its place.
pub odd_bit : (a0 q sh : ℕ) → IsLimb a0 q sh → bit_and a0 (shl 1 sh) ≡ q % 2 * 2 ^ sh
odd_bit a0 q sh l =
    and_bit a0 sh l.narrow
    ∙ ap (λ t. t % 2 * 2 ^ sh)
        (ap (λ t. t / 2 ^ sh) l.units ∙ mul-div_cancel q {n = 2 ^ sh} (pow-pos sh))

factor_zero : (u t : ℕ) → 1 ≤ t → u * t ≡ 0 → u ≡ 0
factor_zero zero t h e = refl
factor_zero (suc u) t h e = absurd (omega arith)

-- So it tells whether `q` is even.
pub odd_bit-IsEvenFlag : (a0 q sh : ℕ) → IsLimb a0 q sh → IsEvenFlag (bit_and a0 (shl 1 sh)) q
odd_bit-IsEvenFlag a0 q sh l = (
  λ z. factor_zero (q % 2) (2 ^ sh) (pow-pos sh) (sym (odd_bit a0 q sh l) ∙ z),
  λ z. odd_bit a0 q sh l ∙ ap (λ t. t * 2 ^ sh) z ∙ omega arith,
)

not_leb : {m n : ℕ} → leb m n ≡ false → m ≤ n → ⊥
not_leb h k = ground arith

pub ret-x : (y : Mpfr) (t : ℤ) (e : Env) → (ret y t e).x ≡ y
ret-x y t e = ground arith

pub ret-inex : (y : Mpfr) (t : ℤ) (e : Env) → (ret y t e).inex ≡ t
ret-inex y t e = ground arith

pub ret-env : (y : Mpfr) (t : ℤ) (e : Env) → (ret y t e).env ≡ settle t e
ret-env y t e = ground arith

module _ (a : Mpfr) (rnd : Rnd) (x d : ℕ) (ax : ℤ) (sh : ℕ) (e : Env) where
  -- A number in range that is returned by `ret`.
  deliver :
      (q : ℕ) (y : Mpfr) (t : ℤ)
      → RoundsTo rnd (is_neg a.sign) x d q
      → IsTernary rnd a.sign x d q t
      → IsValue y (q * 2 ^ sh) ax
      → y.sign ≡ a.sign
      → y.prec ≡ a.prec
      → exponent_of (q * 2 ^ sh) ax ≤ℤ e.emax
      → IsRounded a rnd x d ax sh e (ret y t e)
  deliver q y t rounds ternary value same_sign same_prec in_range = record {
    units = q;
    rounds = rounds;
    fits = λ h. (
      rw (ret-x y t e) value,
      rw (ret-x y t e) same_sign,
      rw (ret-x y t e) same_prec,
      rw (ret-inex y t e) ternary,
      rw (ret-inex y t e) (ret-env y t e),
    );
    overflows = λ h. absurd (omega arith);
  }

  module _ (a0 q : ℕ) (l : IsLimb a0 q sh) (in_range : ax ≤ℤ e.emax) where
    same-IsValue : IsValue (record a { exp = num ax; mant = a0 ∷ [] }) (q * 2 ^ sh) ax
    same-IsValue = record {
      limb = a0;
      shift = 0;
      exponent = ap num (+ℤ_zero ax);
      limbs = refl;
      scaled = omega (arith, l.units);
      normalized = l.normalized;
      bounded = l.bounded;
    }

    same_exponent : exponent_of (q * 2 ^ sh) ax ≡ ax
    same_exponent = ground (arith, l.units, l.bounded)

    -- `exact` and `truncate` store `a0` as it is.
    keep :
        (t : ℤ)
        → RoundsTo rnd (is_neg a.sign) x d q
        → IsTernary rnd a.sign x d q t
        → IsRounded a rnd x d ax sh e (ret (record a { exp = num ax; mant = a0 ∷ [] }) t e)
    keep t rounds ternary =
        deliver q (record a { exp = num ax; mant = a0 ∷ [] }) t rounds ternary same-IsValue refl
          refl (rw same_exponent in_range)

    -- `add_one_ulp`, with no carry out of the limb.
    add_within :
        (a0 + 2 ^ sh < 2 ^ 64)
        → RoundsTo rnd (is_neg a.sign) x d (q + 1)
        → IsTernary rnd a.sign x d (q + 1) (sign_int a.sign)
        → IsRounded a rnd x d ax sh e (carry_out a rnd ax (a0 + 2 ^ sh) e)
    unfolding carry_out
    add_within small rounds ternary =
        let nonzero : (a0 + 2 ^ sh == 0) ≡ false = ground (arith, l.normalized) in
        let n : (q + 1) * 2 ^ sh ≡ a0 + 2 ^ sh = omega (arith, l.units) in
        rw nonzero (
          deliver (q + 1) (record a { exp = num ax; mant = (a0 + 2 ^ sh) ∷ [] }) (sign_int a.sign)
            rounds ternary (rw n stored) refl refl (rw (n, below) in_range))
      where
        below : (a0 + 2 ^ sh == limb_mod) ≡ false
        below = ground arith

        stored : IsValue (record a { exp = num ax; mant = (a0 + 2 ^ sh) ∷ [] }) (a0 + 2 ^ sh) ax
        stored = record {
          limb = a0 + 2 ^ sh;
          shift = 0;
          exponent = ap num (+ℤ_zero ax);
          limbs = refl;
          scaled = omega arith;
          normalized = omega (arith, l.normalized);
          bounded = small;
        }

    -- `add_one_ulp`, where the significand becomes the next power of two.
    add_carry :
        (a0 + 2 ^ sh ≡ 2 ^ 64)
        → RoundsTo rnd (is_neg a.sign) x d (q + 1)
        → IsTernary rnd a.sign x d (q + 1) (sign_int a.sign)
        → IsRounded a rnd x d ax sh e (carry_out a rnd ax 0 e)
    unfolding carry_out
    add_carry full rounds ternary = elim (Bool-cases (leb_ℤ (ax +ℤ pos 1) e.emax)) [
      | inl fits ↦ rw fits (
          deliver (q + 1) (record a { exp = num (ax +ℤ pos 1); mant = limb_highbit ∷ [] })
            (sign_int a.sign) rounds ternary (rw n next_power) refl refl (rw n (leb→le _ _ fits)))
      | inr beyond ↦ rw beyond (record {
        units = q + 1;
        rounds = rounds;
        fits = λ h. absurd (not_leb beyond (rw n at h));
        overflows = λ h. (record a { exp = num ax; mant = limb_highbit ∷ [] }, refl, refl);
      })
    ]
      where
        n : (q + 1) * 2 ^ sh ≡ 2 ^ 64
        n = omega (arith, l.units)

        next_power :
            IsValue (record a { exp = num (ax +ℤ pos 1); mant = limb_highbit ∷ [] }) (2 ^ 64) ax
        next_power = record {
          limb = limb_highbit;
          shift = 1;
          exponent = refl;
          limbs = refl;
          scaled = refl;
          normalized = omega arith;
          bounded = omega arith;
        }

    apply_verdict-IsRounded :
        (v : Verdict)
        → RoundsTo rnd (is_neg a.sign) x d (chosen v q)
        → IsTernary rnd a.sign x d (chosen v q) (outcome v a.sign)
        → IsRounded a rnd x d ax sh e (apply_verdict v a rnd ax sh a0 e)
    unfolding apply_verdict
    apply_verdict-IsRounded exact rounds ternary = keep (pos 0) rounds ternary
    apply_verdict-IsRounded truncate rounds ternary = keep (neg_ℤ (sign_int a.sign)) rounds ternary
    apply_verdict-IsRounded add_one_ulp rounds ternary = elim (dec_lt (a0 + 2 ^ sh) (2 ^ 64)) [
      | yes small ↦ rw (shl-one sh l.narrow, mod-eq_of_lt small) (add_within small rounds ternary)
      | no large ↦
          let full : a0 + 2 ^ sh ≡ 2 ^ 64 = omega (arith, units-lt a0 q sh l, l.units) in
          rw (shl-one sh l.narrow, full) (add_carry full rounds ternary)
    ]

  -- The significand `a0`, with round and sticky bits that capture the exact one, is rounded
  -- correctly in every mode.
  pub round_limb-IsRounded :
      (a0 q rb sb : ℕ)
      → rnd ≢ rndna
      → ax ≤ℤ e.emax
      → IsLimb a0 q sh
      → Captures x d q rb sb
      → IsRounded a rnd x d ax sh e (round_limb a rnd ax sh a0 rb sb e)
  unfolding round_limb
  round_limb-IsRounded a0 q rb sb supported in_range l c =
      apply_verdict-IsRounded a0 q l in_range (verdict rnd (is_neg a.sign) odd rb sb)
        (verdict_rounds x d q rb sb odd c even rnd (is_neg a.sign) supported)
        (verdict-IsTernary x d q rb sb odd c even rnd a.sign)
    where
      odd : ℕ
      odd = bit_and a0 (shl 1 sh)

      even : IsEvenFlag odd q
      even = odd_bit-IsEvenFlag a0 q sh l
