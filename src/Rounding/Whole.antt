-- ===== src/Rounding/Whole.antt =====
-- A significand of exactly one limb: the round bit is the highest of the limb below, and the sticky
-- bits are the others (`sb & MPFR_LIMB_HIGHBIT` and `sb & ~MPFR_LIMB_HIGHBIT`).
use native.Mathlib.Nat.{div-lt_iff_lt-mul, mod-lt, div-add-mod', mul-lt-mul_of_pos_right}
use mpfr.Base.{ℕ, zero, suc, ◌+◌, ◌-◌, ◌*◌, ◌/◌, ◌%◌, ◌^◌, ◌≤◌, ◌<◌, ◌≡◌, sym, ap, ◌∙◌, ◌==◌}
use mpfr.Base.{
  if◌then◌else◌, bit_and, arith, pow-pos, pow-suc_double, pow-split, div_unique, mod_unique,
}
use mpfr.Words.{limb_highbit, lnot, limb_mask_lem, and_bit, and_mask}
use mpfr.Rounding.Decision.{Captures}
use mpfr.Rounding.Limb.{IsLimb}
use mpfr.Rounding.Cut.{factor_zero}

pub high_bit : (a : ℕ) → bit_and a limb_highbit ≡ a / 2 ^ 63 % 2 * 2 ^ 63
high_bit a = and_bit a 63 (omega arith)

pub low_bits : (a : ℕ) → bit_and a (lnot limb_highbit) ≡ a % 2 ^ 63
low_bits a = ap (bit_and a) (sym (limb_mask_lem 63 (omega arith))) ∙ and_mask a 63 (omega arith)

pub whole-IsLimb : (a0 : ℕ) → 2 ^ 63 ≤ a0 → a0 < 2 ^ 64 → IsLimb a0 a0 0
whole-IsLimb a0 h k = record {
  narrow = omega arith;
  units = omega arith;
  normalized = h;
  bounded = k;
}

pub half_if : (b h : ℕ) → b < 2 → (if b % 2 * 2 ^ 63 == 0 then 0 else h) ≡ b * h
half_if zero h l = omega arith
half_if (suc zero) h l = ground arith
half_if (suc (suc b)) h l = absurd (omega arith)

-- `rest`, of `suc k` bits, in the highest places of a limb.
module _ (rest k : ℕ) (small : rest < 2 ^ suc k) (narrow : k < 64) where
  abbrev placed : ℕ
  placed = rest * 2 ^ (63 - k)

  places : 2 ^ 63 ≡ 2 ^ k * 2 ^ (63 - k)
  places = pow-split 63 k (omega arith)

  parts : rest ≡ rest / 2 ^ k * 2 ^ k + rest % 2 ^ k
  parts = sym (div-add-mod' rest (2 ^ k))

  whole : placed ≡ rest / 2 ^ k * 2 ^ 63 + rest % 2 ^ k * 2 ^ (63 - k)
  whole = omega (arith, ap (λ t. rest / 2 ^ k * t) places, ap (λ t. t * 2 ^ (63 - k)) parts)

  low-lt : rest % 2 ^ k * 2 ^ (63 - k) < 2 ^ 63
  low-lt = rw places (
      mul-lt-mul_of_pos_right {m = rest % 2 ^ k} {n = 2 ^ k} {k = 2 ^ (63 - k)}
        (mod-lt rest {m = 2 ^ k} (pow-pos k)) (pow-pos (63 - k)))

  round_part : bit_and placed limb_highbit ≡ rest / 2 ^ k % 2 * 2 ^ 63
  round_part =
      high_bit placed
      ∙ ap (λ t. t % 2 * 2 ^ 63)
          (div_unique placed (2 ^ 63) (rest / 2 ^ k) (rest % 2 ^ k * 2 ^ (63 - k)) whole low-lt)

  sticky_bits : bit_and placed (lnot limb_highbit) ≡ rest % 2 ^ k * 2 ^ (63 - k)
  sticky_bits =
      low_bits placed
      ∙ mod_unique placed (2 ^ 63) (rest / 2 ^ k) (rest % 2 ^ k * 2 ^ (63 - k)) whole low-lt

  bit-lt : rest / 2 ^ k < 2
  bit-lt =
      (div-lt_iff_lt-mul {k = 2 ^ k} {x = rest} {y = 2} (pow-pos k)).1
        (omega (arith, pow-suc_double k))

  -- The two bits capture `a0 * 2 ^ suc k + rest`.
  pub whole-Captures :
      (x a0 : ℕ)
      → x ≡ a0 * 2 ^ suc k + rest
      → Captures x
          (2 ^ 0 * 2 ^ suc k)
          a0
          (bit_and placed limb_highbit)
          (bit_and placed (lnot limb_highbit))
  whole-Captures x a0 e =
      rw (round_part, sticky_bits)
        (record {
          half = 2 ^ k;
          low = rest % 2 ^ k;
          unit = omega (arith, pow-suc_double k);
          position = rw (half_if (rest / 2 ^ k) (2 ^ k) bit-lt) (omega (arith, e, parts));
          below = mod-lt rest {m = 2 ^ k} (pow-pos k);
          sticky = λ z. factor_zero (rest % 2 ^ k) (2 ^ (63 - k)) (pow-pos (63 - k)) z;
          clear = λ z. rw z (omega arith);
        })

-- The same for `d` bits, where `d` is not zero.
pub whole-Captures_at :
    (x a0 rest d : ℕ)
    → 0 < d
    → d ≤ 64
    → rest < 2 ^ d
    → x ≡ a0 * 2 ^ d + rest
    → Captures x
        (2 ^ 0 * 2 ^ d)
        a0
        (bit_and (rest * 2 ^ (64 - d)) limb_highbit)
        (bit_and (rest * 2 ^ (64 - d)) (lnot limb_highbit))
whole-Captures_at x a0 rest zero h l below whole = absurd (omega arith)
whole-Captures_at x a0 rest (suc k) h l below whole =
    let e : 64 - suc k ≡ 63 - k = omega arith in
    rw e (whole-Captures rest k below (omega arith) x a0 whole)
