-- ===== src/Add/Aligned.antt =====
-- The sum of two aligned limbs: what `sum_limbs` computes captures the exact sum.
use native.Mathlib.Nat.{div-le_self, div-add-mod', mod-lt, add-zero, mul-le-mul_right}
use native.Mathlib.Decide.{dec_lt}
use mpfr.Base.{ℕ, ◌+◌, ◌-◌, ◌*◌, ◌/◌, ◌%◌, ◌^◌, ◌≤◌, ◌<◌, ◌≡◌, refl, sym, ap, ◌∙◌}
use mpfr.Base.{
  ℤ, pos, ◌+ℤ◌, lt→ltb, ge→ltb, bit_and, bit_or, arith, pow-pos, pow-add, pow-split, mod_unique,
  div_unique,
}
use mpfr.Words.{limb_bits, bit_and-one, limb_highbit, shl, shr, ladd, or_low, zero-bit_or}
use mpfr.Words.Value.{shl_dropped}
use mpfr.Rounding.Limb.{IsLimb, +ℤ_zero}
use mpfr.Rounding.Decision.{Captures}
use mpfr.Rounding.Cut.{IsTop, cut, factor_zero, add-eq-zero, bit_or-eq-zero, bit_or_zeros}
use mpfr.Rounding.{Parts}
use mpfr.Add.{cut_near, cut_far, sum_near, sum_far}

-- `s` captures the exact significand `x`, which counts units of weight `2 ^ (bx - d - 64)`, in a
-- limb of ulp `1 << sh`: its exponent is `bx + k`, so that its own unit weighs `2 ^ (d + k)` of those.
pub record IsSum (x d sh : ℕ) (bx : ℤ) (s : Parts) : Type 0 where
  pub carry : ℕ
  pub units : ℕ
  pub exponent : s.exponent ≡ bx +ℤ pos carry
  pub limb : IsLimb s.limb units sh
  pub captures : Captures x (2 ^ sh * 2 ^ (d + carry)) units s.rb s.sb

-- A wrapped sum that is smaller than an addend has carried out.
module _ (b0 w : ℕ) (hb : b0 < 2 ^ 64) (hw : w < 2 ^ 64) where
  pub carried : ladd b0 w < b0 → b0 + w ≡ 2 ^ 64 + ladd b0 w
  carried h = omega arith

  pub not_carried : b0 ≤ ladd b0 w → ladd b0 w ≡ b0 + w
  not_carried h = omega arith

-- `MPFR_LIMB_HIGHBIT | (a0 >> 1)`
pub restore_carry : (a0 : ℕ) → a0 < 2 ^ 64 → bit_or limb_highbit (shr a0 1) ≡ 2 ^ 63 + a0 / 2
restore_carry a0 h = or_low 63 1 (a0 / 2) (omega arith)

module _ (x d k sh a0 : ℕ) (bx : ℤ) (pos_sh : 0 < sh) (narrow : sh < 64) (normalized : 2 ^ 63 ≤ a0)
    (bounded : a0 < 2 ^ 64) (ax : ℤ) (e : ax ≡ bx +ℤ pos k) where
  cut_far-IsSum : (sb : ℕ) → IsTop x (2 ^ (d + k)) a0 sb → IsSum x d sh bx (cut_far ax a0 sb sh)
  unfolding cut_far
  cut_far-IsSum sb top =
      let (limb, captures) = cut x (2 ^ (d + k)) a0 sb sh pos_sh narrow normalized bounded top in
      record { carry = k; units = a0 / 2 ^ sh; exponent = e; limb = limb; captures = captures }

  cut_near-IsSum : IsTop x (2 ^ (d + k)) a0 0 → IsSum x d sh bx (cut_near ax a0 sh)
  unfolding cut_near
  cut_near-IsSum top =
      let (limb, captures) = cut x (2 ^ (d + k)) a0 0 sh pos_sh narrow normalized bounded top in
      record {
        carry = k;
        units = a0 / 2 ^ sh;
        exponent = e;
        limb = limb;
        captures = rw zero-bit_or at captures;
      }

pub even_multiple : (q s : ℕ) → 0 < s → q * 2 ^ s % 2 ≡ 0
even_multiple q s h =
    let e : 2 ^ s ≡ 2 ^ 1 * 2 ^ (s - 1) = pow-split s 1 h in omega (arith, ap (λ t. q * t) e)

-- Two operands `b0` and `c0` with ulp `1 << sh`, the second `d` places below the first.
module _ (b0 c0 qb qc d sh : ℕ) (pos_sh : 0 < sh) (hb : IsLimb b0 qb sh)
    (hc : IsLimb c0 qc sh) where
  abbrev pub exact_sum : ℕ
  exact_sum = b0 * 2 ^ d + c0

  abbrev a0 : ℕ
  a0 = ladd b0 (shr c0 d)

  shifted-lt : shr c0 d < 2 ^ 64
  shifted-lt = omega (arith, div-le_self c0 (2 ^ d), hc.bounded)

  parts : c0 ≡ c0 / 2 ^ d * 2 ^ d + c0 % 2 ^ d
  parts = sym (div-add-mod' c0 (2 ^ d))

  -- Without a carry the limb is the top of the sum.
  plain-IsTop :
      (sb : ℕ)
      → (sb ≡ 0 → c0 % 2 ^ d ≡ 0)
      → (c0 % 2 ^ d ≡ 0 → sb ≡ 0)
      → b0 ≤ a0
      → IsTop exact_sum (2 ^ (d + 0)) a0 sb
  plain-IsTop sb sticky clear h = record {
    rest = c0 % 2 ^ d;
    whole = rw (add-zero d) (
        omega
          (arith, parts, ap (λ t. t * 2 ^ d) (not_carried b0 (shr c0 d) hb.bounded shifted-lt h)));
    below = rw (add-zero d) (mod-lt c0 {m = 2 ^ d} (pow-pos d));
    sticky = sticky;
    clear = clear;
  }

  -- With a carry it is half of the sum, and its last bit joins the rest.
  carry-IsTop :
      (sb : ℕ)
      → (sb ≡ 0 → a0 % 2 * 2 ^ d + c0 % 2 ^ d ≡ 0)
      → (a0 % 2 * 2 ^ d + c0 % 2 ^ d ≡ 0 → sb ≡ 0)
      → a0 < b0
      → IsTop exact_sum (2 ^ (d + 1)) (2 ^ 63 + a0 / 2) sb
  carry-IsTop sb sticky clear h = record {
    rest = a0 % 2 * 2 ^ d + c0 % 2 ^ d;
    whole =
        let doubled : 2 ^ (d + 1) ≡ 2 ^ d * 2 = pow-add d 1 in
        let halves : a0 ≡ a0 / 2 * 2 + a0 % 2 = omega arith in
        rw doubled (
          omega (
            arith,
            parts,
            ap (λ t. t * 2 ^ d) halves,
            ap (λ t. t * 2 ^ d) (carried b0 (shr c0 d) hb.bounded shifted-lt h),
          ));
    below =
        let doubled : 2 ^ (d + 1) ≡ 2 ^ d * 2 = pow-add d 1 in
        let bit : a0 % 2 * 2 ^ d ≤ 1 * 2 ^ d =
          mul-le-mul_right {m = a0 % 2} {n = 1} (2 ^ d) (omega arith) in
        rw doubled (omega (arith, bit, mod-lt c0 {m = 2 ^ d} (pow-pos d)));
    sticky = sticky;
    clear = clear;
  }

  -- Where `d < sh` nothing of `c` lies below the limb, and the sum is even.
  module _ (near : d < sh) where
    width : 2 ^ sh ≡ 2 ^ (sh - d) * 2 ^ d
    width = omega (arith, pow-split sh d (omega arith))

    whole_shift : c0 ≡ qc * 2 ^ (sh - d) * 2 ^ d + 0
    whole_shift = omega (arith, hc.units, ap (λ t. qc * t) width)

    no_rest : c0 % 2 ^ d ≡ 0
    no_rest = mod_unique c0 (2 ^ d) (qc * 2 ^ (sh - d)) 0 whole_shift (pow-pos d)

    even_sum : a0 < b0 → a0 % 2 ≡ 0
    even_sum h = omega (
      arith,
      carried b0 (shr c0 d) hb.bounded shifted-lt h,
      div_unique c0 (2 ^ d) (qc * 2 ^ (sh - d)) 0 whole_shift (pow-pos d),
      hb.units,
      even_multiple qb sh pos_sh,
      even_multiple qc (sh - d) (omega arith),
    )

    pub near-IsSum : (bx : ℤ) → IsSum exact_sum d sh bx (sum_near bx b0 c0 d sh)
    unfolding sum_near
    near-IsSum bx = elim (dec_lt a0 b0) [
      | yes carries ↦
          rw (lt→ltb a0 b0 carries, restore_carry a0 (omega arith))
            (cut_near-IsSum exact_sum d 1 sh (2 ^ 63 + a0 / 2) bx pos_sh hb.narrow (omega arith)
              (omega arith) (bx +ℤ pos 1) refl
              (carry-IsTop 0 (λ _. rw (even_sum carries, no_rest) (omega arith)) (λ _. refl)
                carries))
      | no fits ↦ rw (ge→ltb a0 b0 (omega arith)) (
          cut_near-IsSum exact_sum d 0 sh a0 bx pos_sh hb.narrow (omega (arith, hb.normalized))
            (omega arith) bx (+ℤ_zero bx) (plain-IsTop 0 (λ _. no_rest) (λ _. refl) (omega arith)))
    ]

  -- Where `sh <= d` the bits of `c` that the shift drops make up the sticky bit.
  module _ (d_lt : d < 64) where
    dropped : ℕ
    dropped = shl c0 (limb_bits - d)

    dropped_lem : dropped ≡ c0 % 2 ^ d * 2 ^ (64 - d)
    unfolding dropped
    dropped_lem = shl_dropped c0 d (omega arith)

    dropped_zero : dropped ≡ 0 → c0 % 2 ^ d ≡ 0
    dropped_zero z =
        factor_zero (c0 % 2 ^ d) (2 ^ (64 - d)) (pow-pos (64 - d)) (sym dropped_lem ∙ z)

    zero_dropped : c0 % 2 ^ d ≡ 0 → dropped ≡ 0
    zero_dropped z = dropped_lem ∙ ap (λ t. t * 2 ^ (64 - d)) z ∙ omega arith

    -- With a carry the last bit of the sum joins the dropped ones.
    carry_zero : bit_or dropped (bit_and a0 1) ≡ 0 → a0 % 2 * 2 ^ d + c0 % 2 ^ d ≡ 0
    carry_zero z =
        let (none_dropped, none_last) = bit_or-eq-zero dropped (bit_and a0 1) z in
        rw (sym (bit_and-one a0) ∙ none_last, dropped_zero none_dropped) (omega arith)

    zero_carry : a0 % 2 * 2 ^ d + c0 % 2 ^ d ≡ 0 → bit_or dropped (bit_and a0 1) ≡ 0
    zero_carry z =
        let (none_last, none_low) = add-eq-zero (a0 % 2 * 2 ^ d) (c0 % 2 ^ d) z in
        bit_or_zeros dropped (bit_and a0 1) (zero_dropped none_low)
          (bit_and-one a0 ∙ factor_zero (a0 % 2) (2 ^ d) (pow-pos d) none_last)

    pub far-IsSum : (bx : ℤ) → IsSum exact_sum d sh bx (sum_far bx b0 c0 d sh)
    unfolding sum_far dropped
    far-IsSum bx = elim (dec_lt a0 b0) [
      | yes carries ↦
          rw (lt→ltb a0 b0 carries, restore_carry a0 (omega arith))
            (cut_far-IsSum exact_sum d 1 sh (2 ^ 63 + a0 / 2) bx pos_sh hb.narrow (omega arith)
              (omega arith) (bx +ℤ pos 1) refl (bit_or dropped (bit_and a0 1))
              (carry-IsTop _ carry_zero zero_carry carries))
      | no fits ↦ rw (ge→ltb a0 b0 (omega arith)) (
          cut_far-IsSum exact_sum d 0 sh a0 bx pos_sh hb.narrow (omega (arith, hb.normalized))
            (omega arith) bx (+ℤ_zero bx) dropped
            (plain-IsTop _ dropped_zero zero_dropped (omega arith)))
    ]
