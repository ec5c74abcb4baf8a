-- ===== src/Words/Split.antt =====
-- A limb split for rounding: its part above the ulp, its round bit and the bits below.
use native.Mathlib.Nat.{pow-le-pow_right, div-add-mod', mod-lt, mod-eq_of_lt, div-lt_iff_lt-mul}
use mpfr.Base.{ℕ, suc, ◌+◌, ◌-◌, ◌*◌, ◌/◌, ◌%◌, ◌^◌, ◌≤◌, ◌<◌, bit_and, bit_xor, ◌≡◌}
use mpfr.Base.{div_unique, sym, ap, ◌∙◌, arith, pow-pos, pow-suc_double, pow-split, mod_unique}
use mpfr.Words.Bits.{bit_and-one, zero-bit_and, and_split, and_low, and_high, xor_high, xor_own_bit}
use mpfr.Words.Step.{bit_and_step}
use mpfr.Words.Limb.{limb_mod, shl, lnot, limb_mask}

pub pow-lt-limb : (k : ℕ) → k < 64 → 2 ^ k < limb_mod
pow-lt-limb k h =
    let le : 2 ^ k ≤ 2 ^ 63 =
      pow-le-pow_right {n = 2} (omega arith) {i = k} {j = 63} (omega arith) in
    omega arith

-- `1 << k` does not wrap.
pub shl-one : (k : ℕ) → k < 64 → shl 1 k ≡ 2 ^ k
shl-one k h = let e : 1 * 2 ^ k ≡ 2 ^ k = omega arith in rw e (mod-eq_of_lt (pow-lt-limb k h))

pub limb_mask_lem : (s : ℕ) → s < 64 → limb_mask s ≡ 2 ^ s - 1
unfolding limb_mask
limb_mask_lem s h = ground (arith, shl-one s h, pow-pos s, pow-lt-limb s h)

pred_mul : (u t : ℕ) → 1 ≤ u → (u - 1) * t + t ≡ u * t
pred_mul u t h =
    let e : u ≡ u - 1 + 1 = omega arith in
    let e' : (u - 1) * t + t ≡ (u - 1 + 1) * t = omega arith in e' ∙ ap (λ v. v * t) (sym e)

module _ (a k : ℕ) where
  split_at : a ≡ a / 2 ^ k * 2 ^ k + a % 2 ^ k
  split_at = sym (div-add-mod' a (2 ^ k))

  low-lt : a % 2 ^ k < 2 ^ k
  low-lt = mod-lt a (pow-pos k)

  -- `a & (1 << k)` is the bit at `k`, in its place.
  pub and_bit : k < 64 → bit_and a (shl 1 k) ≡ a / 2 ^ k % 2 * 2 ^ k
  and_bit h = rw (shl-one k h) (
      ap (λ t. bit_and t (2 ^ k)) split_at
      ∙ ap (λ t. bit_and (a / 2 ^ k * 2 ^ k + a % 2 ^ k) t) (omega arith)
      ∙ and_high k (a / 2 ^ k) (a % 2 ^ k) 1 low-lt
      ∙ ap (λ t. t * 2 ^ k) (bit_and-one (a / 2 ^ k)))

  -- `a & mask` is the part below bit `k`.
  pub and_mask : k < 64 → bit_and a (limb_mask k) ≡ a % 2 ^ k
  and_mask h =
      rw (limb_mask_lem k h)
        (ap (λ t. bit_and t (2 ^ k - 1)) split_at ∙ and_low k (a / 2 ^ k) (a % 2 ^ k) low-lt)

  -- `a & ~mask` clears the part below bit `k`.
  pub and_not_mask : k < 64 → a < limb_mod → bit_and a (lnot (limb_mask k)) ≡ a / 2 ^ k * 2 ^ k
  and_not_mask h l =
      ap (bit_and a) mask_high
      ∙ ap (λ t. bit_and t ((2 ^ (64 - k) - 1) * 2 ^ k)) split_at
      ∙ and_high k (a / 2 ^ k) (a % 2 ^ k) (2 ^ (64 - k) - 1) low-lt
      ∙ ap (λ t. t * 2 ^ k) keeps
    where
      width : 2 ^ 64 ≡ 2 ^ k * 2 ^ (64 - k)
      width = pow-split 64 k (omega arith)

      mask_high : lnot (limb_mask k) ≡ (2 ^ (64 - k) - 1) * 2 ^ k
      mask_high =
          rw (limb_mask_lem k h)
            (omega (arith, width, pow-pos k, pred_mul (2 ^ (64 - k)) (2 ^ k) (pow-pos (64 - k))))

      high-lt : a / 2 ^ k < 2 ^ (64 - k)
      high-lt = (div-lt_iff_lt-mul {k = 2 ^ k} (pow-pos k)).1 (omega (arith, width))

      keeps : bit_and (a / 2 ^ k) (2 ^ (64 - k) - 1) ≡ a / 2 ^ k
      keeps =
          let e : 0 * 2 ^ (64 - k) + a / 2 ^ k ≡ a / 2 ^ k = omega arith in
          ap (λ t. bit_and t (2 ^ (64 - k) - 1)) (sym e) ∙ and_low (64 - k) 0 (a / 2 ^ k) high-lt

  -- `a ^ (a & (1 << k))` clears bit `k`.
  pub xor_bit : bit_xor a (a / 2 ^ k % 2 * 2 ^ k) + a / 2 ^ k % 2 * 2 ^ k ≡ a
  xor_bit =
      let e =
        ap (λ t. bit_xor t (a / 2 ^ k % 2 * 2 ^ k)) split_at
        ∙ xor_high k (a / 2 ^ k) (a % 2 ^ k) (a / 2 ^ k % 2) low-lt
        ∙ ap (λ t. t * 2 ^ k + a % 2 ^ k) (xor_own_bit (a / 2 ^ k)) in
      let halves : a / 2 ^ k ≡ a / 2 ^ k / 2 * 2 + a / 2 ^ k % 2 = omega arith in
      rw e (omega (arith, split_at, ap (λ t. t * 2 ^ k) halves))

-- The two parts that a limb has below its ulp `2 ^ suc j`: the bit at `j`, and the rest.
module _ (a j : ℕ) where
  low_parts : a % 2 ^ suc j ≡ a / 2 ^ j % 2 * 2 ^ j + a % 2 ^ j
  low_parts =
      mod_unique a (2 ^ suc j) (a / 2 ^ j / 2) (a / 2 ^ j % 2 * 2 ^ j + a % 2 ^ j) whole below
    where
      digits : a / 2 ^ j * 2 ^ j ≡ a / 2 ^ j / 2 * 2 * 2 ^ j + a / 2 ^ j % 2 * 2 ^ j
      digits =
          let halves : a / 2 ^ j ≡ a / 2 ^ j / 2 * 2 + a / 2 ^ j % 2 = omega arith in
          omega (arith, ap (λ t. t * 2 ^ j) halves)

      whole : a ≡ a / 2 ^ j / 2 * 2 ^ suc j + (a / 2 ^ j % 2 * 2 ^ j + a % 2 ^ j)
      whole = omega (arith, split_at a j, digits, ap (λ t. a / 2 ^ j / 2 * t) (pow-suc_double j))

      below : a / 2 ^ j % 2 * 2 ^ j + a % 2 ^ j < 2 ^ suc j
      below = grind (arith, low-lt a j, pow-suc_double j)

  -- `a & mask` is the round bit and what lies below it.
  pub low_split : j < 64 → a % 2 ^ suc j ≡ bit_and a (shl 1 j) + a % 2 ^ j
  low_split h = rw (and_bit a j h) low_parts

  -- `(a & mask) ^ rb` is what lies below the round bit.
  pub xor_round_bit :
      suc j < 64 → bit_xor (bit_and a (limb_mask (suc j))) (bit_and a (shl 1 j)) ≡ a % 2 ^ j
  xor_round_bit h =
      rw (and_mask a (suc j) h, and_bit a j (omega arith), low_parts)
        (xor_high j bit (a % 2 ^ j) bit (low-lt a j) ∙ omega (arith, ap (λ t. t * 2 ^ j) cancels))
    where
      bit : ℕ
      bit = a / 2 ^ j % 2

      cancels : bit_xor bit bit ≡ 0
      cancels =
          let e : bit % 2 ≡ bit = omega arith in
          ap (bit_xor bit) (sym e) ∙ xor_own_bit bit ∙ omega arith

  high_bit : a % 2 ^ suc j / 2 ^ j ≡ a / 2 ^ j % 2
  high_bit = div_unique (a % 2 ^ suc j) (2 ^ j) (a / 2 ^ j % 2) (a % 2 ^ j) low_parts (low-lt a j)

  -- `a & mask & (1 << j)` is the round bit.
  pub masked_bit : j < 64 → bit_and (a % 2 ^ suc j) (shl 1 j) ≡ bit_and a (shl 1 j)
  masked_bit h =
      let e : a / 2 ^ j % 2 % 2 ≡ a / 2 ^ j % 2 = omega arith in
      rw (and_bit (a % 2 ^ suc j) j h, and_bit a j h, high_bit, e)

  -- `a & mask & ~(1 << j)` is what lies below it.
  pub cleared_bit : j < 64 → bit_and (a % 2 ^ suc j) (lnot (shl 1 j)) ≡ a % 2 ^ j
  cleared_bit h =
      rw (shl-one j h, mask, low_parts)
        (and_split j bit (a % 2 ^ j) (half * 2) (2 ^ j - 1) (low-lt a j) (omega (arith, pow-pos j))
          ∙ rw (even, keeps) (omega arith))
    where
      bit : ℕ
      bit = a / 2 ^ j % 2

      half : ℕ
      half = 2 ^ (63 - j) - 1

      mask : lnot (2 ^ j) ≡ half * 2 * 2 ^ j + (2 ^ j - 1)
      mask =
          let width : 2 ^ 63 ≡ 2 ^ j * 2 ^ (63 - j) = pow-split 63 j (omega arith) in
          omega (arith, width, pow-pos j, pred_mul (2 ^ (63 - j)) (2 ^ j) (pow-pos (63 - j)))

      even : bit_and bit (half * 2) ≡ 0
      even =
          let e : bit / 2 ≡ 0 = omega arith in
          let r : half * 2 % 2 ≡ 0 = omega arith in
          ground (arith, bit_and_step bit (half * 2), zero-bit_and (half * 2 / 2))

      keeps : bit_and (a % 2 ^ j) (2 ^ j - 1) ≡ a % 2 ^ j
      keeps =
          let e : 0 * 2 ^ j + a % 2 ^ j ≡ a % 2 ^ j = omega arith in
          ap (λ t. bit_and t (2 ^ j - 1)) (sym e) ∙ and_low j 0 (a % 2 ^ j) (low-lt a j)
