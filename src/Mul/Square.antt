-- ===== src/Mul/Square.antt =====
-- `mpfr_sqr_1n` returns the correctly rounded square: its test for `goto rounding` asks less than
-- that of `mpfr_mul_1n`, because only one square has 64 leading ones.
use native.Mathlib.Decide.{dec_lt, ℕ_discrete}
use native.Mathlib.Nat.{mul-le-mul}
use mpfr.Base.{◌/◌, ◌%◌, ℕ, ◌+◌, ◌-◌, ◌*◌, ◌^◌, ◌≤◌, ◌<◌, ◌≡◌, ◌≢◌, refl, [], ◌∷◌, false}
use mpfr.Base.{ℤ, pos, ◌+ℤ◌, ◌-ℤ◌, int_laws, lt→ltb, ge→ltb, arith}
use mpfr.Words.{bit_or_ge, limb_max, lnot, limb_mask}
use mpfr.Words.Longlong.{Longlong, umul_ppmm_lem, umul_ppmm}
use mpfr.Types.{Rnd, rndna, num, Mpfr, Env, plus}
use mpfr.Rounding.{Parts}
use mpfr.Mul.{
  whole_product, whole_product_limbs, reaches_emin, square_reaches_emin, round_square,
  round_product, sqr_1n,
}
use mpfr.Mul.Product.{product-least, product-most, shifted}
use mpfr.Mul.Whole.{whole_product_limbs-IsCutOf}
use mpfr.Mul.Correct.{round_product-IsCorrectRange}
use mpfr.Rounding.Range.{IsCorrectRange}

-- The largest limb whose square is below 2 ^ 127.
abbrev pub top_root : ℕ
top_root = 13043817825332782212

-- It is the only one whose square starts with 64 ones in the lower half of the range.
root_unique : (b : ℕ) → b * b < 2 ^ 127 → (2 ^ 64 - 1) * 2 ^ 63 ≤ b * b → b ≡ top_root
root_unique b below above = elim (dec_lt b top_root) [
  | yes less ↦
      let le : b * b ≤ (top_root - 1) * (top_root - 1) =
        mul-le-mul {n₁ = b} {m₁ = b} {n₂ = top_root - 1} {m₂ = top_root - 1} (omega arith)
          (omega arith) in
      absurd (omega (arith, le))
  | no rest ↦ elim (dec_lt top_root b) [
    | yes more ↦
        let le : (top_root + 1) * (top_root + 1) ≤ b * b =
          mul-le-mul {n₁ = top_root + 1} {m₁ = top_root + 1} {n₂ = b} {m₂ = b} (omega arith)
            (omega arith) in
        absurd (omega (arith, le))
    | no same ↦ omega arith
  ]
]

-- That square has a clear round bit and nonzero sticky bits.
root_parts :
    ⦃ll : Longlong⦄
    → (ax : ℤ)
    → ((whole_product_limbs ax top_root top_root).rb ≡ 0)
      × ((whole_product_limbs ax top_root top_root).sb ≢ 0)
unfolding whole_product_limbs whole_product
root_parts ax =
    let (whole, small) = umul_ppmm_lem top_root top_root (omega arith) (omega arith) in
    let hi : (umul_ppmm top_root top_root).0 ≡ top_root * top_root / 2 ^ 64 =
      omega (arith, whole, small) in
    let lo : (umul_ppmm top_root top_root).1 ≡ top_root * top_root % 2 ^ 64 =
      omega (arith, whole, small) in
    rw (hi, lo) (refl, λ z. omega arith)

mask_zero : lnot (limb_mask 0) ≡ limb_max
unfolding limb_mask
mask_zero = refl

tests_agree :
    (rnd : Rnd) (e : Env) (s : Parts)
    → (s.limb ≡ limb_max → (s.rb ≡ 0) × (s.sb ≢ 0))
    → square_reaches_emin s rnd e ≡ reaches_emin s rnd false 0 e
unfolding square_reaches_emin reaches_emin
tests_agree rnd e s h = rw mask_zero (elim (ℕ_discrete s.limb limb_max) [
  | yes full ↦ let (clear, sticky) = h full in ground (arith, clear, sticky, bit_or_ge s.rb s.sb)
  | no partial ↦ ground (arith, partial)
])

module _ ⦃ll : Longlong⦄ (b0 : ℕ) (hb : 2 ^ 63 ≤ b0) (lb : b0 < 2 ^ 64) (ax : ℤ) where
  full_square : (whole_product_limbs ax b0 b0).limb ≡ limb_max → b0 ≡ top_root
  unfolding whole_product_limbs whole_product
  full_square = elim (dec_lt hi (2 ^ 63)) [
    | yes low ↦
        rw (lt→ltb hi (2 ^ 63) low, shifted hi lo (b0 * b0) whole small least low)
          (λ full. root_unique b0 (omega (arith, whole, small)) (omega (arith, whole, full)))
    | no high ↦
        rw (ge→ltb hi (2 ^ 63) (omega arith)) (λ full. absurd (omega (arith, whole, most, full)))
  ]
    where
      hi : ℕ
      hi = (umul_ppmm b0 b0).0

      lo : ℕ
      lo = (umul_ppmm b0 b0).1

      whole : hi * 2 ^ 64 + lo ≡ b0 * b0
      whole = (umul_ppmm_lem b0 b0 lb lb).0

      small : lo < 2 ^ 64
      small = (umul_ppmm_lem b0 b0 lb lb).1

      least : 2 ^ 126 ≤ b0 * b0
      least = product-least b0 b0 hb hb

      most : b0 * b0 ≤ (2 ^ 64 - 1) * (2 ^ 64 - 1)
      most = product-most b0 b0 lb lb

  -- So the two tests agree on squares.
  same_test :
      (rnd : Rnd) (e : Env)
      → square_reaches_emin (whole_product_limbs ax b0 b0) rnd e
        ≡ reaches_emin (whole_product_limbs ax b0 b0) rnd false 0 e
  same_test rnd e =
      tests_agree rnd e (whole_product_limbs ax b0 b0)
        (λ full. rw (full_square full) (root_parts ax))

-- For a number of one limb, `mpfr_sqr_1n` delivers the rounding of the exact square
-- `b0 * b0 * 2 ^ (2 * bx - 128)` to 64 bits, with its ternary value and flags; it overflows or
-- underflows exactly if the rounded square is out of range.
pub sqr_1n-IsCorrectRange :
    ⦃ll : Longlong⦄
    → (a b : Mpfr) (rnd : Rnd) (e : Env) (bx : ℤ) (b0 : ℕ) → rnd ≢ rndna
    → b.exp ≡ num bx
    → b.mant ≡ b0 ∷ []
    → 2 ^ 63 ≤ b0
    → b0 < 2 ^ 64
    → IsCorrectRange
        (record a { sign = plus })
        rnd
        (b0 * b0)
        (bx +ℤ bx -ℤ pos 64)
        0
        e
        (sqr_1n a b rnd e)
unfolding sqr_1n round_square round_product
sqr_1n-IsCorrectRange a b rnd e bx b0 supported eb mb hb lb =
    rw (eb, mb, same_test b0 hb lb (bx +ℤ bx) rnd e) generic
  where
    generic :
        IsCorrectRange
          (record a { sign = plus })
          rnd
          (b0 * b0)
          (bx +ℤ bx -ℤ pos 64)
          0
          e
          (round_product (record a { sign = plus }) (whole_product_limbs (bx +ℤ bx) b0 b0) rnd 0 e)
    generic =
        round_product-IsCorrectRange (record a { sign = plus }) rnd supported 0 e (b0 * b0)
          (bx +ℤ bx -ℤ pos 64) (whole_product_limbs (bx +ℤ bx) b0 b0)
          (whole_product_limbs-IsCutOf b0 b0 hb lb hb lb (bx +ℤ bx) (bx +ℤ bx -ℤ pos 64)
            (omega int_laws))
