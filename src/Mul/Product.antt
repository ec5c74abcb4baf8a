-- ===== src/Mul/Product.antt =====
-- The product of two normalized limbs: what `product_limbs` computes captures the exact product.
use native.Mathlib.Decide.{dec_lt}
use native.Mathlib.Nat.{mul-le-mul}
use mpfr.Base.{ℕ, ◌+◌, ◌-◌, ◌*◌, ◌/◌, ◌%◌, ◌^◌, ◌≤◌, ◌<◌, ◌≡◌, ℤ, pos, ◌+ℤ◌, ◌-ℤ◌, int_laws}
use mpfr.Base.{bit_or, lt→ltb, ge→ltb, arith}
use mpfr.Words.{shl, shr, or_low}
use mpfr.Words.Longlong.{Longlong, umul_ppmm_lem, umul_ppmm}
use mpfr.Rounding.Limb.{IsLimb}
use mpfr.Rounding.Cut.{IsTop, cut}
use mpfr.Rounding.Range.{IsCutOf}
use mpfr.Mul.{product, product_limbs}

product-IsCutOf :
    (x t a0 sb sh : ℕ) (base ax : ℤ)
    → 0 < sh
    → sh < 64
    → 2 ^ 63 ≤ a0
    → a0 < 2 ^ 64
    → ax ≡ base +ℤ pos t
    → IsTop x (2 ^ t) a0 sb
    → IsCutOf x base sh (product ax a0 sb sh)
unfolding product
product-IsCutOf x t a0 sb sh base ax pos_sh narrow normalized bounded e top =
    let (limb, captures) = cut x (2 ^ t) a0 sb sh pos_sh narrow normalized bounded top in
    record { weight = t; units = a0 / 2 ^ sh; exponent = e; limb = limb; captures = captures }

module _ (hi lo x : ℕ) (whole : hi * 2 ^ 64 + lo ≡ x) (small : lo < 2 ^ 64)
    (least : 2 ^ 126 ≤ x) where
  -- The high limb of a product that needs no shift.
  plain-IsTop : IsTop x (2 ^ 64) hi lo
  plain-IsTop = record {
    rest = lo;
    whole = omega arith;
    below = small;
    sticky = λ z. z;
    clear = λ z. z;
  }

  -- The high limb shifted left by one, with the highest bit of the low limb.
  pub shifted : hi < 2 ^ 63 → bit_or (shl hi 1) (shr lo 63) ≡ hi * 2 + lo / 2 ^ 63
  shifted h =
      let e : hi * 2 ^ 1 % 2 ^ 64 ≡ hi * 2 ^ 1 = omega arith in
      rw e (or_low 1 hi (lo / 2 ^ 63) (omega arith))

  shifted-IsTop : IsTop x (2 ^ 63) (hi * 2 + lo / 2 ^ 63) (shl lo 1)
  shifted-IsTop = record {
    rest = lo % 2 ^ 63;
    whole = omega arith;
    below = omega arith;
    sticky = λ z. omega arith;
    clear = λ z. omega arith;
  }

-- The product of two limbs with the highest bit set has it in one of the two highest places.
pub product-least : (b0 c0 : ℕ) → 2 ^ 63 ≤ b0 → 2 ^ 63 ≤ c0 → 2 ^ 126 ≤ b0 * c0
product-least b0 c0 hb hc = mul-le-mul {n₁ = 2 ^ 63} {m₁ = 2 ^ 63} {n₂ = b0} {m₂ = c0} hb hc

pub product-most : (b0 c0 : ℕ) → b0 < 2 ^ 64 → c0 < 2 ^ 64 → b0 * c0 ≤ (2 ^ 64 - 1) * (2 ^ 64 - 1)
product-most b0 c0 hb hc =
    mul-le-mul {n₁ = b0} {m₁ = c0} {n₂ = 2 ^ 64 - 1} {m₂ = 2 ^ 64 - 1} (omega arith) (omega arith)

pub product_limbs-IsCutOf :
    ⦃ll : Longlong⦄
    → (b0 c0 qb qc sh : ℕ) (ax base : ℤ) → 0 < sh
    → IsLimb b0 qb sh
    → IsLimb c0 qc sh
    → ax ≡ base +ℤ pos 64
    → IsCutOf (b0 * c0) base sh (product_limbs ax b0 c0 sh)
unfolding product_limbs
product_limbs-IsCutOf b0 c0 qb qc sh ax base pos_sh hb hc e = elim (dec_lt hi (2 ^ 63)) [
  | yes low ↦
      rw (lt→ltb hi (2 ^ 63) low, shifted hi lo x whole small least low)
        (product-IsCutOf x 63 (hi * 2 + lo / 2 ^ 63) (shl lo 1) sh base (ax -ℤ pos 1) pos_sh
          hb.narrow (omega (arith, whole, least, small)) (omega (arith, low, small))
          (rw e (omega int_laws)) (shifted-IsTop hi lo x whole small least))
  | no high ↦ rw (ge→ltb hi (2 ^ 63) (omega arith)) (
      product-IsCutOf x 64 hi lo sh base ax pos_sh hb.narrow (omega arith)
        (omega (arith, whole, most)) e (plain-IsTop hi lo x whole small least))
]
  where
    hi : ℕ
    hi = (umul_ppmm b0 c0).0

    lo : ℕ
    lo = (umul_ppmm b0 c0).1

    x : ℕ
    x = b0 * c0

    whole : hi * 2 ^ 64 + lo ≡ x
    whole = (umul_ppmm_lem b0 c0 hb.bounded hc.bounded).0

    small : lo < 2 ^ 64
    small = (umul_ppmm_lem b0 c0 hb.bounded hc.bounded).1

    least : 2 ^ 126 ≤ x
    least = product-least b0 c0 hb.normalized hc.normalized

    most : x ≤ (2 ^ 64 - 1) * (2 ^ 64 - 1)
    most = product-most b0 c0 hb.bounded hc.bounded
