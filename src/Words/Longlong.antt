-- ===== src/Words/Longlong.antt =====
-- The operations on limbs that the code takes from GMP's longlong.h, of which src/mpfr-longlong.h is a
-- copy: each with what is documented of it. They are parameters of the model.
use mpfr.Base.{ℕ, ◌+◌, ◌*◌, ◌^◌, ◌≤◌, ◌<◌, ◌≡◌}

pub record Longlong : Type 0 where
  -- The high and the low limb of a product.
  pub umul_ppmm : ℕ → ℕ → ℕ × ℕ
  pub product :
      (u v : ℕ)
      → u < 2 ^ 64
      → v < 2 ^ 64
      → ((umul_ppmm u v).0 * 2 ^ 64 + (umul_ppmm u v).1 ≡ u * v) × ((umul_ppmm u v).1 < 2 ^ 64)
  -- The number of zero bits above the highest bit of a limb that is not 0.
  pub count_leading_zeros : ℕ → ℕ
  pub normalizes :
      (x : ℕ)
      → 1 ≤ x
      → x < 2 ^ 64
      → (count_leading_zeros x < 64)
        × (2 ^ 63 ≤ x * 2 ^ count_leading_zeros x)
        × (x * 2 ^ count_leading_zeros x < 2 ^ 64)

abbrev pub umul_ppmm : ⦃ll : Longlong⦄ → ℕ → ℕ → ℕ × ℕ
umul_ppmm ⦃ll⦄ = ll.umul_ppmm

abbrev pub count_leading_zeros : ⦃ll : Longlong⦄ → ℕ → ℕ
count_leading_zeros ⦃ll⦄ = ll.count_leading_zeros

-- What is documented, about these names.
pub umul_ppmm_lem :
    ⦃ll : Longlong⦄
    → (u v : ℕ) → u < 2 ^ 64
    → v < 2 ^ 64
    → ((umul_ppmm u v).0 * 2 ^ 64 + (umul_ppmm u v).1 ≡ u * v) × ((umul_ppmm u v).1 < 2 ^ 64)
umul_ppmm_lem ⦃ll⦄ = ll.product

pub count_leading_zeros_lem :
    ⦃ll : Longlong⦄
    → (x : ℕ) → 1 ≤ x
    → x < 2 ^ 64
    → (count_leading_zeros x < 64)
      × (2 ^ 63 ≤ x * 2 ^ count_leading_zeros x)
      × (x * 2 ^ count_leading_zeros x < 2 ^ 64)
count_leading_zeros_lem ⦃ll⦄ = ll.normalizes
