-- ===== src/Mul/Whole.antt =====
-- `mpfr_mul_1n` returns the correctly rounded product, with underflow decided after rounding.
use native.Mathlib.Decide.{dec_lt}
use mpfr.Base.{ℕ, ◌+◌, ◌-◌, ◌*◌, ◌/◌, ◌%◌, ◌^◌, ◌≤◌, ◌<◌, ◌≡◌, ◌≢◌, sym, [], ◌∷◌}
use mpfr.Base.{ℤ, pos, ◌+ℤ◌, ◌-ℤ◌, int_laws, lt→ltb, ge→ltb, arith}
use mpfr.Words.{shl}
use mpfr.Words.Longlong.{Longlong, umul_ppmm_lem, umul_ppmm}
use mpfr.Types.{Rnd, rndna, num, Mpfr, Env, mult_sign}
use mpfr.Rounding.Whole.{whole-IsLimb, whole-Captures}
use mpfr.Mul.{whole_product, whole_product_limbs, mul_1n}
use mpfr.Mul.Product.{shifted, product-least, product-most}
use mpfr.Mul.Correct.{round_product-IsCorrectRange}
use mpfr.Rounding.Range.{IsCutOf, IsCorrectRange}

module _ ⦃ll : Longlong⦄ (b0 c0 : ℕ) (hb : 2 ^ 63 ≤ b0) (lb : b0 < 2 ^ 64) (hc : 2 ^ 63 ≤ c0)
    (lc : c0 < 2 ^ 64) where
  abbrev hi : ℕ
  hi = (umul_ppmm b0 c0).0

  abbrev lo : ℕ
  lo = (umul_ppmm b0 c0).1

  whole : hi * 2 ^ 64 + lo ≡ b0 * c0
  whole = (umul_ppmm_lem b0 c0 lb lc).0

  small : lo < 2 ^ 64
  small = (umul_ppmm_lem b0 c0 lb lc).1

  pub whole_product_limbs-IsCutOf :
      (ax base : ℤ) → ax ≡ base +ℤ pos 64 → IsCutOf (b0 * c0) base 0 (whole_product_limbs ax b0 c0)
  unfolding whole_product_limbs whole_product
  whole_product_limbs-IsCutOf ax base e = elim (dec_lt hi (2 ^ 63)) [
    | yes low ↦
        let low_rest : shl lo 1 ≡ lo % 2 ^ 63 * 2 = omega arith in
        let least : 2 ^ 126 ≤ b0 * c0 = product-least b0 c0 hb hc in
        let w : b0 * c0 ≡ (hi * 2 + lo / 2 ^ 63) * 2 ^ 63 + lo % 2 ^ 63 = omega (arith, whole) in
        rw (lt→ltb hi (2 ^ 63) low, shifted hi lo (b0 * c0) whole small least low, low_rest)
          (record {
            weight = 63;
            units = hi * 2 + lo / 2 ^ 63;
            exponent = rw e (omega int_laws);
            limb =
                whole-IsLimb (hi * 2 + lo / 2 ^ 63) (omega (arith, whole, least, small))
                  (omega (arith, low, small));
            captures =
                whole-Captures (lo % 2 ^ 63) 62 (omega arith) (omega arith) (b0 * c0)
                  (hi * 2 + lo / 2 ^ 63) w;
          })
    | no high ↦
        let plain : lo * 2 ^ (63 - 63) ≡ lo = omega arith in
        let captured = whole-Captures lo 63 small (omega arith) (b0 * c0) hi (sym whole) in
        let most = product-most b0 c0 lb lc in
        rw (ge→ltb hi (2 ^ 63) (omega arith)) (record {
          weight = 64;
          units = hi;
          exponent = e;
          limb = whole-IsLimb hi (omega arith) (omega (arith, whole, most));
          captures = rw plain at captured;
        })
  ]

-- For two numbers of one limb, `mpfr_mul_1n` delivers the rounding of the exact product
-- `b0 * c0 * 2 ^ (bx + cx - 128)` to 64 bits, with its ternary value and flags; it overflows or
-- underflows exactly if the rounded product is out of range.
pub mul_1n-IsCorrectRange :
    ⦃ll : Longlong⦄
    → (a b c : Mpfr) (rnd : Rnd) (e : Env) (bx cx : ℤ) (b0 c0 : ℕ) → rnd ≢ rndna
    → b.exp ≡ num bx
    → c.exp ≡ num cx
    → b.mant ≡ b0 ∷ []
    → c.mant ≡ c0 ∷ []
    → 2 ^ 63 ≤ b0
    → b0 < 2 ^ 64
    → 2 ^ 63 ≤ c0
    → c0 < 2 ^ 64
    → IsCorrectRange
        (record a { sign = mult_sign b.sign c.sign })
        rnd
        (b0 * c0)
        (bx +ℤ cx -ℤ pos 64)
        0
        e
        (mul_1n a b c rnd e)
unfolding mul_1n
mul_1n-IsCorrectRange a b c rnd e bx cx b0 c0 supported eb ec mb mc hb lb hc lc =
    rw (eb, ec, mb, mc)
      (round_product-IsCorrectRange (record a { sign = mult_sign b.sign c.sign }) rnd supported 0 e
        (b0 * c0) (bx +ℤ cx -ℤ pos 64) (whole_product_limbs (bx +ℤ cx) b0 c0)
        (whole_product_limbs-IsCutOf b0 c0 hb lb hc lc (bx +ℤ cx) (bx +ℤ cx -ℤ pos 64)
          (omega int_laws)))
