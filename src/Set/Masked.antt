-- ===== src/Set/Masked.antt =====
-- What `MPFR_RNDRAW` stores, as a number: the kept limbs cut at the unit, or a unit more.
use native.Mathlib.Nat.{mod-lt, div-add-mod', mul-le-mul_right, lt_of_mul-lt-mul_right}
use mpfr.Base.{
  ℕ, zero, suc, ◌+◌, ◌-◌, ◌*◌, ◌/◌, ◌%◌, ◌^◌, ◌≤◌, ◌<◌, ◌≡◌, refl, sym, ap, ◌∙◌, arith, List, [],
  ◌∷◌, get_or, drop, set, length, ◌==◌, bit_and, pow-pos, pow-split, div_unique, true, false,
  ==_iff,
}
use mpfr.Words.{
  lsub, limb_highbit, limb_mask, limb_mask_lem, and_not_mask, and_bit, shl-one, pow-lt-limb,
}
use mpfr.Words.Value.{low_value, low_value-lt, low_value-first, IsLimbs}
use mpfr.Words.Update.{top_set, low_value-le, set-IsLimbs}
use mpfr.Rounding.Decision.{IsEvenFlag}
use mpfr.Rounding.Cut.{factor_zero}
use mpfr.Next.{Mpn}
use mpfr.Next.Neighbour.{IsMpn}
use mpfr.Set.{mask_first}

-- A sum of limbs is divided by a unit within the first one.
pub div_first : (h y sh : ℕ) → sh < 64 → (h * 2 ^ 64 + y) / 2 ^ sh ≡ h * 2 ^ (64 - sh) + y / 2 ^ sh
div_first h y sh narrow =
    let width : 2 ^ 64 ≡ 2 ^ sh * 2 ^ (64 - sh) = pow-split 64 sh (omega arith) in
    div_unique (h * 2 ^ 64 + y) (2 ^ sh) (h * 2 ^ (64 - sh) + y / 2 ^ sh) (y % 2 ^ sh)
      (omega (arith, div-add-mod' y (2 ^ sh), ap (λ t. h * t) width))
      (mod-lt y {m = 2 ^ sh} (pow-pos sh))

no_limbs : (n : ℕ) → low_value [] n ≡ 0
unfolding low_value
no_limbs zero = refl
no_limbs (suc n) = omega (arith, no_limbs n)

-- `_destp[0] &= ~(_ulp - 1)` cuts the number at the unit.
pub mask_first_lem :
    (p : List ℕ) (n sh : ℕ)
    → IsLimbs p
    → sh < 64
    → low_value (mask_first (2 ^ sh) p) (suc n) ≡ low_value p (suc n) / 2 ^ sh * 2 ^ sh
unfolding mask_first
mask_first_lem [] n sh limbs narrow = rw (no_limbs (suc n)) (
    omega arith ∙ sym (ap (λ t. t * 2 ^ sh) (div_unique 0 (2 ^ sh) 0 0 (omega arith) (pow-pos sh))))
mask_first_lem (y ∷ ys) n sh limbs narrow =
    let mask : lsub (2 ^ sh) 1 ≡ limb_mask sh =
      rw (limb_mask_lem sh narrow) (omega (arith, pow-pos sh, pow-lt-limb sh narrow)) in
    let width : 2 ^ 64 ≡ 2 ^ sh * 2 ^ (64 - sh) = pow-split 64 sh (omega arith) in
    let h = low_value ys n in
    rw
      (
        mask,
        and_not_mask y sh narrow (limbs 0),
        low_value-first (y / 2 ^ sh * 2 ^ sh ∷ ys) n,
        low_value-first (y ∷ ys) n,
        div_first h y sh narrow,
      )
      (omega (arith, ap (λ t. h * t) width))

-- The last bit that is kept tells whether the number of units is even.
pub unit_bit-IsEvenFlag :
    (p : List ℕ) (n sh : ℕ)
    → sh < 64
    → IsEvenFlag (bit_and (get_or p 0 0) (2 ^ sh)) (low_value p (suc n) / 2 ^ sh)
unit_bit-IsEvenFlag p n sh narrow =
    rw (low_value-first p n, div_first h w sh narrow, bit)
      (
        λ z. omega (arith, even, factor_zero (w / 2 ^ sh % 2) (2 ^ sh) (pow-pos sh) z),
        λ z.
            let clear : w / 2 ^ sh % 2 ≡ 0 = omega (arith, even, z) in
            omega (arith, ap (λ t. t * 2 ^ sh) clear),
      )
  where
    h : ℕ
    h = low_value (drop 1 p) n

    w : ℕ
    w = get_or p 0 0

    bit : bit_and w (2 ^ sh) ≡ w / 2 ^ sh % 2 * 2 ^ sh
    bit = ap (bit_and w) (sym (shl-one sh narrow)) ∙ and_bit w sh narrow

    even : h * 2 ^ (64 - sh) % 2 ≡ 0
    even =
        let e : 2 ^ (64 - sh) ≡ 2 ^ 1 * 2 ^ (64 - sh - 1) = pow-split (64 - sh) 1 (omega arith) in
        omega (arith, ap (λ t. h * t) e)

nonzero : (n : ℕ) → (n == 0) ≡ false → 1 ≤ n
nonzero n k = ground arith

-- `mpn_add_1` of a unit.
module _ (g : Mpn) (laws : IsMpn g) (sp : List ℕ) (n sh : ℕ) (limbs : IsLimbs sp)
    (sized : length sp ≡ suc n) (narrow : sh < 64) where
  abbrev value : ℕ
  value = low_value sp (suc n)

  abbrev top : ℕ
  top = 2 ^ (64 * suc n)

  abbrev sum : List ℕ × ℕ
  sum = g.add_1 sp (2 ^ sh)

  sum_value : low_value sum.0 (suc n) + sum.1 * top ≡ value + 2 ^ sh
  sum_value = rw (← sized) (laws.add_value sp (2 ^ sh) limbs (pow-lt-limb sh narrow))

  sum_limbs : IsLimbs sum.0
  sum_limbs = laws.add_limbs sp (2 ^ sh) limbs (pow-lt-limb sh narrow)

  value-lt : value < top
  value-lt = low_value-lt sp (suc n) limbs

  width : top ≡ 2 ^ sh * 2 ^ (64 * suc n - sh)
  width = pow-split (64 * suc n) sh (omega arith)

  -- The cut number has room for one more unit.
  pub room : value / 2 ^ sh * 2 ^ sh + 2 ^ sh ≤ top
  room =
      let whole = div-add-mod' value (2 ^ sh) in
      let less : value / 2 ^ sh < 2 ^ (64 * suc n - sh) =
        lt_of_mul-lt-mul_right (2 ^ sh) {m = value / 2 ^ sh} {n = 2 ^ (64 * suc n - sh)}
          (omega (arith, width, whole, value-lt)) in
      let le : (value / 2 ^ sh + 1) * 2 ^ sh ≤ 2 ^ (64 * suc n - sh) * 2 ^ sh =
        mul-le-mul_right {m = value / 2 ^ sh + 1} {n = 2 ^ (64 * suc n - sh)} (2 ^ sh)
          (omega arith) in
      omega (arith, le, width)

  next_units : (value + 2 ^ sh) / 2 ^ sh ≡ value / 2 ^ sh + 1
  next_units =
      div_unique (value + 2 ^ sh) (2 ^ sh) (value / 2 ^ sh + 1) (value % 2 ^ sh)
        (omega (arith, div-add-mod' value (2 ^ sh))) (mod-lt value {m = 2 ^ sh} (pow-pos sh))

  -- With its carry the result is one unit more.
  pub sum_masked :
      low_value (mask_first (2 ^ sh) sum.0) (suc n) + sum.1 * top ≡ (value / 2 ^ sh + 1) * 2 ^ sh
  sum_masked =
      let s = low_value sum.0 (suc n) in
      let carried : sum.1 * top ≡ sum.1 * 2 ^ (64 * suc n - sh) * 2 ^ sh =
        ap (λ t. sum.1 * t) width ∙ omega arith in
      let units : (value + 2 ^ sh) / 2 ^ sh ≡ s / 2 ^ sh + sum.1 * 2 ^ (64 * suc n - sh) =
        div_unique (value + 2 ^ sh) (2 ^ sh) (s / 2 ^ sh + sum.1 * 2 ^ (64 * suc n - sh))
          (s % 2 ^ sh) (omega (arith, sum_value, carried, div-add-mod' s (2 ^ sh)))
          (mod-lt s {m = 2 ^ sh} (pow-pos sh)) in
      rw (mask_first_lem sum.0 n sh sum_limbs narrow, sym next_units, units)
        (omega (arith, carried))

  -- Without a carry the result is one unit more.
  pub sum_within :
      (sum.1 == 0) ≡ true
      → (low_value (mask_first (2 ^ sh) sum.0) (suc n) ≡ (value / 2 ^ sh + 1) * 2 ^ sh)
        × ((value / 2 ^ sh + 1) * 2 ^ sh < top)
  sum_within none =
      let zero_carry : sum.1 * top ≡ 0 = rw ((==_iff sum.1 0).0 none) (omega arith) in
      let same : low_value sum.0 (suc n) ≡ value + 2 ^ sh = omega (arith, sum_value, zero_carry) in
      (
        rw (mask_first_lem sum.0 n sh sum_limbs narrow, same, next_units),
        omega (arith, div-add-mod' value (2 ^ sh), same, low_value-lt sum.0 (suc n) sum_limbs),
      )

  -- With a carry it is the next power of two.
  pub sum_beyond :
      (sum.1 == 0) ≡ false
      → (low_value (mask_first (2 ^ sh) (set sum.0 n limb_highbit)) (suc n) ≡ 2 ^ 63 * 2 ^ (64 * n))
        × ((value / 2 ^ sh + 1) * 2 ^ sh ≡ top)
  sum_beyond some =
      let carried : 1 * top ≤ sum.1 * top =
        mul-le-mul_right {m = 1} {n = sum.1} top (nonzero sum.1 some) in
      let small : low_value sum.0 (suc n) < 2 ^ sh = omega (arith, sum_value, value-lt) in
      (power small, omega (arith, room, reached (omega (arith, sum_value))))
    where
      reached : top ≤ value + 2 ^ sh → top ≤ value / 2 ^ sh * 2 ^ sh + 2 ^ sh
      reached h =
          let rest = mod-lt value {m = 2 ^ sh} (pow-pos sh) in
          let less : 2 ^ (64 * suc n - sh) < value / 2 ^ sh + 2 =
            lt_of_mul-lt-mul_right (2 ^ sh) {m = 2 ^ (64 * suc n - sh)} {n = value / 2 ^ sh + 2}
              (omega (arith, width, div-add-mod' value (2 ^ sh))) in
          let le : 2 ^ (64 * suc n - sh) * 2 ^ sh ≤ (value / 2 ^ sh + 1) * 2 ^ sh =
            mul-le-mul_right {m = 2 ^ (64 * suc n - sh)} {n = value / 2 ^ sh + 1} (2 ^ sh)
              (omega arith) in
          omega (arith, width)

      power :
          low_value sum.0 (suc n) < 2 ^ sh
          → low_value (mask_first (2 ^ sh) (set sum.0 n limb_highbit)) (suc n)
            ≡ 2 ^ 63 * 2 ^ (64 * n)
      power small =
          let low = low_value sum.0 n in
          let below : low < 2 ^ sh = omega (arith, low_value-le sum.0 n) in
          let half : 2 ^ 63 ≡ 2 ^ sh * 2 ^ (63 - sh) = pow-split 63 sh (omega arith) in
          let whole : 2 ^ 63 * 2 ^ (64 * n) + low ≡ 2 ^ (63 - sh) * 2 ^ (64 * n) * 2 ^ sh + low =
            omega (arith, ap (λ t. t * 2 ^ (64 * n)) half) in
          let units : (2 ^ 63 * 2 ^ (64 * n) + low) / 2 ^ sh ≡ 2 ^ (63 - sh) * 2 ^ (64 * n) =
            div_unique _ (2 ^ sh) (2 ^ (63 - sh) * 2 ^ (64 * n)) low whole below in
          rw
            (
              mask_first_lem (set sum.0 n limb_highbit) n sh
                  (set-IsLimbs sum.0 n limb_highbit sum_limbs (omega arith)) narrow,
              top_set sum.0 n limb_highbit (omega (arith, laws.add_length sp (2 ^ sh), sized)),
              units,
            )
            (omega (arith, ap (λ t. t * 2 ^ (64 * n)) half))
