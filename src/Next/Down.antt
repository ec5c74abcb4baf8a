-- ===== src/Next/Down.antt =====
-- The neighbour of a regular number toward zero, as a number: one unit in the last place below.
use native.Mathlib.Nat.{div-add-mod', mul-le-mul_right, lt_of_mul-lt-mul_right}
use mathlib.Core.Path.{subst}
use mpfr.Base.{
  ℕ, suc, ◌+◌, ◌-◌, ◌*◌, ◌/◌, ◌%◌, ◌^◌, ◌≤◌, ◌<◌, ◌≡◌, refl, sym, ap, List, set, length, get_or,
  ◌==◌, if◌then◌else◌, true, false, Bool-cases, inl, inr, ℤ, pos, ◌-ℤ◌, eqb_ℤ, arith, pow-split,
  pow-pos, pow-suc_double, ==_iff, bit_and, bit_or,
}
use mpfr.Words.{limb_bits, limb_highbit, shl, shl-one, or_low}
use mpfr.Words.Update.{top_set}
use mpfr.Words.Value.{low_value, low_value-lt, IsLimbs, pow-limb}
use mpfr.Types.{Exp, Mpfr, num, zero_value, Env, prec2limbs}
use mpfr.Rounding.Whole.{high_bit}
use mpfr.Compare.Magnitude.{IsRegular, normalized_value}
use mpfr.Next.{Mpn, unused_bits, last_limb, down_regular, nexttozero_field, nexttozero}

-- What GMP documents of `mpn_sub_1`.
pub record IsMpnSub (g : Mpn) : Type 0 where
  pub sub_value :
      (p : List ℕ) (b : ℕ)
      → IsLimbs p
      → b < 2 ^ 64
      → low_value (g.sub_1 p b).0 (length p) + b
        ≡ low_value p (length p) + (g.sub_1 p b).1 * 2 ^ (64 * length p)
  pub sub_limbs : (p : List ℕ) (b : ℕ) → IsLimbs p → b < 2 ^ 64 → IsLimbs (g.sub_1 p b).0
  pub sub_length : (p : List ℕ) (b : ℕ) → length (g.sub_1 p b).0 ≡ length p

-- The highest bit of a limb, as a test.
msb_clear : (t : ℕ) → t < 2 ^ 63 → (bit_and t limb_highbit == 0) ≡ true
msb_clear t h = rw (high_bit t) (ground arith)

msb_set : (t : ℕ) → t < 2 ^ 64 → 2 ^ 63 ≤ t → (bit_and t limb_highbit == 0) ≡ false
msb_set t h k = rw (high_bit t) (ground arith)

raise_msb : (t : ℕ) → t < 2 ^ 63 → bit_or limb_highbit t ≡ 2 ^ 63 + t
raise_msb t h = or_low 63 1 t h

-- A multiple of a unit that is above another is so by a unit.
multiple-le : (u q w : ℕ) → w * u < q * u → w * u + u ≤ q * u
multiple-le u q w h =
    let less : w < q = lt_of_mul-lt-mul_right u {m = w} {n = q} h in
    let le : (w + 1) * u ≤ q * u = mul-le-mul_right {m = w + 1} {n = q} u (omega arith) in
    omega (arith, le)

module _ (g : Mpn) (laws : IsMpnSub g) (x : Mpfr) (z : ℤ) (e : Env) (h : IsRegular x z)
    (sized : length x.mant ≡ prec2limbs x.prec) where
  abbrev value : ℕ
  value = low_value x.mant (prec2limbs x.prec)

  abbrev ulp : ℕ
  ulp = 2 ^ unused_bits x

  abbrev top : ℕ
  top = 2 ^ (64 * prec2limbs x.prec)

  abbrev diff : List ℕ
  diff = (g.sub_1 x.mant (shl 1 (unused_bits x))).0

  abbrev n : ℕ
  n = (x.prec - 1) / limb_bits

  abbrev high : ℕ
  high = get_or diff n 0

  size : prec2limbs x.prec ≡ suc n
  size = omega arith

  last : suc n - 1 ≡ n
  last = omega arith

  narrow : unused_bits x < 64
  narrow = omega arith

  -- The half of the base is a whole number of units.
  half_base : ℕ
  half_base = 2 ^ (64 * prec2limbs x.prec - 1 - unused_bits x)

  half_lem : top ≡ 2 * (half_base * ulp)
  unfolding half_base
  half_lem =
      let whole = pow-split (64 * prec2limbs x.prec - 1) (unused_bits x) (omega arith) in
      let double = pow-suc_double (64 * prec2limbs x.prec - 1) in
      let e : suc (64 * prec2limbs x.prec - 1) ≡ 64 * prec2limbs x.prec = omega arith in
      omega (arith, whole, double, ap (λ (t : ℕ). 2 ^ t) e)

  module _ (clean : value % ulp ≡ 0) where
    whole : value ≡ value / ulp * ulp
    whole = omega (arith, div-add-mod' value ulp)

    -- The significand is a half, or a unit more at least.
    above_half : (2 * value == top) ≡ false → top + 2 * ulp ≤ 2 * value
    above_half off =
        let le = normalized_value x z h in
        let apart : half_base * ulp < value / ulp * ulp =
          ground (arith, off, half_lem, whole, le) in
        omega (arith, multiple-le ulp (value / ulp) half_base apart, half_lem, whole)

    one_unit : ulp ≤ value
    one_unit =
        let le = normalized_value x z h in
        let some : 0 * ulp < value / ulp * ulp =
          omega (arith, whole, le, pow-pos (64 * prec2limbs x.prec)) in
        omega (arith, multiple-le ulp (value / ulp) 0 some, whole)

    diff_limbs : IsLimbs diff
    diff_limbs = laws.sub_limbs x.mant (shl 1 (unused_bits x)) h.limbs (omega arith)

    diff_value : low_value diff (prec2limbs x.prec) + ulp ≡ value
    diff_value =
        let unit : shl 1 (unused_bits x) < 2 ^ 64 = omega arith in
        let borrow = (g.sub_1 x.mant (shl 1 (unused_bits x))).1 in
        let law : low_value diff (prec2limbs x.prec) + shl 1 (unused_bits x)
            ≡ value + borrow * top =
          rw (← sized) (laws.sub_value x.mant (shl 1 (unused_bits x)) h.limbs unit) in
        let sum : low_value diff (prec2limbs x.prec) + ulp ≡ value + borrow * top =
          omega (arith, law, shl-one (unused_bits x) narrow) in
        elim (Bool-cases (borrow == 0)) [
          | inl none ↦ omega (arith, sum, ap (λ t. t * top) ((==_iff borrow 0).0 none))
          | inr some ↦
              let le : 1 * top ≤ borrow * top =
                mul-le-mul_right {m = 1} {n = borrow} top (ground (arith, some)) in
              absurd
                (omega (arith, sum, le, one_unit, low_value-lt diff (prec2limbs x.prec) diff_limbs))
        ]

    base_lem : top ≡ 2 ^ 64 * 2 ^ (64 * n)
    base_lem = rw size (pow-limb n)

    diff_split : low_value diff (prec2limbs x.prec) ≡ high * 2 ^ (64 * n) + low_value diff n
    unfolding low_value
    diff_split = rw size refl

    high_clear : (2 * value == top) ≡ true → high < 2 ^ 63
    high_clear on = lt_of_mul-lt-mul_right (2 ^ (64 * n)) {m = high} {n = 2 ^ 63} (
        omega (arith, (==_iff _ _).0 on, diff_value, diff_split, base_lem, pow-pos (unused_bits x)))

    high_set : (2 * value == top) ≡ false → 2 ^ 63 ≤ high
    high_set off =
        let less : 2 ^ 63 * 2 ^ (64 * n) < (high + 1) * 2 ^ (64 * n) = omega (
          arith,
          above_half off,
          diff_value,
          diff_split,
          base_lem,
          low_value-lt diff n diff_limbs,
        ) in
        omega (arith, lt_of_mul-lt-mul_right (2 ^ (64 * n)) {m = 2 ^ 63} {n = high + 1} less)

    -- The new significand where the highest bit is set again.
    raised_value :
        (2 * value == top) ≡ true
        → low_value (set diff (last_limb x) (bit_or limb_highbit high)) (prec2limbs x.prec) + ulp
          ≡ top
    raised_value on =
        let l : suc n ≡ length diff =
          omega (arith, laws.sub_length x.mant (shl 1 (unused_bits x)), sized) in
        let replaced = top_set diff n (2 ^ 63 + high) l in
        rw (size, last, raise_msb high (high_clear on))
          (omega (arith, replaced, (==_iff _ _).0 on, diff_value, diff_split, base_lem, pow-limb n))

    -- What `mpfr_nexttozero` should give: one unit less, or from a power of two the largest
    -- significand below the next exponent, or zero.
    abbrev pub down_exp : Exp
    down_exp =
        if 2 * value == top then if eqb_ℤ z e.emin then zero_value else num (z -ℤ pos 1) else num z

    abbrev pub down_value : ℕ
    down_value = if 2 * value == top then if eqb_ℤ z e.emin then value else top else value

    abbrev IsDown : Mpfr → Type 0
    IsDown r =
        (r.exp ≡ down_exp)
        × (low_value r.mant (prec2limbs x.prec) + ulp ≡ down_value)
        × (r.sign ≡ x.sign)
        × (r.prec ≡ x.prec)

    down_regular-IsDown : IsDown (down_regular g x z e)
    unfolding down_regular
    down_regular-IsDown =
        let at_top : get_or diff (last_limb x) 0 ≡ high = rw (size, last) refl in
        let limb : high < 2 ^ 64 = diff_limbs n in
        elim (Bool-cases (2 * value == top)) [
          | inl on ↦
              let clear = msb_clear high (high_clear on) in
              elim (Bool-cases (eqb_ℤ z e.emin)) [
                | inl least ↦ rw (at_top, clear, on, least) (refl, diff_value, refl, refl)
                | inr more ↦ rw (at_top, clear, on, more) (refl, raised_value on, refl, refl)
              ]
          | inr off ↦
              rw (at_top, msb_set high limb (high_set off), off)
                (h.exponent, diff_value, refl, refl)
        ]

    -- `mpfr_nexttozero` takes a unit in the last place from the significand of a regular number whose
    -- bits below its precision are zero; from a power of two it goes to the largest significand of the
    -- exponent below, or at `emin` to zero. Sign and precision stay.
    pub nexttozero_lem :
        ((nexttozero g x e).exp ≡ down_exp)
        × (low_value (nexttozero g x e).mant (prec2limbs x.prec) + ulp ≡ down_value)
        × ((nexttozero g x e).sign ≡ x.sign)
        × ((nexttozero g x e).prec ≡ x.prec)
    unfolding nexttozero nexttozero_field
    nexttozero_lem =
        subst (λ y. IsDown (nexttozero_field g y x e)) (sym h.exponent) down_regular-IsDown
