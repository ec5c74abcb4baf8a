-- ===== src/Fields/Integer.antt =====
-- `mpfr_integer_p` tests that the number is an integer.
use native.Mathlib.Nat.{pow-le-pow_right, mod-eq_of_lt, mul-le-mul_right, mod-lt, div-add-mod'}
use mpfr.Base.{
  ℕ, zero, suc, ◌+◌, ◌-◌, ◌*◌, ◌/◌, ◌%◌, ◌^◌, ◌≤◌, ◌<◌, ◌≡◌, sym, ap, ◌∙◌, List, get_or, ◌==◌,
}
use mpfr.Base.{
  if◌then◌else◌, true, false, ℤ, pos, pos_part, neg_part, leb_ℤ, Bool-cases, inl, inr, leb, leb→le,
  arith, pow-pos, pow-add, pow-split, mod_unique,
}
use mpfr.Words.{limb_bits, shl}
use mpfr.Words.Value.{low_value, low_value-lt, low_value-mod, IsLimbs, shl_dropped}
use mpfr.Types.{Mpfr, prec2limbs}
use mpfr.Compare.Magnitude.{IsRegular, normalized_value}
use mpfr.Extremes.Power.{all_zero_below_lem}
use mpfr.Fields.{no_fraction, integer_field, integer_p}

both_zero :
    (x w m r : ℕ) → 1 ≤ w → 1 ≤ m → (if x * m == 0 then r == 0 else false) ≡ (x * w + r == 0)
both_zero zero w m r h k = ground arith
both_zero (suc x) w m r h k = ground arith

-- The remainder of the lowest `suc k` limbs by a power of two in the highest of them.
pub low_value-remainder :
    (p : List ℕ) (k d : ℕ)
    → IsLimbs p
    → low_value p (suc k) % (2 ^ d * 2 ^ (64 * k))
      ≡ get_or p k 0 % 2 ^ d * 2 ^ (64 * k) + low_value p k
unfolding low_value
low_value-remainder p k d h =
    mod_unique _ _ (limb / 2 ^ d) (limb % 2 ^ d * 2 ^ (64 * k) + low_value p k)
      (omega (arith, ap (λ t. t * 2 ^ (64 * k)) parts)) (omega (arith, le, low_value-lt p k h))
  where
    limb : ℕ
    limb = get_or p k 0

    parts : limb ≡ limb / 2 ^ d * 2 ^ d + limb % 2 ^ d
    parts = sym (div-add-mod' limb (2 ^ d))

    le : (limb % 2 ^ d + 1) * 2 ^ (64 * k) ≤ 2 ^ d * 2 ^ (64 * k)
    le =
        mul-le-mul_right {m = limb % 2 ^ d + 1} {n = 2 ^ d} (2 ^ (64 * k))
          (omega (arith, mod-lt limb {m = 2 ^ d} (pow-pos d)))

-- The fractional bits of the lowest `suc k` limbs are their remainder by the weight of the bits.
no_fraction_lem :
    (p : List ℕ) (k r : ℕ)
    → r < 64
    → IsLimbs p
    → no_fraction p k r ≡ (low_value p (suc k) % (2 ^ (64 - r) * 2 ^ (64 * k)) == 0)
unfolding no_fraction
no_fraction_lem p k r small h =
    let e : 64 - (64 - r) ≡ r = omega arith in
    let dropped = shl_dropped (get_or p k 0) (64 - r) (omega arith) in
    let shifted : shl (get_or p k 0) r ≡ get_or p k 0 % 2 ^ (64 - r) * 2 ^ r = rw e at dropped in
    rw (low_value-remainder p k (64 - r) h, shifted, all_zero_below_lem p k)
      (both_zero (get_or p k 0 % 2 ^ (64 - r)) (2 ^ (64 * k)) (2 ^ r) (low_value p k)
        (pow-pos (64 * k)) (pow-pos r))

-- Numbers that agree modulo a power of two agree modulo a smaller one.
pub same_remainder : (v low r d : ℕ) → v % 2 ^ (r + d) ≡ low → v % 2 ^ d ≡ low % 2 ^ d
same_remainder v low r d e =
    mod_unique v (2 ^ d) (v / 2 ^ (r + d) * 2 ^ r + low / 2 ^ d) (low % 2 ^ d)
      (omega (
        arith,
        sym (div-add-mod' v (2 ^ (r + d))),
        e,
        sym (div-add-mod' low (2 ^ d)),
        ap (λ t. v / 2 ^ (r + d) * t) (pow-add r d),
      ))
      (mod-lt low {m = 2 ^ d} (pow-pos d))

pub nonpos_part : (z : ℤ) → leb_ℤ z (pos 0) ≡ true → pos_part z ≡ 0
nonpos_part z h = ground arith

pub positive_part : (z : ℤ) → leb_ℤ z (pos 0) ≡ false → neg_part z ≡ 0
positive_part z h = ground arith

gt_of_leb : (m n : ℕ) → leb m n ≡ false → n < m
gt_of_leb m n h = ground arith

-- A number below 1 has fractional bits, whatever its exponent.
module _ (x : Mpfr) (z : ℤ) (h : IsRegular x z) where
  abbrev value : ℕ
  value = low_value x.mant (prec2limbs x.prec)

  abbrev width : ℕ
  width = 64 * prec2limbs x.prec

  small_value : (d : ℕ) → width ≤ d → (value % 2 ^ d == 0) ≡ false
  small_value d l =
      let grows = pow-le-pow_right {n = 2} (omega arith) {i = width} {j = d} l in
      let below = low_value-lt x.mant (prec2limbs x.prec) h.limbs in
      let whole : value % 2 ^ d ≡ value = mod-eq_of_lt (omega (arith, grows, below)) in
      rw whole (ground (arith, normalized_value x z h, pow-pos width))

  whole_value : (d s : ℕ) → d ≤ s → value % 2 ^ s ≡ 0 → (value % 2 ^ d == 0) ≡ true
  whole_value d s l e = rw none (ground arith)
    where
      parts : value ≡ value / 2 ^ s * 2 ^ s + value % 2 ^ s
      parts = sym (div-add-mod' value (2 ^ s))

      none : value % 2 ^ d ≡ 0
      none =
          mod_unique value (2 ^ d) (value / 2 ^ s * 2 ^ (s - d)) 0
            (omega (arith, parts, e, ap (λ t. value / 2 ^ s * t) (pow-split s d l))) (pow-pos d)

  fraction_value :
      (e : ℕ)
      → e < x.prec
      → no_fraction x.mant ((x.prec - 1) / limb_bits - e / limb_bits) (e % limb_bits)
        ≡ (value % 2 ^ (width - e) == 0)
  fraction_value e l =
      no_fraction_lem x.mant k (e % limb_bits) (omega arith) h.limbs
      ∙ ap (λ t. t == 0) (sym (same_rest ∙ ap (λ t. low_value x.mant (suc k) % t) unit))
      ∙ ap (λ t. value % 2 ^ t == 0) (sym places)
    where
      k : ℕ
      k = (x.prec - 1) / limb_bits - e / limb_bits

      places : width - e ≡ 64 - e % limb_bits + 64 * k
      places = omega arith

      unit : 2 ^ (64 - e % limb_bits + 64 * k) ≡ 2 ^ (64 - e % limb_bits) * 2 ^ (64 * k)
      unit = pow-add (64 - e % limb_bits) (64 * k)

      same_rest :
          value % 2 ^ (64 - e % limb_bits + 64 * k)
          ≡ low_value x.mant (suc k) % 2 ^ (64 - e % limb_bits + 64 * k)
      same_rest =
          let n : prec2limbs x.prec ≡ e / limb_bits + suc k = omega arith in
          let d : 64 * suc k ≡ e % limb_bits + (64 - e % limb_bits + 64 * k) = omega arith in
          rw n (
            same_remainder (low_value x.mant (e / limb_bits + suc k)) (low_value x.mant (suc k))
              (e % limb_bits) (64 - e % limb_bits + 64 * k)
              (ap (λ t. low_value x.mant (e / limb_bits + suc k) % 2 ^ t) (sym d)
                ∙ low_value-mod x.mant (e / limb_bits) (suc k) h.limbs))

  -- Of a normalized number whose bits below its precision are zero, `mpfr_integer_p` tells, whatever
  -- the exponent, whether the number, `value * 2 ^ (z - width)`, is an integer.
  pub integer_p_lem :
      value % 2 ^ (width - x.prec) ≡ 0
      → integer_p x ≡ (value % 2 ^ (width + neg_part z - pos_part z) == 0)
  unfolding integer_p integer_field
  integer_p_lem clean = rw h.exponent (elim (Bool-cases (leb_ℤ z (pos 0))) [
    | inl low ↦
        rw low
          (sym (small_value (width + neg_part z - pos_part z) (omega (arith, nonpos_part z low))))
    | inr high ↦ rw high (elim (Bool-cases (leb_ℤ (pos x.prec) z)) [
      | inl large ↦ rw large (
          sym (
            whole_value (width + neg_part z - pos_part z) (width - x.prec)
              (omega (arith, positive_part z high, leb→le _ _ large)) clean))
      | inr inside ↦ rw inside (
          let d : width + neg_part z - pos_part z ≡ width - pos_part z =
            omega (arith, positive_part z high) in
          rw d (
            fraction_value (pos_part z)
              (omega (arith, positive_part z high, gt_of_leb _ _ inside))))
    ])
  ])
