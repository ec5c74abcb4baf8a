-- ===== src/Sub/Near.antt =====
-- The difference of two limbs that are `d < GMP_NUMB_BITS` places apart: the limbs `a0` and `sb` that
-- the code computes hold it exactly, and the shift by the leading zeros normalizes it.
use native.Mathlib.Nat.{
  mod-lt, div-add-mod', mod-eq_of_lt, div-lt_iff_lt-mul, mul-lt-mul_of_pos_right, pow-le-pow_right,
  mul-le-mul_right, lt_of_mul-lt-mul_right,
}
use mathlib.Core.Path.{subst}
use native.Mathlib.Decide.{ℕ_discrete}
use mpfr.Base.{
  ℕ, zero, suc, ◌+◌, ◌-◌, ◌*◌, ◌/◌, ◌%◌, ◌^◌, ◌≤◌, ◌<◌, ◌≡◌, refl, sym, ap, ◌∙◌, arith, false,
}
use mpfr.Base.{
  ℤ, pos, ◌+ℤ◌, ◌-ℤ◌, int_laws, pow-pos, pow-add, pow-split, bit_and, ◌==◌, if◌then◌else◌,
}
use mpfr.Words.{limb_highbit, lnot, lsub, shl, or_low}
use mpfr.Words.Value.{shl_dropped}
use mpfr.Words.Longlong.{Longlong, count_leading_zeros_lem, count_leading_zeros}
use mpfr.Rounding.{Parts}
use mpfr.Rounding.Decision.{Captures}
use mpfr.Rounding.Cut.{IsTop, cut, factor_zero}
use mpfr.Rounding.Whole.{whole-IsLimb, whole-Captures_at}
use mpfr.Rounding.Range.{IsCutOf}
use mpfr.Add.{cut_far}
use mpfr.Sub.{neglected, top_limb, shift_in, diff_near, whole_diff_near}

scaled_if : (b h t : ℕ) → (if b == 0 then 0 else h * t) ≡ (if b == 0 then 0 else h) * t
scaled_if zero h t = omega arith
scaled_if (suc b) h t = ground arith

-- The same magnitude in smaller units.
pub IsCutOf-scale :
    (x k : ℕ) (base low : ℤ) (sh : ℕ) (s : Parts)
    → base ≡ low +ℤ pos k
    → IsCutOf x base sh s
    → IsCutOf (x * 2 ^ k) low sh s
IsCutOf-scale x k base low sh s e c = record {
  weight = c.weight + k;
  units = c.units;
  exponent = c.exponent ∙ ap (λ z. z +ℤ pos c.weight) e ∙ omega int_laws;
  limb = c.limb;
  captures = record {
    half = c.captures.half * 2 ^ k;
    low = c.captures.low * 2 ^ k;
    unit = omega (
      arith,
      pow-add c.weight k,
      ap (λ t. t * 2 ^ k) c.captures.unit,
      ap (λ t. 2 ^ sh * t) (pow-add c.weight k),
    );
    position = rw scaled_if (
        omega (
          arith,
          ap (λ t. t * 2 ^ k) c.captures.position,
          ap (λ t. c.units * (2 ^ sh * t)) (pow-add c.weight k),
        ));
    below = mul-lt-mul_of_pos_right {k = 2 ^ k} c.captures.below (pow-pos k);
    sticky = λ z. ap (λ t. t * 2 ^ k) (c.captures.sticky z) ∙ omega arith;
    clear = λ z. c.captures.clear (factor_zero c.captures.low (2 ^ k) (pow-pos k) z);
  };
}

-- What the two limbs hold: `b0 - c0 / 2 ^ d` is `a0 + r / 2 ^ d`, and `sb` is `r` in its place.
pub record IsDifference (b0 c0 d a0 sb : ℕ) : Type 0 where
  pub rest : ℕ
  pub whole : b0 * 2 ^ d ≡ a0 * 2 ^ d + rest + c0
  pub below : rest < 2 ^ d
  pub placed : sb ≡ rest * 2 ^ (64 - d)
  pub bounded : a0 < 2 ^ 64

module _ (b0 c0 d : ℕ) (pos_d : 0 < d) (near : d < 64) (hb : 2 ^ 63 ≤ b0) (lb : b0 < 2 ^ 64)
    (lc : c0 < 2 ^ 64) where
  width : 2 ^ 64 ≡ 2 ^ d * 2 ^ (64 - d)
  width = pow-split 64 d (omega arith)

  rest_limb : ℕ
  rest_limb = c0 % 2 ^ d

  parts : c0 ≡ c0 / 2 ^ d * 2 ^ d + rest_limb
  unfolding rest_limb
  parts = sym (div-add-mod' c0 (2 ^ d))

  rest-lt : rest_limb < 2 ^ d
  unfolding rest_limb
  rest-lt = mod-lt c0 {m = 2 ^ d} (pow-pos d)

  shifted-lt : c0 / 2 ^ d < 2 ^ 63
  shifted-lt =
      let half : 2 ^ 64 ≡ 2 ^ 63 * 2 ^ 1 = omega arith in
      let up : 2 ^ 1 ≤ 2 ^ d = pow-le-pow_right {n = 2} (omega arith) {i = 1} {j = d} pos_d in
      let more : 2 ^ 1 * 2 ^ 63 ≤ 2 ^ d * 2 ^ 63 =
        mul-le-mul_right {m = 2 ^ 1} {n = 2 ^ d} (2 ^ 63) up in
      (div-lt_iff_lt-mul {k = 2 ^ d} {x = c0} {y = 2 ^ 63} (pow-pos d)).1 (omega (arith, more))

  neglected_lem : neglected c0 d ≡ (2 ^ 64 - rest_limb * 2 ^ (64 - d)) % 2 ^ 64
  unfolding rest_limb
  neglected_lem = rw (shl_dropped c0 d (omega arith)) (omega arith)

  negated :
      0 < rest_limb
      → (neglected c0 d ≡ (2 ^ d - rest_limb) * 2 ^ (64 - d)) × ((neglected c0 d == 0) ≡ false)
  negated some =
      let sum : 2 ^ d ≡ 2 ^ d - rest_limb + rest_limb = omega (arith, rest-lt) in
      let low : 1 * 2 ^ (64 - d) ≤ rest_limb * 2 ^ (64 - d) =
        mul-le-mul_right {m = 1} {n = rest_limb} (2 ^ (64 - d)) some in
      let high : 1 * 2 ^ (64 - d) ≤ (2 ^ d - rest_limb) * 2 ^ (64 - d) =
        mul-le-mul_right {m = 1} {n = 2 ^ d - rest_limb} (2 ^ (64 - d)) (omega (arith, rest-lt)) in
      let whole = ap (λ t. t * 2 ^ (64 - d)) sum in
      let value : neglected c0 d ≡ (2 ^ d - rest_limb) * 2 ^ (64 - d) =
        omega (arith, neglected_lem, width, whole, low, high, pow-pos (64 - d)) in
      (value, ground (arith, value, high, pow-pos (64 - d)))

  pub top_limb-IsDifference : IsDifference b0 c0 d (top_limb b0 c0 d) (neglected c0 d)
  top_limb-IsDifference = elim (ℕ_discrete rest_limb 0) [
    | yes none ↦
        let clear : neglected c0 d ≡ 0 = rw (neglected_lem, none) (omega arith) in
        let a0 : lsub (lsub b0 0) (c0 / 2 ^ d) ≡ b0 - c0 / 2 ^ d = omega (arith, shifted-lt) in
        rw (clear, a0)
          (record {
            rest = 0;
            whole =
                let sum : b0 ≡ b0 - c0 / 2 ^ d + c0 / 2 ^ d = omega (arith, shifted-lt) in
                omega (arith, parts, none, ap (λ t. t * 2 ^ d) sum);
            below = pow-pos d;
            placed = omega arith;
            bounded = omega arith;
          })
    | no some ↦
        let value : neglected c0 d ≡ (2 ^ d - rest_limb) * 2 ^ (64 - d) =
          (negated (omega arith)).0 in
        let set : (neglected c0 d == 0) ≡ false = (negated (omega arith)).1 in
        let a0 : lsub (lsub b0 1) (c0 / 2 ^ d) ≡ b0 - 1 - c0 / 2 ^ d = omega (arith, shifted-lt) in
        rw (set, a0, value)
          (record {
            rest = 2 ^ d - rest_limb;
            whole =
                let sum : b0 ≡ b0 - 1 - c0 / 2 ^ d + c0 / 2 ^ d + 1 = omega (arith, shifted-lt) in
                omega (arith, parts, rest-lt, ap (λ t. t * 2 ^ d) sum);
            below = omega (arith, pow-pos d);
            placed = refl;
            bounded = omega arith;
          })
  ]

-- The shift by `cnt` places of the two limbs.
module _ (a0 rest d cnt : ℕ) (pos_d : 0 < d) (near : d < 64) (below : rest < 2 ^ d)
    (small : cnt < 64) (top : a0 * 2 ^ cnt < 2 ^ 64) where
  abbrev sb : ℕ
  sb = rest * 2 ^ (64 - d)

  sb-lt : sb < 2 ^ 64
  sb-lt =
      let width : 2 ^ 64 ≡ 2 ^ d * 2 ^ (64 - d) = pow-split 64 d (omega arith) in
      rw width
        (mul-lt-mul_of_pos_right {m = rest} {n = 2 ^ d} {k = 2 ^ (64 - d)} below (pow-pos (64 - d)))

  abbrev high : ℕ
  high = sb / 2 ^ (64 - cnt)

  abbrev low : ℕ
  low = sb % 2 ^ (64 - cnt)

  sb_parts : sb ≡ high * 2 ^ (64 - cnt) + low
  sb_parts = sym (div-add-mod' sb (2 ^ (64 - cnt)))

  places : 2 ^ 64 ≡ 2 ^ cnt * 2 ^ (64 - cnt)
  places = pow-split 64 cnt (omega arith)

  high-lt : high < 2 ^ cnt
  high-lt =
      (div-lt_iff_lt-mul {k = 2 ^ (64 - cnt)} {x = sb} {y = 2 ^ cnt} (pow-pos (64 - cnt))).1
        (omega (arith, places, sb-lt))

  shift_in_lem : shift_in a0 sb cnt ≡ a0 * 2 ^ cnt + high
  shift_in_lem = elim (ℕ_discrete cnt 0) [
    | yes none ↦ rw none (omega (arith, sb-lt))
    | no some ↦
        let set : (cnt == 0) ≡ false = ground arith in
        rw (set, mod-eq_of_lt top) (or_low cnt a0 high high-lt)
  ]

  kept : shl sb cnt ≡ low * 2 ^ cnt
  kept =
      let e : 64 - (64 - cnt) ≡ cnt = omega arith in
      rw e at (shl_dropped sb (64 - cnt) (omega arith))

  shifted_whole : a0 * 2 ^ 64 + sb ≡ shift_in a0 sb cnt * 2 ^ (64 - cnt) + low
  shifted_whole = rw shift_in_lem (omega (arith, sb_parts, ap (λ t. a0 * t) places))

  shifted-IsTop : IsTop (a0 * 2 ^ 64 + sb) (2 ^ (64 - cnt)) (shift_in a0 sb cnt) (shl sb cnt)
  shifted-IsTop = record {
    rest = low;
    whole = shifted_whole;
    below = mod-lt sb {m = 2 ^ (64 - cnt)} (pow-pos (64 - cnt));
    sticky = λ z. factor_zero low (2 ^ cnt) (pow-pos cnt) (sym kept ∙ z);
    clear = λ z. kept ∙ ap (λ t. t * 2 ^ cnt) z ∙ omega arith;
  }

  shifted-Captures :
      Captures
        (a0 * 2 ^ 64 + sb)
        (2 ^ 0 * 2 ^ (64 - cnt))
        (shift_in a0 sb cnt)
        (bit_and (shl sb cnt) limb_highbit)
        (bit_and (shl sb cnt) (lnot limb_highbit))
  shifted-Captures =
      let e : 64 - (64 - cnt) ≡ cnt = omega arith in
      let captured =
        whole-Captures_at (a0 * 2 ^ 64 + sb) (shift_in a0 sb cnt) low (64 - cnt) (omega arith)
          (omega arith) (mod-lt sb {m = 2 ^ (64 - cnt)} (pow-pos (64 - cnt))) shifted_whole in
      rw kept (rw e at captured)

  shift_in-lt : shift_in a0 sb cnt < 2 ^ 64
  shift_in-lt =
      let fits : a0 < 2 ^ (64 - cnt) =
        lt_of_mul-lt-mul_right (2 ^ cnt) {m = a0} {n = 2 ^ (64 - cnt)}
          (omega (arith, places, top)) in
      let up : (a0 + 1) * 2 ^ cnt ≤ 2 ^ (64 - cnt) * 2 ^ cnt =
        mul-le-mul_right {m = a0 + 1} {n = 2 ^ (64 - cnt)} (2 ^ cnt) (omega (arith, fits)) in
      rw shift_in_lem (omega (arith, up, places, high-lt))

module _ ⦃ll : Longlong⦄ (b0 c0 d : ℕ) (pos_d : 0 < d) (near : d < 64) (a0 sb : ℕ)
    (diff : IsDifference b0 c0 d a0 sb) where
  -- The two limbs are the difference in units of `2 ^ (d - 64)`.
  two_limbs : a0 * 2 ^ 64 + sb ≡ (b0 * 2 ^ d - c0) * 2 ^ (64 - d)
  two_limbs =
      let width : 2 ^ 64 ≡ 2 ^ d * 2 ^ (64 - d) = pow-split 64 d (omega arith) in
      let n : b0 * 2 ^ d - c0 ≡ a0 * 2 ^ d + diff.rest = omega (arith, diff.whole) in
      rw n (omega (arith, diff.placed, ap (λ t. a0 * t) width))

  module _ (some : 1 ≤ a0) where
    abbrev cnt : ℕ
    cnt = count_leading_zeros a0

    bounds : (cnt < 64) × (2 ^ 63 ≤ a0 * 2 ^ cnt) × (a0 * 2 ^ cnt < 2 ^ 64)
    bounds = count_leading_zeros_lem a0 some diff.bounded

    near-IsTop :
        IsTop ((b0 * 2 ^ d - c0) * 2 ^ (64 - d)) (2 ^ (64 - cnt)) (shift_in a0 sb cnt) (shl sb cnt)
    near-IsTop =
        rw (← two_limbs, diff.placed)
          (shifted-IsTop a0 diff.rest d cnt pos_d near diff.below bounds.0 bounds.2)

    shift_in_bounds : (2 ^ 63 ≤ shift_in a0 sb cnt) × (shift_in a0 sb cnt < 2 ^ 64)
    shift_in_bounds = rw diff.placed (
      rw (shift_in_lem a0 diff.rest d cnt pos_d near diff.below bounds.0 bounds.2)
          (omega (arith, bounds)),
      shift_in-lt a0 diff.rest d cnt pos_d near diff.below bounds.0 bounds.2,
    )

    exponent : (bx : ℤ) → bx -ℤ pos cnt ≡ bx -ℤ pos 64 +ℤ pos (64 - cnt)
    exponent bx = omega (int_laws, bounds)

    -- Cut at the ulp `1 << sh`, as `mpfr_sub1sp1` does.
    cut-IsCutOf :
        (bx : ℤ) (sh : ℕ)
        → 0 < sh
        → sh < 64
        → IsCutOf
            ((b0 * 2 ^ d - c0) * 2 ^ (64 - d))
            (bx -ℤ pos 64)
            sh
            (cut_far (bx -ℤ pos cnt) (shift_in a0 sb cnt) (shl sb cnt) sh)
    unfolding cut_far
    cut-IsCutOf bx sh pos_sh narrow =
        let (limb, captures) =
          cut ((b0 * 2 ^ d - c0) * 2 ^ (64 - d)) (2 ^ (64 - cnt)) (shift_in a0 sb cnt) (shl sb cnt)
            sh pos_sh narrow shift_in_bounds.0 shift_in_bounds.1 near-IsTop in
        record {
          weight = 64 - cnt;
          units = shift_in a0 sb cnt / 2 ^ sh;
          exponent = exponent bx;
          limb = limb;
          captures = captures;
        }

    -- A whole limb, as `mpfr_sub1sp1n` has it.
    whole-IsCutOf :
        (bx : ℤ)
        → IsCutOf ((b0 * 2 ^ d - c0) * 2 ^ (64 - d)) (bx -ℤ pos 64) 0 (record {
          exponent = bx -ℤ pos cnt;
          limb = shift_in a0 sb cnt;
          rb = bit_and (shl sb cnt) limb_highbit;
          sb = bit_and (shl sb cnt) (lnot limb_highbit);
        })
    whole-IsCutOf bx = record {
      weight = 64 - cnt;
      units = shift_in a0 sb cnt;
      exponent = exponent bx;
      limb = whole-IsLimb (shift_in a0 sb cnt) shift_in_bounds.0 shift_in_bounds.1;
      captures =
          rw (← two_limbs, diff.placed)
            (shifted-Captures a0 diff.rest d cnt pos_d near diff.below bounds.0 bounds.2);
    }

-- The magnitude in units of the lower operand, below `2 ^ (64 - d)` times that.
module _ ⦃ll : Longlong⦄ (b0 c0 d : ℕ) (pos_d : 0 < d) (near : d < 64) (hb : 2 ^ 63 ≤ b0)
    (lb : b0 < 2 ^ 64) (lc : c0 < 2 ^ 64) (bx cx : ℤ) (apart : bx ≡ cx +ℤ pos d) where
  abbrev exact : ℕ
  exact = b0 * 2 ^ d - c0

  at_lower :
      (sh : ℕ) (s : Parts)
      → IsCutOf (exact * 2 ^ (64 - d)) (bx -ℤ pos 64) sh s
      → IsCutOf (exact * 2 ^ 64) (cx -ℤ pos 64) sh s
  at_lower sh s c =
      let width : 2 ^ 64 ≡ 2 ^ d * 2 ^ (64 - d) = pow-split 64 d (omega arith) in
      let e : exact * 2 ^ (64 - d) * 2 ^ d ≡ exact * 2 ^ 64 =
        omega (arith, ap (λ t. exact * t) width) in
      subst (λ x. IsCutOf x (cx -ℤ pos 64) sh s) e
        (IsCutOf-scale (exact * 2 ^ (64 - d)) d (bx -ℤ pos 64) (cx -ℤ pos 64) sh s
          (ap (λ z. z -ℤ pos 64) apart ∙ omega int_laws) c)

  diff : IsDifference b0 c0 d (top_limb b0 c0 d) (neglected c0 d)
  diff = top_limb-IsDifference b0 c0 d pos_d near hb lb lc

  at_least : 2 ^ 63 * 2 ^ d ≤ b0 * 2 ^ d
  at_least = mul-le-mul_right {m = 2 ^ 63} {n = b0} (2 ^ d) hb

  two : 2 ≤ 2 ^ d
  two = pow-le-pow_right {n = 2} (omega arith) {i = 1} {j = d} pos_d

  top_limb-pos : c0 + 2 ≤ 2 ^ 64 → 1 ≤ top_limb b0 c0 d
  top_limb-pos room = elim (ℕ_discrete (top_limb b0 c0 d) 0) [
    | yes none ↦
        let gone : top_limb b0 c0 d * 2 ^ d ≡ 0 = rw none (omega arith) in
        absurd (omega (arith, diff.whole, diff.below, at_least, two, gone))
    | no some ↦ omega arith
  ]

  -- The limb is zero only for the neighbours of a power of two.
  lone : top_limb b0 c0 d ≡ 0 → (d ≡ 1) × (exact ≡ 1)
  lone none = elim (ℕ_discrete d 1) [
    | yes one ↦
        let two_d : 2 ^ d ≡ 2 = rw one in
        (one, omega (arith, diff.whole, diff.below, gone, ap (λ t. b0 * t) two_d, two_d))
    | no more ↦
        let four : 4 ≤ 2 ^ d =
          pow-le-pow_right {n = 2} (omega arith) {i = 2} {j = d} (omega arith) in
        absurd (omega (arith, diff.whole, diff.below, at_least, four, gone))
  ]
    where
      gone : top_limb b0 c0 d * 2 ^ d ≡ 0
      gone = rw none (omega arith)

  pub diff_near-IsCutOf :
      (sh : ℕ)
      → 0 < sh
      → sh < 64
      → c0 + 2 ≤ 2 ^ 64
      → IsCutOf (exact * 2 ^ 64) (cx -ℤ pos 64) sh (diff_near bx b0 c0 d sh)
  unfolding diff_near
  diff_near-IsCutOf sh pos_sh narrow room = at_lower sh (diff_near bx b0 c0 d sh) (
      cut-IsCutOf b0 c0 d pos_d near (top_limb b0 c0 d) (neglected c0 d) diff (top_limb-pos room) bx
        sh pos_sh narrow)

  pub whole_diff_near-IsCutOf :
      IsCutOf (exact * 2 ^ 64) (cx -ℤ pos 64) 0 (whole_diff_near bx b0 c0 d)
  unfolding whole_diff_near
  whole_diff_near-IsCutOf = elim (ℕ_discrete (top_limb b0 c0 d) 0) [
    | yes none ↦ rw none (record {
      weight = 1;
      units = 2 ^ 63;
      exponent =
          ap (λ z. z -ℤ pos 64) (apart ∙ ap (λ t. cx +ℤ pos t) (lone none).0) ∙ omega int_laws;
      limb = whole-IsLimb (2 ^ 63) (omega arith) (omega arith);
      captures = record {
        half = 1;
        low = 0;
        unit = refl;
        position = rw (lone none).1;
        below = omega arith;
        sticky = λ z. refl;
        clear = λ z. refl;
      };
    })
    | no some ↦
        let set : (top_limb b0 c0 d == 0) ≡ false = ground arith in
        rw set (
          at_lower 0 _ (
            whole-IsCutOf b0 c0 d pos_d near (top_limb b0 c0 d) (neglected c0 d) diff (omega arith)
              bx))
  ]
