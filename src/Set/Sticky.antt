-- ===== src/Set/Sticky.antt =====
-- The round and sticky bits that `MPFR_RNDRAW` takes from a number of several limbs capture it.
use native.Mathlib.Nat.{mod-lt, div-add-mod', mul-le-mul_right}
use native.Mathlib.Decide.{ℕ_discrete}
use mpfr.Base.{
  ℕ, zero, suc, ◌+◌, ◌-◌, ◌*◌, ◌/◌, ◌%◌, ◌^◌, ◌≤◌, ◌<◌, ◌≡◌, refl, ap, ◌∙◌, arith, ◌↔◌, List,
  get_or, drop, ◌==◌, ◌||◌, bit_and, bit_or, pow-pos, pow-split, pow-suc_double, div_unique, true,
  false,
}
use mpfr.Words.{shl, limb_highbit, limb_mask, lsub, and_mask, limb_mask_lem, shl-one, pow-lt-limb}
use mpfr.Words.Value.{
  low_value, low_value-suc, low_value-lt, low_value-drop, get-drop, low_value-first, IsLimbs,
  pow-limb,
}
use mpfr.Rounding.Decision.{Captures}
use mpfr.Rounding.Cut.{IsTop, cut-Captures, factor_zero, add-eq-zero, bit_or_zeros, bit_or-eq-zero}
use mpfr.Rounding.Whole.{high_bit, low_bits, half_if}
use mpfr.Types.{Rnd, is_rndn}
use mpfr.Set.{sticky_down, Bits, full_sticky, inner_bits, outer_bits, round_bits}

-- The loop finds a bit exactly if there is one.
pub sticky_down_lem :
    (src : List ℕ) (n sb : ℕ) → (sticky_down src n sb ≡ 0) ↔ (sb + low_value src n ≡ 0)
unfolding sticky_down low_value
sticky_down_lem src zero sb = omega arith
sticky_down_lem src (suc n) sb = elim (ℕ_discrete sb 0) [
  | yes none ↦ rw none (
    λ z.
        let (top, rest) =
          add-eq-zero (get_or src n 0) (low_value src n)
            ((sticky_down_lem src n (get_or src n 0)).0 z) in
        omega (arith, rest, ap (λ t. t * 2 ^ (64 * n)) top),
    λ z.
        let (top, rest) =
          add-eq-zero (get_or src n 0 * 2 ^ (64 * n)) (low_value src n) (omega (arith, z)) in
        (sticky_down_lem src n (get_or src n 0)).1
          (omega (arith, factor_zero (get_or src n 0) (2 ^ (64 * n)) (pow-pos (64 * n)) top, rest)),
  )
  | no some ↦
      let set : (sb == 0) ≡ false = ground arith in
      rw set ((λ z. absurd (some z)), (λ z. absurd (omega arith)))
]

-- Only whether the sticky bits are zero matters.
pub recapture :
    (x d q rb sb sb' : ℕ) → (sb ≡ 0) ↔ (sb' ≡ 0) → Captures x d q rb sb → Captures x d q rb sb'
recapture x d q rb sb sb' same c = record {
  half = c.half;
  low = c.low;
  unit = c.unit;
  position = c.position;
  below = c.below;
  sticky = λ z. c.sticky (same.1 z);
  clear = λ z. same.0 (c.clear z);
}

-- Whole units more.
pub Captures-add : (x d q rb sb m : ℕ) → Captures x d q rb sb → Captures (m * d + x) d (m + q) rb sb
Captures-add x d q rb sb m c = record {
  half = c.half;
  low = c.low;
  unit = c.unit;
  position = omega (arith, c.position);
  below = c.below;
  sticky = c.sticky;
  clear = c.clear;
}

-- The limbs from `skip` on, and the others, which are below the unit.
module _ (src : List ℕ) (limbs : IsLimbs src) (skip n : ℕ) where
  abbrev weight : ℕ
  weight = 2 ^ (64 * skip)

  abbrev low_part : ℕ
  low_part = low_value src skip

  abbrev sp0 : ℕ
  sp0 = get_or src skip 0

  abbrev high : ℕ
  high = low_value (drop skip src) (suc n)

  low-lt : low_part < weight
  low-lt = low_value-lt src skip limbs

  whole : low_value src (skip + suc n) ≡ high * weight + low_part
  whole = low_value-drop src skip (suc n)

  abbrev rest_high : ℕ
  rest_high = low_value (drop 1 (drop skip src)) n

  pub high_parts : high ≡ rest_high * 2 ^ 64 + sp0
  high_parts =
      let e : skip + 0 ≡ skip = omega arith in
      let first : get_or (drop skip src) 0 0 ≡ sp0 =
        get-drop skip src 0 ∙ ap (λ t. get_or src t 0) e in
      omega (arith, low_value-first (drop skip src) n, first)

  -- The unit lies within the lowest limb that is kept.
  pub inner-Captures :
      (j sb : ℕ)
      → suc j < 64
      → (sb ≡ 0) ↔ (sp0 % 2 ^ j + low_part ≡ 0)
      → Captures
          (low_value src (skip + suc n))
          (2 ^ suc j * weight)
          (high / 2 ^ suc j)
          (bit_and sp0 (shl 1 j))
          sb
  inner-Captures j sb narrow zeros =
      let width : 2 ^ 64 ≡ 2 ^ suc j * 2 ^ (64 - suc j) = pow-split 64 (suc j) (omega arith) in
      let m = rest_high * 2 ^ (64 - suc j) in
      let units : high / 2 ^ suc j ≡ m + sp0 / 2 ^ suc j =
        div_unique high (2 ^ suc j) (m + sp0 / 2 ^ suc j) (sp0 % 2 ^ suc j)
          (omega (arith, high_parts, ap (λ t. rest_high * t) width, div-add-mod' sp0 (2 ^ suc j)))
          (mod-lt sp0 {m = 2 ^ suc j} (pow-pos (suc j))) in
      let value : low_value src (skip + suc n)
          ≡ m * (2 ^ suc j * weight) + (sp0 * weight + low_part) =
        omega
          (arith, whole, ap (λ t. t * weight) high_parts, ap (λ t. rest_high * t * weight) width) in
      rw (units, value)
        (Captures-add (sp0 * weight + low_part) (2 ^ suc j * weight) (sp0 / 2 ^ suc j)
          (bit_and sp0 (shl 1 j)) sb m
          (recapture _ _ _ _ (bit_or low_part (sp0 % 2 ^ j)) sb same
            (cut-Captures sp0 j narrow (sp0 * weight + low_part) weight low_part top)))
    where
      top : IsTop (sp0 * weight + low_part) weight sp0 low_part
      top = record {
        rest = low_part;
        whole = refl;
        below = low-lt;
        sticky = λ z. z;
        clear = λ z. z;
      }

      same : (bit_or low_part (sp0 % 2 ^ j) ≡ 0) ↔ (sb ≡ 0)
      same = (
        λ z. let (a, b) = bit_or-eq-zero low_part (sp0 % 2 ^ j) z in zeros.1 (omega (arith, a, b)),
        λ z.
            let (a, b) = add-eq-zero (sp0 % 2 ^ j) low_part (zeros.0 z) in
            bit_or_zeros low_part (sp0 % 2 ^ j) b a,
      )

  -- The unit is a whole limb.
  pub outer-Captures :
      (k sb : ℕ)
      → skip ≡ suc k
      → (sb ≡ 0) ↔ (get_or src k 0 % 2 ^ 63 + low_value src k ≡ 0)
      → Captures
          (low_value src (skip + suc n))
          (2 ^ 0 * weight)
          high
          (bit_and (get_or src k 0) limb_highbit)
          sb
  outer-Captures k sb e zeros =
      let bit : w / 2 ^ 63 < 2 = omega (arith, limbs k) in
      let parts : w ≡ w / 2 ^ 63 * 2 ^ 63 + w % 2 ^ 63 = omega arith in
      let weights : weight ≡ 2 ^ 64 * 2 ^ (64 * k) = rw e (pow-limb k) in
      let below : low_value src k < 2 ^ (64 * k) = low_value-lt src k limbs in
      let lower : low_part ≡ w * 2 ^ (64 * k) + low_value src k = last_limb in
      rw (high_bit w) (record {
        half = 2 ^ 63 * 2 ^ (64 * k);
        low = w % 2 ^ 63 * 2 ^ (64 * k) + low_value src k;
        unit = omega (arith, weights);
        position =
            rw (half_if (w / 2 ^ 63) (2 ^ 63 * 2 ^ (64 * k)) bit)
              (omega (arith, whole, lower, ap (λ t. t * 2 ^ (64 * k)) parts));
        below =
            let le : (w % 2 ^ 63 + 1) * 2 ^ (64 * k) ≤ 2 ^ 63 * 2 ^ (64 * k) =
              mul-le-mul_right {m = w % 2 ^ 63 + 1} {n = 2 ^ 63} (2 ^ (64 * k)) (omega arith) in
            omega arith;
        sticky = λ z.
            let (top, rest) = add-eq-zero (w % 2 ^ 63) (low_value src k) (zeros.0 z) in
            omega (arith, rest, ap (λ t. t * 2 ^ (64 * k)) top);
        clear = λ z.
            let (top, rest) = add-eq-zero (w % 2 ^ 63 * 2 ^ (64 * k)) (low_value src k) z in
            zeros.1
              (omega (arith, rest, factor_zero (w % 2 ^ 63) (2 ^ (64 * k)) (pow-pos (64 * k)) top));
      })
    where
      w : ℕ
      w = get_or src k 0

      last_limb : low_part ≡ w * 2 ^ (64 * k) + low_value src k
      last_limb = rw e (low_value-suc src k)

-- What `round_bits` computes, with enough of the sticky bits for the rounding mode.
module _ (rnd : Rnd) (src : List ℕ) (limbs : IsLimbs src) (skip n : ℕ) where
  -- Either the round and sticky bits capture the number, or the round bit alone decides.
  abbrev pub IsDecided : ℕ → ℕ → ℕ → Bits → Type 0
  IsDecided x d q b =
      (sb : ℕ) × Captures x d q b.rb sb × ((is_rndn rnd || b.rb == 0) ≡ true → sb ≡ b.sb)

  decided :
      (x d q rb sb n' ulp : ℕ)
      → Captures x d q rb (sticky_down src n' sb)
      → IsDecided x d q (record { rb = rb; sb = full_sticky rnd rb src n' sb; ulp = ulp })
  unfolding full_sticky
  decided x d q rb sb n' ulp c = (sticky_down src n' sb, c, λ h. rw h)

  low_mask : (j w : ℕ) → j < 64 → bit_and w (lsub (shl 1 j) 1) ≡ w % 2 ^ j
  low_mask j w h =
      let value : lsub (shl 1 j) 1 ≡ limb_mask j =
        rw (shl-one j h, limb_mask_lem j h) (omega (arith, pow-pos j, pow-lt-limb j h)) in
      rw value (and_mask w j h)

  pub round_bits-IsDecided :
      (sh : ℕ)
      → sh < 64
      → (sh ≡ 0 → 0 < skip)
      → IsDecided
          (low_value src (skip + suc n))
          (2 ^ sh * 2 ^ (64 * skip))
          (low_value (drop skip src) (suc n) / 2 ^ sh)
          (round_bits rnd src skip sh)
  unfolding round_bits inner_bits outer_bits
  round_bits-IsDecided zero narrow some =
      let k = skip - 1 in
      let w = get_or src k 0 in
      let e : skip ≡ suc k = omega (arith, some refl) in
      let same : high src limbs skip n / 1 ≡ high src limbs skip n = omega arith in
      let low : bit_and w (2 ^ 63 - 1) ≡ w % 2 ^ 63 = low_bits w in
      decided _ _ _ (bit_and w limb_highbit) (bit_and w (2 ^ 63 - 1)) k 1 (
        rw (same, low)
          (outer-Captures src limbs skip n k (sticky_down src k (w % 2 ^ 63)) e
            (sticky_down_lem src k (w % 2 ^ 63))))
  round_bits-IsDecided (suc j) narrow some =
      let set : (suc j == 0) ≡ false = ground arith in
      let before : suc j - 1 ≡ j = omega arith in
      let w = get_or src skip 0 in
      rw (set, before)
        (decided _ _ _ (bit_and w (shl 1 j)) (bit_and w (lsub (shl 1 j) 1)) skip (shl (shl 1 j) 1) (
          rw (low_mask j w (omega arith)) (
            inner-Captures src limbs skip n j (sticky_down src skip (w % 2 ^ j)) narrow
              (sticky_down_lem src skip (w % 2 ^ j)))))

  pub round_bits-ulp : (sh : ℕ) → sh < 64 → (round_bits rnd src skip sh).ulp ≡ 2 ^ sh
  unfolding round_bits inner_bits outer_bits
  round_bits-ulp zero narrow = refl
  round_bits-ulp (suc j) narrow =
      let set : (suc j == 0) ≡ false = ground arith in
      let before : suc j - 1 ≡ j = omega arith in
      rw (set, before, shl-one j (omega arith))
        (omega (arith, pow-suc_double j, pow-lt-limb (suc j) narrow))
