-- ===== src/Rounding/Cut.antt =====
-- A limb `a0` cut for rounding: its parts capture any exact significand of which it is the top.
use native.Mathlib.Nat.{mod-lt, div-add-mod', mul-le-mul_right, le-div_iff_mul-le}
use mpfr.Base.{ℕ, zero, suc, ◌+◌, ◌-◌, ◌*◌, ◌/◌, ◌%◌, ◌^◌, ◌≤◌, ◌<◌, ◌≡◌, refl, sym, ap}
use mpfr.Base.{◌==◌, if◌then◌else◌, bit_and, bit_or, bit_xor, arith, pow-pos, pow-suc_double}
use mpfr.Base.{pow-split}
use mpfr.Words.{shl, lnot, limb_mask, and_bit, and_not_mask, low_split, xor_round_bit}
use mpfr.Words.{bit_or_ge, xor_bit}
use mpfr.Rounding.{round_bit, sticky_part, truncated}
use mpfr.Rounding.Limb.{IsLimb}
use mpfr.Rounding.Decision.{Captures}

-- `x` is `a0 * u` and a remainder that is zero exactly if `sb` is.
pub record IsTop (x u a0 sb : ℕ) : Type 0 where
  pub rest : ℕ
  pub whole : x ≡ a0 * u + rest
  pub below : rest < u
  pub sticky : sb ≡ 0 → rest ≡ 0
  pub clear : rest ≡ 0 → sb ≡ 0

pub bit_or-eq-zero : (a b : ℕ) → bit_or a b ≡ 0 → (a ≡ 0) × (b ≡ 0)
bit_or-eq-zero a b h = omega (arith, bit_or_ge a b)

pub bit_or_zeros : (a b : ℕ) → a ≡ 0 → b ≡ 0 → bit_or a b ≡ 0
bit_or_zeros a b p q = rw (p, q)

pub add-eq-zero : (m n : ℕ) → m + n ≡ 0 → (m ≡ 0) × (n ≡ 0)
add-eq-zero m n h = omega arith

pub factor_zero : (m u : ℕ) → 1 ≤ u → m * u ≡ 0 → m ≡ 0
factor_zero zero u h e = refl
factor_zero (suc m) u h e = absurd (omega arith)

bit_value : (b t u : ℕ) → b < 2 → 1 ≤ t → b * t * u ≡ (if b * t == 0 then 0 else t * u)
bit_value zero t u h k = ground arith
bit_value (suc zero) t u h k = ground arith
bit_value (suc (suc b)) t u h k = absurd (omega arith)

module _ (a0 j : ℕ) (narrow : suc j < 64) where
  abbrev q : ℕ
  q = a0 / 2 ^ suc j

  limb_parts : a0 ≡ q * 2 ^ suc j + (bit_and a0 (shl 1 j) + a0 % 2 ^ j)
  limb_parts = omega (arith, sym (div-add-mod' a0 (2 ^ suc j)), low_split a0 j (omega arith))

  bit_cases :
      (u : ℕ) → bit_and a0 (shl 1 j) * u ≡ (if bit_and a0 (shl 1 j) == 0 then 0 else 2 ^ j * u)
  bit_cases u =
      rw (and_bit a0 j (omega arith))
        (bit_value (a0 / 2 ^ j % 2) (2 ^ j) u (omega arith) (pow-pos j))

  pub cut-Captures :
      (x u sb : ℕ)
      → IsTop x u a0 sb
      → Captures x (2 ^ suc j * u) q (bit_and a0 (shl 1 j)) (bit_or sb (a0 % 2 ^ j))
  cut-Captures x u sb top = record {
    half = 2 ^ j * u;
    low = a0 % 2 ^ j * u + top.rest;
    unit = omega (arith, ap (λ t. t * u) (pow-suc_double j));
    position = rw (← bit_cases u) (omega (arith, top.whole, ap (λ t. t * u) limb_parts));
    below =
        let more : (a0 % 2 ^ j + 1) * u ≤ 2 ^ j * u =
          mul-le-mul_right {m = a0 % 2 ^ j + 1} {n = 2 ^ j} u
            (omega (arith, mod-lt a0 {m = 2 ^ j} (pow-pos j))) in
        omega (arith, top.below);
    sticky = λ z.
        let (none_above, none_low) = bit_or-eq-zero sb (a0 % 2 ^ j) z in
        rw (none_low, top.sticky none_above) (omega arith);
    clear = λ z.
        let (none_low, none_rest) = add-eq-zero (a0 % 2 ^ j * u) top.rest z in
        bit_or_zeros sb (a0 % 2 ^ j) (top.clear none_rest)
          (factor_zero (a0 % 2 ^ j) u (omega (arith, top.below)) none_low);
  }

module _ (a0 j : ℕ) (narrow : suc j < 64) (normalized : 2 ^ 63 ≤ a0) (bounded : a0 < 2 ^ 64) where
  cut-IsLimb : IsLimb (bit_and a0 (lnot (limb_mask (suc j)))) (a0 / 2 ^ suc j) (suc j)
  cut-IsLimb = rw (and_not_mask a0 (suc j) narrow bounded) (record {
    narrow = narrow;
    units = refl;
    normalized = high;
    bounded = omega (arith, div-add-mod' a0 (2 ^ suc j));
  })
    where
      width : 2 ^ 63 ≡ 2 ^ (63 - suc j) * 2 ^ suc j
      width = omega (arith, pow-split 63 (suc j) (omega arith))

      high : 2 ^ 63 ≤ a0 / 2 ^ suc j * 2 ^ suc j
      high = rw width (
          mul-le-mul_right {m = 2 ^ (63 - suc j)} {n = a0 / 2 ^ suc j} (2 ^ suc j)
            ((le-div_iff_mul-le {k = 2 ^ suc j} (pow-pos (suc j))).1 (omega (arith, width))))

-- The round bit, sticky bit and truncated limb that the code computes from `a0`, for any `sh`.
pub cut :
    (x u a0 sb sh : ℕ)
    → 0 < sh
    → sh < 64
    → 2 ^ 63 ≤ a0
    → a0 < 2 ^ 64
    → IsTop x u a0 sb
    → IsLimb (truncated a0 sh) (a0 / 2 ^ sh) sh
      × Captures x (2 ^ sh * u) (a0 / 2 ^ sh) (round_bit a0 sh) (bit_or sb (sticky_part a0 sh))
cut x u a0 sb zero pos narrow normalized bounded top = absurd (omega arith)
cut x u a0 sb (suc j) pos narrow normalized bounded top =
    let e : suc j - 1 ≡ j = omega arith in
    rw (e, xor_round_bit a0 j narrow)
      (cut-IsLimb a0 j narrow normalized bounded, cut-Captures a0 j narrow x u sb top)

-- A limb with no bit below its round bit is cut by clearing that bit.
pub cut_exact :
    (a0 sh : ℕ)
    → 0 < sh
    → sh < 64
    → a0 < 2 ^ 64
    → a0 % 2 ^ (sh - 1) ≡ 0
    → (bit_xor a0 (round_bit a0 sh) ≡ truncated a0 sh) × (sticky_part a0 sh ≡ 0)
cut_exact a0 zero pos narrow bounded none = absurd (omega arith)
cut_exact a0 (suc j) pos narrow bounded none =
    let e : suc j - 1 ≡ j = omega arith in
    let none' : a0 % 2 ^ j ≡ 0 = rw e at none in
    rw (e, xor_round_bit a0 j narrow, and_not_mask a0 (suc j) narrow bounded)
      (
        omega (
          arith,
          rw (← and_bit a0 j (omega arith)) at (xor_bit a0 j),
          low_split a0 j (omega arith),
          div-add-mod' a0 (2 ^ suc j),
          none',
        ),
        none',
      )
