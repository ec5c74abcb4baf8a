-- ===== src/Rounding/Least.antt =====
-- When a captured significand is the least of its weight, a power of two.
use native.Mathlib.Nat.{le_of_mul-le-mul_right}
use mpfr.Base.{ℕ, ◌+◌, ◌*◌, ◌^◌, ◌≤◌, ◌<◌, ◌≡◌, ap, arith, Bool, true, false, ◌&&◌, ◌==◌}
use mpfr.Base.{Bool-cases, inl, inr, if◌then◌else◌, bit_or, pow-pos}
use mpfr.Words.{limb_highbit}
use mpfr.Rounding.{Parts}
use mpfr.Rounding.Limb.{IsLimb}
use mpfr.Rounding.Decision.{Captures}
use mpfr.Rounding.Cut.{bit_or_zeros, bit_or-eq-zero}

least_parts : (m n : ℕ) → (m == limb_highbit && n == 0) ≡ true → (m ≡ 2 ^ 63) × (n ≡ 0)
least_parts m n h = ground arith

-- A captured significand is the least of its weight exactly if its limb has the highest bit alone
-- and its round and sticky bits are clear.
module _ (x w q sh : ℕ) (s : Parts) (l : IsLimb s.limb q sh)
    (c : Captures x (2 ^ sh * 2 ^ w) q s.rb s.sb) where
  abbrev pub is_least : Bool
  is_least = s.limb == limb_highbit && bit_or s.rb s.sb == 0

  position : x ≡ s.limb * 2 ^ w + ((if s.rb == 0 then 0 else c.half) + c.low)
  position = omega (arith, c.position, ap (λ t. t * 2 ^ w) l.units)

  pub least : x ≡ 2 ^ 63 * 2 ^ w → is_least ≡ true
  least h = ground (arith, highest, no_rest, c.below, c.clear, bit_or_zeros s.rb s.sb)
    where
      limb_le : s.limb ≤ 2 ^ 63
      limb_le =
          le_of_mul-le-mul_right {m = s.limb} {n = 2 ^ 63} {k = 2 ^ w} (omega (arith, position, h))
            (pow-pos w)

      highest : s.limb ≡ 2 ^ 63
      highest = omega (arith, limb_le, l.normalized)

      no_rest : (if s.rb == 0 then 0 else c.half) + c.low ≡ 0
      no_rest = omega (arith, position, h, ap (λ t. t * 2 ^ w) highest)

  pub not_least : 2 ^ 63 * 2 ^ w < x → is_least ≡ false
  not_least h = elim (Bool-cases is_least) [ inl is ↦ absurd (greater is) | inr isnt ↦ isnt ]
    where
      greater : is_least ≡ true → ⊥
      greater is =
          let (highest, clear) = least_parts s.limb (bit_or s.rb s.sb) is in
          let (rb_clear, sb_clear) = bit_or-eq-zero s.rb s.sb clear in
          let above : (if s.rb == 0 then 0 else c.half) ≡ 0 = rw rb_clear in
          absurd (omega (arith, position, above, c.sticky sb_clear, ap (λ t. t * 2 ^ w) highest, h))
