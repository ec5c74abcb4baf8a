-- ===== src/Sub/Exact.antt =====
-- The exact difference of two numbers of one limb and equal sign, by the order of the operands.
use native.Mathlib.Nat.{pow-le-pow_right, mul-le-mul_right}
use mpfr.Base.{ℕ, ◌+◌, ◌-◌, ◌*◌, ◌^◌, ◌≤◌, ◌<◌, ◌≡◌, arith, true, false}
use mpfr.Base.{ℤ, pos, pos_part, ◌+ℤ◌, ◌-ℤ◌, ◌<ℤ◌, -ℤ_parts, lt→ltb, ge→ltb, Bool-cases, inl, inr}
use mpfr.Base.{if◌then◌else◌, ltb, ltb_ℤ, eqb_ℤ, ltb→lt, ltb→ge, eq_of_parts, ==_iff}
use mpfr.Types.{Rnd, Mpfr, Env, Out, Sign, opposite}
use mpfr.Rounding.Range.{IsCorrectRange}
use mpfr.Add.Single.{low_exponent, distance}

-- The two operands, in units of `2 ^ (low_exponent bx cx - 64)`.
abbrev pub scaled_left : ℤ → ℤ → ℕ → ℕ
scaled_left bx cx b0 = b0 * 2 ^ pos_part (bx -ℤ cx)

abbrev pub scaled_right : ℤ → ℤ → ℕ → ℕ
scaled_right bx cx c0 = c0 * 2 ^ pos_part (cx -ℤ bx)

-- The magnitude of the exact difference of two numbers of equal sign, and its sign.
abbrev pub scaled_difference : ℤ → ℤ → ℕ → ℕ → ℕ
scaled_difference bx cx b0 c0 =
    (scaled_left bx cx b0 - scaled_right bx cx c0) + (scaled_right bx cx c0 - scaled_left bx cx b0)

abbrev pub difference_sign : Sign → ℤ → ℤ → ℕ → ℕ → Sign
difference_sign s bx cx b0 c0 =
    if ltb (scaled_left bx cx b0) (scaled_right bx cx c0) then opposite s else s

-- `r` is the rounding to `64 - sh` bits of the exact difference. Its significand is scaled by
-- `2 ^ 64`, so that it has at least 64 bits however many of them cancel.
abbrev pub IsDifferenceOf : Mpfr → Sign → Rnd → ℤ → ℤ → ℕ → ℕ → ℕ → Env → Out → Type 0
IsDifferenceOf a s rnd bx cx b0 c0 sh e r =
    IsCorrectRange (record a { sign = difference_sign s bx cx b0 c0 }) rnd
      (scaled_difference bx cx b0 c0 * 2 ^ 64) (low_exponent bx cx -ℤ pos 64) sh e r

-- The exact difference, by the order of the operands.
module _ (s : Sign) (bx cx : ℤ) (b0 c0 : ℕ) where
  difference_down :
      scaled_right bx cx c0 ≤ scaled_left bx cx b0
      → (scaled_difference bx cx b0 c0 ≡ scaled_left bx cx b0 - scaled_right bx cx c0)
        × (difference_sign s bx cx b0 c0 ≡ s)
  difference_down h = (omega arith, rw (ge→ltb _ _ h))

  difference_up :
      scaled_left bx cx b0 < scaled_right bx cx c0
      → (scaled_difference bx cx b0 c0 ≡ scaled_right bx cx c0 - scaled_left bx cx b0)
        × (difference_sign s bx cx b0 c0 ≡ opposite s)
  difference_up h = (omega arith, rw (lt→ltb _ _ h))

pub eqb_refl : (z : ℤ) → eqb_ℤ z z ≡ true
eqb_refl z = ground arith

pub unequal : (a b : ℤ) → ltb_ℤ a b ≡ false → eqb_ℤ a b ≡ false → b <ℤ a
unequal a b h k = ground arith

-- A distance between normalized limbs decides which one is larger.
pub larger : (b0 c0 d : ℕ) → 2 ^ 63 ≤ b0 → c0 < 2 ^ 64 → 0 < d → c0 < b0 * 2 ^ d
larger b0 c0 d h k p =
    let two : 2 ≤ 2 ^ d = pow-le-pow_right {n = 2} (omega arith) {i = 1} {j = d} p in
    let le : 2 ^ 63 * 2 ^ d ≤ b0 * 2 ^ d = mul-le-mul_right {m = 2 ^ 63} {n = b0} (2 ^ d) h in
    omega arith

module _ (a : Mpfr) (s : Sign) (rnd : Rnd) (b0 c0 sh : ℕ) (e : Env) (hb : 2 ^ 63 ≤ b0)
    (lb : b0 < 2 ^ 64) (hc : 2 ^ 63 ≤ c0) (lc : c0 < 2 ^ 64) where
  -- `bx > cx`
  pub larger_left :
      (bx cx : ℤ) (r : Out)
      → cx <ℤ bx
      → (0 < pos_part (bx -ℤ cx)
          → bx ≡ cx +ℤ pos (pos_part (bx -ℤ cx))
          → IsCorrectRange
              (record a { sign = s })
              rnd
              ((b0 * 2 ^ pos_part (bx -ℤ cx) - c0) * 2 ^ 64)
              (cx -ℤ pos 64)
              sh
              e
              r)
      → IsDifferenceOf a s rnd bx cx b0 c0 sh e r
  larger_left bx cx r h correct =
      let (none, apart) = distance cx bx (omega arith) in
      let positive : 0 < pos_part (bx -ℤ cx) = omega (arith, -ℤ_parts bx cx) in
      let right : scaled_right bx cx c0 ≡ c0 = rw none (omega arith) in
      let less = larger b0 c0 (pos_part (bx -ℤ cx)) hb lc positive in
      let (value, sign) = difference_down s bx cx b0 c0 (omega (arith, right)) in
      let low : low_exponent bx cx ≡ cx = ground arith in
      rw (sign, value, low, right) (correct positive apart)

  -- `bx < cx`
  pub larger_right :
      (bx cx : ℤ) (r : Out)
      → bx <ℤ cx
      → (0 < pos_part (cx -ℤ bx)
          → cx ≡ bx +ℤ pos (pos_part (cx -ℤ bx))
          → IsCorrectRange
              (record a { sign = opposite s })
              rnd
              ((c0 * 2 ^ pos_part (cx -ℤ bx) - b0) * 2 ^ 64)
              (bx -ℤ pos 64)
              sh
              e
              r)
      → IsDifferenceOf a s rnd bx cx b0 c0 sh e r
  larger_right bx cx r h correct =
      let (none, apart) = distance bx cx (omega arith) in
      let positive : 0 < pos_part (cx -ℤ bx) = omega (arith, -ℤ_parts cx bx) in
      let left : scaled_left bx cx b0 ≡ b0 = rw none (omega arith) in
      let less = larger c0 b0 (pos_part (cx -ℤ bx)) hc lb positive in
      let (value, sign) = difference_up s bx cx b0 c0 (omega (arith, left)) in
      let low : low_exponent bx cx ≡ bx = ground arith in
      rw (sign, value, low, left) (correct positive apart)

-- `bx == cx`: the limbs are compared.
module _ (a : Mpfr) (s : Sign) (rnd : Rnd) (b0 c0 sh : ℕ) (e : Env) (bx : ℤ) (r : Out) where
  no_distance : pos_part (bx -ℤ bx) ≡ 0
  no_distance = (distance bx bx (omega arith)).0

  left : scaled_left bx bx b0 ≡ b0
  left = rw no_distance (omega arith)

  right : scaled_right bx bx c0 ≡ c0
  right = rw no_distance (omega arith)

  low : low_exponent bx bx ≡ bx
  low = ground arith

  pub equal_left :
      c0 < b0
      → IsCorrectRange (record a { sign = s }) rnd ((b0 - c0) * 2 ^ 64) (bx -ℤ pos 64) sh e r
      → IsDifferenceOf a s rnd bx bx b0 c0 sh e r
  equal_left h correct =
      let (value, sign) = difference_down s bx bx b0 c0 (omega (arith, left, right)) in
      rw (sign, value, low, left, right) correct

  pub equal_right :
      b0 < c0
      → IsCorrectRange
          (record a { sign = opposite s })
          rnd
          ((c0 - b0) * 2 ^ 64)
          (bx -ℤ pos 64)
          sh
          e
          r
      → IsDifferenceOf a s rnd bx bx b0 c0 sh e r
  equal_right h correct =
      let (value, sign) = difference_up s bx bx b0 c0 (omega (arith, left, right)) in
      rw (sign, value, low, left, right) correct

-- Normalized limbs stand for the same number only where the exponents and the limbs are equal.
pub equal_values :
    (bx cx : ℤ) (b0 c0 : ℕ)
    → 2 ^ 63 ≤ b0
    → b0 < 2 ^ 64
    → 2 ^ 63 ≤ c0
    → c0 < 2 ^ 64
    → scaled_left bx cx b0 ≡ scaled_right bx cx c0
    → (bx ≡ cx) × (b0 ≡ c0)
equal_values bx cx b0 c0 hb lb hc lc equal = elim (Bool-cases (eqb_ℤ bx cx)) [
  | inl same ↦
      let e : bx ≡ cx = eq_of_parts bx cx ((==_iff _ _).0 same) in
      let none : pos_part (cx -ℤ cx) ≡ 0 = (distance cx cx (omega arith)).0 in
      (e, omega (arith, rw (e, none) at equal))
  | inr apart ↦ elim (Bool-cases (ltb_ℤ bx cx)) [
    | inl less ↦
        let (none, up) = distance bx cx (omega (arith, ltb→lt _ _ less)) in
        let gap : 0 < pos_part (cx -ℤ bx) = omega (arith, ltb→lt _ _ less, -ℤ_parts cx bx) in
        absurd (omega (arith, rw none at equal, larger c0 b0 (pos_part (cx -ℤ bx)) hc lb gap))
    | inr more ↦
        let (none, up) = distance cx bx (omega (arith, ltb→ge _ _ more)) in
        let gap : 0 < pos_part (bx -ℤ cx) =
          omega (arith, unequal bx cx more apart, -ℤ_parts bx cx) in
        absurd (omega (arith, rw none at equal, larger b0 c0 (pos_part (bx -ℤ cx)) hb lc gap))
  ]
]
