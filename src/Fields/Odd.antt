-- ===== src/Fields/Odd.antt =====
-- `mpfr_odd_p` tests that the number is an odd integer.
use native.Mathlib.Decide.{dec_lt}
use native.Mathlib.Nat.{mod-eq_of_lt, pow-le-pow_right, mul-le-mul_right, mod-lt, div-add-mod'}
use mpfr.Base.{
  ℕ, suc, ◌+◌, ◌-◌, ◌*◌, ◌/◌, ◌%◌, ◌^◌, ◌≤◌, ◌<◌, ◌≡◌, refl, sym, ap, ◌∙◌, get_or, ◌==◌, not,
  bit_and, if◌then◌else◌, true, false, Bool, ℤ, pos, pos_part, neg_part, leb_ℤ, ltb_ℤ, Bool-cases,
  inl, inr, arith, pow-pos, pow-suc_double, pow-add, pow-split, mod_unique,
}
use mpfr.Words.{limb_bits, limb_highbit, shl}
use mpfr.Words.{bit_and-one}
use mpfr.Words.Value.{low_value, low_value-lt, low_value-mod, shl_dropped}
use mpfr.Types.{Mpfr, prec2limbs}
use mpfr.Compare.Magnitude.{IsRegular}
use mpfr.Extremes.{all_zero_below}
use mpfr.Extremes.Power.{all_zero_below_lem}
use mpfr.Fields.{odd_p}
use mpfr.Fields.Integer.{nonpos_part, positive_part, low_value-remainder, same_remainder}

-- The test of the limb with the last integer bit.
abbrev even_bits : ℕ → ℕ → Bool
even_bits t r = if r == 0 then bit_and t 1 == 0 else not (shl t (r - 1) == limb_highbit)

whole_bit : (t : ℕ) → (bit_and t 1 == 0) ≡ not (t % 2 ^ 1 == 2 ^ 0)
whole_bit t = rw (bit_and-one t) (ground (arith, mod-lt t {m = 2} (omega arith)))

both_equal :
    (x y w low : ℕ) → low < w → (x * w + low == y * w) ≡ (if x == y then low == 0 else false)
both_equal x y w low h = elim (dec_lt x y) [
  | yes less ↦
      let step : (x + 1) * w ≤ y * w = mul-le-mul_right {m = x + 1} {n = y} w (omega arith) in
      ground (arith, step)
  | no high ↦ elim (dec_lt y x) [
    | yes more ↦
        let step : (y + 1) * w ≤ x * w = mul-le-mul_right {m = y + 1} {n = x} w (omega arith) in
        ground (arith, step)
    | no low_x ↦ let same : x ≡ y = omega arith in rw same (ground arith)
  ]
]

pub scaled_equal : (x y w : ℕ) → 1 ≤ w → (x * w == y * w) ≡ (x == y)
scaled_equal x y w h =
    let none : x * w + 0 ≡ x * w = omega arith in
    sym (ap (λ t. t == y * w) none) ∙ both_equal x y w 0 h ∙ ground arith

shifted_bit : (t w : ℕ) → w ≤ 63 → (shl t (63 - w) == limb_highbit) ≡ (t % 2 ^ suc w == 2 ^ w)
shifted_bit t w small =
    let e : 64 - suc w ≡ 63 - w = omega arith in
    let dropped = shl_dropped t (suc w) (omega arith) in
    let shifted : shl t (63 - w) ≡ t % 2 ^ suc w * 2 ^ (63 - w) = rw e at dropped in
    rw (shifted, pow-split 63 w (omega arith))
      (scaled_equal (t % 2 ^ suc w) (2 ^ w) (2 ^ (63 - w)) (pow-pos (63 - w)))

-- The last integer bit of `e` is at the place `w`, and is tested in its limb.
even_bits_lem :
    (t e w n : ℕ)
    → 1 ≤ e
    → w + e ≡ 64 * n
    → even_bits t (e % limb_bits) ≡ not (t % 2 ^ suc (w % 64) == 2 ^ (w % 64))
even_bits_lem t e w n positive total = elim (dec_lt 0 (w % 64)) [
  | yes inner ↦
      let r : e % limb_bits ≡ suc (63 - w % 64) = omega arith in
      let m = 63 - w % 64 in
      let nonzero : (suc m == 0) ≡ false = ground arith in
      let before : suc m - 1 ≡ m = omega arith in
      rw (r, nonzero, before) (ap not (shifted_bit t (w % 64) (omega arith)))
  | no outer ↦
      let r : e % limb_bits ≡ 0 = omega arith in
      let r' : w % 64 ≡ 0 = omega arith in rw (r, r') (whole_bit t)
]

-- A remainder is scaled with the number.
scaled_mod : (v m k : ℕ) → 0 < m → 0 < k → v * k % (m * k) ≡ v % m * k
scaled_mod v m k pos_m pos_k =
    let parts : v ≡ v / m * m + v % m = sym (div-add-mod' v m) in
    let step : (v % m + 1) * k ≤ m * k =
      mul-le-mul_right {m = v % m + 1} {n = m} k (omega (arith, mod-lt v {m = m} pos_m)) in
    mod_unique (v * k) (m * k) (v / m) (v % m * k) (omega (arith, ap (λ t. t * k) parts))
      (omega (arith, step))

odd_cases :
    (even : Bool) (t u : ℕ) (low : ℕ)
    → even ≡ not (t == u)
    → (if even then false else low == 0) ≡ (if t == u then low == 0 else false)
odd_cases even t u low h =
    rw h (elim (Bool-cases (t == u)) [ inl p ↦ rw p refl | inr p ↦ rw p refl ])

beyond : (p : ℕ) (z : ℤ) → ltb_ℤ (pos p) z ≡ true → p < pos_part z
beyond p z h = ground arith

within : (p : ℕ) (z : ℤ) → ltb_ℤ (pos p) z ≡ false → pos_part z ≤ p
within p z h = ground arith

least_one : (z : ℤ) → leb_ℤ z (pos 0) ≡ false → 1 ≤ pos_part z
least_one z h = ground arith

module _ (x : Mpfr) (z : ℤ) (h : IsRegular x z) where
  abbrev value : ℕ
  value = low_value x.mant (prec2limbs x.prec)

  abbrev width : ℕ
  width = 64 * prec2limbs x.prec

  module _ (e : ℕ) (positive : 1 ≤ e) (inside : e ≤ x.prec) where
    abbrev w : ℕ
    w = prec2limbs x.prec * limb_bits - e

    abbrev k : ℕ
    k = w / limb_bits

    rest :
        value % 2 ^ suc w ≡ get_or x.mant k 0 % 2 ^ suc (w % 64) * 2 ^ (64 * k) + low_value x.mant k
    rest =
        let n : prec2limbs x.prec ≡ (prec2limbs x.prec - suc k) + suc k = omega arith in
        let d : suc w ≡ suc (w % 64) + 64 * k = omega arith in
        let c : 64 * suc k ≡ (63 - w % 64) + (suc (w % 64) + 64 * k) = omega arith in
        ap (λ t. low_value x.mant t % 2 ^ suc w) n
        ∙ ap (λ t. low_value x.mant ((prec2limbs x.prec - suc k) + suc k) % 2 ^ t) d
        ∙ same_remainder (low_value x.mant ((prec2limbs x.prec - suc k) + suc k))
            (low_value x.mant (suc k)) (63 - w % 64) (suc (w % 64) + 64 * k)
            (ap (λ t. low_value x.mant ((prec2limbs x.prec - suc k) + suc k) % 2 ^ t) (sym c)
              ∙ low_value-mod x.mant (prec2limbs x.prec - suc k) (suc k) h.limbs)
        ∙ ap (λ t. low_value x.mant (suc k) % t) (pow-add (suc (w % 64)) (64 * k))
        ∙ low_value-remainder x.mant k (suc (w % 64)) h.limbs

    odd_inside :
        (if even_bits (get_or x.mant k 0) (e % limb_bits) then false else all_zero_below x.mant k)
        ≡ (value % 2 ^ suc w == 2 ^ w)
    odd_inside =
        let place : 2 ^ w ≡ 2 ^ (w % 64) * 2 ^ (64 * k) =
          ap (λ t. 2 ^ t) (omega arith) ∙ pow-add (w % 64) (64 * k) in
        let t = get_or x.mant k 0 in
        ap (λ b. if even_bits t (e % limb_bits) then false else b) (all_zero_below_lem x.mant k)
        ∙ odd_cases (even_bits t (e % limb_bits)) (t % 2 ^ suc (w % 64)) (2 ^ (w % 64))
            (low_value x.mant k) (even_bits_lem t e w (prec2limbs x.prec) positive (omega arith))
        ∙ sym (
            both_equal (t % 2 ^ suc (w % 64)) (2 ^ (w % 64)) (2 ^ (64 * k)) (low_value x.mant k)
              (low_value-lt x.mant k h.limbs))
        ∙ ap (λ v. v == 2 ^ (w % 64) * 2 ^ (64 * k)) (sym rest)
        ∙ ap (λ v. value % 2 ^ suc w == v) (sym place)

  -- Below 1.
  small_odd : (d : ℕ) → (value * 2 ^ 0 % (2 * 2 ^ (width + d)) == 2 ^ (width + d)) ≡ false
  small_odd d =
      let grows =
        pow-le-pow_right {n = 2} (omega arith) {i = width} {j = width + d} (omega arith) in
      let below = low_value-lt x.mant (prec2limbs x.prec) h.limbs in
      let whole : value * 2 ^ 0 % (2 * 2 ^ (width + d)) ≡ value =
        ap (λ t. t % (2 * 2 ^ (width + d))) (omega arith)
        ∙ mod-eq_of_lt (omega (arith, grows, below)) in
      rw whole (ground (arith, grows, below))

  -- Beyond the precision, where the number is a multiple of 2.
  large_odd :
      (e : ℕ)
      → x.prec < e
      → value % 2 ^ (width - x.prec) ≡ 0
      → (value * 2 ^ e % (2 * 2 ^ (width + 0)) == 2 ^ (width + 0)) ≡ false
  large_odd e l clean = rw none (ground (arith, pow-pos (width + 0)))
    where
      q : ℕ
      q = value / 2 ^ (width - x.prec)

      parts : value ≡ q * 2 ^ (width - x.prec)
      parts = omega (arith, sym (div-add-mod' value (2 ^ (width - x.prec))), clean)

      power : 2 ^ (width - x.prec) * 2 ^ e ≡ 2 ^ (e - suc x.prec) * (2 * 2 ^ (width + 0))
      power =
          let e' : width - x.prec + e ≡ e - suc x.prec + suc (width + 0) = omega arith in
          sym (pow-add (width - x.prec) e)
          ∙ ap (λ t. 2 ^ t) e'
          ∙ pow-add (e - suc x.prec) (suc (width + 0))
          ∙ ap (λ t. 2 ^ (e - suc x.prec) * t) (pow-suc_double (width + 0))

      none : value * 2 ^ e % (2 * 2 ^ (width + 0)) ≡ 0
      none =
          mod_unique (value * 2 ^ e) (2 * 2 ^ (width + 0)) (q * 2 ^ (e - suc x.prec)) 0
            (omega (arith, ap (λ t. t * 2 ^ e) parts, ap (λ t. q * t) power))
            (omega (arith, pow-pos (width + 0)))

  inside_odd :
      (e : ℕ)
      → 1 ≤ e
      → e ≤ x.prec
      → (value * 2 ^ e % (2 * 2 ^ (width + 0)) == 2 ^ (width + 0))
        ≡ (value % 2 ^ suc (width - e) == 2 ^ (width - e))
  inside_odd e positive inside =
      let split : 2 ^ (width + 0) ≡ 2 ^ (width - e) * 2 ^ e =
        ap (λ t. 2 ^ t) (omega arith) ∙ pow-add (width - e) e in
      let double : 2 * 2 ^ (width + 0) ≡ 2 ^ suc (width - e) * 2 ^ e =
        omega (arith, split, ap (λ t. t * 2 ^ e) (pow-suc_double (width - e))) in
      rw
        (
          double,
          scaled_mod value (2 ^ suc (width - e)) (2 ^ e) (pow-pos (suc (width - e))) (pow-pos e),
          split,
        )
        (scaled_equal (value % 2 ^ suc (width - e)) (2 ^ (width - e)) (2 ^ e) (pow-pos e))

  -- Of a normalized number whose bits below its precision are zero, `mpfr_odd_p` tells, whatever the
  -- exponent, whether the number, `value * 2 ^ (z - width)`, is an odd integer: an odd multiple of
  -- `2 ^ width` after scaling.
  pub odd_p_lem :
      value % 2 ^ (width - x.prec) ≡ 0
      → odd_p z x
        ≡ (value * 2 ^ pos_part z % (2 * 2 ^ (width + neg_part z)) == 2 ^ (width + neg_part z))
  unfolding odd_p
  odd_p_lem clean = elim (Bool-cases (leb_ℤ z (pos 0))) [
    | inl low ↦ rw (low, nonpos_part z low) (sym (small_odd (neg_part z)))
    | inr high ↦ elim (Bool-cases (ltb_ℤ (pos x.prec) z)) [
      | inl large ↦
          rw (high, large, positive_part z high)
            (sym (large_odd (pos_part z) (beyond x.prec z large) clean))
      | inr inside ↦
          let e = pos_part z in
          let order : prec2limbs x.prec * limb_bits - e ≡ width - e = omega arith in
          rw (high, inside, positive_part z high)
            (odd_inside e (least_one z high) (within x.prec z inside)
              ∙ ap (λ t. value % 2 ^ suc t == 2 ^ t) order
              ∙ sym (inside_odd e (least_one z high) (within x.prec z inside)))
    ]
  ]
