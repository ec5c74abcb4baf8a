-- ===== src/Compare/Magnitude.antt =====
-- The comparison of two regular numbers against the numbers themselves, as natural numbers over a
-- common unit.
use native.Mathlib.Nat.{mul-le-mul, mul-le-mul_right, mul-le-mul_left}
use native.Mathlib.Decide.{dec_lt}
use mpfr.Base.{ℕ, suc, ◌+◌, ◌-◌, ◌*◌, ◌^◌, ◌/◌, List, ◌≤◌, ◌<◌, ◌≡◌, ap, ◌∙◌, get_or}
use mpfr.Base.{ℤ, pos, pos_part, neg_part, ◌-ℤ◌, ◌≤ℤ◌, arith, pow-pos}
use mpfr.Base.{pow-suc_double, pow-split, int_laws, eq_of_parts, lt→ltb, ge→ltb}
use mpfr.Words.{limb_bits}
use mpfr.Types.{Mpfr, num, prec2limbs, Env}
use mpfr.Compare.{cmp_regular, cmpabs, answer}
use mpfr.Words.Value.{low_value, low_value-lt, IsLimbs, pow-limb}
use mpfr.Compare.Limbs.{signed_compare, cmp_limbs_lem}

-- A normalized number of exponent `e`: the highest bit of its top limb is set.
pub record IsRegular (x : Mpfr) (e : ℤ) : Type 0 where
  pub exponent : x.exp ≡ num e
  pub limbs : IsLimbs x.mant
  pub normalized : 2 ^ 63 ≤ get_or x.mant (prec2limbs x.prec - 1) 0

-- The number `|x|` of exponent `e` in units of `2 ^ (base - 64 * (n + pad))`, where `n` is the
-- number of its limbs.
abbrev pub magnitude : Mpfr → ℤ → ℤ → ℕ → ℕ
magnitude x e base pad =
    low_value x.mant (prec2limbs x.prec) * 2 ^ (64 * pad) * 2 ^ pos_part (e -ℤ base)

top_value :
    (p : List ℕ) (n : ℕ) → 2 ^ 63 ≤ get_or p n 0 → 2 ^ (64 * suc n) ≤ 2 * low_value p (suc n)
unfolding low_value
top_value p n h =
    let top : 2 ^ 63 * 2 ^ (64 * n) ≤ get_or p n 0 * 2 ^ (64 * n) =
      mul-le-mul_right {m = 2 ^ 63} {n = get_or p n 0} (2 ^ (64 * n)) h in
    omega (arith, top, pow-limb n)

pub normalized_value :
    (x : Mpfr) (e : ℤ)
    → IsRegular x e
    → 2 ^ (64 * prec2limbs x.prec) ≤ 2 * low_value x.mant (prec2limbs x.prec)
unfolding low_value
normalized_value x e r =
    let n : prec2limbs x.prec ≡ suc ((x.prec - 1) / limb_bits) = omega arith in
    let last : prec2limbs x.prec - 1 ≡ (x.prec - 1) / limb_bits = omega arith in
    rw n (top_value x.mant ((x.prec - 1) / limb_bits) (rw last at r.normalized))

pow-lt : (p q : ℕ) → p < q → 2 * 2 ^ p ≤ 2 ^ q
pow-lt p q h =
    let le : 2 ^ suc p * 1 ≤ 2 ^ suc p * 2 ^ (q - suc p) =
      mul-le-mul_left {m = 1} {n = 2 ^ (q - suc p)} (2 ^ suc p) (pow-pos (q - suc p)) in
    omega (arith, le, pow-suc_double p, pow-split q (suc p) h)

-- A normalized number outweighs any number of smaller exponent.
exponent_outweighs :
    (nb nc w v p q : ℕ)
    → w ≤ 2 * nb
    → nc < v
    → 1 ≤ w
    → 2 * 2 ^ p ≤ 2 ^ q
    → nc * w * 2 ^ p < nb * v * 2 ^ q
exponent_outweighs nb nc w v p q hb hc hw h =
    let one : (nb * v) * (2 * 2 ^ p) ≤ (nb * v) * 2 ^ q =
      mul-le-mul_left {m = 2 * 2 ^ p} {n = 2 ^ q} (nb * v) h in
    let two : w * (v * 2 ^ p) ≤ 2 * nb * (v * 2 ^ p) =
      mul-le-mul_right {m = w} {n = 2 * nb} (v * 2 ^ p) hb in
    let three : (nc + 1) * (w * 2 ^ p) ≤ v * (w * 2 ^ p) =
      mul-le-mul_right {m = nc + 1} {n = v} (w * 2 ^ p) (omega arith) in
    let four : 1 * 1 ≤ w * 2 ^ p =
      mul-le-mul {n₁ = 1} {m₁ = 1} {n₂ = w} {m₂ = 2 ^ p} hw (pow-pos p) in
    omega (arith, one, two, three, four)

-- A common factor leaves the comparison.
compare_times :
    (s : ℤ) (x y w : ℕ) → 1 ≤ w → signed_compare s x y ≡ signed_compare s (x * w) (y * w)
compare_times s x y w h = elim (dec_lt x y) [
  | yes l ↦
      let le : (x + 1) * w ≤ y * w = mul-le-mul_right {m = x + 1} {n = y} w (omega arith) in
      ground (arith, le)
  | no l ↦ elim (dec_lt y x) [
    | yes m ↦
        let le : (y + 1) * w ≤ x * w = mul-le-mul_right {m = y + 1} {n = x} w (omega arith) in
        ground (arith, le)
    | no m ↦ let e : x ≡ y = omega arith in rw e (ground arith)
  ]
]

difference-nonneg : (a b : ℤ) → b ≤ℤ a → neg_part (a -ℤ b) ≡ 0
unfolding ◌-ℤ◌
difference-nonneg a b h = ground arith

module _ (b c : Mpfr) (be ce base : ℤ) (hb : IsRegular b be) (hc : IsRegular c ce) (lb : base ≤ℤ be)
    (lc : base ≤ℤ ce) where
  pub cmp_regular_lem :
      (s : ℤ)
      → cmp_regular b c be ce s
        ≡ signed_compare s
            (magnitude b be base (prec2limbs c.prec))
            (magnitude c ce base (prec2limbs b.prec))
  unfolding cmp_regular
  cmp_regular_lem s = elim (dec_lt (pos_part ce + neg_part be) (pos_part be + neg_part ce)) [
    | yes h ↦ rw (lt→ltb _ _ h) (
        ground (
          arith,
          exponent_outweighs nb nc (2 ^ (64 * prec2limbs b.prec)) (2 ^ (64 * prec2limbs c.prec))
              (pos_part (ce -ℤ base)) (pos_part (be -ℤ base)) (normalized_value b be hb)
              (low_value-lt c.mant (prec2limbs c.prec) hc.limbs) (pow-pos (64 * prec2limbs b.prec))
              (pow-lt _ _ (omega (int_laws, above be lb, above ce lc))),
        ))
    | no h ↦
        rw (ge→ltb (pos_part ce + neg_part be) (pos_part be + neg_part ce) (omega arith))
          (elim (dec_lt (pos_part be + neg_part ce) (pos_part ce + neg_part be)) [
            | yes k ↦ rw (lt→ltb _ _ k) (
                ground (
                  arith,
                  exponent_outweighs nc nb (2 ^ (64 * prec2limbs c.prec))
                      (2 ^ (64 * prec2limbs b.prec)) (pos_part (be -ℤ base)) (pos_part (ce -ℤ base))
                      (normalized_value c ce hc) (low_value-lt b.mant (prec2limbs b.prec) hb.limbs)
                      (pow-pos (64 * prec2limbs c.prec))
                      (pow-lt _ _ (omega (int_laws, above be lb, above ce lc))),
                ))
            | no k ↦
                let same : be ≡ ce = eq_of_parts be ce (omega arith) in
                rw
                  (
                    ge→ltb (pos_part be + neg_part ce) (pos_part ce + neg_part be) (omega arith),
                    same,
                  )
                  (cmp_limbs_lem b.mant (prec2limbs b.prec) c.mant (prec2limbs c.prec) s hb.limbs
                      hc.limbs
                    ∙ compare_times s _ _ (2 ^ pos_part (ce -ℤ base)) (pow-pos _))
          ])
  ]
    where
      above : (a : ℤ) → base ≤ℤ a → neg_part (a -ℤ base) ≡ 0
      above a h = difference-nonneg a base h

      nb : ℕ
      nb = low_value b.mant (prec2limbs b.prec)

      nc : ℕ
      nc = low_value c.mant (prec2limbs c.prec)

  pub magnitude-pos : 1 ≤ magnitude b be base (prec2limbs c.prec)
  magnitude-pos =
      let top = normalized_value b be hb in
      let one = pow-pos (64 * prec2limbs b.prec) in
      let left : 1 * 1 ≤ low_value b.mant (prec2limbs b.prec) * 2 ^ (64 * prec2limbs c.prec) =
        mul-le-mul {n₁ = 1} {m₁ = 1} {n₂ = low_value b.mant (prec2limbs b.prec)}
          {m₂ = 2 ^ (64 * prec2limbs c.prec)} (omega (arith, top, one)) (pow-pos _) in
      mul-le-mul {n₁ = 1} {m₁ = 1} {m₂ = 2 ^ pos_part (be -ℤ base)} left (pow-pos _)

  -- On two regular numbers `mpfr_cmpabs` returns the sign of `|b| - |c|`, whatever their precisions,
  -- and leaves the global state as it is.
  pub cmpabs_lem :
      (e : Env)
      → cmpabs b c e
        ≡ answer
            (signed_compare
              (pos 1)
              (magnitude b be base (prec2limbs c.prec))
              (magnitude c ce base (prec2limbs b.prec)))
            e
  unfolding cmpabs
  cmpabs_lem e = rw (hb.exponent, hc.exponent) (ap (λ v. answer v e) (cmp_regular_lem (pos 1)))
