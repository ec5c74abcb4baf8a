-- ===== src/Compare/Limbs.antt =====
-- The limb loops of the comparisons, against the numbers that the limbs stand for.
use native.Mathlib.Nat.{mul-le-mul_right}
use native.Mathlib.Decide.{dec_lt}
use mpfr.Base.{ℕ, zero, suc, ◌+◌, ◌*◌, ◌^◌, ◌≤◌, ◌<◌, ◌≡◌, refl, ap, List, get_or, ltb, ◌==◌}
use mpfr.Base.{if◌then◌else◌, ℤ, pos, neg_ℤ, arith, lt→ltb, ge→ltb, ◌∙◌, pow-pos}
use mpfr.Words.Value.{low_value, low_value-lt, IsLimbs, pow-limb}
use mpfr.Compare.{cmp_limbs, tail_limbs}

-- `s`, 0 or `-s` as `a` is greater than, equal to or less than `b`.
abbrev pub signed_compare : ℤ → ℕ → ℕ → ℤ
signed_compare s a b = if ltb a b then neg_ℤ s else if a == b then pos 0 else s

tail_step :
    (x w r : ℕ) (s t : ℤ)
    → 1 ≤ w
    → t ≡ (if r == 0 then pos 0 else s)
    → (if x == 0 then t else s) ≡ (if x * w + r == 0 then pos 0 else s)
tail_step zero w r s t h e = ground (arith, e)
tail_step (suc x) w r s t h e = ground arith

tail_limbs_lem :
    (p : List ℕ) (n : ℕ) (s : ℤ) → tail_limbs p n s ≡ (if low_value p n == 0 then pos 0 else s)
unfolding tail_limbs low_value
tail_limbs_lem p zero s = refl
tail_limbs_lem p (suc n) s =
    tail_step (get_or p n 0) (2 ^ (64 * n)) (low_value p n) s (tail_limbs p n s) (pow-pos (64 * n))
      (tail_limbs_lem p n s)

-- A greater top limb outweighs whatever lies below.
top_outweighs :
    (b c lb lc w v : ℕ)
    → c < b
    → lb < w
    → lc < v
    → (c * v + lc) * (2 ^ 64 * w) < (b * w + lb) * (2 ^ 64 * v)
top_outweighs b c lb lc w v h hb hc =
    let top : (c + 1) * (w * v) ≤ b * (w * v) =
      mul-le-mul_right {m = c + 1} {n = b} (w * v) (omega arith) in
    let low : (lc + 1) * w ≤ v * w = mul-le-mul_right {m = lc + 1} {n = v} w (omega arith) in
    omega (arith, top, low)

-- A common multiple of `2 ^ 64` below which both numbers are scaled leaves the comparison.
compare_scaled :
    (s : ℤ) (k x y : ℕ)
    → signed_compare s x y ≡ signed_compare s (2 ^ 64 * k + 2 ^ 64 * x) (2 ^ 64 * k + 2 ^ 64 * y)
compare_scaled s k x y = ground arith

-- One limb of the main loop: the top limbs decide, or else the limbs below.
limb_step :
    (b c lb lc w v : ℕ) (s rest : ℤ)
    → lb < w
    → lc < v
    → rest ≡ signed_compare s (lb * v) (lc * w)
    → (if ltb c b then s else if ltb b c then neg_ℤ s else rest)
      ≡ signed_compare s ((b * w + lb) * (2 ^ 64 * v)) ((c * v + lc) * (2 ^ 64 * w))
limb_step b c lb lc w v s rest hb hc e = elim (dec_lt c b) [
  | yes h ↦ rw (lt→ltb c b h) (ground (arith, top_outweighs b c lb lc w v h hb hc))
  | no h ↦ rw (ge→ltb c b (omega arith)) (elim (dec_lt b c) [
    | yes k ↦ rw (lt→ltb b c k) (ground (arith, top_outweighs c b lc lb v w k hc hb))
    | no k ↦ rw (ge→ltb b c (omega arith)) (
        let same : b ≡ c = omega arith in
        let left : 2 ^ 64 * (b * (w * v)) + 2 ^ 64 * (lb * v) ≡ (b * w + lb) * (2 ^ 64 * v) =
          omega arith in
        let right : 2 ^ 64 * (b * (w * v)) + 2 ^ 64 * (lc * w) ≡ (c * v + lc) * (2 ^ 64 * w) =
          omega (arith, ap (λ t. t * (w * v)) same) in
        rw (← left, ← right) (e ∙ compare_scaled s (b * (w * v)) (lb * v) (lc * w)))
  ])
]

pub cmp_limbs_lem :
    (bp : List ℕ) (bn : ℕ) (cp : List ℕ) (cn : ℕ) (s : ℤ)
    → IsLimbs bp
    → IsLimbs cp
    → cmp_limbs bp bn cp cn s
      ≡ signed_compare s (low_value bp bn * 2 ^ (64 * cn)) (low_value cp cn * 2 ^ (64 * bn))
unfolding cmp_limbs low_value
cmp_limbs_lem bp (suc bn) cp (suc cn) s hb hc =
    rw (pow-limb bn, pow-limb cn)
      (limb_step (get_or bp bn 0) (get_or cp cn 0) (low_value bp bn) (low_value cp cn)
        (2 ^ (64 * bn)) (2 ^ (64 * cn)) s (cmp_limbs bp bn cp cn s) (low_value-lt bp bn hb)
        (low_value-lt cp cn hc) (cmp_limbs_lem bp bn cp cn s hb hc))
cmp_limbs_lem bp zero cp (suc cn) s hb hc = ground (arith, tail_limbs_lem cp (suc cn) (neg_ℤ s))
cmp_limbs_lem bp (suc bn) cp zero s hb hc = ground (arith, tail_limbs_lem bp (suc bn) s)
cmp_limbs_lem bp zero cp zero s hb hc = refl
