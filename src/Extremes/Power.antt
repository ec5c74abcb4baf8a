-- ===== src/Extremes/Power.antt =====
-- The significands that `mpfr_setmin` and `mpfr_setmax` store, and the test of
-- `mpfr_powerof2_raw`, as numbers.
use native.Mathlib.Nat.{mul-le-mul_right}
use native.Mathlib.Decide.{dec_lt}
use mpfr.Base.{
  replicate, ◌++◌, [], ◌∷◌, ℕ, zero, suc, ◌+◌, ◌-◌, ◌*◌, ◌/◌, ◌^◌, ◌<◌, ◌≤◌, ◌≡◌, refl, List,
  get_or, ◌==◌, if◌then◌else◌, Bool, true, false, arith, pow-pos, mod_unique,
}
use mpfr.Base.{ℤ}
use mpfr.Words.{limb_bits, limb_highbit, limb_max, shl, pow-lt-limb}
use mpfr.Words.Value.{low_value, low_value-lt, IsLimbs, pow-limb}
use mpfr.Types.{Mpfr, prec2limbs}
use mpfr.Extremes.{setmin, setmax, powerof2_raw, powerof2_raw2, all_zero_below}

tail_zero :
    (x w r : ℕ) (t : Bool) → 1 ≤ w → t ≡ (r == 0) → (if x == 0 then t else false) ≡ (x * w + r == 0)
tail_zero zero w r t h e = ground (arith, e)
tail_zero (suc x) w r t h e = ground arith

pub all_zero_below_lem : (p : List ℕ) (n : ℕ) → all_zero_below p n ≡ (low_value p n == 0)
unfolding all_zero_below low_value
all_zero_below_lem p zero = refl
all_zero_below_lem p (suc n) =
    tail_zero (get_or p n 0) (2 ^ (64 * n)) (low_value p n) (all_zero_below p n) (pow-pos (64 * n))
      (all_zero_below_lem p n)

half_or_not :
    (x w r : ℕ)
    → r < w
    → (if x == limb_highbit then r == 0 else false) ≡ (2 * (x * w + r) == 2 ^ 64 * w)
half_or_not x w r h = elim (dec_lt x (2 ^ 63)) [
  | yes less ↦
      let le : (x + 1) * w ≤ 2 ^ 63 * w =
        mul-le-mul_right {m = x + 1} {n = 2 ^ 63} w (omega arith) in
      ground (arith, le)
  | no rest ↦ elim (dec_lt (2 ^ 63) x) [
    | yes more ↦
        let le : (2 ^ 63 + 1) * w ≤ x * w =
          mul-le-mul_right {m = 2 ^ 63 + 1} {n = x} w (omega arith) in
        ground (arith, le)
    | no same ↦ let e : x ≡ 2 ^ 63 = omega arith in rw e (ground arith)
  ]
]

top_power :
    (p : List ℕ) (n : ℕ)
    → IsLimbs p
    → (if get_or p n 0 == limb_highbit then all_zero_below p n else false)
      ≡ (2 * low_value p (suc n) == 2 ^ (64 * suc n))
unfolding low_value
top_power p n h =
    rw (all_zero_below_lem p n, pow-limb n)
      (half_or_not (get_or p n 0) (2 ^ (64 * n)) (low_value p n) (low_value-lt p n h))

pub powerof2_raw_lem :
    (x : Mpfr)
    → IsLimbs x.mant
    → powerof2_raw x ≡ (2 * low_value x.mant (prec2limbs x.prec) == 2 ^ (64 * prec2limbs x.prec))
unfolding powerof2_raw powerof2_raw2
powerof2_raw_lem x h =
    let n : prec2limbs x.prec ≡ suc ((x.prec - 1) / limb_bits) = omega arith in
    let last : suc ((x.prec - 1) / limb_bits) - 1 ≡ (x.prec - 1) / limb_bits = omega arith in
    rw (n, last) (top_power x.mant ((x.prec - 1) / limb_bits) h)

get-replicate : (n : ℕ) (a d : ℕ) (ys : List ℕ) → (get_or (replicate n a ++ ys) n d ≡ get_or ys 0 d)
get-replicate zero a d ys = refl
get-replicate (suc n) a d ys = get-replicate n a d ys

get-zeros : (n m : ℕ) (ys : List ℕ) → m < n → get_or (replicate n 0 ++ ys) m 0 ≡ 0
get-zeros zero m ys h = absurd (omega arith)
get-zeros (suc n) zero ys h = refl
get-zeros (suc n) (suc m) ys h = get-zeros n m ys (omega arith)

zeros_below : (n m : ℕ) (ys : List ℕ) → m ≤ n → all_zero_below (replicate n 0 ++ ys) m ≡ true
unfolding all_zero_below
zeros_below n zero ys h = refl
zeros_below n (suc m) ys h = rw (get-zeros n m ys (omega arith)) (zeros_below n m ys (omega arith))

powerof2_raw-setmin : (x : Mpfr) (e : ℤ) → powerof2_raw (setmin x e) ≡ true
unfolding powerof2_raw powerof2_raw2 setmin
powerof2_raw-setmin x e =
    let last : prec2limbs x.prec - 1 ≡ (x.prec - 1) / limb_bits = omega arith in
    rw (last, get-replicate ((x.prec - 1) / limb_bits) 0 0 (limb_highbit ∷ []))
      (zeros_below ((x.prec - 1) / limb_bits) ((x.prec - 1) / limb_bits) (limb_highbit ∷ [])
        (omega arith))

get-ones : (n m low : ℕ) → m < n → get_or (low ∷ replicate n limb_max) (suc m) 0 ≡ 2 ^ 64 - 1
get-ones zero m low h = absurd (omega arith)
get-ones (suc n) zero low h = refl
get-ones (suc n) (suc m) low h = get-ones n m limb_max (omega arith)

-- Limbs of ones over the lowest.
ones_value :
    (n m low : ℕ)
    → m ≤ n
    → low < 2 ^ 64
    → low_value (low ∷ replicate n limb_max) (suc m) + (2 ^ 64 - low) ≡ 2 ^ (64 * suc m)
unfolding low_value
ones_value n zero low h k = omega arith
ones_value n (suc m) low h k =
    rw (get-ones n m low (omega arith), pow-limb (suc m))
      (omega (arith, ones_value n m low (omega arith) k))

shl-ones : (sh : ℕ) → sh < 64 → shl limb_max sh + 2 ^ sh ≡ 2 ^ 64
shl-ones sh h =
    let r =
      mod_unique ((2 ^ 64 - 1) * 2 ^ sh) (2 ^ 64) (2 ^ sh - 1) (2 ^ 64 - 2 ^ sh)
        (omega (arith, pow-pos sh, pow-lt-limb sh h)) (omega (arith, pow-pos sh)) in
    omega (arith, r, pow-lt-limb sh h)

-- With `2 ^ sh` added it is a power of the limb base.
setmax_lem :
    (x : Mpfr) (e : ℤ)
    → 0 < x.prec
    → low_value (setmax x e).mant (prec2limbs x.prec) + 2 ^ (prec2limbs x.prec * limb_bits - x.prec)
      ≡ 2 ^ (64 * prec2limbs x.prec)
unfolding setmax
setmax_lem x e h =
    let n : prec2limbs x.prec ≡ suc ((x.prec - 1) / limb_bits) = omega arith in
    let last : suc ((x.prec - 1) / limb_bits) - 1 ≡ (x.prec - 1) / limb_bits = omega arith in
    let sh : suc ((x.prec - 1) / limb_bits) * limb_bits - x.prec < 64 = omega arith in
    let ones = shl-ones (suc ((x.prec - 1) / limb_bits) * limb_bits - x.prec) sh in
    rw (n, last)
      (omega (
        arith,
        ones,
        pow-pos (suc ((x.prec - 1) / limb_bits) * limb_bits - x.prec),
        ones_value ((x.prec - 1) / limb_bits) ((x.prec - 1) / limb_bits)
            (shl limb_max (suc ((x.prec - 1) / limb_bits) * limb_bits - x.prec)) (omega arith)
            (omega (arith, ones, pow-pos (suc ((x.prec - 1) / limb_bits) * limb_bits - x.prec))),
      ))

-- For every precision of at least 1, `mpfr_powerof2_raw` tests that the significand is a half, the
-- least that is normalized; it holds of the one that `mpfr_setmin` stores; and the one that
-- `mpfr_setmax` stores is one unit in the last place below 1.
pub extremes_lem :
    (x : Mpfr) (e : ℤ)
    → IsLimbs x.mant
    → 0 < x.prec
    → let n = prec2limbs x.prec in
      (powerof2_raw x ≡ (2 * low_value x.mant n == 2 ^ (64 * n)))
      × (powerof2_raw (setmin x e) ≡ true)
      × (low_value (setmax x e).mant n + 2 ^ (n * limb_bits - x.prec) ≡ 2 ^ (64 * n))
extremes_lem x e h some = (powerof2_raw_lem x h, powerof2_raw-setmin x e, setmax_lem x e some)
