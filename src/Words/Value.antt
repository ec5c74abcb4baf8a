-- ===== src/Words/Value.antt =====
-- The numbers that lists of limbs stand for, the least significant limb first.
use native.Mathlib.Nat.{mul-le-mul_right, mul-lt-mul_of_pos_right, mod-lt, div-add-mod'}
use mpfr.Base.{
  ℕ, zero, suc, refl, [], ◌∷◌, drop, ◌∙◌, ◌+◌, ◌*◌, ◌^◌, ◌≤◌, ◌<◌, ◌≡◌, List, get_or, arith,
  pow-add, pow-pos, pow-split, mod_unique, sym, ap, ◌/◌, ◌%◌, ◌-◌,
}
use mpfr.Words.Limb.{shl}

-- The number that the lowest `n` limbs of `p` stand for.
unfoldable pub low_value : List ℕ → ℕ → ℕ
low_value p zero = 0
low_value p (suc n) = get_or p n 0 * 2 ^ (64 * n) + low_value p n

pub low_value-suc :
    (p : List ℕ) (n : ℕ) → low_value p (suc n) ≡ get_or p n 0 * 2 ^ (64 * n) + low_value p n
unfolding low_value
low_value-suc p n = refl

abbrev pub IsLimbs : List ℕ → Type 0
IsLimbs p = (i : ℕ) → get_or p i 0 < 2 ^ 64

pub pow-limb : (n : ℕ) → 2 ^ (64 * suc n) ≡ 2 ^ 64 * 2 ^ (64 * n)
pow-limb n = let e : 64 * suc n ≡ 64 + 64 * n = omega arith in rw e (pow-add 64 (64 * n))

pub low_value-lt : (p : List ℕ) (n : ℕ) → IsLimbs p → low_value p n < 2 ^ (64 * n)
unfolding low_value
low_value-lt p zero h = omega arith
low_value-lt p (suc n) h =
    let step : (get_or p n 0 + 1) * 2 ^ (64 * n) ≤ 2 ^ 64 * 2 ^ (64 * n) =
      mul-le-mul_right {m = get_or p n 0 + 1} {n = 2 ^ 64} (2 ^ (64 * n)) (omega (arith, h n)) in
    omega (arith, step, pow-limb n, low_value-lt p n h)

-- A left shift by `64 - d` keeps the bits that a right shift by `d` drops.
pub shl_dropped : (c d : ℕ) → d ≤ 64 → shl c (64 - d) ≡ c % 2 ^ d * 2 ^ (64 - d)
shl_dropped c d h =
    mod_unique (c * 2 ^ (64 - d)) (2 ^ 64) (c / 2 ^ d) (c % 2 ^ d * 2 ^ (64 - d)) whole below
  where
    parts : c ≡ c / 2 ^ d * 2 ^ d + c % 2 ^ d
    parts = sym (div-add-mod' c (2 ^ d))

    width : 2 ^ 64 ≡ 2 ^ d * 2 ^ (64 - d)
    width = pow-split 64 d (omega arith)

    whole : c * 2 ^ (64 - d) ≡ c / 2 ^ d * 2 ^ 64 + c % 2 ^ d * 2 ^ (64 - d)
    whole = omega (arith, ap (λ t. c / 2 ^ d * t) width, ap (λ t. t * 2 ^ (64 - d)) parts)

    below : c % 2 ^ d * 2 ^ (64 - d) < 2 ^ 64
    below = rw width (
        mul-lt-mul_of_pos_right {m = c % 2 ^ d} {n = 2 ^ d} {k = 2 ^ (64 - d)}
          (mod-lt c {m = 2 ^ d} (pow-pos d)) (pow-pos (64 - d)))

-- The lowest `m` limbs are the remainder by their weight.
pub low_value-mod :
    (p : List ℕ) (q m : ℕ) → IsLimbs p → low_value p (q + m) % 2 ^ (64 * m) ≡ low_value p m
unfolding low_value
low_value-mod p zero m h =
    let e : zero + m ≡ m = omega arith in
    rw e (
      mod_unique (low_value p m) (2 ^ (64 * m)) 0 (low_value p m) (omega arith)
        (low_value-lt p m h))
low_value-mod p (suc q) m h =
    let e : suc q + m ≡ suc (q + m) = omega arith in
    let weight : 2 ^ (64 * (q + m)) ≡ 2 ^ (64 * q) * 2 ^ (64 * m) =
      let d : 64 * (q + m) ≡ 64 * q + 64 * m = omega arith in rw d (pow-add (64 * q) (64 * m)) in
    let lower : low_value p (q + m)
        ≡ low_value p (q + m) / 2 ^ (64 * m) * 2 ^ (64 * m) + low_value p (q + m) % 2 ^ (64 * m) =
      sym (div-add-mod' (low_value p (q + m)) (2 ^ (64 * m))) in
    rw e (
      mod_unique (low_value p (suc (q + m))) (2 ^ (64 * m))
        (get_or p (q + m) 0 * 2 ^ (64 * q) + low_value p (q + m) / 2 ^ (64 * m)) (low_value p m)
        (omega (arith, lower, low_value-mod p q m h, ap (λ t. get_or p (q + m) 0 * t) weight))
        (low_value-lt p m h))

pub get-drop : (k : ℕ) (p : List ℕ) (i : ℕ) → get_or (drop k p) i 0 ≡ get_or p (k + i) 0
get-drop zero p i = let e : zero + i ≡ i = omega arith in rw e
get-drop (suc k) [] i = refl
get-drop (suc k) (x ∷ p) i = let e : suc k + i ≡ suc (k + i) = omega arith in rw e (get-drop k p i)

-- A number cut between two limbs.
pub low_value-drop :
    (p : List ℕ) (k n : ℕ)
    → low_value p (k + n) ≡ low_value (drop k p) n * 2 ^ (64 * k) + low_value p k
unfolding low_value
low_value-drop p k zero = let e : k + zero ≡ k = omega arith in rw e (omega arith)
low_value-drop p k (suc n) =
    let e : k + suc n ≡ suc (k + n) = omega arith in
    let weight : 2 ^ (64 * (k + n)) ≡ 2 ^ (64 * n) * 2 ^ (64 * k) =
      let d : 64 * (k + n) ≡ 64 * n + 64 * k = omega arith in rw d (pow-add (64 * n) (64 * k)) in
    rw (e, get-drop k p n)
      (omega (arith, low_value-drop p k n, ap (λ t. get_or p (k + n) 0 * t) weight))

pub drop-IsLimbs : (k : ℕ) (p : List ℕ) → IsLimbs p → IsLimbs (drop k p)
drop-IsLimbs k p h i = rw (get-drop k p i) (h (k + i))

-- The lowest limb, and the others.
pub low_value-first :
    (p : List ℕ) (n : ℕ) → low_value p (suc n) ≡ low_value (drop 1 p) n * 2 ^ 64 + get_or p 0 0
unfolding low_value
low_value-first p n =
    let e : suc n ≡ 1 + n = omega arith in ap (low_value p) e ∙ low_value-drop p 1 n ∙ omega arith
