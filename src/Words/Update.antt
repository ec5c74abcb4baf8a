-- ===== src/Words/Update.antt =====
-- A limb of a number replaced, and zeros put below.
use mpfr.Base.{
  ℕ, zero, suc, ◌+◌, ◌*◌, ◌^◌, ◌≤◌, ◌<◌, ◌≡◌, refl, List, [], ◌∷◌, get_or, set, length, arith,
}
use native.Mathlib.Decide.{dec_lt}
use mpfr.Base.{◌-◌, ◌++◌, replicate, ltb, lt→ltb, ge→ltb, if◌then◌else◌}
use mpfr.Words.Value.{low_value, IsLimbs}

get-set : (p : List ℕ) (i v : ℕ) → i < length p → get_or (set p i v) i 0 ≡ v
get-set [] i v h = absurd (omega arith)
get-set (x ∷ p) zero v h = refl
get-set (x ∷ p) (suc i) v h = get-set p i v (omega arith)

get-set_other : (p : List ℕ) (i j v : ℕ) → j < i → get_or (set p i v) j 0 ≡ get_or p j 0
get-set_other [] i j v h = refl
get-set_other (x ∷ p) zero j v h = absurd (omega arith)
get-set_other (x ∷ p) (suc i) zero v h = refl
get-set_other (x ∷ p) (suc i) (suc j) v h = get-set_other p i j v (omega arith)

low_value-set : (p : List ℕ) (i v n : ℕ) → n ≤ i → low_value (set p i v) n ≡ low_value p n
unfolding low_value
low_value-set p i v zero h = refl
low_value-set p i v (suc n) h =
    rw (get-set_other p i n v (omega arith), low_value-set p i v n (omega arith))

-- The top limb replaced.
pub top_set :
    (p : List ℕ) (n v : ℕ)
    → suc n ≡ length p
    → low_value (set p n v) (suc n) ≡ v * 2 ^ (64 * n) + low_value p n
unfolding low_value
top_set p n v h = rw (get-set p n v (omega arith), low_value-set p n v n (omega arith))

-- A number that vanishes in all limbs vanishes below the top.
pub low_value-le : (p : List ℕ) (n : ℕ) → low_value p n ≤ low_value p (suc n)
unfolding low_value
low_value-le p n = omega arith

pub set-IsLimbs : (p : List ℕ) (i v : ℕ) → IsLimbs p → v < 2 ^ 64 → IsLimbs (set p i v)
set-IsLimbs [] i v h l k = h k
set-IsLimbs (x ∷ p) zero v h l zero = l
set-IsLimbs (x ∷ p) zero v h l (suc k) = h (suc k)
set-IsLimbs (x ∷ p) (suc i) v h l zero = h zero
set-IsLimbs (x ∷ p) (suc i) v h l (suc k) = set-IsLimbs p i v (λ j. h (suc j)) l k

pub get_replicated :
    (k v : ℕ) (xs : List ℕ) (n : ℕ)
    → get_or (replicate k v ++ xs) n 0 ≡ (if ltb n k then v else get_or xs (n - k) 0)
get_replicated zero v xs n = let e : n - 0 ≡ n = omega arith in rw (ge→ltb n 0 (omega arith), e)
get_replicated (suc k) v xs zero = rw (lt→ltb 0 (suc k) (omega arith))
get_replicated (suc k) v xs (suc n) = elim (dec_lt n k) [
  | yes low ↦ rw (lt→ltb (suc n) (suc k) (omega arith), get_replicated k v xs n, lt→ltb n k low)
  | no high ↦
      let e : suc n - suc k ≡ n - k = omega arith in
      rw
        (ge→ltb (suc n) (suc k) (omega arith), get_replicated k v xs n, ge→ltb n k (omega arith), e)
]
