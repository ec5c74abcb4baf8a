-- ===== src/Next/Ripple.antt =====
-- A concrete addition and subtraction of a limb, carried from limb to limb. The addition does what is
-- asked of that of GMP, and so does the subtraction.
use mpfr.Base.{
  ℕ, zero, suc, ◌+◌, ◌*◌, ◌/◌, ◌^◌, ◌<◌, ◌≡◌, refl, ap, List, [], ◌∷◌, get_or, length, ltb,
  if◌then◌else◌, arith,
}
use mpfr.Words.{limb_mod, ladd, lsub}
use mpfr.Words.Value.{low_value, IsLimbs, pow-limb}
use mpfr.Next.{Mpn}
use mpfr.Next.Neighbour.{IsMpn}
use mpfr.Next.Down.{IsMpnSub}

abbrev ripple_add : List ℕ → ℕ → List ℕ × ℕ
ripple_add [] b = ([], b)
ripple_add (x ∷ p) b = let rest = ripple_add p ((x + b) / limb_mod) in (ladd x b ∷ rest.0, rest.1)

abbrev ripple_sub : List ℕ → ℕ → List ℕ × ℕ
ripple_sub [] b = ([], b)
ripple_sub (x ∷ p) b =
    let rest = ripple_sub p (if ltb x b then 1 else 0) in (lsub x b ∷ rest.0, rest.1)

abbrev pub ripple : Mpn
ripple = record { add_1 = ripple_add; sub_1 = ripple_sub }

low_value-cons :
    (x : ℕ) (p : List ℕ) (n : ℕ) → low_value (x ∷ p) (suc n) ≡ x + 2 ^ 64 * low_value p n
unfolding low_value
low_value-cons x p zero = omega arith
low_value-cons x p (suc n) =
    omega (arith, low_value-cons x p n, pow-limb n, ap (λ t. get_or p n 0 * t) (pow-limb n))

add_value :
    (p : List ℕ) (b : ℕ)
    → low_value (ripple_add p b).0 (length p) + (ripple_add p b).1 * 2 ^ (64 * length p)
      ≡ low_value p (length p) + b
unfolding low_value
add_value [] b = omega arith
add_value (x ∷ p) b =
    let rest = ripple_add p ((x + b) / limb_mod) in
    rw
      (
        low_value-cons (ladd x b) rest.0 (length p),
        low_value-cons x p (length p),
        pow-limb (length p),
      )
      (omega (arith, add_value p ((x + b) / limb_mod)))

add-IsLimbs : (p : List ℕ) (b : ℕ) → IsLimbs (ripple_add p b).0
add-IsLimbs [] b i = omega arith
add-IsLimbs (x ∷ p) b zero = omega arith
add-IsLimbs (x ∷ p) b (suc i) = add-IsLimbs p ((x + b) / limb_mod) i

add_length : (p : List ℕ) (b : ℕ) → length (ripple_add p b).0 ≡ length p
add_length [] b = refl
add_length (x ∷ p) b = ap suc (add_length p ((x + b) / limb_mod))

pub ripple-IsMpn : IsMpn ripple
ripple-IsMpn = record {
  add_value = λ p b _ _. add_value p b;
  add_limbs = λ p b _ _. add-IsLimbs p b;
  add_length = add_length;
}

-- One limb of the difference.
limb_borrow :
    (x b : ℕ) → x < 2 ^ 64 → b < 2 ^ 64 → lsub x b + b ≡ x + (if ltb x b then 1 else 0) * 2 ^ 64
limb_borrow x b h k = ground arith

borrow-lt : (x b : ℕ) → (if ltb x b then 1 else 0) < 2 ^ 64
borrow-lt x b = ground arith

sub_value :
    (p : List ℕ) (b : ℕ)
    → IsLimbs p
    → b < 2 ^ 64
    → low_value (ripple_sub p b).0 (length p) + b
      ≡ low_value p (length p) + (ripple_sub p b).1 * 2 ^ (64 * length p)
unfolding low_value
sub_value [] b h k = omega arith
sub_value (x ∷ p) b h k =
    let c = if ltb x b then 1 else 0 in
    let rest = ripple_sub p c in
    rw
      (
        low_value-cons (lsub x b) rest.0 (length p),
        low_value-cons x p (length p),
        pow-limb (length p),
      )
      (omega (arith, sub_value p c (λ i. h (suc i)) (borrow-lt x b), limb_borrow x b (h 0) k))

sub-IsLimbs : (p : List ℕ) (b : ℕ) → IsLimbs (ripple_sub p b).0
sub-IsLimbs [] b i = omega arith
sub-IsLimbs (x ∷ p) b zero = omega arith
sub-IsLimbs (x ∷ p) b (suc i) = sub-IsLimbs p (if ltb x b then 1 else 0) i

sub_length : (p : List ℕ) (b : ℕ) → length (ripple_sub p b).0 ≡ length p
sub_length [] b = refl
sub_length (x ∷ p) b = ap suc (sub_length p (if ltb x b then 1 else 0))

pub ripple-IsMpnSub : IsMpnSub ripple
ripple-IsMpnSub = record {
  sub_value = sub_value;
  sub_limbs = λ p b _ _. sub-IsLimbs p b;
  sub_length = sub_length;
}
