-- ===== src/Words/Reference.antt =====
-- Concrete operations for `Longlong`, which do what is documented of them.
use native.Mathlib.Decide.{dec_lt}
use native.Mathlib.Nat.{div-add-mod', mod-lt}
use mpfr.Base.{
  ℕ, zero, suc, ◌+◌, ◌*◌, ◌/◌, ◌%◌, ◌^◌, ◌≤◌, ◌<◌, ◌≡◌, arith, ltb, lt→ltb, ge→ltb, if◌then◌else◌,
  pow-suc_double, ap,
}
use mpfr.Words.Longlong.{Longlong}

-- The zeros above a limb that needs `k` shifts at most.
unfoldable pub leading_zeros : ℕ → ℕ → ℕ
leading_zeros zero x = 0
leading_zeros (suc k) x =
    let rest = leading_zeros k (2 * x) in if ltb x (2 ^ 63) then rest + 1 else 0

leading_zeros_lem :
    (k x : ℕ)
    → x < 2 ^ 64
    → 2 ^ 63 ≤ x * 2 ^ k
    → (leading_zeros k x ≤ k)
      × (2 ^ 63 ≤ x * 2 ^ leading_zeros k x)
      × (x * 2 ^ leading_zeros k x < 2 ^ 64)
unfolding leading_zeros
leading_zeros_lem zero x small reach = (omega arith, reach, omega arith)
leading_zeros_lem (suc k) x small reach = elim (dec_lt x (2 ^ 63)) [
  | yes low ↦
      let c = leading_zeros k (2 * x) in
      let double : x * 2 ^ suc k ≡ 2 * x * 2 ^ k =
        omega (arith, ap (λ t. x * t) (pow-suc_double k)) in
      let (less, normal, fits) = leading_zeros_lem k (2 * x) (omega arith) (omega arith) in
      let next : c + 1 ≡ suc c = omega arith in
      let shift : x * 2 ^ (c + 1) ≡ 2 * x * 2 ^ c =
        omega (arith, ap (λ (t : ℕ). x * 2 ^ t) next, ap (λ t. x * t) (pow-suc_double c)) in
      rw (lt→ltb x (2 ^ 63) low) (omega arith, omega arith, omega arith)
  | no high ↦ rw (ge→ltb x (2 ^ 63) (omega arith)) (omega arith, omega arith, omega arith)
]

pub reference_product :
    (u v : ℕ) → (u * v / 2 ^ 64 * 2 ^ 64 + u * v % 2 ^ 64 ≡ u * v) × (u * v % 2 ^ 64 < 2 ^ 64)
reference_product u v = (div-add-mod' (u * v) (2 ^ 64), mod-lt (u * v) (omega arith))

pub reference_normalizes :
    (x : ℕ)
    → 1 ≤ x
    → x < 2 ^ 64
    → (leading_zeros 63 x < 64)
      × (2 ^ 63 ≤ x * 2 ^ leading_zeros 63 x)
      × (x * 2 ^ leading_zeros 63 x < 2 ^ 64)
reference_normalizes x some small =
    let (less, normal, fits) = leading_zeros_lem 63 x small (omega arith) in
    (omega arith, normal, fits)

instance abbrev pub reference : Longlong
reference = record {
  umul_ppmm = λ u v. (u * v / 2 ^ 64, u * v % 2 ^ 64);
  product = λ u v _ _. reference_product u v;
  count_leading_zeros = leading_zeros 63;
  normalizes = reference_normalizes;
}
