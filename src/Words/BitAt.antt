-- ===== src/Words/BitAt.antt =====
-- The native `&`, `|` and `^` act on each binary digit alone.
use Prim.Native.Nat.{min, max, differ}
use native.Mathlib.Nat.{div-div-eq-div-mul}
use mpfr.Base.{
  ℕ, zero, suc, ◌/◌, ◌%◌, ◌^◌, ◌<◌, ◌≡◌, ap, sym, ◌∙◌, arith, bit_and, bit_or, bit_xor,
  pow-suc_double,
}
use mpfr.Words.Step.{bit_and_step, bit_or_step, bit_xor_step}

abbrev pub bit_at : ℕ → ℕ → ℕ
bit_at k x = x / 2 ^ k % 2

bit_at-suc : (k x : ℕ) → bit_at (suc k) x ≡ bit_at k (x / 2)
bit_at-suc k x =
    ap (λ t. t % 2) (ap (λ t. x / t) (pow-suc_double k) ∙ sym (div-div-eq-div-mul x 2 (2 ^ k)))

pub bit_at-and : (k x y : ℕ) → bit_at k (bit_and x y) ≡ min (bit_at k x) (bit_at k y)
bit_at-and zero x y = omega (arith, bit_and_step x y)
bit_at-and (suc k) x y =
    let e : bit_and x y / 2 ≡ bit_and (x / 2) (y / 2) = omega (arith, bit_and_step x y) in
    rw (bit_at-suc k (bit_and x y), bit_at-suc k x, bit_at-suc k y, e)
      (bit_at-and k (x / 2) (y / 2))

pub bit_at-or : (k x y : ℕ) → bit_at k (bit_or x y) ≡ max (bit_at k x) (bit_at k y)
bit_at-or zero x y = omega (arith, bit_or_step x y)
bit_at-or (suc k) x y =
    let e : bit_or x y / 2 ≡ bit_or (x / 2) (y / 2) = omega (arith, bit_or_step x y) in
    rw (bit_at-suc k (bit_or x y), bit_at-suc k x, bit_at-suc k y, e) (bit_at-or k (x / 2) (y / 2))

differ-lt : (a b : ℕ) → a < 2 → b < 2 → differ a b < 2
differ-lt zero b h k = k
differ-lt (suc zero) zero h k = omega arith
differ-lt (suc zero) (suc zero) h k = omega arith
differ-lt (suc zero) (suc (suc b)) h k = absurd (omega arith)
differ-lt (suc (suc a)) b h k = absurd (omega arith)

pub bit_at-xor : (k x y : ℕ) → bit_at k (bit_xor x y) ≡ differ (bit_at k x) (bit_at k y)
bit_at-xor zero x y =
    let ex : bit_at 0 x ≡ x % 2 = omega arith in
    let ey : bit_at 0 y ≡ y % 2 = omega arith in
    rw (ex, ey)
      (omega (arith, bit_xor_step x y, differ-lt (x % 2) (y % 2) (omega arith) (omega arith)))
bit_at-xor (suc k) x y =
    let small = differ-lt (x % 2) (y % 2) (omega arith) (omega arith) in
    let e : bit_xor x y / 2 ≡ bit_xor (x / 2) (y / 2) = omega (arith, bit_xor_step x y, small) in
    rw (bit_at-suc k (bit_xor x y), bit_at-suc k x, bit_at-suc k y, e)
      (bit_at-xor k (x / 2) (y / 2))
