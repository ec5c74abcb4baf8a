-- ===== src/Base/Arith.antt =====
-- Powers of two, quotients and remainders.
use Prim.Native.Nat.{ℕ, zero, suc, ◌+◌, ◌-◌, ◌*◌, ◌/◌, ◌%◌, ◌^◌, ◌≤◌, ◌<◌}
use mathlib.Core.Path.{◌≡◌, ap, ◌∙◌}
use native.Mathlib.Nat.{pow-succ', one-le-pow, div-eq_of_lt-le}
use native.Mathlib.Omega.{arith}

pub pow-pos : (k : ℕ) → 1 ≤ 2 ^ k
pow-pos k = one-le-pow k 2 (omega arith)

pub pow-suc_double : (k : ℕ) → 2 ^ suc k ≡ 2 * 2 ^ k
pow-suc_double k = pow-succ' 2 k

pub pow-add : (a b : ℕ) → 2 ^ (a + b) ≡ 2 ^ a * 2 ^ b
pow-add zero b = let e : zero + b ≡ b = omega arith in rw e (omega arith)
pow-add (suc a) b =
    let e : suc a + b ≡ suc (a + b) = omega arith in
    rw (e, pow-suc_double (a + b), pow-suc_double a, pow-add a b) (omega arith)

-- 2 ^ n, split at k.
pub pow-split : (n k : ℕ) → k ≤ n → 2 ^ n ≡ 2 ^ k * 2 ^ (n - k)
pow-split n k h = let e : n ≡ k + (n - k) = omega arith in ap (λ m. 2 ^ m) e ∙ pow-add k (n - k)

-- A quotient is the one number whose multiple is close enough.
pub div_unique : (n d q r : ℕ) → n ≡ q * d + r → r < d → n / d ≡ q
div_unique n d q r e h = div-eq_of_lt-le d (omega arith) (grind arith)

pub mod_unique : (n d q r : ℕ) → n ≡ q * d + r → r < d → n % d ≡ r
mod_unique n d q r e h = grind (arith, div_unique n d q r e h)
