-- ===== src/Words/Step.antt =====
-- The native bit operations, one binary digit at a time: each stands for a recursion on the digits
-- of its first argument with fuel, and the fuel does not matter once it is large enough.
use Prim.Native.Nat.{min, max, digits, bitwise, differ}
use Prim.Native.Nat.{bit_and-bitwise, bit_or-bitwise, bit_xor-bitwise}
use mpfr.Base.{ℕ, zero, suc, ◌+◌, ◌*◌, ◌/◌, ◌%◌, ◌≤◌, bit_and, bit_or, bit_xor, ◌≡◌, refl, arith}

module _ (rest : ℕ → ℕ) (bit : ℕ → ℕ → ℕ) where
  enough_fuel : (n m x y : ℕ) → x ≤ n → x ≤ m → digits rest bit n x y ≡ digits rest bit m x y
  enough_fuel zero zero x y p q = refl
  enough_fuel zero (suc m) zero y p q = refl
  enough_fuel (suc n) zero zero y p q = refl
  enough_fuel (suc n) (suc m) zero y p q = refl
  enough_fuel zero (suc m) (suc x) y p q = absurd (omega arith)
  enough_fuel (suc n) zero (suc x) y p q = absurd (omega arith)
  enough_fuel (suc n) (suc m) (suc x) y p q =
      rw (enough_fuel n m (suc x / 2) (y / 2) (omega arith) (omega arith))

  lowest_digit :
      (x y : ℕ)
      → bitwise rest bit (suc x) y
        ≡ bitwise rest bit (suc x / 2) (y / 2) * 2 + bit (suc x % 2) (y % 2)
  lowest_digit x y = rw (enough_fuel x (suc x / 2) (suc x / 2) (y / 2) (omega arith) (omega arith))

pub bit_and_step : (x y : ℕ) → bit_and x y ≡ bit_and (x / 2) (y / 2) * 2 + min (x % 2) (y % 2)
bit_and_step zero y = simp bit_and-bitwise (omega arith)
bit_and_step (suc x) y = simp bit_and-bitwise (lowest_digit (λ _. 0) min x y)

pub bit_or_step : (x y : ℕ) → bit_or x y ≡ bit_or (x / 2) (y / 2) * 2 + max (x % 2) (y % 2)
bit_or_step zero y = simp bit_or-bitwise (omega arith)
bit_or_step (suc x) y = simp bit_or-bitwise (lowest_digit (λ z. z) max x y)

pub bit_xor_step : (x y : ℕ) → bit_xor x y ≡ bit_xor (x / 2) (y / 2) * 2 + differ (x % 2) (y % 2)
bit_xor_step zero y = simp bit_xor-bitwise (omega arith)
bit_xor_step (suc x) y = simp bit_xor-bitwise (lowest_digit (λ z. z) differ x y)
