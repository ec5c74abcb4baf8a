-- ===== src/Words/Bits.antt =====
-- What the native `&`, `|` and `^` compute on numbers that are split at a bit position `k`, as
-- `q * 2 ^ k + r`: the facts behind the masks and round bits of the code, at every width.
use Prim.Native.Nat.{differ, bit_or-bitwise, bit_and-bitwise}
use mpfr.Base.{ℕ, zero, suc, ◌+◌, ◌-◌, ◌*◌, ◌/◌, ◌%◌, ◌^◌, ◌≤◌, ◌<◌, bit_and, bit_or, bit_xor}
use mpfr.Base.{◌≡◌, refl, ap, arith, pow-pos, pow-suc_double}
use mpfr.Words.Step.{bit_and_step, bit_or_step, bit_xor_step}

differ-zero : (n : ℕ) → differ n 0 ≡ n
differ-zero zero = refl
differ-zero (suc n) = refl

differ_self : (n : ℕ) → differ n n ≡ 0
differ_self zero = refl
differ_self (suc n) = differ_self n

-- Zero absorbs `&` and is neutral for `|` and `^`, by recursion on a bound of the argument.
and_zero_below : (n a : ℕ) → a ≤ n → bit_and a 0 ≡ 0
and_zero_below n zero h = refl
and_zero_below zero (suc a) h = absurd (omega arith)
and_zero_below (suc n) (suc a) h =
    omega (arith, bit_and_step (suc a) 0, and_zero_below n (suc a / 2) (omega arith))

pub bit_and-zero : (a : ℕ) → bit_and a 0 ≡ 0
bit_and-zero a = and_zero_below a a (omega arith)

xor_zero_below : (n a : ℕ) → a ≤ n → bit_xor a 0 ≡ a
xor_zero_below n zero h = refl
xor_zero_below zero (suc a) h = absurd (omega arith)
xor_zero_below (suc n) (suc a) h =
    let ih = xor_zero_below n (suc a / 2) (omega arith) in
    omega (arith, bit_xor_step (suc a) 0, ih, differ-zero (suc a % 2))

pub bit_xor-zero : (a : ℕ) → bit_xor a 0 ≡ a
bit_xor-zero a = xor_zero_below a a (omega arith)

or_zero_below : (n a : ℕ) → a ≤ n → bit_or a 0 ≡ a
or_zero_below n zero h = refl
or_zero_below zero (suc a) h = absurd (omega arith)
or_zero_below (suc n) (suc a) h =
    omega (arith, bit_or_step (suc a) 0, or_zero_below n (suc a / 2) (omega arith))

pub bit_or-zero : (a : ℕ) → bit_or a 0 ≡ a
bit_or-zero a = or_zero_below a a (omega arith)

pub zero-bit_or : (b : ℕ) → bit_or 0 b ≡ b
zero-bit_or b = bit_or-bitwise 0 b

-- `|` is at least each of its arguments, so it is 0 only where both are.
or_ge_below : (n a b : ℕ) → a ≤ n → (a ≤ bit_or a b) × (b ≤ bit_or a b)
or_ge_below n zero b h = omega (arith, bit_or-bitwise 0 b)
or_ge_below zero (suc a) b h = absurd (omega arith)
or_ge_below (suc n) (suc a) b h =
    omega (arith, bit_or_step (suc a) b, or_ge_below n (suc a / 2) (b / 2) (omega arith))

pub bit_or_ge : (a b : ℕ) → (a ≤ bit_or a b) × (b ≤ bit_or a b)
bit_or_ge a b = or_ge_below a a b (omega arith)

or_assoc_below : (n a b c : ℕ) → a ≤ n → bit_or (bit_or a b) c ≡ bit_or a (bit_or b c)
or_assoc_below n zero b c h = rw (zero-bit_or b, zero-bit_or (bit_or b c)) refl
or_assoc_below zero (suc a) b c h = absurd (omega arith)
or_assoc_below (suc n) (suc a) b c h =
    let ab : bit_or (suc a) b / 2 ≡ bit_or (suc a / 2) (b / 2) =
      omega (arith, bit_or_step (suc a) b) in
    let bc : bit_or b c / 2 ≡ bit_or (b / 2) (c / 2) = omega (arith, bit_or_step b c) in
    rw (bit_or_step (bit_or (suc a) b) c, bit_or_step (suc a) (bit_or b c), ab, bc)
      (omega (
        arith,
        bit_or_step (suc a) b,
        bit_or_step b c,
        or_assoc_below n (suc a / 2) (b / 2) (c / 2) (omega arith),
      ))

pub bit_or_assoc : (a b c : ℕ) → bit_or (bit_or a b) c ≡ bit_or a (bit_or b c)
bit_or_assoc a b c = or_assoc_below a a b c (omega arith)

double : (q k : ℕ) → q * 2 ^ suc k ≡ 2 * (q * 2 ^ k)
double q k = omega (arith, ap (λ (t : ℕ). q * t) (pow-suc_double k))

-- The low mask keeps the low part.
pub and_low : (k q r : ℕ) → r < 2 ^ k → bit_and (q * 2 ^ k + r) (2 ^ k - 1) ≡ r
and_low zero q r h = let e : r ≡ 0 = omega arith in rw (bit_and-zero (q * 1 + r)) (omega arith)
and_low (suc k) q r h = ground (
  arith,
  bit_and_step (q * 2 ^ suc k + r) (2 ^ suc k - 1),
  double q k,
  pow-suc_double k,
  pow-pos k,
  and_low k q (r / 2),
)

-- A mask that is a multiple of `2 ^ k` acts on the high part.
pub and_high : (k q r m : ℕ) → r < 2 ^ k → bit_and (q * 2 ^ k + r) (m * 2 ^ k) ≡ bit_and q m * 2 ^ k
and_high zero q r m h =
    let e : q * 2 ^ 0 + r ≡ q = omega arith in
    let e' : m * 2 ^ 0 ≡ m = omega arith in rw (e, e') (omega arith)
and_high (suc k) q r m h = ground (
  arith,
  bit_and_step (q * 2 ^ suc k + r) (m * 2 ^ suc k),
  double q k,
  double m k,
  double (bit_and q m) k,
  pow-suc_double k,
  and_high k q (r / 2) m,
)

pub xor_high :
    (k q r m : ℕ) → r < 2 ^ k → bit_xor (q * 2 ^ k + r) (m * 2 ^ k) ≡ bit_xor q m * 2 ^ k + r
xor_high zero q r m h =
    let e : q * 2 ^ 0 + r ≡ q = omega arith in
    let e' : m * 2 ^ 0 ≡ m = omega arith in rw (e, e') (omega arith)
xor_high (suc k) q r m h = ground (
  arith,
  bit_xor_step (q * 2 ^ suc k + r) (m * 2 ^ suc k),
  differ-zero (r % 2),
  double q k,
  double m k,
  double (bit_xor q m) k,
  pow-suc_double k,
  xor_high k q (r / 2) m,
)

-- Disjoint parts are added by `|`.
pub or_low : (k q r : ℕ) → r < 2 ^ k → bit_or (q * 2 ^ k) r ≡ q * 2 ^ k + r
or_low zero q r h = let e : r ≡ 0 = omega arith in rw (e, bit_or-zero (q * 1)) (omega arith)
or_low (suc k) q r h =
    ground (arith, bit_or_step (q * 2 ^ suc k) r, double q k, pow-suc_double k, or_low k q (r / 2))

pub bit_and-one : (a : ℕ) → bit_and a 1 ≡ a % 2
bit_and-one a = omega (arith, bit_and_step a 1, bit_and-zero (a / 2))

-- Flipping the lowest bit of `a` where it is set clears it.
pub xor_own_bit : (a : ℕ) → bit_xor a (a % 2) ≡ a / 2 * 2
xor_own_bit a =
    let e : a % 2 / 2 ≡ 0 = omega arith in
    let e' : a % 2 % 2 ≡ a % 2 = omega arith in
    rw (bit_xor_step a (a % 2), e, e', bit_xor-zero (a / 2), differ_self (a % 2)) (omega arith)

pub zero-bit_and : (b : ℕ) → bit_and 0 b ≡ 0
zero-bit_and b = bit_and-bitwise 0 b

-- `&` acts on the two parts of its arguments alone.
pub and_split :
    (k q r m s : ℕ)
    → r < 2 ^ k
    → s < 2 ^ k
    → bit_and (q * 2 ^ k + r) (m * 2 ^ k + s) ≡ bit_and q m * 2 ^ k + bit_and r s
and_split zero q r m s h h' =
    let none : r ≡ 0 = omega arith in
    let none' : s ≡ 0 = omega arith in
    let e : q * 2 ^ 0 + 0 ≡ q = omega arith in
    let e' : m * 2 ^ 0 + 0 ≡ m = omega arith in
    rw (none, none', e, e') (omega (arith, zero-bit_and 0))
and_split (suc k) q r m s h h' = ground (
  arith,
  bit_and_step (q * 2 ^ suc k + r) (m * 2 ^ suc k + s),
  bit_and_step r s,
  double q k,
  double m k,
  double (bit_and q m) k,
  pow-suc_double k,
  and_split k q (r / 2) m (s / 2),
)

xor_self_below : (n a : ℕ) → a ≤ n → bit_xor a a ≡ 0
xor_self_below n zero h = bit_xor-zero 0
xor_self_below zero (suc a) h = absurd (omega arith)
xor_self_below (suc n) (suc a) h = omega (
  arith,
  bit_xor_step (suc a) (suc a),
  xor_self_below n (suc a / 2) (omega arith),
  differ_self (suc a % 2),
)

pub bit_xor_self : (a : ℕ) → bit_xor a a ≡ 0
bit_xor_self a = xor_self_below a a (omega arith)

-- A number without its lowest bit differs in that bit.
pub xor_lowest : (u : ℕ) → bit_xor (u * 2 + 1) (u * 2) ≡ 1
xor_lowest u =
    let e : (u * 2 + 1) / 2 ≡ u = omega arith in
    let e' : u * 2 / 2 ≡ u = omega arith in
    let r : (u * 2 + 1) % 2 ≡ 1 = omega arith in
    let r' : u * 2 % 2 ≡ 0 = omega arith in
    rw (bit_xor_step (u * 2 + 1) (u * 2), e, e', r, r', bit_xor_self u) refl
