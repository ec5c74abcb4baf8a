-- ===== src/Exceptions/FlagLaws.antt =====
-- The operations on the flags, one flag at a time: flag number `k` is the binary digit `k` of the
-- flags, and the six flags have the numbers 0 to 5.
use Prim.Native.Nat.{min, max, differ}
use mpfr.Base.{ℕ, zero, suc, ◌-◌, ◌<◌, ◌≡◌, refl, arith, if◌then◌else◌, ◌==◌, bit_and, bit_xor}
use mpfr.Words.{bit_at, bit_at-and, bit_at-or, bit_at-xor}
use mpfr.Types.{Env, flags_all}
use mpfr.Exceptions.{flags_clear, flags_set, flags_test, flags_restore}

all_bits : (k : ℕ) → k < 6 → bit_at k flags_all ≡ 1
all_bits zero h = refl
all_bits (suc zero) h = refl
all_bits (suc (suc zero)) h = refl
all_bits (suc (suc (suc zero))) h = refl
all_bits (suc (suc (suc (suc zero)))) h = refl
all_bits (suc (suc (suc (suc (suc zero))))) h = refl
all_bits (suc (suc (suc (suc (suc (suc k)))))) h = absurd (omega arith)

-- `MPFR_FLAGS_ALL ^ mask` complements the mask.
complement_at : (k mask : ℕ) → k < 6 → bit_at k (bit_xor flags_all mask) ≡ 1 - bit_at k mask
complement_at k mask h =
    rw (bit_at-xor k flags_all mask, all_bits k h) (flip (bit_at k mask) (omega arith))
  where
    flip : (m : ℕ) → m < 2 → differ 1 m ≡ 1 - m
    flip zero l = refl
    flip (suc zero) l = refl
    flip (suc (suc m)) l = absurd (omega arith)

flags_restore_lem :
    (saved mask k : ℕ) (e : Env)
    → k < 6
    → bit_at k (flags_restore saved mask e).flags
      ≡ (if bit_at k mask == 0 then bit_at k e.flags else bit_at k saved)
unfolding flags_restore
flags_restore_lem saved mask k e h =
    rw
      (
        bit_at-or k (bit_and e.flags (bit_xor flags_all mask)) (bit_and saved mask),
        bit_at-and k e.flags (bit_xor flags_all mask),
        bit_at-and k saved mask,
        complement_at k mask h,
      )
      (select (bit_at k e.flags) (bit_at k mask) (bit_at k saved) (omega arith) (omega arith)
        (omega arith))
  where
    select :
        (f m s : ℕ)
        → f < 2
        → m < 2
        → s < 2
        → max (min f (1 - m)) (min s m) ≡ (if m == 0 then f else s)
    select f zero s a b c = ground arith
    select f (suc zero) s a b c = ground arith
    select f (suc (suc m)) s a b c = absurd (omega arith)

flags_ops_lem :
    (mask k : ℕ) (e : Env)
    → k < 6
    → (bit_at k (flags_clear mask e).flags ≡ (if bit_at k mask == 0 then bit_at k e.flags else 0))
      × (bit_at k (flags_set mask e).flags ≡ (if bit_at k mask == 0 then bit_at k e.flags else 1))
      × (bit_at k (flags_test mask e) ≡ (if bit_at k mask == 0 then 0 else bit_at k e.flags))
unfolding flags_clear flags_set flags_test
flags_ops_lem mask k e h =
    rw
      (
        bit_at-and k e.flags (bit_xor flags_all mask),
        bit_at-or k e.flags mask,
        bit_at-and k e.flags mask,
        complement_at k mask h,
      )
      (select (bit_at k e.flags) (bit_at k mask) (omega arith) (omega arith))
  where
    select :
        (f m : ℕ)
        → f < 2
        → m < 2
        → (min f (1 - m) ≡ (if m == 0 then f else 0))
          × (max f m ≡ (if m == 0 then f else 1))
          × (min f m ≡ (if m == 0 then 0 else f))
    select f zero a b = (omega arith, omega arith, omega arith)
    select f (suc zero) a b = (omega arith, omega arith, omega arith)
    select f (suc (suc m)) a b = absurd (omega arith)

-- Of the six flags, `mpfr_flags_clear` lowers those of the mask, `mpfr_flags_set` raises them,
-- `mpfr_flags_restore` takes them from the saved ones, all three keep the others, and
-- `mpfr_flags_test` keeps those of the mask.
pub flags_lem :
    (saved mask k : ℕ) (e : Env)
    → k < 6
    → (bit_at k (flags_clear mask e).flags ≡ (if bit_at k mask == 0 then bit_at k e.flags else 0))
      × (bit_at k (flags_set mask e).flags ≡ (if bit_at k mask == 0 then bit_at k e.flags else 1))
      × (bit_at k (flags_test mask e) ≡ (if bit_at k mask == 0 then 0 else bit_at k e.flags))
      × (bit_at k (flags_restore saved mask e).flags
          ≡ (if bit_at k mask == 0 then bit_at k e.flags else bit_at k saved))
flags_lem saved mask k e h =
    let (clear, raise, test) = flags_ops_lem mask k e h in
    (clear, raise, test, flags_restore_lem saved mask k e h)
