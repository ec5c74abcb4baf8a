-- ===== src/Words/Limb.antt =====
-- The limb operators of C: shifts, complement and addition cut at 64 bits.
use mpfr.Base.{ℕ, ◌+◌, ◌-◌, ◌*◌, ◌/◌, ◌%◌, ◌^◌, ◌==◌, if◌then◌else◌}

-- GMP_NUMB_BITS
abbrev pub limb_bits : ℕ
limb_bits = 64

abbrev pub limb_mod : ℕ
limb_mod = 2 ^ 64

-- MPFR_LIMB_HIGHBIT
abbrev pub limb_highbit : ℕ
limb_highbit = 2 ^ 63

-- MPFR_LIMB_MAX
abbrev pub limb_max : ℕ
limb_max = 2 ^ 64 - 1

abbrev pub shl : ℕ → ℕ → ℕ
shl x k = x * 2 ^ k % limb_mod

abbrev pub shr : ℕ → ℕ → ℕ
shr x k = x / 2 ^ k

-- `~x`
abbrev pub lnot : ℕ → ℕ
lnot x = limb_max - x

abbrev pub ladd : ℕ → ℕ → ℕ
ladd a b = (a + b) % limb_mod

-- `a - b`, which wraps below 0
abbrev pub lsub : ℕ → ℕ → ℕ
lsub a b = (a + limb_mod - b) % limb_mod

-- MPFR_LIMB_MASK (s): the low `s` bits.
unfoldable pub limb_mask : ℕ → ℕ
limb_mask s = if s == 64 then limb_max else lsub (shl 1 s) 1
