-- ===== src/Types/Flags.antt =====
-- The exception flags (src/mpfr.h), a bit each.
use mpfr.Base.{ℕ}

abbrev pub flags_underflow : ℕ
flags_underflow = 1

abbrev pub flags_overflow : ℕ
flags_overflow = 2

abbrev pub flags_nan : ℕ
flags_nan = 4

abbrev pub flags_inexact : ℕ
flags_inexact = 8

abbrev pub flags_erange : ℕ
flags_erange = 16

abbrev pub flags_divby0 : ℕ
flags_divby0 = 32

abbrev pub flags_all : ℕ
flags_all = 63
