-- ===== src/Lib.antt =====
-- A model of the core of GNU MPFR, a C library for correctly rounded binary floating-point
-- arithmetic in any precision, with the theorems on it.
--
-- The parts, how they interact, and the files that model them (paths from the repository's root):
--
-- - Types.antt, Types/Flags.antt: the rounding modes, the number type `__mpfr_struct`, the ternary
--   value and the global state of src/mpfr.h and src/mpfr-impl.h. A number is a record of its
--   precision, its sign, its exponent field and the list of its limbs, the least significant one
--   first. The reserved exponents that tag NaN, infinity and zero are constructors of `Exp`. The
--   thread's flags and exponent range are a record `Env`, which each function takes and returns.
-- - Words.antt and Words/: limbs (`mp_limb_t`) as natural numbers below 2 ^ 64 with the operators of
--   C, and the laws of the bit operators. The files src/mpfr-longlong.h and src/mp_clz_tab.c are
--   copies of GMP's: what the code uses of them, `umul_ppmm` and `count_leading_zeros`, is an
--   interface, the record `Longlong` of Words/Longlong.antt, with what GMP documents of the two. The
--   functions that use them, in Mul.antt, Sub.antt, Machine.antt and Special/Limb.antt, take it as an
--   instance argument. Words/Reference.antt has operations for which it holds.
-- - Extremes.antt: `mpfr_setmin` (src/setmin.c), `mpfr_setmax` (src/setmax.c) and
--   `mpfr_powerof2_raw` (src/powerof2.c).
-- - Exceptions.antt: src/exceptions.c, the flags, the exponent range, `mpfr_underflow`,
--   `mpfr_overflow` and `mpfr_check_range`, which the arithmetic functions call.
-- - Rounding.antt: the code with which the arithmetic functions in one limb end, from the round and
--   sticky bits to the rounded number. Rounding/Spec.antt says on plain numbers what correct rounding
--   means; Rounding/Decision.antt, Limb.antt, Cut.antt and Whole.antt relate the code to it, and
--   Rounding/Correct.antt and Range.antt state what a function as a whole promises.
-- - Add.antt: `mpfr_add1sp1`, and Add/Whole.antt: `mpfr_add1sp1n`, both of src/add1sp.c, which add
--   two numbers of equal signs and one precision below, or equal to, that of a limb.
-- - Sub.antt: `mpfr_sub1sp1` and `mpfr_sub1sp1n` of src/sub1sp.c, the same for the subtraction.
--   Sub/Near.antt and Sub/Far.antt follow the difference of the limbs by the distance of the
--   exponents, Sub/Exact.antt says which number it is, and Sub/Round.antt how it is rounded.
-- - Mul.antt: `mpfr_mul_1`, `mpfr_mul_1n` (src/mul.c), `mpfr_sqr_1` and `mpfr_sqr_1n` (src/sqr.c).
-- - Compare.antt: src/cmp.c, src/cmpabs.c, src/sgn.c, src/comparisons.c and src/total_order.c.
-- - Fields.antt: the small files that look at or set the fields of a number, such as src/isinteger.c,
--   src/odd_p.c, src/set_exp.c and src/swap.c.
-- - Next.antt: src/next.c. `mpn_add_1` and `mpn_sub_1` belong to GMP, and are parameters; the theorems
--   take what GMP documents of them as hypotheses, and Next/Ripple.antt has an addition and a
--   subtraction for which these hold. Next/Neighbour.antt follows the step away from zero, and
--   Next/Down.antt the step toward it.
-- - Set.antt: `mpfr_set4`, `mpfr_set` and `mpfr_abs` of src/set.c, src/neg.c, src/setsign.c and
--   src/copysign.c, with the macro `MPFR_RNDRAW` of src/mpfr-impl.h that rounds for them. The
--   `mpn_add_1` of GMP is a parameter here too. Set/Rounded.antt says what a rounding to several
--   limbs is.
-- - Round.antt: src/round_raw_generic.c, which src/round_prec.c compiles to `mpfr_round_raw`,
--   `mpfr_round_raw_2` and `mpfr_round_raw_4`, and `mpfr_prec_round`: the rounding of a significand of
--   any number of limbs. Round/Masks.antt and Bits.antt follow the masks and the bits below the cut,
--   Round/Decide.antt the choice that they lead to. `mpn_add_1` is a parameter.
-- - Scale.antt: src/mul_2si.c, src/div_2si.c, src/mul_2ui.c and src/div_2ui.c, with the macro
--   `MPFR_SETRAW`, which rounds as `mpfr_set4` does but leaves the exponent range to its caller.
--   Scale/Range.antt compares their ends with `mpfr_check_range`, and Scale/Near.antt the rounded
--   number with the exact one, on which the underflow in RNDN depends.
-- - Machine.antt: src/set_ui_2exp.c, src/set_si_2exp.c, src/cmp_ui.c, src/cmp_si.c, src/set_ui.c and
--   src/set_si.c, as they are compiled where a `long` fits into a limb. Machine/Equal.antt relates
--   the comparisons to `mpfr_cmp`, and Machine/Rounded.antt follows the rounding of an integer.
-- - Special.antt: src/add.c, src/sub.c and src/minmax.c, which treat NaN, infinities and zeros and
--   hand regular numbers on. The functions that they call are an interface, the record `Kernel`. The
--   branches for the extended numbers of src/ubf.c are left out. Special/Limb.antt fills the interface
--   with `mpfr_add1sp` and `mpfr_sub1sp`, as far as they call the functions on one limb, and with the
--   assignments of Set.antt; the functions on longer numbers are a parameter, the record `Longer`.
-- - Base.antt and Base/: the names and lemmas that all share. Each part has its runs on concrete
--   numbers, with the theorems applied to some, in a file Tests.antt.
--
-- What the model assumes: `GMP_NUMB_BITS` is 64 and an exponent has 64 bits, as on 64-bit hosts. The
-- list of limbs has the length that the precision asks for. Exponents are unbounded integers; in C
-- they are `long`, and the bounds of the exponent range, 2 ^ 62, keep sums of two of them from
-- overflowing. Debug assertions and logging are left out. The functions in one limb are the ones of
-- src/add1sp.c, src/mul.c and src/sqr.c, not those extracted from proven code
-- (`MPFR_WANT_PROVEN_CODE`). The theorems on them exclude `MPFR_RNDNA`, which these functions do not
-- accept; the ternary value of `MPFR_RNDF` is open in all theorems. No definition uses fuel: every
-- loop goes over the limbs of a number, by structural recursion.
--
-- What is not modelled: what is copied from GMP, `mpfr_can_round`, arithmetic in several limbs,
-- division and square root, the elementary and special functions, conversions other than those of
-- machine integers, input and output, memory.
pub mod Base
pub mod Words
pub mod Types
pub mod Extremes
pub mod Exceptions
pub mod Rounding
pub mod Add
pub mod Mul
pub mod Sub
pub mod Compare
pub mod Fields
pub mod Next
pub mod Set
pub mod Round
pub mod Scale
pub mod Machine
pub mod Special
