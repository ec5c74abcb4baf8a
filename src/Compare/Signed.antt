-- ===== src/Compare/Signed.antt =====
-- `mpfr_cmp3` and `mpfr_cmp` order the signed numbers.
use mpfr.Base.{ℕ, ◌≤◌, ◌≡◌, arith, if◌then◌else◌, ℤ, pos, negsuc, neg_ℤ, ltb_ℤ, eqb_ℤ, ◌≤ℤ◌}
use mpfr.Types.{Sign, plus, minus, mult_sign, sign_int, Mpfr, Env, prec2limbs}
use mpfr.Compare.{answer, cmp3, same_sign}
use mpfr.Compare.Limbs.{signed_compare}
use mpfr.Compare.Magnitude.{IsRegular, magnitude, magnitude-pos, cmp_regular_lem}

abbrev pub signed : Sign → ℕ → ℤ
signed plus n = pos n
signed minus n = neg_ℤ (pos n)

-- The sign of `a - b`.
abbrev pub compare_ℤ : ℤ → ℤ → ℤ
compare_ℤ a b = if ltb_ℤ a b then negsuc 0 else if eqb_ℤ a b then pos 0 else pos 1

by_signs :
    (s t : Sign) (x y : ℕ)
    → 1 ≤ x
    → 1 ≤ y
    → (if same_sign t s then signed_compare (sign_int t) x y else sign_int s)
      ≡ compare_ℤ (signed s x) (signed t y)
by_signs plus plus x y h k = ground arith
by_signs plus minus x y h k = ground arith
by_signs minus plus x y h k = ground arith
by_signs minus minus x y h k = ground arith

-- On two regular numbers `mpfr_cmp3` returns the sign of `b - s * c`, whatever their signs,
-- exponents and precisions, and leaves the global state as it is.
pub cmp3_lem :
    (b c : Mpfr) (be ce base : ℤ) (s : Sign) (e : Env)
    → IsRegular b be
    → IsRegular c ce
    → base ≤ℤ be
    → base ≤ℤ ce
    → cmp3 b c s e
      ≡ answer
          (compare_ℤ
            (signed b.sign (magnitude b be base (prec2limbs c.prec)))
            (signed (mult_sign s c.sign) (magnitude c ce base (prec2limbs b.prec))))
          e
unfolding cmp3
cmp3_lem b c be ce base s e hb hc lb lc =
    rw (hb.exponent, hc.exponent)
      (ground (
        arith,
        cmp_regular_lem b c be ce base hb hc lb lc (sign_int (mult_sign s c.sign)),
        by_signs b.sign (mult_sign s c.sign) _ _ (magnitude-pos b c be ce base hb hc lb lc)
            (magnitude-pos c b ce be base hc hb lc lb),
      ))
