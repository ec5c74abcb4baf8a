-- ===== src/Compare.antt =====
-- Comparisons: `mpfr_cmp3` and `mpfr_cmp` (src/cmp.c), `mpfr_cmpabs` (src/cmpabs.c), `mpfr_sgn`
-- (src/sgn.c), the predicates of src/comparisons.c and `mpfr_total_order_p` (src/total_order.c).
pub mod Limbs
pub mod Magnitude
pub mod Signed
pub mod Laws
mod Tests
use mpfr.Base.{ℕ, ◌-◌, ◌/◌, List, [], ◌∷◌, ltb, ◌==◌, ◌||◌, not, if◌then◌else◌, Bool, true, false}
use mpfr.Base.{ℤ, pos, negsuc, neg_ℤ, ltb_ℤ, leb_ℤ, eqb_ℤ, get_or, zero, suc}
use mpfr.Words.{limb_bits}
use mpfr.Types.{Sign, plus, minus, is_neg, mult_sign, sign_int, Exp, nan, inf, zero_value, num}
use mpfr.Types.{Mpfr, Env, raise, flags_erange, prec2limbs}

-- The `int` that a comparison returns, and the flags that it leaves.
pub record Answer : Type 0 where
  pub value : ℤ
  pub env : Env

abbrev pub answer : ℤ → Env → Answer
answer v e = record { value = v; env = e }

abbrev pub is_nan : Exp → Bool
is_nan nan = true
is_nan inf = false
is_nan zero_value = false
is_nan (num e) = false

abbrev pub same_sign : Sign → Sign → Bool
same_sign plus plus = true
same_sign plus minus = false
same_sign minus plus = false
same_sign minus minus = true

-- `for ( ; n >= 0; n--) if (p[n]) return s;`, with `n + 1` limbs left.
unfoldable pub tail_limbs : List ℕ → ℕ → ℤ → ℤ
tail_limbs p zero s = pos 0
tail_limbs p (suc n) s = let rest = tail_limbs p n s in if get_or p n 0 == 0 then rest else s

-- The three loops, with `bn` and `cn` limbs left: `s` if `bp` is greater, `-s` if it is less.
unfoldable pub cmp_limbs : List ℕ → ℕ → List ℕ → ℕ → ℤ → ℤ
cmp_limbs bp (suc bn) cp (suc cn) s =
    let rest = cmp_limbs bp bn cp cn s in
    if ltb (get_or cp cn 0) (get_or bp bn 0)
    then s
    else if ltb (get_or bp bn 0) (get_or cp cn 0)
    then neg_ℤ s
    else rest
cmp_limbs bp zero cp (suc cn) s = tail_limbs cp (suc cn) (neg_ℤ s)
cmp_limbs bp (suc bn) cp zero s = tail_limbs bp (suc bn) s
cmp_limbs bp zero cp zero s = pos 0

-- Two numbers of the same sign, whose exponents are `be` and `ce`.
unfoldable pub cmp_regular : Mpfr → Mpfr → ℤ → ℤ → ℤ → ℤ
cmp_regular b c be ce s =
    if ltb_ℤ ce be
    then s
    else if ltb_ℤ be ce
    then neg_ℤ s
    else cmp_limbs b.mant (prec2limbs b.prec) c.mant (prec2limbs c.prec) s

-- `mpfr_cmp3` by the two exponent fields; `s` is already multiplied by the sign of `c`.
unfoldable pub cmp_fields : Exp → Exp → Mpfr → Mpfr → Sign → Env → Answer
cmp_fields nan y b c s e = answer (pos 0) (raise flags_erange e)
cmp_fields inf nan b c s e = answer (pos 0) (raise flags_erange e)
cmp_fields inf inf b c s e =
    if same_sign s b.sign then answer (pos 0) e else answer (sign_int b.sign) e
cmp_fields inf zero_value b c s e = answer (sign_int b.sign) e
cmp_fields inf (num ce) b c s e = answer (sign_int b.sign) e
cmp_fields zero_value nan b c s e = answer (pos 0) (raise flags_erange e)
cmp_fields zero_value inf b c s e = answer (neg_ℤ (sign_int s)) e
cmp_fields zero_value zero_value b c s e = answer (pos 0) e
cmp_fields zero_value (num ce) b c s e = answer (neg_ℤ (sign_int s)) e
cmp_fields (num be) nan b c s e = answer (pos 0) (raise flags_erange e)
cmp_fields (num be) inf b c s e = answer (neg_ℤ (sign_int s)) e
cmp_fields (num be) zero_value b c s e = answer (sign_int b.sign) e
cmp_fields (num be) (num ce) b c s e =
    if same_sign s b.sign
    then answer (cmp_regular b c be ce (sign_int s)) e
    else answer (sign_int b.sign) e

unfoldable pub cmp3 : Mpfr → Mpfr → Sign → Env → Answer
unfolding cmp_fields cmp_regular cmp_limbs tail_limbs
cmp3 b c s e = cmp_fields b.exp c.exp b c (mult_sign s c.sign) e

unfoldable pub cmp : Mpfr → Mpfr → Env → Answer
cmp b c e = cmp3 b c plus e

-- `mpfr_cmpabs`, by the two exponent fields.
cmpabs_fields : Exp → Exp → Mpfr → Mpfr → Env → Answer
cmpabs_fields nan y b c e = answer (pos 0) (raise flags_erange e)
cmpabs_fields inf nan b c e = answer (pos 0) (raise flags_erange e)
cmpabs_fields inf inf b c e = answer (pos 0) e
cmpabs_fields inf zero_value b c e = answer (pos 1) e
cmpabs_fields inf (num ce) b c e = answer (pos 1) e
cmpabs_fields zero_value nan b c e = answer (pos 0) (raise flags_erange e)
cmpabs_fields zero_value inf b c e = answer (negsuc 0) e
cmpabs_fields zero_value zero_value b c e = answer (pos 0) e
cmpabs_fields zero_value (num ce) b c e = answer (negsuc 0) e
cmpabs_fields (num be) nan b c e = answer (pos 0) (raise flags_erange e)
cmpabs_fields (num be) inf b c e = answer (negsuc 0) e
cmpabs_fields (num be) zero_value b c e = answer (pos 1) e
cmpabs_fields (num be) (num ce) b c e = answer (cmp_regular b c be ce (pos 1)) e

unfoldable pub cmpabs : Mpfr → Mpfr → Env → Answer
unfolding cmpabs_fields cmp_regular cmp_limbs tail_limbs
cmpabs b c e = cmpabs_fields b.exp c.exp b c e

-- `mpfr_sgn`
pub sgn_field : Exp → Sign → Env → Answer
sgn_field zero_value s e = answer (pos 0) e
sgn_field nan s e = answer (pos 0) (raise flags_erange e)
sgn_field inf s e = answer (sign_int s) e
sgn_field (num x) s e = answer (sign_int s) e

unfoldable pub sgn : Mpfr → Env → Answer
unfolding sgn_field
sgn a e = sgn_field a.exp a.sign e

-- `MPFR_IS_NAN(x) || MPFR_IS_NAN(y)`
abbrev pub unordered_p : Mpfr → Mpfr → Bool
unordered_p x y = is_nan x.exp || is_nan y.exp

-- The six predicates: a test of the sign of `mpfr_cmp`, false on a NaN.
pub data Relation : Type 0 where
  greater greater_equal less less_equal less_greater equal : Relation

abbrev pub holds : Relation → ℤ → Bool
holds greater v = ltb_ℤ (pos 0) v
holds greater_equal v = leb_ℤ (pos 0) v
holds less v = ltb_ℤ v (pos 0)
holds less_equal v = leb_ℤ v (pos 0)
holds less_greater v = not (eqb_ℤ v (pos 0))
holds equal v = eqb_ℤ v (pos 0)

-- The result and the global state.
unfoldable pub relation_p : Relation → Mpfr → Mpfr → Env → Bool × Env
relation_p r x y e =
    if unordered_p x y then (false, e) else (holds r (cmp x y e).value, (cmp x y e).env)

unfoldable pub total_order_p : Mpfr → Mpfr → Env → Bool × Env
total_order_p x y e =
    if not (same_sign x.sign y.sign)
    then (not (is_neg y.sign), e)
    else if is_nan x.exp
    then (is_nan y.exp || is_neg x.sign, e)
    else if is_nan y.exp
    then (not (is_neg y.sign), e)
    else relation_p less_equal x y e
