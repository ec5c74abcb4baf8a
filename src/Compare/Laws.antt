-- ===== src/Compare/Laws.antt =====
-- Laws of the comparisons that hold for all inputs, NaN, zeros and infinities included.
use mpfr.Base.{
  ℕ, zero, suc, ◌≡◌, refl, sym, ◌∙◌, ap, arith, List, ℤ, pos, negsuc, neg_ℤ, ◌||◌, Bool, true,
  if◌then◌else◌,
}
use mpfr.Types.{
  Sign, plus, minus, sign_int, prec2limbs, Exp, nan, inf, zero_value, num, Mpfr, Env, raise,
  flags_erange,
}
use mpfr.Compare.{
  cmp_limbs, tail_limbs, cmp_regular, cmp_fields, cmp, total_order_p, relation_p, sgn,
}
use mpfr.Types.{is_neg}
use mpfr.Base.{not, false, leb_ℤ}
use mpfr.Compare.{unordered_p, is_nan, cmp3, sgn_field, answer, same_sign}

neg_neg : (a : ℤ) → neg_ℤ (neg_ℤ a) ≡ a
neg_neg a = ground arith

neg_sign : (s : Sign) → sign_int s ≡ neg_ℤ (neg_ℤ (sign_int s))
neg_sign plus = refl
neg_sign minus = refl

tail_neg : (p : List ℕ) (n : ℕ) (s : ℤ) → tail_limbs p n (neg_ℤ s) ≡ neg_ℤ (tail_limbs p n s)
unfolding tail_limbs
tail_neg p zero s = refl
tail_neg p (suc n) s = ground (arith, tail_neg p n s)

cmp_limbs_swap :
    (bp : List ℕ) (bn : ℕ) (cp : List ℕ) (cn : ℕ) (s : ℤ)
    → cmp_limbs cp cn bp bn s ≡ neg_ℤ (cmp_limbs bp bn cp cn s)
unfolding cmp_limbs
cmp_limbs_swap bp (suc bn) cp (suc cn) s = ground (arith, cmp_limbs_swap bp bn cp cn s, neg_neg s)
cmp_limbs_swap bp zero cp (suc cn) s =
    rw (tail_neg cp (suc cn) s, neg_neg (tail_limbs cp (suc cn) s)) refl
cmp_limbs_swap bp (suc bn) cp zero s = tail_neg bp (suc bn) s
cmp_limbs_swap bp zero cp zero s = refl

regular_swap : (b c : Mpfr) (x y s : ℤ) → cmp_regular c b y x s ≡ neg_ℤ (cmp_regular b c x y s)
unfolding cmp_regular
regular_swap b c x y s =
    ground
      (arith, neg_neg s, cmp_limbs_swap b.mant (prec2limbs b.prec) c.mant (prec2limbs c.prec) s)

-- The two signs, where only numbers of the same sign are compared further.
signs_swap :
    (s t : Sign) (v w : ℤ → ℤ) (e : Env)
    → ((z : ℤ) → w z ≡ neg_ℤ (v z))
    → (if same_sign s t then answer (w (sign_int s)) e else answer (sign_int t) e).value
      ≡ neg_ℤ (if same_sign t s then answer (v (sign_int t)) e else answer (sign_int s) e).value
signs_swap plus plus v w e h = h (pos 1)
signs_swap plus minus v w e h = refl
signs_swap minus plus v w e h = refl
signs_swap minus minus v w e h = h (negsuc 0)

fields_swap :
    (x y : Exp) (b c : Mpfr) (e : Env)
    → (cmp_fields y x c b b.sign e).value ≡ neg_ℤ (cmp_fields x y b c c.sign e).value
unfolding cmp_fields
fields_swap nan nan b c e = refl
fields_swap nan inf b c e = refl
fields_swap nan zero_value b c e = refl
fields_swap nan (num q) b c e = refl
fields_swap inf nan b c e = refl
fields_swap inf inf b c e = signs_swap b.sign c.sign (λ z. pos 0) (λ z. pos 0) e (λ z. refl)
fields_swap inf zero_value b c e = refl
fields_swap inf (num q) b c e = refl
fields_swap zero_value nan b c e = refl
fields_swap zero_value inf b c e = neg_sign c.sign
fields_swap zero_value zero_value b c e = refl
fields_swap zero_value (num q) b c e = neg_sign c.sign
fields_swap (num p) nan b c e = refl
fields_swap (num p) inf b c e = neg_sign c.sign
fields_swap (num p) zero_value b c e = refl
fields_swap (num p) (num q) b c e =
    signs_swap b.sign c.sign (cmp_regular b c p q) (cmp_regular c b q p) e (regular_swap b c p q)

-- Swapping the operands of `mpfr_cmp` negates the result, for all operands: a NaN gives 0 both ways.
pub cmp_antisym : (b c : Mpfr) (e : Env) → (cmp c b e).value ≡ neg_ℤ (cmp b c e).value
unfolding cmp cmp3
cmp_antisym b c e = fields_swap b.exp c.exp b c e

env_by_fields :
    (x y : Exp) (b c : Mpfr) (s : Sign) (e : Env)
    → (cmp_fields x y b c s e).env ≡ (if is_nan x || is_nan y then raise flags_erange e else e)
unfolding cmp_fields
env_by_fields nan y b c s e = refl
env_by_fields inf nan b c s e = refl
env_by_fields inf inf b c s e = ground arith
env_by_fields inf zero_value b c s e = refl
env_by_fields inf (num q) b c s e = refl
env_by_fields zero_value nan b c s e = refl
env_by_fields zero_value inf b c s e = refl
env_by_fields zero_value zero_value b c s e = refl
env_by_fields zero_value (num q) b c s e = refl
env_by_fields (num p) nan b c s e = refl
env_by_fields (num p) inf b c s e = refl
env_by_fields (num p) zero_value b c s e = refl
env_by_fields (num p) (num q) b c s e = ground arith

-- `mpfr_cmp` raises the erange flag exactly if an operand is a NaN, and changes nothing else.
pub cmp-env :
    (b c : Mpfr) (e : Env) → (cmp b c e).env ≡ (if unordered_p b c then raise flags_erange e else e)
unfolding cmp cmp3
cmp-env b c e = env_by_fields b.exp c.exp b c c.sign e

-- The decision of `total_order_p`, from the signs, the NaN tests and the result of `mpfr_cmp`.
abbrev decision : Sign → Sign → Bool → Bool → ℤ → Bool
decision s t p q v =
    if not (same_sign s t)
    then not (is_neg t)
    else if p
    then q || is_neg s
    else if q
    then not (is_neg t)
    else if p || q
    then false
    else leb_ℤ v (pos 0)

total_cases :
    (s t : Sign) (p q : Bool) (v w : ℤ)
    → w ≡ neg_ℤ v
    → (decision s t p q v || decision t s q p w) ≡ true
total_cases plus minus p q v w h = refl
total_cases minus plus p q v w h = refl
total_cases plus plus true true v w h = refl
total_cases plus plus true false v w h = refl
total_cases plus plus false true v w h = refl
total_cases plus plus false false v w h = ground (arith, h)
total_cases minus minus true true v w h = refl
total_cases minus minus true false v w h = refl
total_cases minus minus false true v w h = refl
total_cases minus minus false false v w h = ground (arith, h)

total_order_p-decision :
    (x y : Mpfr) (e : Env)
    → (total_order_p x y e).0
      ≡ decision x.sign y.sign (is_nan x.exp) (is_nan y.exp) (cmp x y e).value
unfolding total_order_p relation_p
total_order_p-decision x y e = ground arith

-- `mpfr_total_order_p` is total: it holds of any two numbers in one order or the other, also where
-- one is a NaN or a signed zero.
pub total_order_p_total :
    (x y : Mpfr) (e : Env) → ((total_order_p x y e).0 || (total_order_p y x e).0) ≡ true
total_order_p_total x y e =
    rw (total_order_p-decision x y e, total_order_p-decision y x e)
      (total_cases x.sign y.sign (is_nan x.exp) (is_nan y.exp) (cmp x y e).value (cmp y x e).value
        (cmp_antisym x y e))

sgn_by_field :
    (x : Exp) (a z : Mpfr) (e : Env) → sgn_field x a.sign e ≡ cmp_fields x zero_value a z z.sign e
unfolding sgn_field cmp_fields
sgn_by_field nan a z e = refl
sgn_by_field inf a z e = refl
sgn_by_field zero_value a z e = refl
sgn_by_field (num p) a z e = refl

-- `mpfr_sgn` is `mpfr_cmp` with a zero, in its result and in the flags.
pub sgn_lem : (a z : Mpfr) (e : Env) → z.exp ≡ zero_value → sgn a e ≡ cmp a z e
unfolding sgn cmp cmp3
sgn_lem a z e h = sgn_by_field a.exp a z e ∙ ap (λ y. cmp_fields a.exp y a z z.sign e) (sym h)
