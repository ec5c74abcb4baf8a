-- ===== src/Machine/Equal.antt =====
-- The comparisons with machine integers against `mpfr_cmp` with the number that the integer is.
use mpfr.Base.{
  ℕ, zero, suc, ◌&&◌, ◌+◌, ◌-◌, ◌/◌, ◌^◌, ◌≤◌, ◌<◌, ◌≡◌, refl, sym, ap, ◌∙◌, arith, List, [], ◌∷◌,
  get_or, ltb, ◌==◌, if◌then◌else◌, Bool, true, false, Bool-cases, inl, inr, ℤ, pos, negsuc, neg_ℤ,
  ◌+ℤ◌, ◌-ℤ◌, ◌≤ℤ◌, ltb_ℤ, leb_ℤ, eqb_ℤ, +ℤ_parts, -ℤ_parts, ltb_ℤ_of_le, ==_iff, eq_of_parts,
}
use mpfr.Words.{limb_bits, shl}
use mpfr.Words.Longlong.{Longlong, count_leading_zeros_lem, count_leading_zeros}
use mpfr.Types.{
  Rnd, rndz, Sign, plus, minus, is_neg, mult_sign, sign_int, Exp, nan, inf, zero_value, num, Mpfr,
  Env, prec2limbs,
}
use mpfr.Exceptions.{emin_min, emax_max, check_range}
use mpfr.Compare.{
  Answer, answer, tail_limbs, cmp_limbs, cmp_regular, cmp_fields, cmp3, same_sign, cmp,
}
use mpfr.Next.{Mpn}
use mpfr.Machine.{
  limb_width, set_limb_2exp, set_ui_2exp, set_si_2exp, cmp_limb_2exp, cmp_ui_field, cmp_ui_2exp,
  cmp_si_field, cmp_si_2exp, sign_of, absolute,
}

-- The exponent range of `MPFR_SAVE_EXPO_MARK`.
abbrev pub extended_range : Env → Env
extended_range e = record e { emin = emin_min; emax = emax_max }

-- The 64-bit number with the value `a * 2 ^ f` and the sign `s`.
abbrev pub whole_limb : ⦃ll : Longlong⦄ → Mpfr → Sign → ℕ → ℤ → Mpfr
whole_limb x s a f = record x {
  sign = s;
  exp = num (f +ℤ pos (limb_width a));
  mant = shl a (count_leading_zeros a) ∷ [];
}

pub width_bounds :
    ⦃ll : Longlong⦄ → (a : ℕ) → 1 ≤ a → a < 2 ^ 64 → (1 ≤ limb_width a) × (limb_width a ≤ 64)
unfolding limb_width
width_bounds a h k = omega (arith, count_leading_zeros_lem a h k)

-- In 64 bits every limb is exact.
set_limb_lem :
    ⦃ll : Longlong⦄
    → (g : Mpn) (x : Mpfr) (s : Sign) (a : ℕ) (f : ℤ) (rnd : Rnd) (e : Env) → x.prec ≡ 64
    → 1 ≤ a
    → a < 2 ^ 64
    → emin_min ≤ℤ f
    → f +ℤ pos 64 ≤ℤ emax_max
    → (set_limb_2exp g x s a f rnd (extended_range e)).x ≡ whole_limb x s a f
unfolding set_limb_2exp check_range
set_limb_lem g x s a f rnd e size some small lo hi =
    let E = f +ℤ pos (limb_width a) in
    let above : ltb_ℤ f (emin_min -ℤ pos (limb_bits + 1)) ≡ false =
      ltb_ℤ_of_le (emin_min -ℤ pos (limb_bits + 1)) f (omega (arith, -ℤ_parts emin_min (pos 65))) in
    let below : leb_ℤ emax_max f ≡ false = ground (arith, hi, +ℤ_parts f (pos 64)) in
    let wide : ltb 64 (limb_width a) ≡ false = ground (arith, width_bounds a some small) in
    let inside : ltb_ℤ E emin_min ≡ false =
      ltb_ℤ_of_le emin_min E (omega (arith, +ℤ_parts f (pos (limb_width a)))) in
    let inside' : ltb_ℤ emax_max E ≡ false = ltb_ℤ_of_le E emax_max (
      omega
        (arith, width_bounds a some small, +ℤ_parts f (pos (limb_width a)), +ℤ_parts f (pos 64))) in
    rw (above, below, size, wide, inside, inside') refl

-- The tests of the exponents.
order_lem :
    (be f : ℤ) (w : ℕ) (guard : Bool) (s t rest : ℤ)
    → 1 ≤ w
    → w ≤ 64
    → (if leb_ℤ be f
        then t
        else if guard && ltb_ℤ (f +ℤ pos limb_bits) be
        then s
        else if ltb_ℤ (pos w) (be -ℤ f)
        then s
        else if ltb_ℤ (be -ℤ f) (pos w)
        then t
        else rest)
      ≡ (if ltb_ℤ (f +ℤ pos w) be then s else if ltb_ℤ be (f +ℤ pos w) then t else rest)
order_lem be f w true s t rest h k =
    ground (arith, +ℤ_parts f (pos w), +ℤ_parts f (pos 64), -ℤ_parts be f)
order_lem be f w false s t rest h k = ground (arith, +ℤ_parts f (pos w), -ℤ_parts be f)

-- The limbs against one limb.
one_limb :
    (bp : List ℕ) (n c : ℕ) (s : ℤ)
    → (if ltb c (get_or bp n 0)
        then s
        else if ltb (get_or bp n 0) c
        then neg_ℤ s
        else tail_limbs bp n s)
      ≡ cmp_limbs bp (suc n) (c ∷ []) 1 s
unfolding cmp_limbs tail_limbs
one_limb bp zero c s = refl
one_limb bp (suc n) c s = refl

cmp_limb_lem :
    ⦃ll : Longlong⦄
    → (b x : Mpfr) (sign : Sign) (a : ℕ) (f be s : ℤ) → x.prec ≡ 64
    → 1 ≤ a
    → a < 2 ^ 64
    → cmp_limb_2exp b a f be s
      ≡ cmp_regular b (whole_limb x sign a f) be (f +ℤ pos (limb_width a)) s
unfolding cmp_limb_2exp cmp_regular
cmp_limb_lem b x sign a f be s size some small =
    let n : prec2limbs b.prec ≡ suc ((b.prec - 1) / limb_bits) = omega arith in
    let (low, high) = width_bounds a some small in
    rw (n, size, ← one_limb b.mant ((b.prec - 1) / limb_bits) (shl a (count_leading_zeros a)) s)
      (order_lem be f (limb_width a) (ltb_ℤ f (emax_max -ℤ pos limb_bits)) s (neg_ℤ s) _ low high)

by_sign :
    (t : Sign) (v : ℤ)
    → (if is_neg t then negsuc 0 else v) ≡ (if same_sign plus t then v else sign_int t)
by_sign plus v = refl
by_sign minus v = refl

sign_value : (t : Sign) → (if is_neg t then negsuc 0 else pos 1) ≡ sign_int t
sign_value plus = refl
sign_value minus = refl

answer_if :
    (c : Bool) (v w : ℤ) (e : Env)
    → (if c then answer v e else answer w e) ≡ answer (if c then v else w) e
answer_if true v w e = refl
answer_if false v w e = refl

same_sign_comm : (s t : Sign) → same_sign s t ≡ same_sign t s
same_sign_comm plus plus = refl
same_sign_comm plus minus = refl
same_sign_comm minus plus = refl
same_sign_comm minus minus = refl

module _ ⦃ll : Longlong⦄ (b x : Mpfr) (a : ℕ) (f : ℤ) (e : Env) (size : x.prec ≡ 64) (some : 1 ≤ a)
    (small : a < 2 ^ 64) where
  ui_field :
      (ex : Exp)
      → cmp_ui_field ex b a f e
        ≡ cmp_fields ex (num (f +ℤ pos (limb_width a))) b (whole_limb x plus a f) plus e
  unfolding cmp_ui_field cmp_fields
  ui_field nan = refl
  ui_field inf = refl
  ui_field zero_value = let off : (a == 0) ≡ false = ground arith in rw off refl
  ui_field (num be) =
      let off : (a == 0) ≡ false = ground arith in
      rw
        (
          off,
          cmp_limb_lem b x plus a f be (pos 1) size some small,
          answer_if (is_neg b.sign) (negsuc 0)
              (cmp_regular b (whole_limb x plus a f) be (f +ℤ pos (limb_width a)) (pos 1)) e,
          answer_if (same_sign plus b.sign)
              (cmp_regular b (whole_limb x plus a f) be (f +ℤ pos (limb_width a)) (pos 1))
              (sign_int b.sign) e,
        )
        (ap (λ v. answer v e) (by_sign b.sign _))

zero_field :
    ⦃ll : Longlong⦄
    → (b u : Mpfr) (f : ℤ) (e : Env) (ex : Exp)
    → cmp_ui_field ex b 0 f e ≡ cmp_fields ex zero_value b u plus e
unfolding cmp_ui_field cmp_fields
zero_field b u f e nan = refl
zero_field b u f e inf = refl
zero_field b u f e zero_value = refl
zero_field b u f e (num be) =
    answer_if (is_neg b.sign) (negsuc 0) (pos 1) e ∙ ap (λ v. answer v e) (sign_value b.sign)

-- For all `b`, singular ones included, and every 64-bit integer `i`: `mpfr_cmp_ui_2exp` returns what
-- `mpfr_cmp` returns on the 64-bit number that `mpfr_set_ui_2exp` makes of `i` and `f` in the extended
-- exponent range, where 64 more than `f` is in this range, and leaves the same flags.
pub cmp_ui_2exp-cmp :
    ⦃ll : Longlong⦄
    → (g : Mpn) (b x : Mpfr) (i : ℕ) (f : ℤ) (e : Env) → x.prec ≡ 64
    → i < 2 ^ 64
    → emin_min ≤ℤ f
    → f +ℤ pos 64 ≤ℤ emax_max
    → cmp_ui_2exp b i f e ≡ cmp b (set_ui_2exp g x i f rndz (extended_range e)).x e
unfolding cmp_ui_2exp set_ui_2exp cmp cmp3
cmp_ui_2exp-cmp g b x i f e size small lo hi = elim (Bool-cases (i == 0)) [
  | inl none ↦ rw ((==_iff i 0).0 none) (zero_field b _ f e b.exp)
  | inr some ↦
      let x' : Mpfr = record x { sign = plus } in
      let made = set_limb_lem g x' plus i f rndz e size (ground (arith, some)) small lo hi in
      ui_field b x' i f e size (ground (arith, some)) small b.exp
      ∙ rw some (ap (λ u. cmp_fields b.exp u.exp b u (mult_sign plus u.sign) e) (sym made))
]

si_some :
    ⦃ll : Longlong⦄
    → (b x : Mpfr) (i f : ℤ) (e : Env) → x.prec ≡ 64
    → 1 ≤ absolute i
    → absolute i < 2 ^ 64
    → eqb_ℤ i (pos 0) ≡ false
    → (ex : Exp)
    → cmp_si_field ex b i f e
      ≡ cmp_fields ex
          (num (f +ℤ pos (limb_width (absolute i))))
          b
          (whole_limb x (sign_of i) (absolute i) f)
          (sign_of i)
          e
unfolding cmp_si_field cmp_fields
si_some b x i f e size some small off nan = refl
si_some b x i f e size some small off inf = refl
si_some b x i f e size some small off zero_value = rw off refl
si_some b x i f e size some small off (num be) =
    rw
      (
        off,
        cmp_limb_lem b x (sign_of i) (absolute i) f be (sign_int (sign_of i)) size some small,
        same_sign_comm b.sign (sign_of i),
      )
      refl

si_zero :
    ⦃ll : Longlong⦄
    → (b u : Mpfr) (f : ℤ) (e : Env) (ex : Exp)
    → cmp_si_field ex b (pos 0) f e ≡ cmp_fields ex zero_value b u plus e
unfolding cmp_si_field cmp_fields
si_zero b u f e nan = refl
si_zero b u f e inf = refl
si_zero b u f e zero_value = refl
si_zero b u f e (num be) = either (same_sign b.sign plus) (answer (sign_int b.sign) e)
  where
    either : (c : Bool) (r : Answer) → (if c then r else r) ≡ r
    either true r = refl
    either false r = refl

is_zero : (i : ℤ) → eqb_ℤ i (pos 0) ≡ true → i ≡ pos 0
is_zero i h = eq_of_parts i (pos 0) ((==_iff _ _).0 h)

plus-mult_sign : (s : Sign) → mult_sign plus s ≡ s
plus-mult_sign plus = refl
plus-mult_sign minus = refl

-- For all `b`, singular ones included, and every signed 64-bit integer `i`: `mpfr_cmp_si_2exp` returns
-- what `mpfr_cmp` returns on the 64-bit number that `mpfr_set_si_2exp` makes of `i` and `f` in the
-- extended exponent range, where 64 more than `f` is in this range, and leaves the same flags.
pub cmp_si_2exp-cmp :
    ⦃ll : Longlong⦄
    → (g : Mpn) (b x : Mpfr) (i f : ℤ) (e : Env) → x.prec ≡ 64
    → absolute i ≤ 2 ^ 63
    → emin_min ≤ℤ f
    → f +ℤ pos 64 ≤ℤ emax_max
    → cmp_si_2exp b i f e ≡ cmp b (set_si_2exp g x i f rndz (extended_range e)).x e
unfolding cmp_si_2exp set_si_2exp cmp cmp3
cmp_si_2exp-cmp g b x i f e size small lo hi = elim (Bool-cases (eqb_ℤ i (pos 0))) [
  | inl none ↦ rw (is_zero i none) (si_zero b _ f e b.exp)
  | inr some ↦
      let s = sign_of i in
      let a = absolute i in
      let nonzero : 1 ≤ a = ground (arith, some) in
      let made = set_limb_lem g x s a f rndz e size nonzero (omega arith) lo hi in
      si_some b x i f e size nonzero (omega arith) some b.exp
      ∙ rw (some, made, plus-mult_sign s) refl
]
