-- ===== src/Scale/Near.antt =====
-- What the test for the underflow relies on: where `MPFR_SETRAW` rounds to the nearest, its exponent, its
-- ternary value and `mpfr_powerof2_raw` tell the rounded value among the powers of two.
use mathlib.Core.Path.{subst}
use native.Mathlib.Decide.{dec_lt}
use native.Mathlib.Nat.{mul-le-mul_right}
use mpfr.Base.{
  ℕ, suc, ◌+◌, ◌-◌, ◌*◌, ◌^◌, ◌≤◌, ◌<◌, ◌≡◌, refl, sym, ap, ◌∙◌, arith, leb, ◌==◌, ◌||◌,
  if◌then◌else◌, Bool, true, false, pow-pos, pow-add, pow-split, ℤ, pos, ◌+ℤ◌, ◌≤ℤ◌, leb_ℤ,
  +ℤ_parts, length,
}
use mpfr.Words.Value.{low_value, low_value-lt, IsLimbs}
use mpfr.Types.{rndn, Sign, plus, minus, is_neg, num, Mpfr, Env, prec2limbs}
use mpfr.Extremes.{powerof2_raw}
use mpfr.Extremes.Power.{powerof2_raw_lem}
use mpfr.Exceptions.{with_sign}
use mpfr.Rounding.Spec.{RoundsTo, compare_int}
use mpfr.Rounding.Limb.{ret-x, ret-inex}
use mpfr.Compare.Magnitude.{IsRegular}
use mpfr.Next.{Mpn, unused_bits}
use mpfr.Next.Neighbour.{IsMpn}
use mpfr.Fields.Odd.{scaled_equal}
use mpfr.Set.{set4}
use mpfr.Set.Rounded.{IsStored}
use mpfr.Set.Correct.{skipped, set4-IsStored, set4_exact}
use mpfr.Set.RoundTrip.{RoundsTo-exact}
use mpfr.Scale.{Raw, setraw}
use mpfr.Scale.Copy.{delivered, setraw-set4, setraw-IsLimbs}

-- `m` is the significand of `x`, `top` the power of two above all significands of its limbs, and
-- `value` the rounded significand.
pub record IsNear (m top : ℕ) (bx : ℤ) (r : Raw) : Type 0 where
  pub value : ℕ
  pub upper : value ≤ top
  pub exponent : r.exp ≡ (if value == top then bx +ℤ pos 1 else bx)
  pub power : powerof2_raw r.x ≡ (value == top || 2 * value == top)
  pub away : (if is_neg r.x.sign then leb_ℤ r.inex (pos 0) else leb_ℤ (pos 0) r.inex) ≡ leb m value
  pub half : 2 * m ≡ top → value ≡ m

sign_tells :
    (s : Sign) (t : ℤ) (v m : ℕ)
    → t ≡ with_sign s (compare_int v m)
    → (if is_neg s then leb_ℤ t (pos 0) else leb_ℤ (pos 0) t) ≡ leb m v
sign_tells plus t v m h = rw h (ground arith)
sign_tells minus t v m h = rw h (ground arith)

num_inj : {a b : ℤ} → num a ≡ num b → a ≡ b
num_inj h = cc

power_test :
    (full : Bool) (u top' : ℕ) → ((if full then top' else 2 * u) == top') ≡ (full || 2 * u == top')
power_test true u top' = ground arith
power_test false u top' = refl

-- In units of `d`, of which `t` make the top and `h` its half.
module _ (m d u t h : ℕ) (rounds : RoundsTo rndn false m d u) (below : m < t * d) (pos_d : 0 < d)
    (halves : t ≡ 2 * h) where
  rounded_upper : u * d ≤ t * d
  rounded_upper = elim (dec_lt t u) [
    | yes more ↦
        let step : (t + 1) * d ≤ u * d = mul-le-mul_right {m = t + 1} {n = u} d (omega arith) in
        absurd (omega (arith, step, rounds.0))
    | no rest ↦ mul-le-mul_right {m = u} {n = t} d (omega arith)
  ]

  rounded_half : 2 * m ≡ t * d → u * d ≡ m
  rounded_half e =
      let exact : m ≡ h * d = omega (arith, e, ap (λ v. v * d) halves) in
      let same : u ≡ h =
        RoundsTo-exact rndn false h d u pos_d
          (subst (λ v. RoundsTo rndn false v d u) exact rounds) in
      ap (λ v. v * d) same ∙ sym exact

module _ (a : Mpfr) (m : ℕ) (bx : ℤ) (sh s n : ℕ) (e : Env) (r : Raw)
    (bound : bx +ℤ pos 1 ≤ℤ e.emax) (narrow : sh < 64) (size : prec2limbs a.prec ≡ suc n)
    (limbs : IsLimbs r.x.mant) (below : m < 2 ^ (64 * (s + suc n)))
    (st : IsStored a rndn m (2 ^ sh * 2 ^ (64 * s)) bx sh (suc n) e (delivered r e)) where
  abbrev d : ℕ
  d = 2 ^ sh * 2 ^ (64 * s)

  abbrev t : ℕ
  t = 2 ^ (64 * suc n - sh)

  abbrev top : ℕ
  top = 2 ^ (64 * (s + suc n))

  limbs_top : 2 ^ (64 * suc n) ≡ t * 2 ^ sh
  limbs_top = pow-split (64 * suc n) sh (omega arith) ∙ omega arith

  top_parts : top ≡ 2 ^ (64 * suc n) * 2 ^ (64 * s)
  top_parts =
      let e' : 64 * (s + suc n) ≡ 64 * suc n + 64 * s = omega arith in
      ap (λ v. 2 ^ v) e' ∙ pow-add (64 * suc n) (64 * s)

  top_units : top ≡ t * d
  top_units = top_parts ∙ omega (arith, ap (λ v. v * 2 ^ (64 * s)) limbs_top)

  halves : t ≡ 2 * 2 ^ (64 * suc n - sh - 1)
  halves = pow-split (64 * suc n - sh) 1 (omega arith)

  pos_d : 0 < d
  pos_d = rw (sym (pow-add sh (64 * s))) (pow-pos _)

  abbrev u : ℕ
  u = st.units

  rounds : RoundsTo rndn false m d u
  rounds = st.rounds

  scaled : u * d ≡ u * 2 ^ sh * 2 ^ (64 * s)
  scaled = omega arith

  full_test : (u * 2 ^ sh == 2 ^ (64 * suc n)) ≡ (u * d == top)
  full_test =
      sym (scaled_equal (u * 2 ^ sh) (2 ^ (64 * suc n)) (2 ^ (64 * s)) (pow-pos (64 * s)))
      ∙ rw (scaled, top_parts) refl

  half_test : (2 * (u * 2 ^ sh) == 2 ^ (64 * suc n)) ≡ (2 * (u * d) == top)
  half_test =
      let e' : 2 * (u * 2 ^ sh) * 2 ^ (64 * s) ≡ 2 * (u * d) = omega arith in
      sym (scaled_equal (2 * (u * 2 ^ sh)) (2 ^ (64 * suc n)) (2 ^ (64 * s)) (pow-pos (64 * s)))
      ∙ rw (e', top_parts) refl

  abbrev full : Bool
  full = u * 2 ^ sh == 2 ^ (64 * suc n)

  room : (b : Bool) → (if b then bx +ℤ pos 1 else bx) ≤ℤ e.emax
  room true = bound
  room false = omega (arith, bound, +ℤ_parts bx (pos 1))

  pub stored-IsNear : IsNear m top bx r
  stored-IsNear =
      let (exponent, value, sign, prec, ternary, env) = st.fits (room full) in
      let y = record r.x { exp = num r.exp } in
      let x_lem = ret-x y r.inex e in
      let sign' : r.x.sign ≡ a.sign = ap (λ v. v.sign) (sym x_lem) ∙ sign in
      let prec' : r.x.prec ≡ a.prec = ap (λ v. v.prec) (sym x_lem) ∙ prec in
      let inex' : r.inex ≡ with_sign r.x.sign (compare_int (u * d) m) =
        sym (ret-inex y r.inex e)
        ∙ ternary
        ∙ ap (λ v. with_sign v (compare_int (u * d) m)) (sym sign') in
      let value' = ap (λ v. 2 * low_value v.mant (suc n)) (sym x_lem) ∙ value in
      let size' : prec2limbs r.x.prec ≡ suc n = ap prec2limbs prec' ∙ size in
      record {
        value = u * d;
        upper =
            rw top_units (rounded_upper m d u t _ rounds (rw (sym top_units) below) pos_d halves);
        exponent =
            num_inj (ap (λ v. v.exp) (sym x_lem) ∙ exponent)
            ∙ ap (λ b. if b then bx +ℤ pos 1 else bx) full_test;
        power =
            powerof2_raw_lem r.x limbs
            ∙ ap (λ v. 2 * low_value r.x.mant v == 2 ^ (64 * v)) size'
            ∙ ap (λ v. v == 2 ^ (64 * suc n)) value'
            ∙ power_test full (u * 2 ^ sh) (2 ^ (64 * suc n))
            ∙ ap (λ b. b || 2 * (u * 2 ^ sh) == 2 ^ (64 * suc n)) full_test
            ∙ ap (λ b. u * d == top || b) half_test;
        away = sign_tells r.x.sign r.inex (u * d) m inex';
        half = λ e'.
            rounded_half m d u t _ rounds (rw (sym top_units) below) pos_d halves (e' ∙ top_units);
      }

exact-IsNear :
    (m top : ℕ) (bx : ℤ) (r : Raw)
    → m < top
    → r.exp ≡ bx
    → r.inex ≡ pos 0
    → powerof2_raw r.x ≡ (2 * m == top)
    → IsNear m top bx r
exact-IsNear m top bx r below exponent none power =
    let part : (m == top) ≡ false = ground arith in
    record {
      value = m;
      upper = omega arith;
      exponent = rw part exponent;
      power = rw part power;
      away = rw none (ground arith);
      half = λ _. refl;
    }

module _ (g : Mpn) (laws : IsMpn g) (y x : Mpfr) (bx : ℤ) (h : IsRegular x bx)
    (sized : length x.mant ≡ prec2limbs x.prec) (pos_y : 0 < y.prec) where
  abbrev m : ℕ
  m = low_value x.mant (prec2limbs x.prec)

  abbrev bound : Env
  bound = record { flags = 0; emin = bx; emax = bx +ℤ pos 1 }

  in_range : bx ≤ℤ bx +ℤ pos 1
  in_range = omega (arith, +ℤ_parts bx (pos 1))

  below_top : m < 2 ^ (64 * prec2limbs x.prec)
  below_top = low_value-lt x.mant (prec2limbs x.prec) h.limbs

  abbrev other : Raw
  other = setraw g false y x bx rndn

  delivers : set4 g y x rndn x.sign bound ≡ delivered other bound
  delivers = setraw-set4 g y x rndn bound bx h.exponent (omega arith)

  shorter-IsNear : y.prec < x.prec → IsNear m (2 ^ (64 * prec2limbs x.prec)) bx other
  shorter-IsNear less =
      let n = prec2limbs y.prec - 1 in
      let size : prec2limbs y.prec ≡ suc n = omega arith in
      let whole : skipped y x + suc n ≡ prec2limbs x.prec = omega arith in
      let st : IsStored (record y { sign = x.sign }) rndn m
          (2 ^ unused_bits y * 2 ^ (64 * skipped y x)) bx (unused_bits y) (prec2limbs y.prec) bound
          (delivered other bound) =
        subst
          (IsStored (record y { sign = x.sign }) rndn m (2 ^ unused_bits y * 2 ^ (64 * skipped y x))
            bx (unused_bits y) (prec2limbs y.prec) bound)
          delivers
          (set4-IsStored g y x rndn x.sign bound bx laws (cc) h sized pos_y less in_range) in
      subst (λ v. IsNear m (2 ^ (64 * v)) bx other) whole
        (stored-IsNear (record y { sign = x.sign }) m bx (unused_bits y) (skipped y x) n bound other
          (omega arith) (omega arith) size (setraw-IsLimbs g laws y x rndn bx h.limbs)
          (rw whole below_top)
          (subst
            (λ v.
              IsStored (record y { sign = x.sign }) rndn m
                (2 ^ unused_bits y * 2 ^ (64 * skipped y x)) bx (unused_bits y) v bound
                (delivered other bound))
            size st))

  longer-IsNear : x.prec ≤ y.prec → IsNear m (2 ^ (64 * prec2limbs x.prec)) bx other
  longer-IsNear more =
      let k = prec2limbs y.prec - prec2limbs x.prec in
      let z = record other.x { exp = num other.exp } in
      let lem = ret-x z other.inex bound in
      let (exponent, sign, prec, value, none, env) =
        set4_exact g y x rndn x.sign bound bx h.exponent more in
      let inex' : other.inex ≡ pos 0 =
        sym (ret-inex z other.inex bound) ∙ ap (λ v. v.inex) (sym delivers) ∙ none in
      let same : z ≡ (set4 g y x rndn x.sign bound).x = sym lem ∙ ap (λ v. v.x) (sym delivers) in
      let prec' : other.x.prec ≡ y.prec = ap (λ v. v.prec) same ∙ prec in
      let value' : low_value other.x.mant (prec2limbs y.prec) ≡ m * 2 ^ (64 * k) =
        ap (λ v. low_value v.mant (prec2limbs y.prec)) same ∙ value in
      let widths : 64 * prec2limbs y.prec ≡ 64 * prec2limbs x.prec + 64 * k = omega arith in
      exact-IsNear m _ bx other below_top (num_inj (ap (λ v. v.exp) same ∙ exponent)) inex' (
        powerof2_raw_lem other.x (setraw-IsLimbs g laws y x rndn bx h.limbs)
        ∙ ap (λ v. 2 * low_value other.x.mant (prec2limbs v) == 2 ^ (64 * prec2limbs v)) prec'
        ∙ ap (λ v. 2 * v == 2 ^ (64 * prec2limbs y.prec)) value'
        ∙ ap (λ v. 2 * (m * 2 ^ (64 * k)) == 2 ^ v) widths
        ∙ ap (λ v. v == 2 ^ (64 * prec2limbs x.prec + 64 * k)) (omega arith)
        ∙ ap (λ v. 2 * m * 2 ^ (64 * k) == v) (pow-add (64 * prec2limbs x.prec) (64 * k))
        ∙ scaled_equal (2 * m) (2 ^ (64 * prec2limbs x.prec)) (2 ^ (64 * k)) (pow-pos (64 * k)))

  pub setraw-IsNear :
      (same : Bool)
      → (same ≡ true → y ≡ x)
      → IsNear m (2 ^ (64 * prec2limbs x.prec)) bx (setraw g same y x bx rndn)
  unfolding setraw
  setraw-IsNear true source =
      exact-IsNear m _ bx (record { x = y; exp = bx; inex = pos 0 }) below_top refl refl
        (rw (source refl) (powerof2_raw_lem x h.limbs))
  setraw-IsNear false source = elim (dec_lt y.prec x.prec) [
    | yes less ↦ shorter-IsNear less
    | no more ↦ longer-IsNear (omega arith)
  ]
