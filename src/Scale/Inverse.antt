-- ===== src/Scale/Inverse.antt =====
-- `mpfr_div_2si` and `mpfr_div_2ui` against `mpfr_mul_2si`.
use mpfr.Base.{
  ℕ, ◌<◌, ◌≡◌, refl, sym, ap, ◌∙◌, arith, leb, ltb, ◌==◌, ◌&&◌, not, if◌then◌else◌, Bool, true,
  false, ℤ, pos, negsuc, pos_part, neg_part, neg_ℤ, ◌+ℤ◌, ◌-ℤ◌, ◌≤ℤ◌, ◌<ℤ◌, ltb_ℤ, leb_ℤ,
  ltb_ℤ_of_le, +ℤ_parts, -ℤ_parts, eq_of_parts,
}
use mpfr.Types.{Rnd, is_neg, Exp, nan, inf, zero_value, num, Mpfr, Env, Out}
use mpfr.Extremes.{powerof2_raw}
use mpfr.Exceptions.{emin_min, emax_max, check_range}
use mpfr.Next.{Mpn}
use mpfr.Next.Neighbour.{IsMpn}
use mpfr.Scale.{
  Raw, setraw, small_mode, mul_2si, mul_2si_field, mul_2si_number, div_2si, div_2si_field,
  div_2si_number, div_2ui, div_2ui_field, div_2ui_number,
}
use mpfr.Scale.Copy.{setraw_exp}
use mpfr.Scale.Range.{mul_2si_number-check_range, powerof2_raw-exp, underflow-exp, and_comm}

sub_neg : (a n : ℤ) → a -ℤ n ≡ a +ℤ neg_ℤ n
sub_neg a n = eq_of_parts _ _ (ground (arith, -ℤ_parts a n, +ℤ_parts a (neg_ℤ n)))

add_neg : (a n : ℤ) → a +ℤ n ≡ a -ℤ neg_ℤ n
add_neg a n = eq_of_parts _ _ (ground (arith, +ℤ_parts a n, -ℤ_parts a (neg_ℤ n)))

pred_neg : (n : ℤ) → neg_ℤ (n -ℤ pos 1) ≡ neg_ℤ n +ℤ pos 1
pred_neg n = eq_of_parts _ _ (ground (arith, -ℤ_parts n (pos 1), +ℤ_parts (neg_ℤ n) (pos 1)))

-- The tests in the two orders exclude each other.
swap_tests :
    (up down a b : Bool) (o u r : Out)
    → down ≡ not up
    → (if down && b then u else if up && a then o else r)
      ≡ (if up && a then o else if down && b then u else r)
swap_tests true down a b o u r h = ground arith
swap_tests false down a b o u r h = ground arith

nonneg_neg : (n : ℤ) → leb_ℤ (pos 0) (neg_ℤ n) ≡ leb_ℤ n (pos 0)
nonneg_neg n = ground arith

negative_neg : (n : ℤ) → ltb_ℤ (neg_ℤ n) (pos 0) ≡ ltb_ℤ (pos 0) n
negative_neg n = ground arith

opposite_test : (n : ℤ) → ltb_ℤ (pos 0) n ≡ not (leb_ℤ n (pos 0))
opposite_test n = ground arith

module _ (g : Mpn) where
  number_lem :
      (r : Raw) (n : ℤ) (rnd : Rnd) (e : Env)
      → div_2si_number g r n rnd e ≡ mul_2si_number g r (neg_ℤ n) rnd e
  unfolding div_2si_number mul_2si_number
  number_lem r n rnd e =
      rw
        (
          sub_neg emax_max (n -ℤ pos 1),
          add_neg e.emin (n -ℤ pos 1),
          pred_neg n,
          sub_neg emax_max n,
          add_neg e.emin n,
          sub_neg emin_min n,
          add_neg e.emax n,
          sub_neg r.exp n,
          nonneg_neg n,
          negative_neg n,
        )
        (swap_tests (leb_ℤ n (pos 0)) (ltb_ℤ (pos 0) n) _ _ _ _ _ (opposite_test n))

  -- This holds for all operands, singular ones included.
  pub div_2si-mul_2si :
      (same : Bool) (y x : Mpfr) (n : ℤ) (rnd : Rnd) (e : Env)
      → div_2si g same y x n rnd e ≡ mul_2si g same y x (neg_ℤ n) rnd e
  unfolding div_2si mul_2si div_2si_field mul_2si_field
  div_2si-mul_2si same y x n rnd e = by_field x.exp
    where
      by_field :
          (ex : Exp)
          → div_2si_field g ex same y x n rnd e ≡ mul_2si_field g ex same y x (neg_ℤ n) rnd e
      by_field nan = refl
      by_field inf = refl
      by_field zero_value = refl
      by_field (num z) = number_lem (setraw g same y x z rnd) n rnd e

pub no_neg_part : (z : ℤ) → pos 0 ≤ℤ z → neg_part z ≡ 0
no_neg_part (pos n) h = refl
no_neg_part (negsuc n) h = absurd (omega arith)

-- `diffexp` against the exponent of the quotient.
module _ (exp emin : ℤ) (n : ℕ) (low : emin ≤ℤ exp) where
  abbrev diffexp : ℤ
  diffexp = exp -ℤ (emin -ℤ pos 1)

  diff_parts : neg_part diffexp ≡ 0
  diff_parts =
      no_neg_part diffexp (omega (arith, -ℤ_parts exp (emin -ℤ pos 1), -ℤ_parts emin (pos 1)))

  diff_test : leb (pos_part diffexp) n ≡ ltb_ℤ (exp +ℤ neg_ℤ (pos n)) emin
  diff_test = rw (sym (sub_neg exp (pos n))) (
      ground (
        arith,
        diff_parts,
        -ℤ_parts exp (emin -ℤ pos 1),
        -ℤ_parts emin (pos 1),
        -ℤ_parts exp (pos n),
      ))

  far_diff_test : ltb (pos_part diffexp) n ≡ ltb_ℤ (exp +ℤ neg_ℤ (pos n) +ℤ pos 1) emin
  far_diff_test = rw (sym (sub_neg exp (pos n))) (
      ground (
        arith,
        diff_parts,
        -ℤ_parts exp (emin -ℤ pos 1),
        -ℤ_parts emin (pos 1),
        -ℤ_parts exp (pos n),
        +ℤ_parts (exp -ℤ pos n) (pos 1),
      ))

pub minus_parts : (n : ℕ) → (pos_part (neg_ℤ (pos n)) ≡ 0) × (neg_part (neg_ℤ (pos n)) ≡ n)
minus_parts n = ground arith

-- One test less.
skip_test :
    (under over : Bool) (u u' o r : Out)
    → over ≡ false
    → u ≡ u'
    → (if under then u else r) ≡ (if under then u' else if over then o else r)
skip_test under over u u' o r h p = ground arith

module _ (g : Mpn) (r : Raw) (n : ℕ) (rnd : Rnd) (e : Env) (some : 0 < n) (low : e.emin ≤ℤ r.exp)
    (high : r.exp ≤ℤ e.emax +ℤ pos 1) where
  -- `mpfr_div_2ui` ends as `mpfr_check_range` would, whatever the range.
  pub div_2ui_number-check_range :
      div_2ui_number g r n rnd e
      ≡ check_range (record r.x { exp = num (r.exp +ℤ neg_ℤ (pos n)) }) r.inex rnd e
  unfolding div_2ui_number small_mode check_range
  div_2ui_number-check_range =
      let E = r.exp +ℤ neg_ℤ (pos n) in
      rw
        (
          sub_neg r.exp (pos n),
          diff_test r.exp e.emin n low,
          far_diff_test r.exp e.emin n low,
          and_comm (if is_neg r.x.sign then leb_ℤ r.inex (pos 0) else leb_ℤ (pos 0) r.inex)
              (powerof2_raw r.x),
        )
        (skip_test (ltb_ℤ E e.emin) (ltb_ℤ e.emax E) _ _ _ _
          (ltb_ℤ_of_le E e.emax
            (omega (arith, minus_parts n, +ℤ_parts r.exp (neg_ℤ (pos n)), +ℤ_parts e.emax (pos 1))))
          (rw (powerof2_raw-exp r.x (num E)) (underflow-exp r.x (num E) _ r.x.sign e)))

pub div_2ui-mul_2si :
    (g : Mpn) (same : Bool) (y x : Mpfr) (n : ℕ) (rnd : Rnd) (e : Env) (bx : ℤ)
    → IsMpn g
    → x.exp ≡ num bx
    → 0 < n
    → emin_min ≤ℤ e.emin
    → e.emin ≤ℤ bx
    → bx ≤ℤ e.emax
    → e.emax <ℤ emax_max
    → div_2ui g same y x n rnd e ≡ mul_2si g same y x (neg_ℤ (pos n)) rnd e
unfolding div_2ui div_2ui_field mul_2si mul_2si_field
div_2ui-mul_2si g same y x n rnd e bx laws exponent some lo low high hi =
    let r = setraw g same y x bx rnd in
    let (least, most) = setraw_exp g laws same y x rnd bx in
    let positive : (n == 0) ≡ false = ground arith in
    let low' : e.emin ≤ℤ r.exp = omega arith in
    let high' : r.exp ≤ℤ e.emax +ℤ pos 1 =
      omega (arith, +ℤ_parts bx (pos 1), +ℤ_parts e.emax (pos 1)) in
    let hi' : r.exp ≤ℤ emax_max = omega (arith, +ℤ_parts bx (pos 1)) in
    ap (λ t. div_2ui_field g t same y x n rnd e) exponent
    ∙ rw positive (div_2ui_number-check_range g r n rnd e some low' high')
    ∙ sym (mul_2si_number-check_range g r (neg_ℤ (pos n)) rnd e lo low' high' hi')
    ∙ ap (λ t. mul_2si_field g t same y x (neg_ℤ (pos n)) rnd e) (sym exponent)
