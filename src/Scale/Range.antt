-- ===== src/Scale/Range.antt =====
-- `mpfr_mul_2si` checks the range of the scaled exponent as `mpfr_check_range` does, although it does
-- not form an exponent that the machine could not represent.
use mpfr.Base.{◌≡◌, refl, ap, ◌∙◌, arith, not, ◌&&◌, ◌||◌, if◌then◌else◌, Bool, true, false}
use mpfr.Base.{ℤ, pos, ◌+ℤ◌, ◌-ℤ◌, ◌≤ℤ◌, ltb_ℤ, leb_ℤ, +ℤ_parts, -ℤ_parts, eq_of_parts}
use mpfr.Types.{Rnd, Sign, is_neg, Exp, num, Mpfr, Env, Out}
use mpfr.Extremes.{powerof2_raw, setmin, setmax}
use mpfr.Exceptions.{emin_min, emax_max, overflow, underflow, check_range}
use mpfr.Next.{Mpn}
use mpfr.Scale.{Raw, small_mode, mul_2si_number}

-- The guards against an exponent that does not fit are implied by the bounds of the range.
over_test :
    (lo exp emax n : ℤ)
    → lo ≤ℤ exp
    → (ltb_ℤ emax (lo +ℤ n) || ltb_ℤ (emax -ℤ n) exp) ≡ ltb_ℤ emax (exp +ℤ n)
over_test lo exp emax n h = ground (arith, +ℤ_parts lo n, -ℤ_parts emax n, +ℤ_parts exp n)

under_test :
    (hi exp emin n : ℤ)
    → exp ≤ℤ hi
    → (ltb_ℤ (hi +ℤ n) emin || ltb_ℤ exp (emin -ℤ n)) ≡ ltb_ℤ (exp +ℤ n) emin
under_test hi exp emin n h = ground (arith, +ℤ_parts hi n, -ℤ_parts emin n, +ℤ_parts exp n)

add_assoc : (a b c : ℤ) → a +ℤ (b +ℤ c) ≡ a +ℤ b +ℤ c
add_assoc a b c =
    eq_of_parts _ _
      (omega (arith, +ℤ_parts a (b +ℤ c), +ℤ_parts b c, +ℤ_parts (a +ℤ b) c, +ℤ_parts a b))

-- The exponent field that is there before is lost.
pub overflow-exp :
    (y : Mpfr) (v : Exp) (rnd : Rnd) (s : Sign) (e : Env)
    → overflow y rnd s e ≡ overflow (record y { exp = v }) rnd s e
unfolding overflow setmax
overflow-exp y v rnd s e = refl

pub underflow-exp :
    (y : Mpfr) (v : Exp) (rnd : Rnd) (s : Sign) (e : Env)
    → underflow y rnd s e ≡ underflow (record y { exp = v }) rnd s e
unfolding underflow setmin
underflow-exp y v rnd s e = refl

pub powerof2_raw-exp : (y : Mpfr) (v : Exp) → powerof2_raw (record y { exp = v }) ≡ powerof2_raw y
unfolding powerof2_raw
powerof2_raw-exp y v = refl

pub and_comm : (a b : Bool) → (a && b) ≡ (b && a)
and_comm true true = refl
and_comm true false = refl
and_comm false true = refl
and_comm false false = refl

-- The two orders of the tests.
pick :
    (up down over under : Bool) (o o' u u' r : Out)
    → down ≡ not up
    → (up ≡ true → under ≡ false)
    → (up ≡ false → over ≡ false)
    → o ≡ o'
    → u ≡ u'
    → (if up && over then o else if down && under then u else r)
      ≡ (if under then u' else if over then o' else r)
pick up down over under o o' u u' r flip no_under no_over p q = ground arith

module _ (g : Mpn) (r : Raw) (n : ℤ) (rnd : Rnd) (e : Env) (lo : emin_min ≤ℤ e.emin)
    (low : e.emin ≤ℤ r.exp) (high : r.exp ≤ℤ e.emax +ℤ pos 1) (hi : r.exp ≤ℤ emax_max) where
  far_test :
      (ltb_ℤ (emax_max +ℤ (n +ℤ pos 1)) e.emin || ltb_ℤ r.exp (e.emin -ℤ (n +ℤ pos 1)))
      ≡ ltb_ℤ (r.exp +ℤ n +ℤ pos 1) e.emin
  far_test =
      under_test emax_max r.exp e.emin (n +ℤ pos 1) hi
      ∙ ap (λ t. ltb_ℤ t e.emin) (add_assoc r.exp n (pos 1))

  pub mul_2si_number-check_range :
      mul_2si_number g r n rnd e ≡ check_range (record r.x { exp = num (r.exp +ℤ n) }) r.inex rnd e
  unfolding mul_2si_number small_mode check_range
  mul_2si_number-check_range =
      rw
        (
          far_test,
          over_test emin_min r.exp e.emax n (omega arith),
          under_test emax_max r.exp e.emin n hi,
        )
        (pick (leb_ℤ (pos 0) n) (ltb_ℤ n (pos 0)) (ltb_ℤ e.emax (r.exp +ℤ n))
          (ltb_ℤ (r.exp +ℤ n) e.emin) _ _ _ _ _ (ground arith) (ground (arith, +ℤ_parts r.exp n))
          (ground (arith, +ℤ_parts r.exp n, +ℤ_parts e.emax (pos 1)))
          (overflow-exp r.x (num (r.exp +ℤ n)) rnd r.x.sign e)
          (rw
            (
              and_comm (if is_neg r.x.sign then leb_ℤ r.inex (pos 0) else leb_ℤ (pos 0) r.inex)
                  (powerof2_raw r.x),
              powerof2_raw-exp r.x (num (r.exp +ℤ n)),
            )
            (underflow-exp r.x (num (r.exp +ℤ n)) _ r.x.sign e)))
