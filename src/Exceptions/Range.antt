-- ===== src/Exceptions/Range.antt =====
-- The exponent range and the functions that enforce it.
use mpfr.Base.{
  ℕ, ◌≡◌, ◌≢◌, ◌↔◌, refl, sym, arith, ℤ, pos, ◌≤ℤ◌, ltb_ℤ, Bool, true, false, if◌then◌else◌, eqb_ℤ,
  bit_or, ◌==◌, Bool-cases, inl, inr, ltb→ge,
}
use mathlib.Core.Path.{subst}
use mpfr.Words.{bit_at, bit_at-or}
use mpfr.Types.{Rnd, Sign, Exp, nan, inf, zero_value, num, Mpfr, Env, Out, ret, raise}
use mpfr.Types.{flags_overflow, is_like_rndz, is_neg}
use mpfr.Extremes.{setmin, setmax}
use mpfr.Exceptions.{
  emin_min, emin_max, emax_min, emax_max, set_emin, set_emax, underflow, overflow, check_range,
  check_exp, underflow_rnd,
}

-- The bounds that `mpfr_set_emin` and `mpfr_set_emax` guard.
pub record IsBounded (e : Env) : Type 0 where
  pub emin_least : emin_min ≤ℤ e.emin
  pub emin_most : e.emin ≤ℤ emin_max
  pub emax_least : emax_min ≤ℤ e.emax
  pub emax_most : e.emax ≤ℤ emax_max

-- `mpfr_set_emin` and `mpfr_set_emax` keep the bounds within their limits, return 0 exactly if the
-- argument is within them, then store it, and otherwise change nothing.
pub set_range-IsBounded :
    (z : ℤ) (e : Env)
    → IsBounded e
    → IsBounded (set_emin z e).1
      × IsBounded (set_emax z e).1
      × (((set_emin z e).0 ≡ 0) ↔ ((emin_min ≤ℤ z) × (z ≤ℤ emin_max)))
      × ((set_emin z e).1 ≡ (if (set_emin z e).0 == 0 then record e { emin = z } else e))
      × ((set_emax z e).1 ≡ (if (set_emax z e).0 == 0 then record e { emax = z } else e))
unfolding set_emin set_emax
set_range-IsBounded z e h = ground (arith, h.emin_least, h.emin_most, h.emax_least, h.emax_most)

-- A singular number, or one whose exponent lies in the range.
abbrev pub InRange : Exp → Env → Type 0
InRange (num z) e = (e.emin ≤ℤ z) × (z ≤ℤ e.emax)
InRange nan e = Unit {0}
InRange inf e = Unit {0}
InRange zero_value e = Unit {0}

-- What a function leaves at its end.
pub record IsSettled (e : Env) (r : Out) : Type 0 where
  pub in_range : InRange r.x.exp e
  pub same_emin : r.env.emin ≡ e.emin
  pub same_emax : r.env.emax ≡ e.emax
  pub flagged : r.inex ≢ pos 0 → bit_at 3 r.env.flags ≡ 1

raised : (f m : ℕ) → bit_at 3 m ≡ 1 → bit_at 3 (bit_or f m) ≡ 1
raised f m h = omega (arith, bit_at-or 3 f m, h)

overflow-IsSettled :
    (x : Mpfr) (rnd : Rnd) (s : Sign) (e : Env)
    → e.emin ≤ℤ e.emax
    → IsSettled e (overflow x rnd s e)
unfolding overflow setmax
overflow-IsSettled x rnd s e h = elim (Bool-cases (is_like_rndz rnd (is_neg s))) [
  | inl zero ↦ rw zero (record {
    in_range = (h, omega arith);
    same_emin = refl;
    same_emax = refl;
    flagged = λ _. raised e.flags 10 refl;
  })
  | inr away ↦ rw away (record {
    in_range = tt;
    same_emin = refl;
    same_emax = refl;
    flagged = λ _. raised e.flags 10 refl;
  })
]

underflow-IsSettled :
    (x : Mpfr) (rnd : Rnd) (s : Sign) (e : Env)
    → e.emin ≤ℤ e.emax
    → IsSettled e (underflow x rnd s e)
unfolding underflow setmin
underflow-IsSettled x rnd s e h = elim (Bool-cases (is_like_rndz rnd (is_neg s))) [
  | inl zero ↦ rw zero (record {
    in_range = tt;
    same_emin = refl;
    same_emax = refl;
    flagged = λ _. raised e.flags 9 refl;
  })
  | inr away ↦ rw away (record {
    in_range = (omega arith, h);
    same_emin = refl;
    same_emax = refl;
    flagged = λ _. raised e.flags 9 refl;
  })
]

pub ret-IsSettled :
    (x : Mpfr) (t : ℤ) (e e' : Env)
    → e'.emin ≡ e.emin
    → e'.emax ≡ e.emax
    → InRange x.exp e
    → IsSettled e (ret x t e')
ret-IsSettled x t e e' h k r = elim (Bool-cases (eqb_ℤ t (pos 0))) [
  | inl exact ↦
      rw exact
        (record { in_range = r; same_emin = h; same_emax = k; flagged = λ n. absurd (n refl) })
  | inr inexact ↦
      rw inexact (record {
        in_range = r;
        same_emin = h;
        same_emax = k;
        flagged = λ _. raised e'.flags 8 refl;
      })
]

either :
    (b : Bool) (e : Env) (r r' : Out)
    → IsSettled e r
    → IsSettled e r'
    → IsSettled e (if b then r else r')
either true e r r' h k = h
either false e r r' h k = k

by_field :
    (f : Exp) (x : Mpfr) (t : ℤ) (rnd : Rnd) (e : Env)
    → x.exp ≡ f
    → e.emin ≤ℤ e.emax
    → IsSettled e (check_exp f x t rnd e)
unfolding check_exp
by_field (num z) x t rnd e f h = elim (Bool-cases (ltb_ℤ z e.emin)) [
  | inl low ↦ rw low (underflow-IsSettled x (underflow_rnd x z t rnd e) x.sign e h)
  | inr fits ↦ rw fits (elim (Bool-cases (ltb_ℤ e.emax z)) [
    | inl high ↦ rw high (overflow-IsSettled x rnd x.sign e h)
    | inr within ↦ rw within (
        ret-IsSettled x t e e refl refl (
          subst (λ y. InRange y e) (sym f)
            (omega (arith, ltb→ge _ _ fits), omega (arith, ltb→ge _ _ within))))
  ])
]
by_field inf x t rnd e f h =
    either (eqb_ℤ t (pos 0)) e (ret x t e) (ret x t (raise flags_overflow e))
      (ret-IsSettled x t e e refl refl (subst (λ y. InRange y e) (sym f) tt))
      (ret-IsSettled x t e (raise flags_overflow e) refl refl (subst (λ y. InRange y e) (sym f) tt))
by_field nan x t rnd e f h = ret-IsSettled x t e e refl refl (subst (λ y. InRange y e) (sym f) tt)
by_field zero_value x t rnd e f h =
    ret-IsSettled x t e e refl refl (subst (λ y. InRange y e) (sym f) tt)

-- Whatever number, ternary value and rounding mode it is given, `mpfr_check_range` leaves a number
-- that is singular or has its exponent in the range, keeps the range, and with a nonzero ternary
-- value leaves the inexact flag raised.
pub check_range-IsSettled :
    (x : Mpfr) (t : ℤ) (rnd : Rnd) (e : Env)
    → e.emin ≤ℤ e.emax
    → IsSettled e (check_range x t rnd e)
unfolding check_range
check_range-IsSettled x t rnd e h = by_field x.exp x t rnd e refl h
