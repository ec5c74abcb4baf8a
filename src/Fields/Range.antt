-- ===== src/Fields/Range.antt =====
-- `mpfr_set_exp` and the exponent range.
use mpfr.Base.{
  ◌≡◌, ◌↔◌, refl, arith, ℤ, leb_ℤ, leb→le, Bool, true, false, ◌&&◌, Bool-cases, inl, inr,
}
use mpfr.Types.{Mpfr, Env}
use mpfr.Exceptions.Range.{InRange}
use mpfr.Fields.{set_exp, regular_p}

both : (p q r : Bool) → (p && q && r) ≡ true → (q ≡ true) × (r ≡ true)
both true true true h = (refl, refl)
both true true false h = ground (arith, h)
both true false r h = ground (arith, h)
both false q r h = ground (arith, h)

-- `mpfr_set_exp` keeps the exponent within the range, and returns 0 exactly if the number is regular
-- and the new exponent is in the range.
pub set_exp-InRange :
    (x : Mpfr) (z : ℤ) (e : Env)
    → InRange x.exp e
    → InRange (set_exp x z e).1.exp e
      × (((set_exp x z e).0 ≡ 0) ↔ ((regular_p x.exp && leb_ℤ e.emin z && leb_ℤ z e.emax) ≡ true))
unfolding set_exp
set_exp-InRange x z e h = elim (Bool-cases (regular_p x.exp && leb_ℤ e.emin z && leb_ℤ z e.emax)) [
  | inl accepted ↦
      let (low, high) = both (regular_p x.exp) (leb_ℤ e.emin z) (leb_ℤ z e.emax) accepted in
      rw accepted (
        (omega (arith, leb→le _ _ low), omega (arith, leb→le _ _ high)),
        ((λ _. refl), (λ _. refl)),
      )
  | inr refused ↦
      rw refused (h, ((λ n. absurd (omega (arith, n))), λ n. absurd (ground (arith, n))))
]
