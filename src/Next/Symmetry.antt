-- ===== src/Next/Symmetry.antt =====
-- `mpfr_nextbelow` mirrors `mpfr_nextabove`.
use mpfr.Base.{
  ℕ, ◌≡◌, refl, sym, ap, ◌∙◌, Bool-cases, inl, inr, if◌then◌else◌, ℤ, eqb_ℤ, ◌==◌, bit_and, get_or,
}
use mpfr.Words.{limb_highbit, shl}
use mpfr.Types.{Sign, plus, minus, opposite, is_neg, Exp, nan, inf, zero_value, num, Mpfr, Env}
use mpfr.Extremes.{setmin, setmax}
use mpfr.Next.{Mpn, unused_bits, last_limb, nextabove, nextbelow, nextabove_field, nextbelow_field}
use mpfr.Next.{nexttozero, nexttozero_field, nexttoinf, nexttoinf_field, up_regular, down_regular}

-- The number of opposite sign.
abbrev pub mirror : Mpfr → Mpfr
mirror x = record x { sign = opposite x.sign }

mirror-mirror : (x : Mpfr) → mirror (mirror x) ≡ x
mirror-mirror x = ap (λ s. record x { sign = s }) (twice x.sign)
  where
    twice : (s : Sign) → opposite (opposite s) ≡ s
    twice plus = refl
    twice minus = refl

by_sign :
    (s : Sign) (u v u' v' : Mpfr)
    → u' ≡ mirror u
    → v' ≡ mirror v
    → (if is_neg s then v else u) ≡ mirror (if is_neg (opposite s) then u' else v')
by_sign plus u v u' v' h k = sym (ap mirror h ∙ mirror-mirror u)
by_sign minus u v u' v' h k = sym (ap mirror k ∙ mirror-mirror v)

module _ (g : Mpn) where
  down-mirror :
      (x : Mpfr) (z : ℤ) (e : Env) → down_regular g (mirror x) z e ≡ mirror (down_regular g x z e)
  unfolding down_regular
  down-mirror x z e = elim (Bool-cases (bit_and limb limb_highbit == 0)) [
    | inl low ↦
        rw low (elim (Bool-cases (eqb_ℤ z e.emin)) [
          | inl least ↦ rw least refl
          | inr more ↦ rw more refl
        ])
    | inr high ↦ rw high refl
  ]
    where
      limb : ℕ
      limb = get_or (g.sub_1 x.mant (shl 1 (unused_bits x))).0 (last_limb x) 0

  up-mirror :
      (x : Mpfr) (z : ℤ) (e : Env) → up_regular g (mirror x) z e ≡ mirror (up_regular g x z e)
  unfolding up_regular
  up-mirror x z e = elim (Bool-cases ((g.add_1 x.mant (shl 1 (unused_bits x))).1 == 0)) [
    | inl none ↦ rw none refl
    | inr carry ↦
        rw carry
          (elim (Bool-cases (eqb_ℤ z e.emax)) [ inl last ↦ rw last refl | inr more ↦ rw more refl ])
  ]

  zero-mirror :
      (f : Exp) (x : Mpfr) (e : Env)
      → nexttozero_field g f (mirror x) e ≡ mirror (nexttozero_field g f x e)
  unfolding nexttozero_field setmax setmin
  zero-mirror nan x e = refl
  zero-mirror inf x e = refl
  zero-mirror zero_value x e = refl
  zero-mirror (num z) x e = down-mirror x z e

  inf-mirror :
      (f : Exp) (x : Mpfr) (e : Env)
      → nexttoinf_field g f (mirror x) e ≡ mirror (nexttoinf_field g f x e)
  unfolding nexttoinf_field setmin
  inf-mirror nan x e = refl
  inf-mirror inf x e = refl
  inf-mirror zero_value x e = refl
  inf-mirror (num z) x e = up-mirror x z e

  chosen-mirror :
      (x : Mpfr) (e : Env)
      → (if is_neg x.sign then nexttoinf g x e else nexttozero g x e)
        ≡ mirror (
            if is_neg (opposite x.sign)
            then nexttozero g (mirror x) e
            else nexttoinf g (mirror x) e)
  unfolding nexttozero nexttoinf
  chosen-mirror x e =
      by_sign x.sign (nexttozero_field g x.exp x e) (nexttoinf_field g x.exp x e)
        (nexttozero_field g x.exp (mirror x) e) (nexttoinf_field g x.exp (mirror x) e)
        (zero-mirror x.exp x e) (inf-mirror x.exp x e)

  by_field :
      (f : Exp) (x : Mpfr) (e : Env)
      → ((nextbelow_field g f x e).0 ≡ mirror (nextabove_field g f (mirror x) e).0)
        × ((nextbelow_field g f x e).1 ≡ (nextabove_field g f (mirror x) e).1)
  unfolding nextbelow_field nextabove_field
  by_field nan x e = (sym (mirror-mirror x), refl)
  by_field inf x e = (chosen-mirror x e, refl)
  by_field zero_value x e = (chosen-mirror x e, refl)
  by_field (num z) x e = (chosen-mirror x e, refl)

  -- `mpfr_nextbelow` is `mpfr_nextabove` mirrored at zero, for all numbers and in the flags too:
  -- whatever GMP's operations do, it takes the same steps on the number of opposite sign.
  pub nextbelow-mirror :
      (x : Mpfr) (e : Env)
      → ((nextbelow g x e).0 ≡ mirror (nextabove g (mirror x) e).0)
        × ((nextbelow g x e).1 ≡ (nextabove g (mirror x) e).1)
  unfolding nextbelow nextabove
  nextbelow-mirror x e = by_field x.exp x e
