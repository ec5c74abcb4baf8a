-- ===== src/Special/Extrema.antt =====
-- `mpfr_min` and `mpfr_max` share the two operands between them.
use mpfr.Base.{
  ◌≡◌, refl, ap, ◌∙◌, Bool, true, false, ◌&&◌, ◌||◌, if◌then◌else◌, pos, leb_ℤ, inl, inr, ◌⊎◌,
}
use mpfr.Types.{Rnd, is_neg, Mpfr, Env, Out, raise, flags_erange}
use mpfr.Compare.{cmp, is_nan, unordered_p}
use mpfr.Compare.Laws.{cmp-env}
use mpfr.Fields.{zero_p}
use mpfr.Special.{Kernel, min, max, invalid}

-- The two choices, from the tests of the code.
shared :
    (p q r s t : Bool) (n u v u' v' : Out)
    → (p || q) ≡ false
    → u' ≡ u
    → v' ≡ v
    → let lower =
        if p && q
        then n
        else if p
        then v
        else if q
        then u
        else if r
        then if s then u else v
        else if t
        then u'
        else v' in
      let upper =
        if p && q
        then n
        else if p
        then v
        else if q
        then u
        else if r
        then if s then v else u
        else if t
        then v'
        else u' in
      ((lower ≡ u) × (upper ≡ v)) ⊎ ((lower ≡ v) × (upper ≡ u))
shared true q r s t n u v u' v' h f g = absurd (ne h)
  where
    ne : true ≡ false → ⊥
    ne e = cc
shared false true r s t n u v u' v' h f g = absurd (ne h)
  where
    ne : true ≡ false → ⊥
    ne e = cc
shared false false true true t n u v u' v' h f g = inl (refl, refl)
shared false false true false t n u v u' v' h f g = inr (refl, refl)
shared false false false s true n u v u' v' h f g = inl (f, g)
shared false false false s false n u v u' v' h f g = inr (g, f)

module _ (k : Kernel) where
  -- Of two operands that are no NaN, `mpfr_min` sets its target to one and `mpfr_max` to the other,
  -- also where they are equal or zeros of different signs.
  pub min-max :
      (z x y : Mpfr) (rnd : Rnd) (e : Env)
      → unordered_p x y ≡ false
      → ((min k z x y rnd e ≡ k.set z x rnd e) × (max k z x y rnd e ≡ k.set z y rnd e))
        ⊎ ((min k z x y rnd e ≡ k.set z y rnd e) × (max k z x y rnd e ≡ k.set z x rnd e))
  unfolding min max
  min-max z x y rnd e h =
      shared (is_nan x.exp) (is_nan y.exp) (zero_p x.exp && zero_p y.exp) (is_neg x.sign)
        (leb_ℤ (cmp x y e).value (pos 0)) (invalid z e) (k.set z x rnd e) (k.set z y rnd e)
        (k.set z x rnd (cmp x y e).env) (k.set z y rnd (cmp x y e).env) h (ap (k.set z x rnd) kept)
        (ap (k.set z y rnd) kept)
    where
      kept : (cmp x y e).env ≡ e
      kept = cmp-env x y e ∙ ap (λ b. if b then raise flags_erange e else e) h
