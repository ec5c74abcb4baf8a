-- ===== src/Set/Aliases.antt =====
-- Where source and target are one object, the shortcut agrees with the copy.
use mpfr.Base.{◌≡◌, refl, ap, ◌==◌, ==_iff, true, false, Bool, if◌then◌else◌, pos}
use mpfr.Types.{
  Rnd, Sign, plus, minus, opposite, nan, inf, zero_value, num, Exp, Mpfr, Env, ret, ret_nan,
}
use mpfr.Next.{Mpn}
use mpfr.Next.Symmetry.{mirror}
use mpfr.Set.{set4_field, set4, change_sign, set_mpfr, abs, neg, setsign, copysign}

module _ (g : Mpn) (x : Mpfr) (rnd : Rnd) (s : Sign) (e : Env) where
  same_prec : (x.prec == x.prec) ≡ true
  same_prec = (==_iff x.prec x.prec).1 refl

  by_exponent : (ex : Exp) → x.exp ≡ ex → change_sign ex x s e ≡ set4_field g ex x x rnd s e
  unfolding change_sign set4_field
  by_exponent nan h = ap (λ v. ret_nan (record x { exp = v; sign = s }) e) h
  by_exponent inf h = ap (λ v. ret (record x { exp = v; sign = s }) (pos 0) e) h
  by_exponent zero_value h = ap (λ v. ret (record x { exp = v; sign = s }) (pos 0) e) h
  by_exponent (num bx) h = rw same_prec (ap (λ v. ret (record x { exp = v; sign = s }) (pos 0) e) h)

  same_object : change_sign x.exp x s e ≡ set4 g x x rnd s e
  unfolding set4
  same_object = by_exponent x.exp refl

-- `mpfr_abs`, `mpfr_neg`, `mpfr_setsign` and `mpfr_copysign` of a number into itself, which changes
-- its sign alone, give what the copy by `mpfr_set4` gives: the number, ternary value and flags.
pub same_object_lem :
    (g : Mpn) (x y : Mpfr) (s : Bool) (rnd : Rnd) (e : Env)
    → (abs g true x x rnd e ≡ abs g false x x rnd e)
      × (neg g true x x rnd e ≡ neg g false x x rnd e)
      × (setsign g true x x s rnd e ≡ setsign g false x x s rnd e)
      × (copysign g true x x y rnd e ≡ copysign g false x x y rnd e)
unfolding abs neg setsign copysign
same_object_lem g x y s rnd e = (
  same_object g x rnd plus e,
  same_object g x rnd (opposite x.sign) e,
  same_object g x rnd (if s then minus else plus) e,
  same_object g x rnd y.sign e,
)

-- `mpfr_neg` into another number is the copy of the number of opposite sign.
pub neg-set_mpfr :
    (g : Mpn) (a c : Mpfr) (rnd : Rnd) (e : Env)
    → neg g false a c rnd e ≡ set_mpfr g a (mirror c) rnd e
unfolding neg set_mpfr set4 set4_field
neg-set_mpfr g a c rnd e = by_field c.exp
  where
    by_field :
        (ex : Exp)
        → set4_field g ex a c rnd (opposite c.sign) e
          ≡ set4_field g ex a (mirror c) rnd (opposite c.sign) e
    by_field nan = refl
    by_field inf = refl
    by_field zero_value = refl
    by_field (num z) = refl
