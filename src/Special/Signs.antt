-- ===== src/Special/Signs.antt =====
-- `mpfr_sub` is `mpfr_add` of the number of opposite sign, where an operand is singular.
use mpfr.Base.{◌≡◌, refl, Bool, true, false, ◌||◌, if◌then◌else◌}
use mpfr.Types.{Rnd, Sign, plus, minus, opposite, Exp, nan, inf, zero_value, num, Mpfr, Env, Out}
use mpfr.Compare.{same_sign}
use mpfr.Next.Symmetry.{mirror}
use mpfr.Special.{
  Kernel, add, sub, add_field, sub_field, zero_sum_sign, zero_difference_sign, invalid, exact_inf,
}

abbrev pub singular : Exp → Bool
singular nan = true
singular inf = true
singular zero_value = true
singular (num z) = false

zero_signs :
    (rnd : Rnd) (s t : Sign) → zero_difference_sign rnd s t ≡ zero_sum_sign rnd s (opposite t)
unfolding zero_difference_sign zero_sum_sign
zero_signs rnd plus plus = refl
zero_signs rnd plus minus = refl
zero_signs rnd minus plus = refl
zero_signs rnd minus minus = refl

inf_signs :
    (s t : Sign) (u v : Out)
    → (if same_sign s t then u else v) ≡ (if same_sign s (opposite t) then v else u)
inf_signs plus plus u v = refl
inf_signs plus minus u v = refl
inf_signs minus plus u v = refl
inf_signs minus minus u v = refl

module _ (k : Kernel)
    (neg_set : (a c : Mpfr) (rnd : Rnd) (e : Env)
      → k.neg a c rnd e ≡ k.set a (mirror c) rnd e) where
  by_fields :
      (x y : Exp) (a b c : Mpfr) (rnd : Rnd) (e : Env)
      → (singular x || singular y) ≡ true
      → sub_field k x y a b c rnd e ≡ add_field k x y a b (mirror c) rnd e
  unfolding sub_field add_field
  by_fields nan y a b c rnd e h = refl
  by_fields inf nan a b c rnd e h = refl
  by_fields inf inf a b c rnd e h = inf_signs b.sign c.sign (invalid a e) (exact_inf a b.sign e)
  by_fields inf zero_value a b c rnd e h = refl
  by_fields inf (num q) a b c rnd e h = refl
  by_fields zero_value nan a b c rnd e h = refl
  by_fields zero_value inf a b c rnd e h = refl
  by_fields zero_value zero_value a b c rnd e h = rw (zero_signs rnd b.sign c.sign) refl
  by_fields zero_value (num q) a b c rnd e h = neg_set a c rnd e
  by_fields (num p) nan a b c rnd e h = refl
  by_fields (num p) inf a b c rnd e h = refl
  by_fields (num p) zero_value a b c rnd e h = refl
  by_fields (num p) (num q) a b c rnd e h = absurd (ne h)
    where
      ne : false ≡ true → ⊥
      ne q = cc

  -- Where an operand is singular, `mpfr_sub` gives what `mpfr_add` gives for the second operand of
  -- opposite sign, in the result, its sign, the ternary value and the flags, provided that `mpfr_neg`
  -- sets its target to the operand of opposite sign.
  pub sub-add :
      (a b c : Mpfr) (rnd : Rnd) (e : Env)
      → (singular b.exp || singular c.exp) ≡ true
      → sub k a b c rnd e ≡ add k a b (mirror c) rnd e
  unfolding sub add
  sub-add a b c rnd e h = by_fields b.exp c.exp a b c rnd e h
