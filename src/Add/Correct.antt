-- ===== src/Add/Correct.antt =====
-- `mpfr_add1sp1` returns the correctly rounded sum, in every rounding mode of the interface.
use mpfr.Base.{ℕ, ◌+◌, ◌-◌, ◌*◌, ◌^◌, ◌<◌, ◌≡◌, ◌≢◌, refl, ap, ◌∙◌, [], ◌∷◌}
use mpfr.Base.{ℤ, pos, ◌+ℤ◌, ◌≤ℤ◌, ◌<ℤ◌, ltb_ℤ_of_le, ltb_ℤ_of_lt, arith, int_laws}
use mpfr.Types.{Rnd, rndna, num, Mpfr, Env}
use mpfr.Rounding.Limb.{IsLimb, round_limb-IsRounded}
use mpfr.Rounding.Correct.{IsCorrect, captured_at_least, captured_less_than}
use mpfr.Rounding.{Parts}
use mpfr.Add.{sum_limbs, round_sum, add1sp1}
use mpfr.Add.Aligned.{IsSum}
use mpfr.Add.Single.{scaled_sum, low_exponent, sum_limbs-Captured}

-- A captured sum is rounded correctly.
module _ (a : Mpfr) (rnd : Rnd) (supported : rnd ≢ rndna) (sh : ℕ) (e : Env) where
  pub round_sum-IsCorrect :
      (x d : ℕ) (base hi : ℤ) (s : Parts)
      → hi ≡ base +ℤ pos d
      → IsSum x d sh hi s
      → IsCorrect a rnd x base sh e (round_sum a s rnd sh e)
  unfolding round_sum
  round_sum-IsCorrect x d base hi s h c = record {
    weight = d + c.carry;
    at_least = captured_at_least x (d + c.carry) s.limb c.units sh s.rb s.sb c.limb c.captures;
    less_than = captured_less_than x (d + c.carry) s.limb c.units sh s.rb s.sb c.limb c.captures;
    in_range = λ low.
        let ordered : s.exponent ≤ℤ e.emax = rw exponent low in
        rw (ltb_ℤ_of_le s.exponent e.emax ordered, ← exponent)
          (round_limb-IsRounded a rnd x (2 ^ sh * 2 ^ (d + c.carry)) s.exponent sh e s.limb c.units
            s.rb s.sb supported ordered c.limb c.captures);
    beyond = λ high.
        let above : e.emax <ℤ s.exponent = rw exponent high in
        rw (ltb_ℤ_of_lt e.emax s.exponent above) (record a { mant = s.limb ∷ [] }, refl, refl);
  }
    where
      exponent : s.exponent ≡ base +ℤ pos (d + c.carry)
      exponent = c.exponent ∙ ap (λ z. z +ℤ pos c.carry) h ∙ omega int_laws

-- For a precision `p` below 64 and two numbers of that precision, `mpfr_add1sp1` delivers the
-- rounding of the exact sum `scaled_sum * 2 ^ (low_exponent - 64)` to `p` bits, with its ternary
-- value and flags, or overflows exactly if the rounded sum has an exponent beyond `emax`.
pub add1sp1-IsCorrect :
    (a b c : Mpfr) (rnd : Rnd) (p : ℕ) (e : Env) (bx cx : ℤ) (b0 c0 qb qc : ℕ)
    → rnd ≢ rndna
    → 0 < p
    → p < 64
    → b.exp ≡ num bx
    → c.exp ≡ num cx
    → b.mant ≡ b0 ∷ []
    → c.mant ≡ c0 ∷ []
    → IsLimb b0 qb (64 - p)
    → IsLimb c0 qc (64 - p)
    → IsCorrect a rnd
        (scaled_sum bx cx b0 c0)
        (low_exponent bx cx)
        (64 - p)
        e
        (add1sp1 a b c rnd p e)
unfolding add1sp1
add1sp1-IsCorrect a b c rnd p e bx cx b0 c0 qb qc supported pos_p narrow eb ec mb mc hb hc =
    let (d, hi, high, captured) =
      sum_limbs-Captured b0 c0 qb qc (64 - p) (omega arith) hb hc bx cx in
    rw (eb, ec, mb, mc)
      (round_sum-IsCorrect a rnd supported (64 - p) e (scaled_sum bx cx b0 c0) d
        (low_exponent bx cx) hi (sum_limbs bx cx b0 c0 (64 - p)) high captured)
