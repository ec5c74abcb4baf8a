-- ===== src/Rounding/Fits.antt =====
-- Rounding where the result cannot overflow: the code that leaves out the test agrees with the code
-- that has it.
use native.Mathlib.Nat.{mod-eq_of_lt}
use mpfr.Base.{ℕ, ◌+◌, ◌^◌, ◌<◌, ◌≤◌, ◌≡◌, refl, arith, true, false, ◌⊎◌, inl, inr, ◌==◌, leb_ℤ}
use mpfr.Base.{ℤ, pos, ◌+ℤ◌, ◌≤ℤ◌}
use mpfr.Words.{shl-one}
use mpfr.Types.{Rnd, Mpfr, Env}
use mpfr.Rounding.{Verdict, exact, truncate, add_one_ulp, Parts, round_limb, store_limb}
use mpfr.Rounding.{apply_verdict, carry_out, store_verdict}

module _ (a : Mpfr) (rnd : Rnd) (ax : ℤ) (sh a0 : ℕ) (e : Env) (narrow : sh < 64)
    (some : 2 ^ 63 ≤ a0) where
  no_overflow :
      (v : Verdict)
      → (ax +ℤ pos 1 ≤ℤ e.emax) ⊎ (a0 + 2 ^ sh < 2 ^ 64)
      → apply_verdict v a rnd ax sh a0 e ≡ store_verdict v a ax sh a0 e
  unfolding apply_verdict store_verdict carry_out
  no_overflow exact h = refl
  no_overflow truncate h = refl
  no_overflow add_one_ulp (inl room) =
      let fits : leb_ℤ (ax +ℤ pos 1) e.emax ≡ true = ground arith in rw fits
  no_overflow add_one_ulp (inr small) =
      let set : (a0 + 2 ^ sh == 0) ≡ false = ground arith in
      rw (shl-one sh narrow, mod-eq_of_lt small, set)

pub round_limb-store_limb :
    (a : Mpfr) (rnd : Rnd) (s : Parts) (sh : ℕ) (e : Env)
    → sh < 64
    → 2 ^ 63 ≤ s.limb
    → (s.exponent +ℤ pos 1 ≤ℤ e.emax) ⊎ (s.limb + 2 ^ sh < 2 ^ 64)
    → round_limb a rnd s.exponent sh s.limb s.rb s.sb e ≡ store_limb a rnd s sh e
unfolding round_limb store_limb
round_limb-store_limb a rnd s sh e narrow some h =
    no_overflow a rnd s.exponent sh s.limb e narrow some _ h
