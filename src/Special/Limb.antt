-- ===== src/Special/Limb.antt =====
-- `mpfr_add1sp` (src/add1sp.c) and `mpfr_sub1sp` (src/sub1sp.c) on numbers of one limb, put behind
-- `mpfr_add` and `mpfr_sub`: the dispatch and the arithmetic together.
use native.Mathlib.Decide.{dec_lt}
use mpfr.Words.Longlong.{Longlong}
use mpfr.Base.{
  ℕ, ◌-◌, ◌<◌, ◌≤◌, ◌≡◌, ◌≢◌, refl, [], ◌∷◌, ltb, ◌==◌, ==_iff, lt→ltb, true, false, if◌then◌else◌,
  ℤ, ◌≤ℤ◌, arith,
}
use mpfr.Words.{limb_bits}
use mpfr.Types.{Rnd, rndna, Sign, plus, minus, num, Mpfr, Env, Out}
use mpfr.Rounding.Limb.{IsLimb}
use mpfr.Rounding.Correct.{IsCorrect}
use mpfr.Add.{add1sp1}
use mpfr.Add.Single.{scaled_sum, low_exponent}
use mpfr.Add.Correct.{add1sp1-IsCorrect}
use mpfr.Add.Whole.{add1sp1n}
use mpfr.Add.Whole.Correct.{add1sp1n-IsCorrect}
use mpfr.Sub.Whole.Correct.{sub1sp1n-IsCorrectRange}
use mpfr.Sub.{sub1sp1, sub1sp1n}
use mpfr.Sub.Exact.{IsDifferenceOf, scaled_left, scaled_right}
use mpfr.Sub.Correct.{sub1sp1-IsCorrectRange}
use mpfr.Next.{Mpn}
use mpfr.Set.{set_mpfr, neg}
use mpfr.Special.{
  Kernel, same_sign, same_prec, add, add_field, add_regular, sub, sub_field, sub_regular,
}

-- The functions on more than one limb.
pub record Longer : Type 0 where
  pub add1sp : Mpfr → Mpfr → Mpfr → Rnd → Env → Out
  pub add1 : Mpfr → Mpfr → Mpfr → Rnd → Env → Out
  pub sub1sp : Mpfr → Mpfr → Mpfr → Rnd → Env → Out
  pub sub1 : Mpfr → Mpfr → Mpfr → Rnd → Env → Out

module _ ⦃ll : Longlong⦄ (g : Mpn) (l : Longer) where
  -- The precision decides; the tests that the C code makes in between are on longer numbers.
  pub add1sp : Mpfr → Mpfr → Mpfr → Rnd → Env → Out
  add1sp a b c rnd e =
      let a' = record a { sign = b.sign } in
      if ltb b.prec limb_bits
      then add1sp1 a' b c rnd b.prec e
      else if b.prec == limb_bits
      then add1sp1n a' b c rnd e
      else l.add1sp a' b c rnd e

  pub sub1sp : Mpfr → Mpfr → Mpfr → Rnd → Env → Out
  sub1sp a b c rnd e =
      if ltb b.prec limb_bits
      then sub1sp1 a b c rnd b.prec e
      else if b.prec == limb_bits
      then sub1sp1n a b c rnd e
      else l.sub1sp a b c rnd e

  abbrev pub kernel : Kernel
  kernel = record {
    set = set_mpfr g;
    neg = neg g false;
    add1sp = add1sp;
    add1 = l.add1;
    sub1sp = sub1sp;
    sub1 = l.sub1;
  }

equal_signs : (s : Sign) → same_sign s s ≡ true
equal_signs plus = refl
equal_signs minus = refl

module _ (a b c : Mpfr) (p : ℕ) (pa : a.prec ≡ p) (pb : b.prec ≡ p) (pc : c.prec ≡ p) where
  equal_precs : same_prec a b c ≡ true
  equal_precs = rw (pa, pb, pc, (==_iff p p).1 refl) refl

-- The sum of two numbers of equal signs and of one precision of at most 64, through `mpfr_add` and
-- `mpfr_add1sp`, is the correct rounding of the exact sum, with the sign of the operands.
pub add_one_limb :
    ⦃ll : Longlong⦄
    → (g : Mpn) (l : Longer) (a b c : Mpfr) (rnd : Rnd) (p : ℕ) (e : Env) (bx cx : ℤ)
      (b0 c0 qb qc : ℕ)
    → rnd ≢ rndna
    → 0 < p
    → p ≤ 64
    → a.prec ≡ p
    → b.prec ≡ p
    → c.prec ≡ p
    → b.sign ≡ c.sign
    → b.exp ≡ num bx
    → c.exp ≡ num cx
    → b.mant ≡ b0 ∷ []
    → c.mant ≡ c0 ∷ []
    → IsLimb b0 qb (64 - p)
    → IsLimb c0 qc (64 - p)
    → IsCorrect
        (record a { sign = b.sign })
        rnd
        (scaled_sum bx cx b0 c0)
        (low_exponent bx cx)
        (64 - p)
        e
        (add (kernel g l) a b c rnd e)
unfolding add add_field add_regular add1sp
add_one_limb g l a b c rnd p e bx cx b0 c0 qb qc supported pos_p narrow pa pb pc same eb ec mb mc hb
      hc =
    let signs : same_sign b.sign c.sign ≡ true = rw same (equal_signs c.sign) in
    let precs = equal_precs a b c p pa pb pc in
    let a' = record a { sign = b.sign } in
    elim (dec_lt p 64) [
      | yes below ↦
          let short : ltb b.prec limb_bits ≡ true = rw pb (lt→ltb p 64 below) in
          let value : add (kernel g l) a b c rnd e ≡ add1sp1 a' b c rnd p e =
            rw (eb, ec, signs, precs, short, pb) refl in
          rw value (
            add1sp1-IsCorrect a' b c rnd p e bx cx b0 c0 qb qc supported pos_p below eb ec mb mc hb
              hc)
      | no whole ↦
          let full : p ≡ 64 = omega arith in
          let rest : 64 - p ≡ 0 = omega arith in
          let short : ltb b.prec limb_bits ≡ false = rw (pb, full) refl in
          let limb : (b.prec == limb_bits) ≡ true = rw (pb, full) refl in
          let value : add (kernel g l) a b c rnd e ≡ add1sp1n a' b c rnd e =
            rw (eb, ec, signs, precs, short, limb) refl in
          rw (value, rest)
            (add1sp1n-IsCorrect a' b c rnd e bx cx b0 c0 supported eb ec mb mc hb.normalized
              hb.bounded hc.normalized hc.bounded)
    ]

-- The difference of two numbers of equal signs and of one precision of at most 64, of different values
-- and with exponents in the range, through `mpfr_sub` and `mpfr_sub1sp`, is the correct rounding of
-- the exact difference, underflow and overflow included.
pub sub_one_limb :
    ⦃ll : Longlong⦄
    → (g : Mpn) (l : Longer) (a b c : Mpfr) (rnd : Rnd) (p : ℕ) (e : Env) (bx cx : ℤ)
      (b0 c0 qb qc : ℕ)
    → rnd ≢ rndna
    → 0 < p
    → p ≤ 64
    → a.prec ≡ p
    → b.prec ≡ p
    → c.prec ≡ p
    → b.sign ≡ c.sign
    → b.exp ≡ num bx
    → c.exp ≡ num cx
    → b.mant ≡ b0 ∷ []
    → c.mant ≡ c0 ∷ []
    → IsLimb b0 qb (64 - p)
    → IsLimb c0 qc (64 - p)
    → e.emin ≤ℤ bx
    → bx ≤ℤ e.emax
    → e.emin ≤ℤ cx
    → cx ≤ℤ e.emax
    → scaled_left bx cx b0 ≢ scaled_right bx cx c0
    → IsDifferenceOf a b.sign rnd bx cx b0 c0 (64 - p) e (sub (kernel g l) a b c rnd e)
unfolding sub sub_field sub_regular sub1sp
sub_one_limb g l a b c rnd p e bx cx b0 c0 qb qc supported pos_p narrow pa pb pc same eb ec mb mc hb
      hc lb ub lc uc differ =
    let signs : same_sign b.sign c.sign ≡ true = rw same (equal_signs c.sign) in
    let precs = equal_precs a b c p pa pb pc in
    elim (dec_lt p 64) [
      | yes below ↦
          let short : ltb b.prec limb_bits ≡ true = rw pb (lt→ltb p 64 below) in
          let value : sub (kernel g l) a b c rnd e ≡ sub1sp1 a b c rnd p e =
            rw (eb, ec, signs, precs, short, pb) refl in
          rw value (
            sub1sp1-IsCorrectRange a b c rnd p e bx cx b0 c0 qb qc supported pos_p below eb ec mb mc
              hb hc lb ub lc uc differ)
      | no whole ↦
          let full : p ≡ 64 = omega arith in
          let rest : 64 - p ≡ 0 = omega arith in
          let short : ltb b.prec limb_bits ≡ false = rw (pb, full) refl in
          let limb : (b.prec == limb_bits) ≡ true = rw (pb, full) refl in
          let value : sub (kernel g l) a b c rnd e ≡ sub1sp1n a b c rnd e =
            rw (eb, ec, signs, precs, short, limb) refl in
          rw (value, rest)
            (sub1sp1n-IsCorrectRange a b c rnd e bx cx b0 c0 supported eb ec mb mc hb.normalized
              hb.bounded hc.normalized hc.bounded lb ub lc uc differ)
    ]
