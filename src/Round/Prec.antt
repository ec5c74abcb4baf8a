-- ===== src/Round/Prec.antt =====
-- `mpfr_prec_round` reduces the precision of a number by correct rounding.
use mathlib.Core.Path.{subst}
use native.Mathlib.Nat.{mul-le-mul_right}
use mpfr.Base.{
  ℕ, suc, ◌+◌, ◌-◌, ◌*◌, ◌/◌, ◌%◌, ◌^◌, ◌≤◌, ◌<◌, ◌≡◌, ◌≢◌, refl, ap, arith, [], ◌∷◌, ◌++◌,
  replicate, length, ◌==◌, ==_iff, if◌then◌else◌, true, false, Bool-cases, inl, inr, ℤ, pos, ◌+ℤ◌,
  ◌≤ℤ◌, ◌<ℤ◌, eqb_ℤ, pos_part, neg_part, +ℤ_parts,
}
use mpfr.Words.{limb_highbit}
use mpfr.Words.Value.{low_value, pow-limb}
use mpfr.Types.{Rnd, rndna, is_rndf, is_neg, num, Mpfr, Env, Out, prec2limbs}
use mpfr.Exceptions.{overflow}
use mpfr.Rounding.Spec.{RoundsTo}
use mpfr.Compare.Magnitude.{IsRegular}
use mpfr.Next.{Mpn}
use mpfr.Next.Neighbour.{IsMpn}
use mpfr.Set.Correct.{extended}
use mpfr.Round.{
  RawOut, rest_bits, kept_limbs, round_raw, round_number, prec_round_field, prec_round,
}
use mpfr.Round.Masks.{cut_bits}
use mpfr.Round.Decide.{raw_inex}
use mpfr.Round.Bits.{kept_lem}
use mpfr.Round.Correct.{IsRawRounding, round_raw-IsRawRounding}

-- `r` is `x` at the precision `prec`: the exact significand `m` of exponent `bx` rounded in units of
-- `d`. The flags change only at an overflow, where the result is that of `mpfr_overflow`.
pub record IsReduced (x : Mpfr) (prec : ℕ) (rnd : Rnd) (m d : ℕ) (bx : ℤ) (sh n : ℕ) (e : Env)
    (r : Out) : Type 0 where
  pub units : ℕ
  pub rounds : RoundsTo rnd (is_neg x.sign) m d units
  pub ternary : is_rndf rnd ≡ false → rnd ≢ rndna → r.inex ≡ raw_inex rnd (is_neg x.sign) m d units
  pub fits :
      (if units * 2 ^ sh == 2 ^ (64 * n) then bx +ℤ pos 1 else bx) ≤ℤ e.emax
      → (r.x.exp ≡ num (if units * 2 ^ sh == 2 ^ (64 * n) then bx +ℤ pos 1 else bx))
        × (2 * low_value r.x.mant n
            ≡ (if units * 2 ^ sh == 2 ^ (64 * n) then 2 ^ (64 * n) else 2 * (units * 2 ^ sh)))
        × (r.x.sign ≡ x.sign)
        × (r.x.prec ≡ prec)
        × (r.env ≡ e)
  pub overflows :
      e.emax <ℤ (if units * 2 ^ sh == 2 ^ (64 * n) then bx +ℤ pos 1 else bx)
      → (r.x ≡ (overflow (record x { prec = prec }) rnd x.sign e).x)
        × (r.env ≡ (overflow (record x { prec = prec }) rnd x.sign e).env)

nonzero : (n : ℕ) → (n == 0) ≡ false → 1 ≤ n
nonzero n k = ground arith

at_end : (a b : ℤ) → eqb_ℤ a b ≡ true → ¬ (a +ℤ pos 1 ≤ℤ b)
at_end a b h k = absurd (omega (arith, (==_iff _ _).0 h, +ℤ_parts a (pos 1)))

not_past : (a b : ℤ) → a ≤ℤ b → eqb_ℤ a b ≡ false → ¬ (b <ℤ a +ℤ pos 1)
not_past a b l h k =
    let apart : (pos_part a + neg_part b) ≢ (pos_part b + neg_part a) =
      λ e. cc ((==_iff _ _).1 e) in
    absurd (omega (arith, apart, +ℤ_parts a (pos 1)))

-- The limbs that are written after a carry.
power_value :
    (n : ℕ) → 2 * low_value (replicate n 0 ++ limb_highbit ∷ []) (suc n) ≡ 2 ^ (64 * suc n)
unfolding low_value
power_value n =
    let e : suc n ≡ n + 1 = omega arith in
    omega (
      arith,
      ap (low_value (replicate n 0 ++ limb_highbit ∷ [])) e,
      extended n 1 (limb_highbit ∷ []),
      pow-limb n,
    )

module _ (g : Mpn) (x : Mpfr) (prec : ℕ) (rnd : Rnd) (m d : ℕ) (bx : ℤ) (sh n : ℕ) (e : Env)
    (r : RawOut) (h : IsRawRounding rnd (is_neg x.sign) m d sh (suc n) r) (in_range : bx ≤ℤ e.emax)
    (size : prec2limbs prec ≡ suc n) (eb : x.exp ≡ num bx) where
  round_number-IsReduced :
      IsReduced x prec rnd m d bx sh (suc n) e (round_number g bx x prec r rnd e)
  unfolding round_number
  round_number-IsReduced = elim (Bool-cases (r.carry == 0)) [
    | inl none ↦
        let zero_carry : r.carry * 2 ^ (64 * suc n) ≡ 0 =
          rw ((==_iff r.carry 0).0 none) (omega arith) in
        let same : low_value r.limbs (suc n) ≡ h.units * 2 ^ sh =
          omega (arith, h.value, zero_carry) in
        let part : (h.units * 2 ^ sh == 2 ^ (64 * suc n)) ≡ false = ground (arith, h.below) in
        rw none (record {
          units = h.units;
          rounds = h.rounds;
          ternary = h.inexp;
          fits = λ k. rw part (eb, ap (λ t. 2 * t) same, refl, refl, refl);
          overflows = rw part (λ k. absurd (omega (arith, in_range)));
        })
    | inr some ↦
        let carried : 1 * 2 ^ (64 * suc n) ≤ r.carry * 2 ^ (64 * suc n) =
          mul-le-mul_right {m = 1} {n = r.carry} (2 ^ (64 * suc n)) (nonzero r.carry some) in
        let whole : (h.units * 2 ^ sh == 2 ^ (64 * suc n)) ≡ true =
          (==_iff _ _).1 (omega (arith, h.value, h.fits, carried)) in
        let before : prec2limbs prec - 1 ≡ n = omega (arith, size) in
        elim (Bool-cases (eqb_ℤ bx e.emax)) [
          | inl last ↦
              rw (some, last)
                (record {
                  units = h.units;
                  rounds = h.rounds;
                  ternary = h.inexp;
                  fits = rw whole (λ k. absurd (at_end bx e.emax last k));
                  overflows = λ k. (refl, refl);
                })
          | inr room ↦
              rw (some, room)
                (record {
                  units = h.units;
                  rounds = h.rounds;
                  ternary = h.inexp;
                  fits = λ k. rw (whole, before) (refl, power_value n, refl, refl, refl);
                  overflows = rw whole (λ k. absurd (not_past bx e.emax in_range room k));
                })
        ]
  ]

-- A regular number of more than `prec` bits, at least one, whose exponent is at most `emax`, is rounded
-- by `mpfr_prec_round` to `prec` bits in every rounding mode: its exponent, limbs, sign, precision and
-- ternary value, the latter doubled for a tie in RNDN and open in RNDF and RNDNA. The flags, also the
-- inexact flag, change only at an overflow.
pub prec_round-IsReduced :
    (g : Mpn) (x : Mpfr) (prec : ℕ) (rnd : Rnd) (e : Env) (bx : ℤ)
    → IsMpn g
    → IsRegular x bx
    → length x.mant ≡ prec2limbs x.prec
    → 0 < prec
    → prec < x.prec
    → bx ≤ℤ e.emax
    → IsReduced x prec rnd
        (low_value x.mant (prec2limbs x.prec))
        (2 ^ cut_bits (rest_bits prec) * 2 ^ (64 * (prec2limbs x.prec - kept_limbs prec)))
        bx
        (cut_bits (rest_bits prec))
        (kept_limbs prec)
        e
        (prec_round g x prec rnd e)
unfolding prec_round prec_round_field
prec_round-IsReduced g x prec rnd e bx laws h sized some less in_range =
    let count = kept_lem x.mant h.limbs (prec2limbs x.prec) prec some (omega arith) in
    let n = (prec - 1) / 64 in
    let m = low_value x.mant (prec2limbs x.prec) in
    let sh = cut_bits (prec % 64) in
    let d = 2 ^ sh * 2 ^ (64 * (prec2limbs x.prec - suc n)) in
    let r = round_raw g x.mant x.prec (is_neg x.sign) prec rnd in
    let value : prec_round g x prec rnd e ≡ round_number g bx x prec r rnd e =
      ap (λ t. prec_round_field g t x prec rnd e) h.exponent in
    rw (value, count)
      (round_number-IsReduced g x prec rnd m d bx sh n e r
        (subst
          (λ t.
            IsRawRounding rnd (is_neg x.sign) m (2 ^ sh * 2 ^ (64 * (prec2limbs x.prec - t))) sh t
              r)
          count
          (round_raw-IsRawRounding g x.mant x.prec prec (is_neg x.sign) rnd laws h.limbs sized some
            less))
        in_range (omega arith) h.exponent)
