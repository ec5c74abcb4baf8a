-- ===== src/Machine/Rounded.antt =====
-- The conversion of a machine integer to a number that is too short for it.
use mpfr.Base.{
  ℕ, zero, suc, ◌+◌, ◌-◌, ◌*◌, ◌^◌, ◌≤◌, ◌<◌, ◌≡◌, ◌≢◌, refl, sym, ap, arith, List, [], ◌∷◌, ltb,
  ◌==◌, ==_iff, if◌then◌else◌, Bool, true, false, Bool-cases, inl, inr, ℤ, pos, ◌+ℤ◌, ◌-ℤ◌, ◌≤ℤ◌,
  ltb_ℤ, leb_ℤ, eqb_ℤ, +ℤ_parts, -ℤ_parts, ltb_ℤ_of_le, eq_of_parts,
}
use native.Mathlib.Nat.{mul-le-mul_right, mod-eq_of_lt}
use mpfr.Words.{limb_bits, limb_highbit, shl}
use mpfr.Words.Value.{low_value, IsLimbs}
use mpfr.Words.Longlong.{Longlong, count_leading_zeros_lem, count_leading_zeros}
use mpfr.Types.{
  Rnd, rndna, is_rndf, Sign, is_neg, num, Mpfr, Env, Out, raise, flags_inexact, prec2limbs,
}
use mpfr.Exceptions.{check_range}
use mpfr.Rounding.Spec.{RoundsTo}
use mpfr.Next.{Mpn}
use mpfr.Next.Neighbour.{IsMpn}
use mpfr.Round.{RawOut, round_raw, rest_bits, kept_limbs}
use mpfr.Round.Masks.{cut_bits}
use mpfr.Round.Decide.{raw_inex}
use mpfr.Round.Correct.{IsRawRounding, round_raw-IsRawRounding}
use mpfr.Machine.{limb_width, set_limb_2exp, set_si_2exp, sign_of, absolute}
use mpfr.Machine.Equal.{width_bounds}

-- `r` is the number of sign `s` and precision `prec` that rounds the significand `m` of 64 bits and
-- exponent `E`, in units of `2 ^ sh`. The flags are those of `MPFR_RET`.
pub record IsConverted (rnd : Rnd) (s : Sign) (prec m sh : ℕ) (E : ℤ) (e : Env) (r : Out)
    : Type 0 where
  pub units : ℕ
  pub rounds : RoundsTo rnd (is_neg s) m (2 ^ sh) units
  pub exponent : r.x.exp ≡ num (if units * 2 ^ sh == 2 ^ 64 then E +ℤ pos 1 else E)
  pub limb :
      2 * low_value r.x.mant 1 ≡ (if units * 2 ^ sh == 2 ^ 64 then 2 ^ 64 else 2 * (units * 2 ^ sh))
  pub sign : r.x.sign ≡ s
  pub precision : r.x.prec ≡ prec
  pub ternary :
      is_rndf rnd ≡ false → rnd ≢ rndna → r.inex ≡ raw_inex rnd (is_neg s) m (2 ^ sh) units
  pub flags : r.env ≡ (if eqb_ℤ r.inex (pos 0) then e else raise flags_inexact e)

-- A number in the range is returned as it is.
settled :
    (y : Mpfr) (z t : ℤ) (rnd : Rnd) (e : Env)
    → e.emin ≤ℤ z
    → z ≤ℤ e.emax
    → check_range (record y { exp = num z }) t rnd e ≡ record {
      x = record y { exp = num z };
      inex = t;
      env = if eqb_ℤ t (pos 0) then e else raise flags_inexact e;
    }
unfolding check_range
settled y z t rnd e low high =
    let inside : ltb_ℤ z e.emin ≡ false = ltb_ℤ_of_le e.emin z low in
    let inside' : ltb_ℤ e.emax z ≡ false = ltb_ℤ_of_le z e.emax high in
    elim (Bool-cases (eqb_ℤ t (pos 0))) [
      | inl exact ↦
          let none : t ≡ pos 0 = eq_of_parts t (pos 0) ((==_iff _ _).0 exact) in
          rw (inside, inside', exact)
            (ap (λ v. record { x = record y { exp = num z }; inex = v; env = e }) (sym none))
      | inr inexact ↦ rw (inside, inside', inexact) refl
    ]

one_value : (a : ℕ) → low_value (a ∷ []) 1 ≡ a
unfolding low_value
one_value a = omega arith

one-IsLimbs : (a : ℕ) → a < 2 ^ 64 → IsLimbs (a ∷ [])
one-IsLimbs a h zero = h
one-IsLimbs a h (suc i) = omega arith

-- The rounding of one limb.
module _ ⦃ll : Longlong⦄ (g : Mpn) (laws : IsMpn g) (m width prec : ℕ) (neg : Bool) (rnd : Rnd)
    (small : m < 2 ^ 64) (some : 0 < prec) (less : prec < width) (most : width ≤ 64) where
  one_rounding :
      IsRawRounding rnd neg m
        (2 ^ (64 - prec))
        (64 - prec)
        1
        (round_raw g (m ∷ []) width neg prec rnd)
  one_rounding =
      let h =
        round_raw-IsRawRounding g (m ∷ []) width prec neg rnd laws (one-IsLimbs m small)
          (omega arith) some less in
      let size : prec2limbs width ≡ 1 = omega arith in
      let kept : kept_limbs prec ≡ 1 = ground arith in
      let cut : cut_bits (rest_bits prec) ≡ 64 - prec = omega arith in
      let unit : 2 ^ (64 - prec) * 2 ^ 0 ≡ 2 ^ (64 - prec) = omega arith in
      rw (size, kept, cut, unit, one_value m) at h

module _ ⦃ll : Longlong⦄ (g : Mpn) (laws : IsMpn g) (x : Mpfr) (s : Sign) (a : ℕ) (f : ℤ)
    (rnd : Rnd) (e : Env) (some : 0 < x.prec) (less : x.prec < limb_width a) (nonzero : 1 ≤ a)
    (small : a < 2 ^ 64) (low : e.emin ≤ℤ f +ℤ pos (limb_width a))
    (high : f +ℤ pos (limb_width a) +ℤ pos 1 ≤ℤ e.emax) where
  abbrev E : ℤ
  E = f +ℤ pos (limb_width a)

  abbrev sh : ℕ
  sh = 64 - x.prec

  abbrev m : ℕ
  m = shl a (count_leading_zeros a)

  abbrev r : RawOut
  r = round_raw g (m ∷ []) (limb_width a) (is_neg s) x.prec rnd

  rounding : IsRawRounding rnd (is_neg s) m (2 ^ sh) sh 1 r
  rounding =
      one_rounding g laws m (limb_width a) x.prec (is_neg s) rnd (omega arith) some less
        (width_bounds a nonzero small).1

  abbrev stored : Mpfr → ℤ → Out
  stored y z = record {
    x = record y { exp = num z };
    inex = r.inexp;
    env = if eqb_ℤ r.inexp (pos 0) then e else raise flags_inexact e;
  }

  abbrev with_limbs : List ℕ → Mpfr
  with_limbs p = record x { sign = s; exp = num E; mant = p }

  -- The exponent is in the range, before and after a carry.
  set_limb_value : set_limb_2exp g x s a f rnd e ≡ (
      if r.carry == 0
      then stored (with_limbs r.limbs) E
      else stored (with_limbs (limb_highbit ∷ [])) (E +ℤ pos 1))
  unfolding set_limb_2exp
  set_limb_value =
      let (least, most) = width_bounds a nonzero small in
      let above : ltb_ℤ f (e.emin -ℤ pos (limb_bits + 1)) ≡ false =
        ltb_ℤ_of_le (e.emin -ℤ pos (limb_bits + 1)) f
          (omega (arith, low, most, -ℤ_parts e.emin (pos 65), +ℤ_parts f (pos (limb_width a)))) in
      let below : leb_ℤ e.emax f ≡ false =
        ground (arith, high, +ℤ_parts f (pos (limb_width a)), +ℤ_parts E (pos 1)) in
      let short : ltb x.prec (limb_width a) ≡ true = ground arith in
      rw
        (
          above,
          below,
          short,
          settled (with_limbs r.limbs) E r.inexp rnd e low
              (omega (arith, high, +ℤ_parts E (pos 1))),
          settled (with_limbs (limb_highbit ∷ [])) (E +ℤ pos 1) r.inexp rnd e
              (omega (arith, low, +ℤ_parts E (pos 1))) high,
        )
        refl

  set_limb-IsConverted : IsConverted rnd s x.prec m sh E e (set_limb_2exp g x s a f rnd e)
  set_limb-IsConverted = elim (Bool-cases (r.carry == 0)) [
    | inl none ↦
        let zero : r.carry ≡ 0 = (==_iff _ _).0 none in
        let plain : (rounding.units * 2 ^ sh == 2 ^ 64) ≡ false =
          ground (arith, rounding.value, rounding.below, ap (λ t. t * 2 ^ 64) zero) in
        rw (set_limb_value, none)
          (record {
            units = rounding.units;
            rounds = rounding.rounds;
            exponent = rw plain refl;
            limb = rw plain (omega (arith, rounding.value, ap (λ t. t * 2 ^ 64) zero));
            sign = refl;
            precision = refl;
            ternary = rounding.inexp;
            flags = refl;
          })
    | inr some_carry ↦
        let one : 1 * 2 ^ 64 ≤ r.carry * 2 ^ 64 =
          mul-le-mul_right {m = 1} {n = r.carry} (2 ^ 64) (ground (arith, some_carry)) in
        let full : (rounding.units * 2 ^ sh == 2 ^ 64) ≡ true =
          ground (arith, one, rounding.value, rounding.fits) in
        rw (set_limb_value, some_carry)
          (record {
            units = rounding.units;
            rounds = rounding.rounds;
            exponent = rw full refl;
            limb = rw full (omega (arith, one_value limb_highbit));
            sign = refl;
            precision = refl;
            ternary = rounding.inexp;
            flags = refl;
          })
  ]

-- A nonzero signed 64-bit integer `i` of more bits than the precision, at least one, times 2 ^ f, where
-- the exponent of `i * 2 ^ f` and the one after it are in the range: `mpfr_set_si_2exp` stores the
-- correct rounding of the integer, shifted to the top of the limb, with its sign, exponent and
-- precision, in every rounding mode. The ternary value is doubled for a tie in RNDN and open in RNDF
-- and RNDNA; the inexact flag is raised exactly if it is not 0.
pub set_si_2exp-IsConverted :
    ⦃ll : Longlong⦄
    → (g : Mpn) (x : Mpfr) (i f : ℤ) (rnd : Rnd) (e : Env) → IsMpn g
    → i ≢ pos 0
    → absolute i ≤ 2 ^ 63
    → 0 < x.prec
    → x.prec < limb_width (absolute i)
    → e.emin ≤ℤ f +ℤ pos (limb_width (absolute i))
    → f +ℤ pos (limb_width (absolute i)) +ℤ pos 1 ≤ℤ e.emax
    → IsConverted rnd
        (sign_of i)
        x.prec
        (absolute i * 2 ^ count_leading_zeros (absolute i))
        (64 - x.prec)
        (f +ℤ pos (limb_width (absolute i)))
        e
        (set_si_2exp g x i f rnd e)
unfolding set_si_2exp
set_si_2exp-IsConverted g x i f rnd e laws nonzero bound some less low high =
    let a = absolute i in
    let off : eqb_ℤ i (pos 0) ≡ false = elim (Bool-cases (eqb_ℤ i (pos 0))) [
      | inl none ↦ absurd (nonzero (eq_of_parts i (pos 0) ((==_iff _ _).0 none)))
      | inr some_bits ↦ some_bits
    ] in
    let positive : 1 ≤ a = ground (arith, off) in
    let whole : shl a (count_leading_zeros a) ≡ a * 2 ^ count_leading_zeros a =
      mod-eq_of_lt (count_leading_zeros_lem a positive (omega arith)).2 in
    rw (off, ← whole)
      (set_limb-IsConverted g laws x (sign_of i) a f rnd e some less positive (omega arith) low
        high)
