-- ===== src/Next/Neighbour.antt =====
-- The neighbours of a regular number, as numbers: one unit in the last place away.
use native.Mathlib.Nat.{div-add-mod', mul-le-mul_right, lt_of_mul-lt-mul_right}
use mathlib.Core.Path.{subst}
use mpfr.Base.{
  ℕ, suc, ◌+◌, ◌-◌, ◌*◌, ◌/◌, ◌%◌, ◌^◌, ◌≤◌, ◌<◌, ◌≡◌, refl, sym, ap, List, set, length,
}
use mpfr.Base.{
  ◌==◌, if◌then◌else◌, true, false, Bool-cases, inl, inr, ℤ, pos, ◌+ℤ◌, eqb_ℤ, arith, pow-split,
  ==_iff,
}
use mpfr.Words.{limb_bits, limb_highbit, shl, shl-one}
use mpfr.Words.Update.{top_set, low_value-le}
use mpfr.Words.Value.{low_value, low_value-lt, IsLimbs, pow-limb}
use mpfr.Types.{Exp, Mpfr, num, inf, Env, prec2limbs}
use mpfr.Compare.Magnitude.{IsRegular}
use mpfr.Next.{Mpn, unused_bits, last_limb, up_regular, nexttoinf_field, nexttoinf}

-- What GMP documents of `mpn_add_1`.
pub record IsMpn (g : Mpn) : Type 0 where
  pub add_value :
      (p : List ℕ) (b : ℕ)
      → IsLimbs p
      → b < 2 ^ 64
      → low_value (g.add_1 p b).0 (length p) + (g.add_1 p b).1 * 2 ^ (64 * length p)
        ≡ low_value p (length p) + b
  pub add_limbs : (p : List ℕ) (b : ℕ) → IsLimbs p → b < 2 ^ 64 → IsLimbs (g.add_1 p b).0
  pub add_length : (p : List ℕ) (b : ℕ) → length (g.add_1 p b).0 ≡ length p

module _ (g : Mpn) (laws : IsMpn g) (x : Mpfr) (z : ℤ) (e : Env) (h : IsRegular x z)
    (sized : length x.mant ≡ prec2limbs x.prec) where
  abbrev value : ℕ
  value = low_value x.mant (prec2limbs x.prec)

  abbrev ulp : ℕ
  ulp = 2 ^ unused_bits x

  abbrev top : ℕ
  top = 2 ^ (64 * prec2limbs x.prec)

  abbrev sum : List ℕ × ℕ
  sum = g.add_1 x.mant (shl 1 (unused_bits x))

  narrow : unused_bits x < 64
  narrow = omega arith

  sum_value : low_value sum.0 (prec2limbs x.prec) + sum.1 * top ≡ value + ulp
  sum_value =
      let unit : shl 1 (unused_bits x) < 2 ^ 64 = omega arith in
      rw (← sized, ← shl-one (unused_bits x) narrow)
        (laws.add_value x.mant (shl 1 (unused_bits x)) h.limbs unit)

  sum-lt : low_value sum.0 (prec2limbs x.prec) < top
  sum-lt =
      low_value-lt sum.0 (prec2limbs x.prec)
        (laws.add_limbs x.mant (shl 1 (unused_bits x)) h.limbs (omega arith))

  -- A whole number of units, below a power of two that is one, leaves room for another.
  room : value % ulp ≡ 0 → value + ulp ≤ top
  room clean =
      let width : top ≡ ulp * 2 ^ (64 * prec2limbs x.prec - unused_bits x) =
        pow-split (64 * prec2limbs x.prec) (unused_bits x) (omega arith) in
      let whole : value ≡ value / ulp * ulp + value % ulp = sym (div-add-mod' value ulp) in
      let below = low_value-lt x.mant (prec2limbs x.prec) h.limbs in
      let less : value / ulp < 2 ^ (64 * prec2limbs x.prec - unused_bits x) =
        lt_of_mul-lt-mul_right ulp {m = value / ulp}
          {n = 2 ^ (64 * prec2limbs x.prec - unused_bits x)}
          (omega (arith, width, whole, clean, below)) in
      let le : (value / ulp + 1) * ulp ≤ 2 ^ (64 * prec2limbs x.prec - unused_bits x) * ulp =
        mul-le-mul_right {m = value / ulp + 1} {n = 2 ^ (64 * prec2limbs x.prec - unused_bits x)}
          ulp (omega arith) in
      omega (arith, le, width, whole, clean)

  -- What `mpfr_nexttoinf` should give: one unit more, or the next power of two, or infinity.
  abbrev pub up_exp : Exp
  up_exp = if value + ulp == top then if eqb_ℤ z e.emax then inf else num (z +ℤ pos 1) else num z

  abbrev pub up_value : ℕ
  up_value = if value + ulp == top then if eqb_ℤ z e.emax then 0 else top else 2 * (value + ulp)

  nonzero : (n : ℕ) → (n == 0) ≡ false → 1 ≤ n
  nonzero n k = ground arith

  carried :
      (sum.1 == 0) ≡ false
      → value % ulp ≡ 0
      → (value + ulp ≡ top) × (low_value sum.0 (prec2limbs x.prec) ≡ 0)
  carried carry clean =
      let some_carry : 1 * top ≤ sum.1 * top =
        mul-le-mul_right {m = 1} {n = sum.1} top (nonzero sum.1 carry) in
      omega (arith, some_carry, sum_value, room clean)

  not_carried : (sum.1 == 0) ≡ true → value + ulp ≡ low_value sum.0 (prec2limbs x.prec)
  not_carried none = omega (arith, sum_value, ap (λ t. t * top) ((==_iff sum.1 0).0 none))

  abbrev IsUp : Mpfr → Type 0
  IsUp r =
      (r.exp ≡ up_exp)
      × (2 * low_value r.mant (prec2limbs x.prec) ≡ up_value)
      × (r.sign ≡ x.sign)
      × (r.prec ≡ x.prec)

  -- The top limb alone, over limbs that are zero.
  power_value :
      low_value sum.0 (prec2limbs x.prec) ≡ 0
      → 2 * low_value (set sum.0 (last_limb x) limb_highbit) (prec2limbs x.prec) ≡ top
  power_value none =
      let n : prec2limbs x.prec ≡ suc ((x.prec - 1) / limb_bits) = omega arith in
      let last : suc ((x.prec - 1) / limb_bits) - 1 ≡ (x.prec - 1) / limb_bits = omega arith in
      let l : suc ((x.prec - 1) / limb_bits) ≡ length sum.0 =
        omega (arith, laws.add_length x.mant (shl 1 (unused_bits x)), sized) in
      let replaced = top_set sum.0 ((x.prec - 1) / limb_bits) limb_highbit l in
      let none' : low_value sum.0 (suc ((x.prec - 1) / limb_bits)) ≡ 0 = rw n at none in
      rw (n, last)
        (omega (
          arith,
          replaced,
          pow-limb ((x.prec - 1) / limb_bits),
          none',
          low_value-le sum.0 ((x.prec - 1) / limb_bits),
        ))

  up_regular-IsUp : value % ulp ≡ 0 → IsUp (up_regular g x z e)
  unfolding up_regular
  up_regular-IsUp clean = elim (Bool-cases (sum.1 == 0)) [
    | inl none ↦
        let sum_is = not_carried none in
        let less : (value + ulp == top) ≡ false = ground (arith, sum_is, sum-lt) in
        rw (none, less) (h.exponent, omega (arith, sum_is), refl, refl)
    | inr carry ↦
        let (full, zero_sum) = carried carry clean in
        let yes_full : (value + ulp == top) ≡ true = (==_iff _ _).1 full in
        rw (carry, yes_full)
          (elim (Bool-cases (eqb_ℤ z e.emax)) [
            | inl last ↦ rw last (refl, omega (arith, zero_sum), refl, refl)
            | inr more ↦ rw more (refl, power_value zero_sum, refl, refl)
          ])
  ]

  -- `mpfr_nexttoinf` adds a unit in the last place to the significand of a regular number whose bits
  -- below its precision are zero; from the largest significand it goes to the next power of two, or
  -- to infinity at `emax`. Sign and precision stay.
  pub nexttoinf_lem :
      value % ulp ≡ 0
      → ((nexttoinf g x e).exp ≡ up_exp)
        × (2 * low_value (nexttoinf g x e).mant (prec2limbs x.prec) ≡ up_value)
        × ((nexttoinf g x e).sign ≡ x.sign)
        × ((nexttoinf g x e).prec ≡ x.prec)
  unfolding nexttoinf nexttoinf_field
  nexttoinf_lem clean =
      subst (λ y. IsUp (nexttoinf_field g y x e)) (sym h.exponent) (up_regular-IsUp clean)
