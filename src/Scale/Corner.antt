-- ===== src/Scale/Corner.antt =====
-- The guard of `mpfr_mul_2si` against an exponent below the machine's range, where `emax` has its largest
-- value and the rounding carries into the next exponent.
use mpfr.Base.{
  ℕ, ◌*◌, ◌^◌, ◌<◌, ◌≡◌, refl, sym, ap, ◌∙◌, arith, leb, ◌==◌, ◌&&◌, ◌||◌, ==_iff, if◌then◌else◌,
  true, false, Bool-cases, inl, inr, ℤ, pos, pos_part, neg_part, neg_ℤ, ◌+ℤ◌, ◌-ℤ◌, ◌≤ℤ◌, ltb_ℤ,
  leb_ℤ, ltb_ℤ_of_le, ltb_ℤ_of_lt, +ℤ_parts, -ℤ_parts, length,
}
use mpfr.Words.Value.{low_value, low_value-lt}
use mpfr.Types.{Rnd, rndn, rndz, is_neg, num, Mpfr, Env, ret, prec2limbs}
use mpfr.Extremes.{powerof2_raw}
use mpfr.Exceptions.{emax_max, underflow, check_range}
use mpfr.Compare.Magnitude.{IsRegular}
use mpfr.Next.{Mpn}
use mpfr.Next.Neighbour.{IsMpn}
use mpfr.Scale.{
  Raw, setraw, small_mode, mul_2si, mul_2si_field, mul_2si_number, div_2ui, div_2ui_field,
}
use mpfr.Scale.Near.{IsNear, setraw-IsNear}
use mpfr.Scale.Inverse.{minus_parts, div_2ui_number-check_range}

-- A significand that was rounded into the next exponent is a power of two that is not below the number.
carried :
    (m top : ℕ) (bx : ℤ) (r : Raw)
    → m < top
    → IsNear m top bx r
    → r.exp ≡ bx +ℤ pos 1
    → ((if is_neg r.x.sign then leb_ℤ r.inex (pos 0) else leb_ℤ (pos 0) r.inex) && powerof2_raw r.x)
      ≡ true
carried m top bx r below near next = elim (Bool-cases (near.value == top)) [
  | inl full ↦
      let order : leb m near.value ≡ true = ground (arith, (==_iff _ _).0 full) in
      rw (near.away, near.power, full, order) refl
  | inr part ↦
      let same : bx +ℤ pos 1 ≡ bx =
        sym next ∙ near.exponent ∙ ap (λ b. if b then bx +ℤ pos 1 else bx) part in
      absurd
        (omega (arith, ap (λ t. pos_part t) same, ap (λ t. neg_part t) same, +ℤ_parts bx (pos 1)))
]

module _ (g : Mpn) (r : Raw) (n : ℕ) (e : Env) (some : 0 < n) (last : r.exp ≡ emax_max +ℤ pos 1)
    (least : r.exp +ℤ neg_ℤ (pos n) ≡ e.emin)
    (up : ((if is_neg r.x.sign then leb_ℤ r.inex (pos 0) else leb_ℤ (pos 0) r.inex)
        && powerof2_raw r.x)
      ≡ true) where
  abbrev k : ℤ
  k = neg_ℤ (pos n)

  upward : leb_ℤ (pos 0) k ≡ false
  upward = ground (arith, minus_parts n)

  downward : ltb_ℤ k (pos 0) ≡ true
  downward = ground (arith, minus_parts n)

  guard : ltb_ℤ (emax_max +ℤ k) e.emin ≡ true
  guard = ltb_ℤ_of_lt (emax_max +ℤ k) e.emin (
      omega (
        arith,
        ap (λ t. pos_part t) least,
        ap (λ t. neg_part t) least,
        ap (λ t. pos_part t) last,
        ap (λ t. neg_part t) last,
        +ℤ_parts emax_max (pos 1),
        +ℤ_parts emax_max k,
        +ℤ_parts r.exp k,
      ))

  not_far :
      (ltb_ℤ (emax_max +ℤ (k +ℤ pos 1)) e.emin || ltb_ℤ r.exp (e.emin -ℤ (k +ℤ pos 1))) ≡ false
  not_far =
      let never = ltb_ℤ_of_le e.emin (emax_max +ℤ (k +ℤ pos 1)) (
        omega (
          arith,
          ap (λ t. pos_part t) least,
          ap (λ t. neg_part t) least,
          ap (λ t. pos_part t) last,
          ap (λ t. neg_part t) last,
          +ℤ_parts emax_max (pos 1),
          +ℤ_parts emax_max (k +ℤ pos 1),
          +ℤ_parts k (pos 1),
          +ℤ_parts r.exp k,
        )) in
      let never' = ltb_ℤ_of_le (e.emin -ℤ (k +ℤ pos 1)) r.exp (
        omega (
          arith,
          ap (λ t. pos_part t) least,
          ap (λ t. neg_part t) least,
          -ℤ_parts e.emin (k +ℤ pos 1),
          +ℤ_parts k (pos 1),
          +ℤ_parts r.exp k,
        )) in
      rw (never, never') refl

  number_underflows : mul_2si_number g r k rndn e ≡ underflow r.x rndz r.x.sign e
  unfolding mul_2si_number small_mode
  number_underflows = rw (not_far, upward, downward, guard, up) refl

fitting :
    (y : Mpfr) (v t : ℤ) (rnd : Rnd) (e : Env)
    → e.emin ≤ℤ v
    → v ≤ℤ e.emax
    → check_range (record y { exp = num v }) t rnd e ≡ ret (record y { exp = num v }) t e
unfolding check_range
fitting y v t rnd e low high =
    let test = ltb_ℤ_of_le e.emin v low in
    let test' = ltb_ℤ_of_le v e.emax high in rw (test, test') refl

-- Where `emax` has the largest value that it can have, and the rounding of `x` to the precision of `y` to
-- nearest carries into the next exponent, the division by the power of two 2 ^ n that gives the least
-- number of the range is exact: `mpfr_div_2ui` delivers that number, without an underflow, but
-- `mpfr_mul_2si` by `-n` delivers the underflow toward zero.
pub mul_2si_corner :
    (g : Mpn) (y x : Mpfr) (n : ℕ) (e : Env)
    → IsMpn g
    → IsRegular x emax_max
    → length x.mant ≡ prec2limbs x.prec
    → 0 < y.prec
    → 0 < n
    → e.emin ≤ℤ emax_max
    → e.emax ≡ emax_max
    → (setraw g false y x emax_max rndn).exp ≡ emax_max +ℤ pos 1
    → (emax_max +ℤ pos 1) +ℤ neg_ℤ (pos n) ≡ e.emin
    → let r = setraw g false y x emax_max rndn in
      (mul_2si g false y x (neg_ℤ (pos n)) rndn e ≡ underflow r.x rndz r.x.sign e)
      × (div_2ui g false y x n rndn e ≡ ret (record r.x { exp = num e.emin }) r.inex e)
unfolding mul_2si mul_2si_field div_2ui div_2ui_field
mul_2si_corner g y x n e laws h sized pos_y some low largest last least =
    let r = setraw g false y x emax_max rndn in
    let m = low_value x.mant (prec2limbs x.prec) in
    let up =
      carried m (2 ^ (64 * prec2limbs x.prec)) emax_max r
        (low_value-lt x.mant (prec2limbs x.prec) h.limbs)
        (setraw-IsNear g laws y x emax_max h sized pos_y false (cc)) last in
    let least' : r.exp +ℤ neg_ℤ (pos n) ≡ e.emin = ap (λ t. t +ℤ neg_ℤ (pos n)) last ∙ least in
    let positive : (n == 0) ≡ false = ground arith in
    let part_p = ap (λ t. pos_part t) last in
    let part_n = ap (λ t. neg_part t) last in
    let top_p = ap (λ t. pos_part t) largest in
    let top_n = ap (λ t. neg_part t) largest in
    let low' : e.emin ≤ℤ r.exp = omega (arith, +ℤ_parts emax_max (pos 1)) in
    let high' : r.exp ≤ℤ e.emax +ℤ pos 1 =
      omega (arith, +ℤ_parts emax_max (pos 1), +ℤ_parts e.emax (pos 1)) in
    (
      ap (λ t. mul_2si_field g t false y x (neg_ℤ (pos n)) rndn e) h.exponent
          ∙ number_underflows g r n e some last least' up,
      ap (λ t. div_2ui_field g t false y x n rndn e) h.exponent
          ∙ rw positive (div_2ui_number-check_range g r n rndn e some low' high')
          ∙ ap (λ v. check_range (record r.x { exp = num v }) r.inex rndn e) least'
          ∙ fitting r.x e.emin r.inex rndn e (omega arith) (omega arith),
    )
