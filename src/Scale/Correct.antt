-- ===== src/Scale/Correct.antt =====
-- `mpfr_mul_2si` delivers the rounded product, an overflow, or the underflow of the exact product.
use native.Mathlib.Nat.{mul-le-mul_right}
use mpfr.Base.{
  ℕ, zero, suc, ◌*◌, ◌^◌, ◌≤◌, ◌<◌, ◌≡◌, refl, sym, ap, ◌∙◌, arith, leb, ◌==◌, ◌&&◌, ◌||◌, ==_iff,
  if◌then◌else◌, Bool, true, false, Bool-cases, inl, inr, pow-pos, ℤ, pos, negsuc, pos_part,
  neg_part, ◌+ℤ◌, ◌-ℤ◌, ◌≤ℤ◌, ◌<ℤ◌, ltb_ℤ, leb_ℤ, +ℤ_parts, -ℤ_parts, eq_of_parts, ltb→lt, ltb→ge,
  length,
}
use mpfr.Words.Value.{low_value, low_value-lt}
use mpfr.Types.{
  Rnd, rndn, rndz, rndu, rndd, rnda, rndf, rndna, is_rndn, is_neg, num, Mpfr, Env, ret, prec2limbs,
}
use mpfr.Extremes.{powerof2_raw}
use mpfr.Exceptions.{emin_min, emax_max, overflow, underflow, check_range, underflow_rnd}
use mpfr.Compare.Magnitude.{IsRegular, normalized_value}
use mpfr.Next.{Mpn}
use mpfr.Next.Neighbour.{IsMpn}
use mpfr.Scale.{Raw, setraw, mul_2si, mul_2si_field}
use mpfr.Scale.Near.{IsNear, setraw-IsNear}
use mpfr.Scale.Copy.{setraw_exp}
use mpfr.Scale.Range.{mul_2si_number-check_range, powerof2_raw-exp, overflow-exp, underflow-exp}

-- `m / top * 2 ^ k` is at most 1.
abbrev pub at_most_one : ℕ → ℕ → ℤ → Bool
at_most_one m top k = leb (m * 2 ^ pos_part k) (top * 2 ^ neg_part k)

at_most_one_below : (m top : ℕ) (k : ℤ) → m ≤ top → k ≤ℤ pos 0 → at_most_one m top k ≡ true
at_most_one_below m top (pos zero) h l = ground arith
at_most_one_below m top (pos (suc k)) h l = absurd (omega arith)
at_most_one_below m top (negsuc k) h l =
    let step : 1 * top ≤ 2 ^ suc k * top =
      mul-le-mul_right {m = 1} {n = 2 ^ suc k} top (omega (arith, pow-pos (suc k))) in
    ground (arith, step)

or_true : (b : Bool) → (b || true) ≡ true
or_true true = refl
or_true false = refl

-- The test of the code against that of the exact number, for a rounded exponent `r.exp` below
-- `emin - n`.
module _ (m top : ℕ) (bx : ℤ) (r : Raw) (near : IsNear m top bx r) (below : m < top)
    (normal : top ≤ 2 * m) (n emin : ℤ) (small : r.exp +ℤ n <ℤ emin) where
  abbrev excess : ℤ
  excess = (bx +ℤ n) -ℤ (emin -ℤ pos 2)

  abbrev nearest_away : Bool
  nearest_away = if is_neg r.x.sign then leb_ℤ r.inex (pos 0) else leb_ℤ (pos 0) r.inex

  half_case : (2 * near.value == top && leb m near.value) ≡ leb (m * 2) top
  half_case = ground (arith, near.half)

  small_lem :
      (ltb_ℤ (r.exp +ℤ n +ℤ pos 1) emin || (powerof2_raw r.x && nearest_away))
      ≡ at_most_one m top excess
  small_lem = elim (Bool-cases (near.value == top)) [
    | inl full ↦
        let exponent : r.exp ≡ bx +ℤ pos 1 =
          near.exponent ∙ ap (λ b. if b then bx +ℤ pos 1 else bx) full in
        let same : near.value ≡ top = (==_iff _ _).0 full in
        let order : leb m near.value ≡ true = ground arith in
        let least : excess ≤ℤ pos 0 = omega (
          arith,
          ap (λ t. pos_part t) exponent,
          ap (λ t. neg_part t) exponent,
          +ℤ_parts r.exp n,
          +ℤ_parts bx (pos 1),
          +ℤ_parts bx n,
          -ℤ_parts emin (pos 2),
          -ℤ_parts (bx +ℤ n) (emin -ℤ pos 2),
        ) in
        rw (near.power, near.away, full, order, at_most_one_below m top excess (omega arith) least)
          (or_true (ltb_ℤ (r.exp +ℤ n +ℤ pos 1) emin))
    | inr part ↦
        let exponent : r.exp ≡ bx = near.exponent ∙ ap (λ b. if b then bx +ℤ pos 1 else bx) part in
        elim (Bool-cases (ltb_ℤ (r.exp +ℤ n +ℤ pos 1) emin)) [
          | inl far ↦
              let least : excess ≤ℤ pos 0 = omega (
                arith,
                ltb→lt _ _ far,
                ap (λ t. pos_part t) exponent,
                ap (λ t. neg_part t) exponent,
                +ℤ_parts (r.exp +ℤ n) (pos 1),
                +ℤ_parts r.exp n,
                +ℤ_parts bx n,
                -ℤ_parts emin (pos 2),
                -ℤ_parts (bx +ℤ n) (emin -ℤ pos 2),
              ) in
              rw (far, at_most_one_below m top excess (omega arith) least)
          | inr next ↦
              let one : excess ≡ pos 1 = eq_of_parts _ _ (
                omega (
                  arith,
                  ltb→ge _ _ next,
                  ap (λ t. pos_part t) exponent,
                  ap (λ t. neg_part t) exponent,
                  +ℤ_parts (r.exp +ℤ n) (pos 1),
                  +ℤ_parts r.exp n,
                  +ℤ_parts bx n,
                  -ℤ_parts emin (pos 2),
                  -ℤ_parts (bx +ℤ n) (emin -ℤ pos 2),
                )) in
              let whole : top * 1 ≡ top = omega arith in
              rw (next, near.power, near.away, part, one, whole) half_case
        ]
  ]

module _ (g : Mpn) (laws : IsMpn g) (same : Bool) (y x : Mpfr) (n : ℤ) (rnd : Rnd) (e : Env)
    (bx : ℤ) (source : same ≡ true → y ≡ x) (h : IsRegular x bx)
    (sized : length x.mant ≡ prec2limbs x.prec) (pos_y : 0 < y.prec) (lo : emin_min ≤ℤ e.emin)
    (low : e.emin ≤ℤ bx) (high : bx ≤ℤ e.emax) (hi : e.emax <ℤ emax_max) where
  abbrev m : ℕ
  m = low_value x.mant (prec2limbs x.prec)

  abbrev top : ℕ
  top = 2 ^ (64 * prec2limbs x.prec)

  abbrev raw : Rnd → Raw
  raw rnd = setraw g same y x bx rnd

  abbrev mode : Rnd → Rnd
  mode rnd = if is_rndn rnd && at_most_one m top ((bx +ℤ n) -ℤ (e.emin -ℤ pos 2)) then rndz else rnd

  abbrev scaled : Rnd → Mpfr
  scaled rnd = record (raw rnd).x { exp = num ((raw rnd).exp +ℤ n) }

  mode_lem :
      (rnd : Rnd)
      → (raw rnd).exp +ℤ n <ℤ e.emin
      → underflow_rnd (scaled rnd) ((raw rnd).exp +ℤ n) (raw rnd).inex rnd e ≡ mode rnd
  mode_lem rndn small =
      let r = raw rndn in
      rw (
        powerof2_raw-exp r.x (num (r.exp +ℤ n)),
        small_lem m top bx r (setraw-IsNear g laws y x bx h sized pos_y same source)
            (low_value-lt x.mant (prec2limbs x.prec) h.limbs) (normalized_value x bx h) n e.emin
            small,
      )
  mode_lem rndz small = refl
  mode_lem rndu small = refl
  mode_lem rndd small = refl
  mode_lem rnda small = refl
  mode_lem rndf small = refl
  mode_lem rndna small = refl

  as_check_range : mul_2si g same y x n rnd e ≡ check_range (scaled rnd) (raw rnd).inex rnd e
  unfolding mul_2si mul_2si_field
  as_check_range =
      let (least, most) = setraw_exp g laws same y x rnd bx in
      ap (λ t. mul_2si_field g t same y x n rnd e) h.exponent
      ∙ mul_2si_number-check_range g (raw rnd) n rnd e lo (omega arith)
          (omega (arith, +ℤ_parts bx (pos 1), +ℤ_parts e.emax (pos 1)))
          (omega (arith, +ℤ_parts bx (pos 1)))

  abbrev exponent : ℤ
  exponent = (raw rnd).exp +ℤ n

  in_order : mul_2si g same y x n rnd e ≡ (
      if ltb_ℤ exponent e.emin
      then underflow (raw rnd).x (mode rnd) (raw rnd).x.sign e
      else if ltb_ℤ e.emax exponent
      then overflow (raw rnd).x rnd (raw rnd).x.sign e
      else ret (scaled rnd) (raw rnd).inex e)
  unfolding check_range
  in_order = elim (Bool-cases (ltb_ℤ exponent e.emin)) [
    | inl small ↦
        as_check_range
        ∙ rw (small, mode_lem rnd (ltb→lt _ _ small))
            (sym (underflow-exp (raw rnd).x (num exponent) (mode rnd) (raw rnd).x.sign e))
    | inr large ↦ elim (Bool-cases (ltb_ℤ e.emax exponent)) [
      | inl big ↦
          as_check_range
          ∙ rw (large, big) (sym (overflow-exp (raw rnd).x (num exponent) rnd (raw rnd).x.sign e))
      | inr fitting ↦ as_check_range ∙ rw (large, fitting) refl
    ]
  ]

-- `mpfr_mul_2si` of a regular number in the exponent range by 2 ^ n, where `emax` is below its largest
-- value: with `MPFR_SETRAW`'s rounding of `x` to the precision of `y`, the result is that rounding with
-- the exponent increased by `n`, if this is in the range; `mpfr_overflow` of it above the range; and
-- `mpfr_underflow` below, which in RNDN is toward zero exactly if the product, not rounded, is at most
-- 2 ^ (emin - 2). The target may be the source.
pub mul_2si_lem :
    (g : Mpn) (same : Bool) (y x : Mpfr) (n : ℤ) (rnd : Rnd) (e : Env) (bx : ℤ)
    → IsMpn g
    → (same ≡ true → y ≡ x)
    → IsRegular x bx
    → length x.mant ≡ prec2limbs x.prec
    → 0 < y.prec
    → emin_min ≤ℤ e.emin
    → e.emin ≤ℤ bx
    → bx ≤ℤ e.emax
    → e.emax <ℤ emax_max
    → let r = setraw g same y x bx rnd in
      let m = low_value x.mant (prec2limbs x.prec) in
      let tiny = at_most_one m (2 ^ (64 * prec2limbs x.prec)) ((bx +ℤ n) -ℤ (e.emin -ℤ pos 2)) in
      mul_2si g same y x n rnd e ≡ (
        if ltb_ℤ (r.exp +ℤ n) e.emin
        then underflow r.x (if is_rndn rnd && tiny then rndz else rnd) r.x.sign e
        else if ltb_ℤ e.emax (r.exp +ℤ n)
        then overflow r.x rnd r.x.sign e
        else ret (record r.x { exp = num (r.exp +ℤ n) }) r.inex e)
mul_2si_lem g same y x n rnd e bx laws source h sized pos_y lo low high hi =
    in_order g laws same y x n rnd e bx source h sized pos_y lo low high hi
