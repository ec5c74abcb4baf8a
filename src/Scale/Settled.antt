-- ===== src/Scale/Settled.antt =====
-- `mpfr_mul_2ui` against `mpfr_mul_2si`, and the state that all four functions leave.
use mathlib.Core.Path.{subst}
use mpfr.Base.{
  pos_part, negsuc, ℕ, zero, suc, ◌^◌, ltb, ◌<◌, ◌≡◌, refl, sym, ap, ◌∙◌, arith, if◌then◌else◌,
  Bool, true, false, Bool-cases, inl, inr, ℤ, pos, neg_ℤ, ◌+ℤ◌, ◌-ℤ◌, ◌≤ℤ◌, ◌<ℤ◌, ltb_ℤ, eqb_ℤ,
  ltb_ℤ_of_le, +ℤ_parts, -ℤ_parts,
}
use mpfr.Words.{bit_or_assoc}
use mpfr.Types.{Rnd, Sign, num, Mpfr, Env, Out, raise, flags_inexact}
use mpfr.Exceptions.{emin_min, emax_max, overflow, check_range}
use mpfr.Exceptions.Range.{IsSettled, ret-IsSettled, check_range-IsSettled}
use mpfr.Next.{Mpn}
use mpfr.Next.Neighbour.{IsMpn}
use mpfr.Set.{set_mpfr}
use mpfr.Scale.{
  Raw, setraw, mul_2si, mul_2si_field, div_2si, div_2ui, div_2ui_field, mul_2ui, mul_2ui_field,
  as_unsigned,
}
use mpfr.Scale.Copy.{delivered, setraw_exp, setraw-set4}
use mpfr.Scale.Range.{mul_2si_number-check_range, overflow-exp}
use mpfr.Scale.Inverse.{no_neg_part, div_2si-mul_2si, div_2ui-mul_2si}

-- An overflow raises the inexact flag again.
overflow-raise :
    (y : Mpfr) (rnd : Rnd) (s : Sign) (e : Env)
    → overflow y rnd s (raise flags_inexact e) ≡ overflow y rnd s e
unfolding overflow
overflow-raise y rnd s e = rw (bit_or_assoc e.flags 8 10) refl

-- The difference of two exponents in the range does not wrap.
unsigned_lem : (z : ℤ) → pos 0 ≤ℤ z → z <ℤ pos (2 ^ 64) → as_unsigned z ≡ pos_part z
unsigned_lem (pos k) h l = omega arith
unsigned_lem (negsuc k) h l = absurd (omega arith)

room_test :
    (a b : ℤ) (n : ℕ)
    → b ≤ℤ a
    → a -ℤ b <ℤ pos (2 ^ 64)
    → ltb (as_unsigned (a -ℤ b)) n ≡ ltb_ℤ a (b +ℤ pos n)
room_test a b n h l = rw (unsigned_lem (a -ℤ b) (omega (arith, -ℤ_parts a b)) l) (
    ground
      (arith, no_neg_part (a -ℤ b) (omega (arith, -ℤ_parts a b)), -ℤ_parts a b, +ℤ_parts b (pos n)))

module _ (g : Mpn) (r : Raw) (n : ℕ) (rnd : Rnd) (e : Env) (low : e.emin ≤ℤ r.exp)
    (high : r.exp ≤ℤ e.emax) (narrow : e.emax -ℤ r.exp <ℤ pos (2 ^ 64)) where
  field_lem :
      mul_2ui_field g (num r.exp) (delivered r e) n rnd
      ≡ check_range (record r.x { exp = num (r.exp +ℤ pos n) }) r.inex rnd e
  unfolding mul_2ui_field check_range
  field_lem =
      let enough : ltb_ℤ (r.exp +ℤ pos n) e.emin ≡ false =
        ltb_ℤ_of_le e.emin (r.exp +ℤ pos n) (omega (arith, +ℤ_parts r.exp (pos n))) in
      let E = r.exp +ℤ pos n in
      let y : Mpfr = record r.x { exp = num E } in
      let same =
        sym (overflow-exp r.x (num r.exp) rnd r.x.sign e)
        ∙ overflow-exp r.x (num E) rnd r.x.sign e in
      let again = overflow-raise (record r.x { exp = num r.exp }) rnd r.x.sign e ∙ same in
      elim (Bool-cases (eqb_ℤ r.inex (pos 0))) [
        | inl exact ↦
            rw (exact, room_test e.emax r.exp n high narrow, enough)
              (ap
                (λ (o : Out). if ltb_ℤ e.emax E then o else record { x = y; inex = pos 0; env = e })
                same)
        | inr inexact ↦
            rw (inexact, room_test e.emax r.exp n high narrow, enough)
              (ap
                (λ (o : Out).
                  if ltb_ℤ e.emax E
                  then o
                  else record { x = y; inex = r.inex; env = raise flags_inexact e })
                again)
      ]

module _ (g : Mpn) (laws : IsMpn g) (same : Bool) (y x : Mpfr) (n : ℕ) (rnd : Rnd) (e : Env)
    (bx : ℤ) (source : same ≡ true → y ≡ x) (exponent : x.exp ≡ num bx) (lo : emin_min ≤ℤ e.emin)
    (low : e.emin ≤ℤ bx) (high : bx +ℤ pos 1 ≤ℤ e.emax) (hi : e.emax <ℤ emax_max) where
  abbrev r : Raw
  r = setraw g same y x bx rnd

  -- What `mpfr_mul_2ui` looks at after the copy.
  copied :
      (b : Bool)
      → (b ≡ true → y ≡ x)
      → (if b then record { x = y; inex = pos 0; env = e } else set_mpfr g y x rnd e)
        ≡ delivered (setraw g b y x bx rnd) e
  unfolding setraw set_mpfr
  copied true h =
      let here : y.exp ≡ num bx = ap (λ t. t.exp) (h refl) ∙ exponent in
      ap (λ v. record { x = record y { exp = v }; inex = pos 0; env = e }) here
  copied false h = setraw-set4 g y x rnd e bx exponent high

  delivered-exp : (r : Raw) → (delivered r e).x.exp ≡ num r.exp
  delivered-exp r = elim (Bool-cases (eqb_ℤ r.inex (pos 0))) [
    | inl exact ↦ rw exact refl
    | inr inexact ↦ rw inexact refl
  ]

  steps : (bx ≤ℤ r.exp) × (r.exp ≤ℤ bx +ℤ pos 1)
  steps = setraw_exp g laws same y x rnd bx

  least : e.emin ≤ℤ r.exp
  least = omega (arith, steps)

  si-check_range :
      (z : ℤ)
      → mul_2si g same y x z rnd e
        ≡ check_range (record r.x { exp = num (r.exp +ℤ z) }) r.inex rnd e
  unfolding mul_2si mul_2si_field
  si-check_range z =
      ap (λ t. mul_2si_field g t same y x z rnd e) exponent
      ∙ mul_2si_number-check_range g r z rnd e lo least
          (omega (arith, steps, +ℤ_parts e.emax (pos 1))) (omega (arith, steps))

  ui_lem : mul_2ui g same y x n rnd e ≡ mul_2si g same y x (pos n) rnd e
  unfolding mul_2ui
  ui_lem =
      ap (λ s. mul_2ui_field g s.x.exp s n rnd) (copied same source)
      ∙ ap (λ v. mul_2ui_field g v (delivered r e) n rnd) (delivered-exp r)
      ∙ field_lem g r n rnd e least (omega (arith, steps))
          (omega (arith, lo, low, hi, steps, -ℤ_parts e.emax r.exp))
      ∙ sym (si-check_range (pos n))

  bounds : e.emin ≤ℤ e.emax
  bounds = omega (arith, +ℤ_parts bx (pos 1))

  si-IsSettled : (z : ℤ) → IsSettled e (mul_2si g same y x z rnd e)
  si-IsSettled z =
      subst (IsSettled e) (sym (si-check_range z))
        (check_range-IsSettled (record r.x { exp = num (r.exp +ℤ z) }) r.inex rnd e bounds)

  -- `mpfr_div_2ui` by 0 is `mpfr_set`.
  set-IsSettled : IsSettled e (set_mpfr g y x rnd e)
  unfolding set_mpfr
  set-IsSettled =
      let c = setraw g false y x bx rnd in
      let range = setraw_exp g laws false y x rnd bx in
      subst (IsSettled e) (sym (setraw-set4 g y x rnd e bx exponent high)) (
        ret-IsSettled (record c.x { exp = num c.exp }) c.inex e e refl refl
          (omega (arith, range), omega (arith, range)))

  div_ui-IsSettled : (k : ℕ) → IsSettled e (div_2ui g same y x k rnd e)
  unfolding div_2ui div_2ui_field
  div_ui-IsSettled zero =
      subst (IsSettled e) (ap (λ t. div_2ui_field g t same y x 0 rnd e) (sym exponent))
        set-IsSettled
  div_ui-IsSettled (suc k) =
      subst (IsSettled e)
        (sym (
          div_2ui-mul_2si g same y x (suc k) rnd e bx laws exponent (omega arith) lo low
            (omega (arith, +ℤ_parts bx (pos 1))) hi))
        (si-IsSettled (neg_ℤ (pos (suc k))))

-- For a number in the exponent range below `emax`, which is below its largest value, `mpfr_mul_2ui` by
-- any positive `n` is `mpfr_mul_2si` by `n`, `mpfr_div_2ui` by it is `mpfr_mul_2si` by `-n`, and
-- `mpfr_div_2si` by any `z` is `mpfr_mul_2si` by `-z`, in the result, the ternary value and the flags.
-- The target may be the source.
pub scaling-mul_2si :
    (g : Mpn) (same : Bool) (y x : Mpfr) (z : ℤ) (n : ℕ) (rnd : Rnd) (e : Env) (bx : ℤ)
    → IsMpn g
    → (same ≡ true → y ≡ x)
    → x.exp ≡ num bx
    → 0 < n
    → emin_min ≤ℤ e.emin
    → e.emin ≤ℤ bx
    → bx +ℤ pos 1 ≤ℤ e.emax
    → e.emax <ℤ emax_max
    → (mul_2ui g same y x n rnd e ≡ mul_2si g same y x (pos n) rnd e)
      × (div_2ui g same y x n rnd e ≡ mul_2si g same y x (neg_ℤ (pos n)) rnd e)
      × (div_2si g same y x z rnd e ≡ mul_2si g same y x (neg_ℤ z) rnd e)
scaling-mul_2si g same y x z n rnd e bx laws source exponent some lo low high hi =
    let inside : bx ≤ℤ e.emax = omega (arith, +ℤ_parts bx (pos 1)) in
    (
      ui_lem g laws same y x n rnd e bx source exponent lo low high hi,
      div_2ui-mul_2si g same y x n rnd e bx laws exponent some lo low inside hi,
      div_2si-mul_2si g same y x z rnd e,
    )

-- For a number in the exponent range below `emax`, where `emax` is below its largest value and `emin`
-- at least its smallest one, `mpfr_mul_2si` and `mpfr_div_2si` by any `z`, `mpfr_mul_2ui` and
-- `mpfr_div_2ui` by any `n`, 0 included, leave a number that is singular or has its exponent in the
-- range, keep the range, and with a nonzero ternary value leave the inexact flag raised. The target may
-- be the source.
pub scaling-IsSettled :
    (g : Mpn) (same : Bool) (y x : Mpfr) (z : ℤ) (n : ℕ) (rnd : Rnd) (e : Env) (bx : ℤ)
    → IsMpn g
    → (same ≡ true → y ≡ x)
    → x.exp ≡ num bx
    → emin_min ≤ℤ e.emin
    → e.emin ≤ℤ bx
    → bx +ℤ pos 1 ≤ℤ e.emax
    → e.emax <ℤ emax_max
    → IsSettled e (mul_2si g same y x z rnd e)
      × IsSettled e (div_2si g same y x z rnd e)
      × IsSettled e (mul_2ui g same y x n rnd e)
      × IsSettled e (div_2ui g same y x n rnd e)
scaling-IsSettled g same y x z n rnd e bx laws source exponent lo low high hi =
    let settled = si-IsSettled g laws same y x n rnd e bx source exponent lo low high hi in
    (
      settled z,
      subst (IsSettled e) (sym (div_2si-mul_2si g same y x z rnd e)) (settled (neg_ℤ z)),
      subst (IsSettled e) (sym (ui_lem g laws same y x n rnd e bx source exponent lo low high hi))
          (settled (pos n)),
      div_ui-IsSettled g laws same y x n rnd e bx source exponent lo low high hi n,
    )
