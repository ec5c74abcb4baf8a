-- ===== src/Set/RoundTrip.antt =====
-- `mpfr_set4` (src/set.c) to a larger precision, followed by `mpfr_set4` back.
use mathlib.Core.Path.{subst}
use native.Mathlib.Decide.{dec_lt}
use native.Mathlib.Nat.{mul-le-mul_right}
use mpfr.Base.{
  ℕ, ◌+◌, ◌-◌, ◌*◌, ◌^◌, ◌≤◌, ◌<◌, ◌≡◌, ◌≢◌, refl, sym, ap, ◌∙◌, arith, ◌++◌, get_or, replicate,
  length, length-append, length-replicate, ◌==◌, leb, ltb, false, true, if◌then◌else◌, Bool, lt→ltb,
  ge→ltb, ℤ, pos, ◌≤ℤ◌, ◌+ℤ◌, pow-pos, pow-add,
}
use mpfr.Words.Update.{get_replicated}
use mpfr.Words.Value.{low_value, low_value-lt}
use mpfr.Types.{
  Rnd, rndn, rndz, rndu, rndd, rnda, rndf, rndna, is_rndf, Sign, plus, minus, is_neg, num, Mpfr,
  Env, Out, prec2limbs,
}
use mpfr.Exceptions.{with_sign}
use mpfr.Rounding.Spec.{RoundsTo, IsTernary, compare_int}
use mpfr.Rounding.Limb.{settle}
use mpfr.Compare.Magnitude.{IsRegular}
use mpfr.Next.{Mpn, unused_bits}
use mpfr.Next.Neighbour.{IsMpn}
use mpfr.Set.{rndraw, set4_field, set4}
use mpfr.Set.Rounded.{IsStored}
use mpfr.Set.Correct.{extended, skipped, set4-IsStored}

-- Between two multiples of `d` there is at least `d`.
same_multiple : (q u d : ℕ) → q * d < u * d + d → u * d < q * d + d → u ≡ q
same_multiple q u d h h' = elim (dec_lt u q) [
  | yes low ↦
      let step : (u + 1) * d ≤ q * d = mul-le-mul_right {m = u + 1} {n = q} d (omega arith) in
      absurd (omega (arith, h, step))
  | no high ↦ elim (dec_lt q u) [
    | yes low ↦
        let step : (q + 1) * d ≤ u * d = mul-le-mul_right {m = q + 1} {n = u} d (omega arith) in
        absurd (omega (arith, h', step))
    | no level ↦ omega arith
  ]
]

-- A multiple of the unit is rounded to itself.
pub RoundsTo-exact :
    (rnd : Rnd) (neg : Bool) (q d u : ℕ) → 0 < d → RoundsTo rnd neg (q * d) d u → u ≡ q
RoundsTo-exact rndn neg q d u pos_d h = same_multiple q u d (omega (arith, h)) (omega (arith, h))
RoundsTo-exact rndz neg q d u pos_d h = same_multiple q u d (omega (arith, h)) (omega (arith, h))
RoundsTo-exact rndu true q d u pos_d h = same_multiple q u d (omega (arith, h)) (omega (arith, h))
RoundsTo-exact rndu false q d u pos_d h = same_multiple q u d (omega (arith, h)) (omega (arith, h))
RoundsTo-exact rndd true q d u pos_d h = same_multiple q u d (omega (arith, h)) (omega (arith, h))
RoundsTo-exact rndd false q d u pos_d h = same_multiple q u d (omega (arith, h)) (omega (arith, h))
RoundsTo-exact rnda neg q d u pos_d h = same_multiple q u d (omega (arith, h)) (omega (arith, h))
RoundsTo-exact rndf neg q d u pos_d h = same_multiple q u d (omega (arith, h)) (omega (arith, h))
RoundsTo-exact rndna neg q d u pos_d h = same_multiple q u d (omega (arith, h)) (omega (arith, h))

no_sign : (s : Sign) (n : ℕ) → with_sign s (compare_int n n) ≡ pos 0
no_sign plus n = ground arith
no_sign minus n = ground arith

ternary_exact :
    (rnd : Rnd) (s : Sign) (x d u : ℕ) (t : ℤ)
    → is_rndf rnd ≡ false
    → u * d ≡ x
    → IsTernary rnd s x d u t
    → t ≡ pos 0
ternary_exact rnd s x d u t decided exact h =
    let value : t ≡ with_sign s (compare_int (u * d) x) =
      subst (λ v. if v then Unit {0} else (t ≡ with_sign s (compare_int (u * d) x))) decided h in
    value ∙ ap (λ v. with_sign s (compare_int v x)) exact ∙ no_sign s x

-- A rounding of a multiple of the unit that stays below the next power of two.
stored_exact :
    (a : Mpfr) (rnd : Rnd) (q d : ℕ) (ax : ℤ) (sh n : ℕ) (e : Env) (r : Out)
    → is_rndf rnd ≡ false
    → 0 < d
    → q * 2 ^ sh < 2 ^ (64 * n)
    → ax ≤ℤ e.emax
    → IsStored a rnd (q * d) d ax sh n e r
    → (r.x.exp ≡ num ax)
      × (r.x.sign ≡ a.sign)
      × (r.x.prec ≡ a.prec)
      × (low_value r.x.mant n ≡ q * 2 ^ sh)
      × (r.inex ≡ pos 0)
      × (r.env ≡ e)
stored_exact a rnd q d ax sh n e r decided pos_d small in_range h =
    let same : h.units ≡ q = RoundsTo-exact rnd (is_neg a.sign) q d h.units pos_d h.rounds in
    let part : (h.units * 2 ^ sh == 2 ^ (64 * n)) ≡ false = rw same (ground arith) in
    let (exponent, value, sign, prec, ternary, env) = h.fits (rw part in_range) in
    let whole : 2 * low_value r.x.mant n ≡ 2 * (q * 2 ^ sh) =
      subst (λ t. 2 * low_value r.x.mant n ≡ 2 * (t * 2 ^ sh)) same
        (value ∙ ap (λ t. if t then 2 ^ (64 * n) else 2 * (h.units * 2 ^ sh)) part) in
    let none : r.inex ≡ pos 0 =
      ternary_exact rnd a.sign (q * d) d h.units r.inex decided (ap (λ t. t * d) same) ternary in
    (
      exponent ∙ ap (λ t. num (if t then ax +ℤ pos 1 else ax)) part,
      sign,
      prec,
      omega (arith, whole),
      none,
      env ∙ ap (λ t. settle t e) none,
    )

IsStored-same :
    (a : Mpfr) (rnd : Rnd) (ax : ℤ) (e : Env) (r : Out) {x y d u sh t n m : ℕ}
    → x ≡ y
    → d ≡ u
    → sh ≡ t
    → n ≡ m
    → IsStored a rnd x d ax sh n e r
    → IsStored a rnd y u ax t m e r
IsStored-same a rnd ax e r {x} {y} {d} {u} {sh} {t} {n} {m} same_x same_d same_sh same_n h =
    subst (λ v. IsStored a rnd y u ax t v e r) same_n
      (subst (λ v. IsStored a rnd y u ax v n e r) same_sh
        (subst (λ v. IsStored a rnd y v ax sh n e r) same_d
          (subst (λ v. IsStored a rnd v d ax sh n e r) same_x h)))

-- What `mpfr_set4` to more limbs or bits stores.
widened :
    (g : Mpn) (a b : Mpfr) (rnd : Rnd) (s : Sign) (e : Env) (bx : ℤ)
    → b.exp ≡ num bx
    → b.prec < a.prec
    → set4 g a b rnd s e ≡ record {
      x = record a {
        exp = num bx;
        sign = s;
        mant = replicate (prec2limbs a.prec - prec2limbs b.prec) 0 ++ b.mant;
      };
      inex = pos 0;
      env = e;
    }
unfolding set4 set4_field rndraw
widened g a b rnd s e bx exponent wider =
    let unequal : (b.prec == a.prec) ≡ false = ground arith in
    let fits : leb b.prec a.prec ≡ true = ground arith in rw (exponent, unequal, fits) refl

module _ (a b : Mpfr) (bx : ℤ) (s : Sign) (h : IsRegular b bx)
    (sized : length b.mant ≡ prec2limbs b.prec) (wider : b.prec < a.prec) where
  abbrev k : ℕ
  k = prec2limbs a.prec - prec2limbs b.prec

  abbrev wide : Mpfr
  wide = record a { exp = num bx; sign = s; mant = replicate k 0 ++ b.mant }

  limb : (i : ℕ) → (if ltb i k then 0 else get_or b.mant (i - k) 0) < 2 ^ 64
  limb i = elim (dec_lt i k) [
    | yes low ↦ rw (lt→ltb i k low) (omega arith)
    | no high ↦ rw (ge→ltb i k (omega (arith, high))) (h.limbs (i - k))
  ]

  inside : ltb (prec2limbs a.prec - 1) k ≡ false
  inside = ge→ltb _ _ (omega arith)

  position : (prec2limbs a.prec - 1) - k ≡ prec2limbs b.prec - 1
  position = omega arith

  wide-IsRegular : IsRegular wide bx
  wide-IsRegular = record {
    exponent = refl;
    limbs = λ i. rw (get_replicated k 0 b.mant i) (limb i);
    normalized =
        rw (get_replicated k 0 b.mant (prec2limbs a.prec - 1), inside, position) h.normalized;
  }

  wide_length : length wide.mant ≡ prec2limbs a.prec
  wide_length =
      length-append (replicate k 0) b.mant ∙ rw (length-replicate {A = ℕ} k 0, sized) (omega arith)

-- A regular number of precision at least 1, whose unused bits are clear and whose exponent is at
-- most `emax`, copied by `mpfr_set4` to a larger precision and from there back to its own: the
-- first copy, in any rounding mode, has a ternary value of 0 and leaves the flags; the second, in
-- any mode but RNDF and RNDNA, gives back the exponent and the limbs' value with the sign that is
-- asked for, again with a ternary value of 0 and no flag.
pub set4-set4 :
    (g : Mpn) (a b c : Mpfr) (rnd rnd' : Rnd) (s s' : Sign) (e : Env) (bx : ℤ) (q : ℕ)
    → IsMpn g
    → rnd' ≢ rndna
    → is_rndf rnd' ≡ false
    → IsRegular b bx
    → length b.mant ≡ prec2limbs b.prec
    → low_value b.mant (prec2limbs b.prec) ≡ q * 2 ^ unused_bits b
    → 0 < b.prec
    → b.prec < a.prec
    → c.prec ≡ b.prec
    → bx ≤ℤ e.emax
    → let w = set4 g a b rnd s e in
      let r = set4 g c w.x rnd' s' w.env in
      (w.inex ≡ pos 0)
      × (w.env ≡ e)
      × (r.x.exp ≡ num bx)
      × (r.x.sign ≡ s')
      × (r.x.prec ≡ b.prec)
      × (low_value r.x.mant (prec2limbs b.prec) ≡ low_value b.mant (prec2limbs b.prec))
      × (r.inex ≡ pos 0)
      × (r.env ≡ e)
set4-set4 g a b c rnd rnd' s s' e bx q laws supported decided h sized clear pos_b wider back
      in_range =
    let w = wide a b bx s h sized wider in
    let c' = record c { sign = s' } in
    let n = prec2limbs b.prec in
    let i = k a b bx s h sized wider in
    let size : prec2limbs a.prec ≡ i + n = omega arith in
    let small : q * 2 ^ unused_bits b < 2 ^ (64 * n) =
      subst (λ v. v < 2 ^ (64 * n)) clear (low_value-lt b.mant n h.limbs) in
    let scaled : low_value w.mant (prec2limbs a.prec) ≡ q * (2 ^ unused_bits b * 2 ^ (64 * i)) =
      ap (low_value w.mant) size
      ∙ extended i n b.mant
      ∙ ap (λ v. v * 2 ^ (64 * i)) clear
      ∙ omega arith in
    let r = set4 g c w rnd' s' e in
    let stored : IsStored c' rnd' (low_value w.mant (prec2limbs a.prec))
        (2 ^ unused_bits c * 2 ^ (64 * skipped c w)) bx (unused_bits c) (prec2limbs c.prec) e r =
      set4-IsStored g c w rnd' s' e bx laws supported (wide-IsRegular a b bx s h sized wider)
        (wide_length a b bx s h sized wider) (omega arith) (omega arith) in_range in
    let units = 2 ^ unused_bits b * 2 ^ (64 * i) in
    let same_units : 2 ^ unused_bits c * 2 ^ (64 * skipped c w) ≡ units =
      ap
        (λ p.
          2 ^ unused_bits (record c { prec = p }) * 2 ^ (64 * (prec2limbs a.prec - prec2limbs p)))
        back in
    let positive : 0 < units = rw (sym (pow-add (unused_bits b) (64 * i))) (pow-pos _) in
    let (exponent, sign, prec, value, none, same_env) =
      stored_exact c' rnd' q units bx (unused_bits b) n e r decided positive small in_range (
        IsStored-same c' rnd' bx e r scaled same_units
          (ap (λ p. unused_bits (record c { prec = p })) back) (ap prec2limbs back) stored) in
    rw (widened g a b rnd s e bx h.exponent wider)
      (refl, refl, exponent, sign, prec ∙ back, value ∙ sym clear, none, same_env)
