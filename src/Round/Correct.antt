-- ===== src/Round/Correct.antt =====
-- `mpfr_round_raw` rounds correctly, in any number of limbs.
use mathlib.Core.Path.{subst}
use native.Mathlib.Nat.{div-add-mod'}
use mpfr.Base.{
  ℕ, suc, ◌+◌, ◌-◌, ◌*◌, ◌/◌, ◌%◌, ◌^◌, ◌≤◌, ◌<◌, ◌≡◌, ◌≢◌, refl, ap, ◌∙◌, arith, List, drop,
  length, length-drop, leb, if◌then◌else◌, Bool, false, Bool-cases, inl, inr, ℤ,
}
use mpfr.Words.{pow-lt-limb}
use mpfr.Words.Value.{low_value, low_value-lt, drop-IsLimbs, IsLimbs}
use mpfr.Types.{Rnd, rndn, rndz, rndu, rndd, rnda, rndf, rndna, is_rndf, prec2limbs}
use mpfr.Rounding.Spec.{RoundsTo}
use mpfr.Next.{Mpn}
use mpfr.Next.Neighbour.{IsMpn}
use mpfr.Set.Masked.{mask_first_lem, sum_masked, room}
use mpfr.Round.{
  Choice, toward_zero, RawOut, mask_low, himask, rest_bits, kept_limbs, raw_choice,
  round_raw_generic, round_raw,
}
use mpfr.Round.Masks.{cut_bits, mask_low-mask_first, unit_lem}
use mpfr.Round.Decide.{raw_inex, chosen, decide_rounds, decide_inexp}
use mpfr.Round.Bits.{kept_lem, raw_Captures, both_zero, odd-IsEvenFlag, raw_choice_lem}

-- `r` is the rounding of the exact significand `x` in units of `d`, of which the lowest of the `n`
-- limbs has `sh` bits unused: the limbs and the carry are the units, and `*inexp` their ternary value.
pub record IsRawRounding (rnd : Rnd) (neg : Bool) (x d sh n : ℕ) (r : RawOut) : Type 0 where
  pub units : ℕ
  pub rounds : RoundsTo rnd neg x d units
  pub value : low_value r.limbs n + r.carry * 2 ^ (64 * n) ≡ units * 2 ^ sh
  pub below : low_value r.limbs n < 2 ^ (64 * n)
  pub fits : units * 2 ^ sh ≤ 2 ^ (64 * n)
  pub inexp : is_rndf rnd ≡ false → rnd ≢ rndna → r.inexp ≡ raw_inex rnd neg x d units

module _ (g : Mpn) (laws : IsMpn g) (xp : List ℕ) (limbs : IsLimbs xp) (n skip yprec : ℕ)
    (sized : length xp ≡ skip + suc n) (some : 0 < yprec) (last : n ≡ (yprec - 1) / 64) where
  abbrev pub r : ℕ
  r = yprec % 64

  abbrev pub sh : ℕ
  sh = cut_bits r

  abbrev pub src : List ℕ
  src = drop skip xp

  abbrev pub value : ℕ
  value = low_value src (suc n)

  abbrev pub q : ℕ
  q = value / 2 ^ sh

  src_limbs : IsLimbs src
  src_limbs = drop-IsLimbs skip xp limbs

  src_sized : length src ≡ suc n
  src_sized = length-drop skip xp ∙ omega (arith, sized)

  -- The limbs that are kept, cut at the unit.
  cut_value : low_value (mask_low (himask r) src) (suc n) ≡ q * 2 ^ sh
  cut_value =
      rw (mask_low-mask_first r src (omega arith)) (mask_first_lem src n sh src_limbs (omega arith))

  cut_fits : q * 2 ^ sh ≤ 2 ^ (64 * suc n)
  cut_fits = omega (arith, div-add-mod' value (2 ^ sh), low_value-lt src (suc n) src_limbs)

  cut_below : low_value (mask_low (himask r) src) (suc n) < 2 ^ (64 * suc n)
  cut_below =
      omega (arith, cut_value, div-add-mod' value (2 ^ sh), low_value-lt src (suc n) src_limbs)

  abbrev pub sum : List ℕ × ℕ
  sum = g.add_1 src (2 ^ sh)

  sum_lem :
      low_value (mask_low (himask r) sum.0) (suc n) + sum.1 * 2 ^ (64 * suc n) ≡ (q + 1) * 2 ^ sh
  sum_lem =
      rw (mask_low-mask_first r sum.0 (omega arith))
        (sum_masked g laws src n sh src_limbs src_sized (omega arith))

  sum_fits : (q + 1) * 2 ^ sh ≤ 2 ^ (64 * suc n)
  sum_fits = omega (arith, room g laws src n sh src_limbs src_sized (omega arith))

  sum_below : low_value (mask_low (himask r) sum.0) (suc n) < 2 ^ (64 * suc n)
  sum_below =
      let carried = laws.add_limbs src (2 ^ sh) src_limbs (pow-lt-limb sh (omega arith)) in
      let s = low_value sum.0 (suc n) in
      rw
        (mask_low-mask_first r sum.0 (omega arith), mask_first_lem sum.0 n sh carried (omega arith))
        (omega (arith, div-add-mod' s (2 ^ sh), low_value-lt sum.0 (suc n) carried))

  -- What is stored for a choice.
  abbrev pub store : Choice → ℤ → RawOut
  store c t =
      if c.up
      then record { limbs = mask_low (himask r) sum.0; carry = sum.1; inexp = t }
      else record { limbs = mask_low (himask r) src; carry = 0; inexp = t }

  store-IsRawRounding :
      (rnd : Rnd) (neg : Bool) (x d : ℕ) (c : Choice) (t : ℤ)
      → RoundsTo rnd neg x d (chosen c q)
      → (is_rndf rnd ≡ false → rnd ≢ rndna → t ≡ raw_inex rnd neg x d (chosen c q))
      → IsRawRounding rnd neg x d sh (suc n) (store c t)
  store-IsRawRounding rnd neg x d c t rounds inexp = elim (Bool-cases c.up) [
    | inl up ↦
        let whole : chosen c q ≡ q + 1 = rw up in
        rw up (record {
          units = q + 1;
          rounds = subst (RoundsTo rnd neg x d) whole rounds;
          value = sum_lem;
          below = sum_below;
          fits = sum_fits;
          inexp = λ h k. inexp h k ∙ ap (raw_inex rnd neg x d) whole;
        })
    | inr down ↦
        let whole : chosen c q ≡ q = rw down in
        rw down (record {
          units = q;
          rounds = subst (RoundsTo rnd neg x d) whole rounds;
          value = omega (arith, cut_value);
          below = cut_below;
          fits = cut_fits;
          inexp = λ h k. inexp h k ∙ ap (raw_inex rnd neg x d) whole;
        })
  ]

  pub store_value :
      (c : Choice) (t : ℤ)
      → low_value (store c t).limbs (suc n) + (store c t).carry * 2 ^ (64 * suc n)
        ≡ chosen c q * 2 ^ sh
  store_value c t = elim (Bool-cases c.up) [
    | inl up ↦ rw up sum_lem
    | inr down ↦ rw down (omega (arith, cut_value))
  ]

module _ (g : Mpn) (laws : IsMpn g) (xp : List ℕ) (xprec yprec : ℕ) (neg : Bool)
    (limbs : IsLimbs xp) (sized : length xp ≡ prec2limbs xprec) (some : 0 < yprec)
    (less : yprec < xprec) where
  abbrev pub xsize : ℕ
  xsize = prec2limbs xprec

  pub shorter : yprec < 64 * xsize
  shorter = omega arith

  abbrev pub high : ℕ
  high = (yprec - 1) / 64

  abbrev pub below_high : ℕ
  below_high = xsize - suc high

  pub parts : length xp ≡ below_high + suc high
  parts = omega (arith, sized)

  abbrev exact : ℕ
  exact = low_value xp (below_high + suc high)

  abbrev ulp : ℕ
  ulp = 2 ^ cut_bits (yprec % 64) * 2 ^ (64 * below_high)

  abbrev pub choice : Rnd → Choice
  choice rnd = raw_choice rnd neg xp xsize yprec

  choice_rounds :
      (rnd : Rnd)
      → rnd ≢ rndf
      → RoundsTo rnd neg exact ulp
          (chosen (choice rnd) (q g laws xp limbs high below_high yprec parts some refl))
  choice_rounds rnd h = rw (raw_choice_lem xp limbs xsize yprec some shorter rnd neg) (
      decide_rounds _ _ _ _ _ _ _ (raw_Captures xp limbs xsize yprec some shorter)
        (odd-IsEvenFlag xp limbs xsize yprec some shorter)
        (both_zero xp limbs xsize yprec some shorter) rnd neg h)

  choice_inexp :
      (rnd : Rnd)
      → rnd ≢ rndf
      → rnd ≢ rndna
      → (choice rnd).inexp
        ≡ raw_inex rnd neg exact ulp
            (chosen (choice rnd) (q g laws xp limbs high below_high yprec parts some refl))
  choice_inexp rnd h k = rw (raw_choice_lem xp limbs xsize yprec some shorter rnd neg) (
      decide_inexp _ _ _ _ _ _ _ (raw_Captures xp limbs xsize yprec some shorter)
        (odd-IsEvenFlag xp limbs xsize yprec some shorter)
        (both_zero xp limbs xsize yprec some shorter) rnd neg h k)

  abbrev pub kept : ℕ
  kept = suc high

  -- Every mode but RNDF makes the choice.
  chosen_store :
      (rnd : Rnd)
      → rnd ≢ rndf
      → is_rndf rnd ≡ false
      → IsRawRounding rnd neg exact ulp
          (cut_bits (yprec % 64))
          kept
          (round_raw g xp xprec neg yprec rnd)
  unfolding round_raw round_raw_generic
  chosen_store rnd h plain =
      let longer : leb xprec yprec ≡ false = ground arith in
      rw
        (
          longer,
          plain,
          kept_lem xp limbs xsize yprec some shorter,
          unit_lem (yprec % 64) (omega arith),
        )
        (store-IsRawRounding g laws xp limbs high below_high yprec parts some refl rnd neg exact ulp
          (choice rnd) (choice rnd).inexp (choice_rounds rnd h) (λ _ k. choice_inexp rnd h k))

  pub round_raw_value :
      (rnd : Rnd)
      → is_rndf rnd ≡ false
      → low_value (round_raw g xp xprec neg yprec rnd).limbs kept
          + (round_raw g xp xprec neg yprec rnd).carry * 2 ^ (64 * kept)
        ≡ chosen (choice rnd) (q g laws xp limbs high below_high yprec parts some refl)
          * 2 ^ cut_bits (yprec % 64)
  unfolding round_raw round_raw_generic
  round_raw_value rnd plain =
      let longer : leb xprec yprec ≡ false = ground arith in
      rw
        (
          longer,
          plain,
          kept_lem xp limbs xsize yprec some shorter,
          unit_lem (yprec % 64) (omega arith),
        )
        (store_value g laws xp limbs high below_high yprec parts some refl (choice rnd)
          (choice rnd).inexp)

  faithful :
      IsRawRounding rndf neg exact ulp
        (cut_bits (yprec % 64))
        kept
        (round_raw g xp xprec neg yprec rndf)
  unfolding round_raw round_raw_generic raw_choice toward_zero
  faithful =
      let longer : leb xprec yprec ≡ false = ground arith in
      rw (longer, kept_lem xp limbs xsize yprec some shorter)
        (record {
          units = q g laws xp limbs high below_high yprec parts some refl;
          rounds = omega (arith, choice_rounds rndz (cc));
          value = omega (arith, cut_value g laws xp limbs high below_high yprec parts some refl);
          below = cut_below g laws xp limbs high below_high yprec parts some refl;
          fits = cut_fits g laws xp limbs high below_high yprec parts some refl;
          inexp = λ h k. cc h;
        })

  each :
      (rnd : Rnd)
      → IsRawRounding rnd neg exact ulp
          (cut_bits (yprec % 64))
          kept
          (round_raw g xp xprec neg yprec rnd)
  each rndn = chosen_store rndn (cc) refl
  each rndz = chosen_store rndz (cc) refl
  each rndu = chosen_store rndu (cc) refl
  each rndd = chosen_store rndd (cc) refl
  each rnda = chosen_store rnda (cc) refl
  each rndf = faithful
  each rndna = chosen_store rndna (cc) refl

-- `mpfr_round_raw` of a significand of `xprec` bits to fewer, at least one, in every rounding mode:
-- the limbs and the carry are the correct rounding of the number that `xp` stands for, and `*inexp`
-- is its ternary value, doubled for a tie in RNDN; RNDF and RNDNA leave `*inexp` open.
pub round_raw-IsRawRounding :
    (g : Mpn) (xp : List ℕ) (xprec yprec : ℕ) (neg : Bool) (rnd : Rnd)
    → IsMpn g
    → IsLimbs xp
    → length xp ≡ prec2limbs xprec
    → 0 < yprec
    → yprec < xprec
    → IsRawRounding rnd neg
        (low_value xp (prec2limbs xprec))
        (2 ^ cut_bits (rest_bits yprec) * 2 ^ (64 * (prec2limbs xprec - kept_limbs yprec)))
        (cut_bits (rest_bits yprec))
        (kept_limbs yprec)
        (round_raw g xp xprec neg yprec rnd)
round_raw-IsRawRounding g xp xprec yprec neg rnd laws limbs sized some less =
    let count = kept_lem xp limbs (prec2limbs xprec) yprec some (omega arith) in
    let whole : prec2limbs xprec - suc ((yprec - 1) / 64) + suc ((yprec - 1) / 64)
        ≡ prec2limbs xprec =
      omega arith in
    rw count (
      subst
        (λ t.
          IsRawRounding rnd neg (low_value xp t)
            (2 ^ cut_bits (yprec % 64) * 2 ^ (64 * (prec2limbs xprec - suc ((yprec - 1) / 64))))
            (cut_bits (yprec % 64)) (suc ((yprec - 1) / 64)) (round_raw g xp xprec neg yprec rnd))
        whole (each g laws xp xprec yprec neg limbs sized some less rnd))
