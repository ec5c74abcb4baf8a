-- ===== src/Round/Bits.antt =====
-- The bits that `mpfr_round_raw_generic` looks at capture the significand.
use mpfr.Base.{
  ℕ, zero, suc, ◌+◌, ◌-◌, ◌*◌, ◌/◌, ◌%◌, ◌^◌, ◌<◌, ◌≡◌, ◌↔◌, refl, sym, ap, ◌∙◌, arith, List,
  get_or, drop, bit_and, Bool,
}
use mpfr.Words.{shl, low_split, masked_bit, cleared_bit}
use mpfr.Words.Value.{low_value, get-drop, IsLimbs}
use mpfr.Types.{Rnd}
use mpfr.Rounding.Decision.{Captures, IsEvenFlag}
use mpfr.Rounding.Cut.{add-eq-zero}
use mpfr.Set.{sticky_down}
use mpfr.Set.Sticky.{sticky_down_lem, inner-Captures, outer-Captures}
use mpfr.Set.Masked.{unit_bit-IsEvenFlag}
use mpfr.Round.{kept_limbs, raw_choice}
use mpfr.Round.Masks.{cut_bits, and_lomask, last_bit}
use mpfr.Round.Decide.{decide}

module _ (xp : List ℕ) (limbs : IsLimbs xp) (xsize yprec : ℕ) (some : 0 < yprec)
    (shorter : yprec < 64 * xsize) where
  abbrev pub r : ℕ
  r = yprec % 64

  abbrev pub sh : ℕ
  sh = cut_bits r

  abbrev pub n : ℕ
  n = (yprec - 1) / 64

  abbrev pub skip : ℕ
  skip = xsize - suc n

  -- The limb of the round bit, and its place.
  abbrev k : ℕ
  k = xsize - yprec / 64 - 1

  abbrev j : ℕ
  j = 63 - r

  abbrev w : ℕ
  w = get_or xp k 0

  pub kept_lem : kept_limbs yprec ≡ suc n
  kept_lem = ground arith

  abbrev pub round_bit : ℕ
  round_bit = bit_and w (shl 1 j)

  abbrev pub sticky : ℕ
  sticky = sticky_down xp k (w % 2 ^ j)

  abbrev pub below : ℕ
  below = sticky_down xp k (w % 2 ^ suc j)

  abbrev pub odd : ℕ
  odd = bit_and (get_or xp skip 0) (2 ^ sh)

  abbrev pub units : ℕ
  units = low_value (drop skip xp) (suc n) / 2 ^ sh

  pub raw_Captures :
      Captures (low_value xp (skip + suc n)) (2 ^ sh * 2 ^ (64 * skip)) units round_bit sticky
  raw_Captures = at_rest r refl
    where
      at_rest :
          (t : ℕ)
          → r ≡ t
          → Captures (low_value xp (skip + suc n)) (2 ^ sh * 2 ^ (64 * skip)) units round_bit sticky
      at_rest zero e =
          let whole : skip ≡ suc k = omega (arith, e) in
          let none : sh ≡ 0 = omega (arith, e) in
          let place : j ≡ 63 = omega (arith, e) in
          let same : low_value (drop skip xp) (suc n) / 1 ≡ low_value (drop skip xp) (suc n) =
            omega arith in
          rw (none, place, same)
            (outer-Captures xp limbs skip n k (sticky_down xp k (w % 2 ^ 63)) whole
              (sticky_down_lem xp k (w % 2 ^ 63)))
      at_rest (suc t) e =
          let same : k ≡ skip = omega (arith, e) in
          let bits : sh ≡ suc j = omega (arith, e) in
          rw (bits, same)
            (inner-Captures xp limbs skip n j (sticky_down xp skip (get_or xp skip 0 % 2 ^ j))
              (omega (arith, e)) (sticky_down_lem xp skip (get_or xp skip 0 % 2 ^ j)))

  pub both_zero : (below ≡ 0) ↔ ((round_bit ≡ 0) × (sticky ≡ 0))
  both_zero =
      let all = sticky_down_lem xp k (w % 2 ^ suc j) in
      let rest = sticky_down_lem xp k (w % 2 ^ j) in
      let split = low_split w j (omega arith) in
      (
        λ z.
            let (top, low) = add-eq-zero (w % 2 ^ suc j) (low_value xp k) (all.0 z) in
            let (bit, under) = add-eq-zero round_bit (w % 2 ^ j) (omega (arith, split, top)) in
            (bit, rest.1 (omega (arith, under, low))),
        λ h.
            let (under, low) = add-eq-zero (w % 2 ^ j) (low_value xp k) (rest.0 h.1) in
            all.1 (omega (arith, split, h.0, under, low)),
      )

  pub odd-IsEvenFlag : IsEvenFlag odd units
  odd-IsEvenFlag =
      let e : skip + 0 ≡ skip = omega arith in
      let first : get_or (drop skip xp) 0 0 ≡ get_or xp skip 0 =
        get-drop skip xp 0 ∙ ap (λ t. get_or xp t 0) e in
      rw (sym first) (unit_bit-IsEvenFlag (drop skip xp) n sh (omega arith))

  pub raw_choice_lem :
      (rnd : Rnd) (neg : Bool)
      → raw_choice rnd neg xp xsize yprec ≡ decide rnd neg round_bit sticky below odd
  unfolding raw_choice
  raw_choice_lem rnd neg = rw (
    kept_lem,
    and_lomask w r (omega arith) (limbs k),
    masked_bit w j (omega arith),
    cleared_bit w j (omega arith),
    last_bit r (omega arith),
  )
