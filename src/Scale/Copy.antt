-- ===== src/Scale/Copy.antt =====
-- `MPFR_SETRAW` copies as `mpfr_set4` does where the exponent range is not left.
use native.Mathlib.Nat.{div-add-mod'}
use native.Mathlib.Decide.{ℕ_discrete}
use mpfr.Base.{
  ℕ, zero, suc, pow-pos, ◌^◌, ◌<◌, ◌≡◌, refl, arith, List, [], ◌∷◌, ◌++◌, set, replicate, leb, ◌==◌,
  ==_iff, Bool, true, false, Bool-cases, inl, inr, ℤ, pos, ◌+ℤ◌, ◌≤ℤ◌, ltb_ℤ, ltb_ℤ_of_le, +ℤ_parts,
}
use mpfr.Words.{limb_highbit, lsub, limb_mask, limb_mask_lem, and_not_mask, pow-lt-limb}
use mpfr.Words.Value.{IsLimbs, drop-IsLimbs}
use mpfr.Words.Update.{set-IsLimbs}
use mpfr.Types.{Rnd, num, Mpfr, Env, Out, ret}
use mpfr.Rounding.{Verdict, exact, truncate, add_one_ulp}
use mpfr.Next.{Mpn, unused_bits, last_limb}
use mpfr.Next.Neighbour.{IsMpn}
use mpfr.Set.Sticky.{round_bits-ulp}
use mpfr.Set.{mask_first, rndraw, store_rndraw, set4_field, set4}
use mpfr.Scale.{Raw, store_setraw, setraw_round, setraw}

-- What is returned for the variables.
abbrev pub delivered : Raw → Env → Out
delivered r e = ret (record r.x { exp = num r.exp }) r.inex e

zeros-IsLimbs : (k : ℕ) (p : List ℕ) → IsLimbs p → IsLimbs (replicate k 0 ++ p)
zeros-IsLimbs zero p h i = h i
zeros-IsLimbs (suc k) p h zero = omega arith
zeros-IsLimbs (suc k) p h (suc i) = zeros-IsLimbs k p h i

module _ (g : Mpn) where
  store_lem :
      (v : Verdict) (a : Mpfr) (rnd : Rnd) (ax : ℤ) (sp : List ℕ) (ulp : ℕ) (e : Env)
      → ax +ℤ pos 1 ≤ℤ e.emax
      → store_rndraw g v a rnd ax sp ulp e ≡ delivered (store_setraw g v a ax sp ulp) e
  unfolding store_rndraw store_setraw
  store_lem exact a rnd ax sp ulp e h = refl
  store_lem truncate a rnd ax sp ulp e h = refl
  store_lem add_one_ulp a rnd ax sp ulp e h =
      let inside : ltb_ℤ e.emax (ax +ℤ pos 1) ≡ false = ltb_ℤ_of_le (ax +ℤ pos 1) e.emax h in
      elim (Bool-cases ((g.add_1 sp ulp).1 == 0)) [
        | inl none ↦ rw none refl
        | inr some ↦ rw (some, inside) refl
      ]

  -- For a number of exponent `bx`, where `bx + 1` is still in range, `mpfr_set4` with its sign delivers
  -- the significand, the exponent and the ternary value of `MPFR_SETRAW`.
  pub setraw-set4 :
      (y x : Mpfr) (rnd : Rnd) (e : Env) (bx : ℤ)
      → x.exp ≡ num bx
      → bx +ℤ pos 1 ≤ℤ e.emax
      → set4 g y x rnd x.sign e ≡ delivered (setraw g false y x bx rnd) e
  unfolding set4 set4_field rndraw setraw setraw_round
  setraw-set4 y x rnd e bx exponent h = elim (ℕ_discrete x.prec y.prec) [
    | yes same ↦
        let equal : (y.prec == y.prec) ≡ true = (==_iff y.prec y.prec).1 refl in
        rw (exponent, same, equal) refl
    | no differ ↦
        let unequal : (x.prec == y.prec) ≡ false = ground arith in
        let unequal' : (y.prec == x.prec) ≡ false = ground arith in
        elim (Bool-cases (leb x.prec y.prec)) [
          | inl wide ↦ rw (exponent, unequal, unequal', wide) refl
          | inr narrow ↦
              rw (exponent, unequal, unequal', narrow)
                (store_lem _ (record y { sign = x.sign }) rnd bx _ _ e h)
        ]
  ]

  -- The limbs are below 2 ^ 64.
  module _ (laws : IsMpn g) where
    mask_first-IsLimbs :
        (p : List ℕ) (sh : ℕ) → sh < 64 → IsLimbs p → IsLimbs (mask_first (2 ^ sh) p)
    unfolding mask_first
    mask_first-IsLimbs [] sh narrow h i = h i
    mask_first-IsLimbs (y ∷ ys) sh narrow h zero =
        let mask : lsub (2 ^ sh) 1 ≡ limb_mask sh =
          rw (limb_mask_lem sh narrow) (omega (arith, pow-pos sh, pow-lt-limb sh narrow)) in
        rw (mask, and_not_mask y sh narrow (h 0)) (omega (arith, h 0, div-add-mod' y (2 ^ sh)))
    mask_first-IsLimbs (y ∷ ys) sh narrow h (suc i) = h (suc i)

    store-IsLimbs :
        (v : Verdict) (a : Mpfr) (ax : ℤ) (sp : List ℕ) (sh : ℕ)
        → sh < 64
        → IsLimbs sp
        → IsLimbs (store_setraw g v a ax sp (2 ^ sh)).x.mant
    unfolding store_setraw
    store-IsLimbs exact a ax sp sh narrow h = mask_first-IsLimbs sp sh narrow h
    store-IsLimbs truncate a ax sp sh narrow h = mask_first-IsLimbs sp sh narrow h
    store-IsLimbs add_one_ulp a ax sp sh narrow h =
        let sum = laws.add_limbs sp (2 ^ sh) h (pow-lt-limb sh narrow) in
        elim (Bool-cases ((g.add_1 sp (2 ^ sh)).1 == 0)) [
          | inl none ↦ rw none (mask_first-IsLimbs (g.add_1 sp (2 ^ sh)).0 sh narrow sum)
          | inr some ↦ rw some (
              mask_first-IsLimbs (set (g.add_1 sp (2 ^ sh)).0 (last_limb a) limb_highbit) sh narrow
                (set-IsLimbs (g.add_1 sp (2 ^ sh)).0 (last_limb a) limb_highbit sum (omega arith)))
        ]

    pub setraw-IsLimbs :
        (y x : Mpfr) (rnd : Rnd) (bx : ℤ)
        → IsLimbs x.mant
        → IsLimbs (setraw g false y x bx rnd).x.mant
    unfolding setraw setraw_round
    setraw-IsLimbs y x rnd bx h = elim (ℕ_discrete y.prec x.prec) [
      | yes same ↦ rw ((==_iff _ _).1 same) h
      | no differ ↦
          let unequal : (y.prec == x.prec) ≡ false = ground arith in
          elim (Bool-cases (leb x.prec y.prec)) [
            | inl wide ↦ rw (unequal, wide) (zeros-IsLimbs _ x.mant h)
            | inr narrow ↦
                rw (unequal, narrow, round_bits-ulp rnd x.mant h _ 0 (unused_bits y) (omega arith))
                  (store-IsLimbs _ _ bx _ (unused_bits y) (omega arith) (drop-IsLimbs _ x.mant h))
          ]
    ]

    -- The exponent grows by one at most.
    abbrev IsStep : ℤ → ℤ → Type 0
    IsStep bx z = (bx ≤ℤ z) × (z ≤ℤ bx +ℤ pos 1)

    same-IsStep : (bx : ℤ) → IsStep bx bx
    same-IsStep bx = omega (arith, +ℤ_parts bx (pos 1))

    next-IsStep : (bx : ℤ) → IsStep bx (bx +ℤ pos 1)
    next-IsStep bx = omega (arith, +ℤ_parts bx (pos 1))

    store_exp :
        (v : Verdict) (a : Mpfr) (bx : ℤ) (sp : List ℕ) (ulp : ℕ)
        → IsStep bx (store_setraw g v a bx sp ulp).exp
    unfolding store_setraw
    store_exp exact a bx sp ulp = same-IsStep bx
    store_exp truncate a bx sp ulp = same-IsStep bx
    store_exp add_one_ulp a bx sp ulp = elim (Bool-cases ((g.add_1 sp ulp).1 == 0)) [
      | inl none ↦ rw none (same-IsStep bx)
      | inr some ↦ rw some (next-IsStep bx)
    ]

    pub setraw_exp :
        (same : Bool) (y x : Mpfr) (rnd : Rnd) (bx : ℤ)
        → (bx ≤ℤ (setraw g same y x bx rnd).exp) × ((setraw g same y x bx rnd).exp ≤ℤ bx +ℤ pos 1)
    unfolding setraw setraw_round
    setraw_exp true y x rnd bx = same-IsStep bx
    setraw_exp false y x rnd bx = elim (Bool-cases (y.prec == x.prec)) [
      | inl same ↦ rw same (same-IsStep bx)
      | inr differ ↦ elim (Bool-cases (leb x.prec y.prec)) [
        | inl wide ↦ rw (differ, wide) (same-IsStep bx)
        | inr narrow ↦ rw (differ, narrow) (store_exp _ _ bx _ _)
      ]
    ]
