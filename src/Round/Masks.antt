-- ===== src/Round/Masks.antt =====
-- The masks of `mpfr_round_raw_generic`, as numbers: `rw` bits are kept of the lowest limb.
use native.Mathlib.Nat.{mod-eq_of_lt}
use mpfr.Base.{
  ℕ, zero, suc, ◌+◌, ◌-◌, ◌*◌, ◌%◌, ◌^◌, ◌<◌, ◌≡◌, refl, sym, ap, ◌∙◌, arith, List, [], ◌∷◌, ◌==◌,
  bit_and, bit_xor, pow-pos, pow-split, mod_unique, false, if◌then◌else◌,
}
use mpfr.Words.{
  limb_mod, limb_mask, limb_mask_lem, shl, lsub, lnot, shl-one, pow-lt-limb, and_mask, and_low,
  xor_high, xor_lowest,
}
use mpfr.Set.{mask_first}
use mpfr.Round.{himask, lomask, mask_low}

-- The number of bits that are not kept.
abbrev pub cut_bits : ℕ → ℕ
cut_bits rw = (64 - rw) % 64

nonzero : (n : ℕ) → (suc n == 0) ≡ false
nonzero n = ground arith

pub and_lomask : (w r : ℕ) → r < 64 → w < limb_mod → bit_and w (lomask r) ≡ w % 2 ^ suc (63 - r)
unfolding lomask
and_lomask w zero h l =
    let e : 0 * 2 ^ 64 + w ≡ w = omega arith in
    ap (λ t. bit_and t (2 ^ 64 - 1)) (sym e) ∙ and_low 64 0 w l ∙ sym (mod-eq_of_lt l)
and_lomask w (suc r) h l =
    let e : 64 - suc r ≡ suc (63 - suc r) = omega arith in
    rw (nonzero r, e) (and_mask w (suc (63 - suc r)) (omega arith))

himask_lem : (r : ℕ) → r < 64 → himask r ≡ lnot (limb_mask (cut_bits r))
unfolding himask limb_mask
himask_lem zero h = refl
himask_lem (suc r) h = let e : (64 - suc r) % 64 ≡ 64 - suc r = omega arith in rw (nonzero r, e)

mask_as_sub : (sh : ℕ) → sh < 64 → lsub (2 ^ sh) 1 ≡ limb_mask sh
mask_as_sub sh h = rw (limb_mask_lem sh h) (omega (arith, pow-pos sh, pow-lt-limb sh h))

pub mask_low-mask_first :
    (r : ℕ) (p : List ℕ) → r < 64 → mask_low (himask r) p ≡ mask_first (2 ^ cut_bits r) p
unfolding mask_low mask_first
mask_low-mask_first r [] h = refl
mask_low-mask_first r (y ∷ ys) h = rw (himask_lem r h, mask_as_sub (cut_bits r) (omega arith))

pub unit_lem : (r : ℕ) → r < 64 → (if r == 0 then 1 else shl 1 (64 - r)) ≡ 2 ^ cut_bits r
unit_lem zero h = refl
unit_lem (suc r) h =
    let e : (64 - suc r) % 64 ≡ 64 - suc r = omega arith in
    rw (nonzero r, e, shl-one (64 - suc r) (omega arith))

-- `himask ^ (himask << 1)` is the lowest bit that is kept.
pub last_bit : (r : ℕ) → r < 64 → bit_xor (himask r) (shl (himask r) 1) ≡ 2 ^ cut_bits r
unfolding himask
last_bit zero h = refl
last_bit (suc r) h =
    let e : (64 - suc r) % 64 ≡ 64 - suc r = omega arith in
    rw (nonzero r, e, mask, shifted) (split ∙ rw (xor_lowest u) (omega arith))
  where
    sh : ℕ
    sh = 64 - suc r

    u : ℕ
    u = 2 ^ (63 - sh) - 1

    width : 2 ^ 63 ≡ 2 ^ (63 - sh) * 2 ^ sh
    width = pow-split 63 sh (omega arith) ∙ omega arith

    next : (u + 1) * 2 ^ sh ≡ 2 ^ 63
    next =
        let e : u + 1 ≡ 2 ^ (63 - sh) = omega (arith, pow-pos (63 - sh)) in
        ap (λ t. t * 2 ^ sh) e ∙ sym width

    mask : lnot (limb_mask sh) ≡ (u * 2 + 1) * 2 ^ sh
    mask = rw (limb_mask_lem sh (omega arith)) (omega (arith, next, pow-pos sh))

    shifted : shl ((u * 2 + 1) * 2 ^ sh) 1 ≡ u * 2 * 2 ^ sh
    shifted =
        mod_unique ((u * 2 + 1) * 2 ^ sh * 2) (2 ^ 64) 1 (u * 2 * 2 ^ sh) (omega (arith, next))
          (omega (arith, next, pow-pos sh))

    split : bit_xor ((u * 2 + 1) * 2 ^ sh) (u * 2 * 2 ^ sh) ≡ bit_xor (u * 2 + 1) (u * 2) * 2 ^ sh
    split =
        let e : (u * 2 + 1) * 2 ^ sh ≡ (u * 2 + 1) * 2 ^ sh + 0 = omega arith in
        ap (λ t. bit_xor t (u * 2 * 2 ^ sh)) e
        ∙ xor_high sh (u * 2 + 1) 0 (u * 2) (pow-pos sh)
        ∙ omega arith
