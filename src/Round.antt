-- ===== src/Round.antt =====
-- Rounding of significands of any number of limbs: `mpfr_round_raw_generic` (src/round_raw_generic.c),
-- which src/round_prec.c compiles three times, and `mpfr_prec_round` (src/round_prec.c). GMP's
-- `mpn_add_1` is a parameter.
pub mod Masks
pub mod Bits
pub mod Decide
pub mod Correct
pub mod Prec
pub mod Variants
mod Tests
use mpfr.Base.{
  ℕ, ◌+◌, ◌-◌, ◌*◌, ◌/◌, ◌%◌, List, [], ◌∷◌, ◌++◌, get_or, take, drop, replicate, leb, ◌==◌, not,
  ◌&&◌, ◌||◌, if◌then◌else◌, Bool, true, false, bit_and, bit_xor,
}
use mpfr.Base.{ℤ, pos, negsuc, neg_ℤ, ◌+ℤ◌, eqb_ℤ}
use mpfr.Words.{limb_bits, limb_highbit, limb_max, limb_mask, shl, lnot}
use mpfr.Types.{
  Rnd, rndz, is_rndf, is_rndn, is_rndna, is_like_rndz, is_neg, Exp, nan, inf, zero_value, num, Mpfr,
  Env, Out, ret_nan, prec2limbs,
}
use mpfr.Exceptions.{overflow}
use mpfr.Next.{Mpn}
use mpfr.Set.{sticky_down}

-- What becomes of the significand: whether it gets one unit more, and the value of `*inexp`.
pub record Choice : Type 0 where
  pub up : Bool
  pub inexp : ℤ

-- `x - 2 * x * neg`
abbrev pub signed : Bool → ℤ → ℤ
signed neg x = if neg then neg_ℤ x else x

-- The whole limbs of `yprec`, the bits of the rest, and the number of limbs.
abbrev pub full_limbs : ℕ → ℕ
full_limbs yprec = yprec / limb_bits

abbrev pub rest_bits : ℕ → ℕ
rest_bits yprec = yprec % limb_bits

abbrev pub kept_limbs : ℕ → ℕ
kept_limbs yprec = if rest_bits yprec == 0 then full_limbs yprec else full_limbs yprec + 1

pub himask : ℕ → ℕ
himask rw = if rw == 0 then limb_max else lnot (limb_mask (limb_bits - rw))

pub lomask : ℕ → ℕ
lomask rw = if rw == 0 then limb_max else limb_mask (limb_bits - rw)

-- `rnd_RNDZ:`, with the sticky bits after the loop.
pub toward_zero : Bool → ℕ → Choice
toward_zero neg sb = record { up = false; inexp = if sb == 0 then pos 0 else signed neg (negsuc 0) }

pub away_from_zero : Bool → ℕ → Choice
away_from_zero neg sb =
    if sb == 0
    then record { up = false; inexp = pos 0 }
    else record { up = true; inexp = signed neg (pos 1) }

-- Rounding to nearest with the round bit set: `sb` is what lies below it, and `odd` the last bit that
-- is kept. `MPFR_EVEN_INEX` is 2.
pub nearest : Rnd → Bool → ℕ → ℕ → Choice
nearest rnd neg sb odd =
    if is_rndna rnd
    then record { up = true; inexp = signed neg (pos 2) }
    else if sb == 0
    then if odd == 0
      then record { up = false; inexp = signed neg (negsuc 1) }
      else record { up = true; inexp = signed neg (pos 2) }
    else record { up = true; inexp = signed neg (pos 1) }

-- The branch that looks at the bits below `yprec`.
pub raw_choice : Rnd → Bool → List ℕ → ℕ → ℕ → Choice
raw_choice rnd neg xp xsize yprec =
    let rw = rest_bits yprec in
    let k = xsize - full_limbs yprec - 1 in
    let sb = bit_and (get_or xp k 0) (lomask rw) in
    let rbmask = shl 1 (limb_bits - 1 - rw) in
    let last = bit_xor (himask rw) (shl (himask rw) 1) in
    if is_rndn rnd || is_rndna rnd
    then if bit_and sb rbmask == 0
      then toward_zero neg (sticky_down xp k sb)
      else nearest rnd neg (sticky_down xp k (bit_and sb (lnot rbmask)))
          (bit_and (get_or xp (xsize - kept_limbs yprec) 0) last)
    else if is_like_rndz rnd neg
    then toward_zero neg (sticky_down xp k sb)
    else away_from_zero neg (sticky_down xp k sb)

-- `yp[0] &= himask`
pub mask_low : ℕ → List ℕ → List ℕ
mask_low mask [] = []
mask_low mask (y ∷ ys) = bit_and y mask ∷ ys

-- The limbs `yp`, the carry that is returned, and `*inexp`.
pub record RawOut : Type 0 where
  pub limbs : List ℕ
  pub carry : ℕ
  pub inexp : ℤ

module _ (g : Mpn) where
  -- `flag == 0`. Without `use_inexp` there is no `*inexp`, and the field stays 0.
  pub round_raw_generic : Bool → List ℕ → ℕ → Bool → ℕ → Rnd → RawOut
  round_raw_generic use_inexp xp xprec neg yprec rnd =
      let mode = if is_rndf rnd then rndz else rnd in
      let new_use_inexp = if is_rndf rnd then false else use_inexp in
      let xsize = prec2limbs xprec in
      let nw = kept_limbs yprec in
      let rw = rest_bits yprec in
      let src = drop (xsize - nw) xp in
      let cut = mask_low (himask rw) src in
      let choice = raw_choice mode neg xp xsize yprec in
      let inexp = if use_inexp then choice.inexp else pos 0 in
      let sum = g.add_1 src (if rw == 0 then 1 else shl 1 (limb_bits - rw)) in
      if leb xprec yprec
      then record { limbs = replicate (nw - xsize) 0 ++ take xsize xp; carry = 0; inexp = pos 0 }
      else if not (new_use_inexp || not (is_like_rndz mode neg))
      then record { limbs = cut; carry = 0; inexp = pos 0 }
      else if choice.up
      then record { limbs = mask_low (himask rw) sum.0; carry = sum.1; inexp = inexp }
      else record { limbs = cut; carry = 0; inexp = inexp }

  pub round_raw : List ℕ → ℕ → Bool → ℕ → Rnd → RawOut
  round_raw xp xprec neg yprec rnd = round_raw_generic true xp xprec neg yprec rnd

  pub round_raw_4 : List ℕ → ℕ → Bool → ℕ → Rnd → RawOut
  round_raw_4 xp xprec neg yprec rnd = round_raw_generic false xp xprec neg yprec rnd

  -- `mpfr_prec_round`; the new limbs are those of `tmp`.
  round_number : ℤ → Mpfr → ℕ → RawOut → Rnd → Env → Out
  round_number exp x prec r rnd e =
      let y = record x { prec = prec } in
      let o = overflow y rnd x.sign e in
      if r.carry == 0
      then record { x = record y { mant = r.limbs }; inex = r.inexp; env = e }
      else if eqb_ℤ exp e.emax
      then record { x = o.x; inex = r.inexp; env = o.env }
      else record {
        x = record y {
          exp = num (exp +ℤ pos 1);
          mant = replicate (prec2limbs prec - 1) 0 ++ limb_highbit ∷ [];
        };
        inex = r.inexp;
        env = e;
      }

  prec_round_field : Exp → Mpfr → ℕ → Rnd → Env → Out
  prec_round_field nan x prec rnd e = ret_nan (record x { prec = prec }) e
  prec_round_field inf x prec rnd e = record { x = record x { prec = prec }; inex = pos 0; env = e }
  prec_round_field zero_value x prec rnd e = record {
    x = record x { prec = prec };
    inex = pos 0;
    env = e;
  }
  prec_round_field (num exp) x prec rnd e =
      round_number exp x prec (round_raw x.mant x.prec (is_neg x.sign) prec rnd) rnd e

  pub prec_round : Mpfr → ℕ → Rnd → Env → Out
  prec_round x prec rnd e = prec_round_field x.exp x prec rnd e

-- `flag == 1` without `use_inexp`: whether a unit has to be added. `MPFR_RNDF` is not allowed.
pub round_raw_2 : List ℕ → ℕ → Bool → ℕ → Rnd → ℕ
round_raw_2 xp xprec neg yprec rnd =
    if leb xprec yprec || is_like_rndz rnd neg
    then 0
    else if (raw_choice rnd neg xp (prec2limbs xprec) yprec).up
    then 1
    else 0
