-- ===== src/Next.antt =====
-- The neighbours of a number (src/next.c): `mpfr_nexttozero`, `mpfr_nexttoinf`, `mpfr_nextabove`,
-- `mpfr_nextbelow` and `mpfr_nexttoward`. The addition and subtraction of a limb, `mpn_add_1` and
-- `mpn_sub_1`, are GMP's and are parameters.
pub mod Neighbour
pub mod Down
pub mod Ripple
pub mod Symmetry
mod Tests
use mpfr.Base.{ℕ, ◌-◌, ◌*◌, ◌%◌, List, get_or, set, ◌==◌, if◌then◌else◌, bit_and, bit_or}
use mpfr.Base.{ℤ, pos, ◌+ℤ◌, ◌-ℤ◌, ltb_ℤ, eqb_ℤ}
use mpfr.Words.{limb_bits, limb_highbit, shl}
use mpfr.Types.{
  opposite, is_neg, Exp, nan, inf, zero_value, num, Mpfr, Env, raise, flags_nan, prec2limbs,
}
use mpfr.Extremes.{setmin, setmax}
use mpfr.Compare.{cmp}

-- The result and the carry, or borrow, of adding a limb to a number, or subtracting it.
pub record Mpn : Type 0 where
  pub add_1 : List ℕ → ℕ → List ℕ × ℕ
  pub sub_1 : List ℕ → ℕ → List ℕ × ℕ

-- `MPFR_UNSIGNED_MINUS_MODULO (sh, MPFR_PREC (x))`: `-prec` modulo the bits of a limb.
abbrev pub unused_bits : Mpfr → ℕ
unused_bits x = (limb_bits - x.prec % limb_bits) % limb_bits

-- `xp[xn-1]`
abbrev pub last_limb : Mpfr → ℕ
last_limb x = prec2limbs x.prec - 1

module _ (g : Mpn) where
  pub down_regular : Mpfr → ℤ → Env → Mpfr
  down_regular x exp e =
      let r = (g.sub_1 x.mant (shl 1 (unused_bits x))).0 in
      let top = get_or r (last_limb x) 0 in
      if bit_and top limb_highbit == 0
      then if eqb_ℤ exp e.emin then record x { exp = zero_value; mant = r } else record x {
        exp = num (exp -ℤ pos 1);
        mant = set r (last_limb x) (bit_or limb_highbit top);
      }
      else record x { mant = r }

  -- An assertion excludes NaN, which no caller passes.
  pub nexttozero_field : Exp → Mpfr → Env → Mpfr
  nexttozero_field inf x e = setmax x e.emax
  nexttozero_field zero_value x e = setmin (record x { sign = opposite x.sign }) e.emin
  nexttozero_field nan x e = x
  nexttozero_field (num z) x e = down_regular x z e

  pub nexttozero : Mpfr → Env → Mpfr
  nexttozero x e = nexttozero_field x.exp x e

  pub up_regular : Mpfr → ℤ → Env → Mpfr
  up_regular x exp e =
      let (r, carry) = g.add_1 x.mant (shl 1 (unused_bits x)) in
      if carry == 0
      then record x { mant = r }
      else if eqb_ℤ exp e.emax
      then record x { exp = inf; mant = r }
      else record x { exp = num (exp +ℤ pos 1); mant = set r (last_limb x) limb_highbit }

  pub nexttoinf_field : Exp → Mpfr → Env → Mpfr
  nexttoinf_field zero_value x e = setmin x e.emin
  nexttoinf_field inf x e = x
  nexttoinf_field nan x e = x
  nexttoinf_field (num z) x e = up_regular x z e

  pub nexttoinf : Mpfr → Env → Mpfr
  nexttoinf x e = nexttoinf_field x.exp x e

  pub nextabove_field : Exp → Mpfr → Env → Mpfr × Env
  nextabove_field nan x e = (x, raise flags_nan e)
  nextabove_field inf x e = (if is_neg x.sign then nexttozero x e else nexttoinf x e, e)
  nextabove_field zero_value x e = (if is_neg x.sign then nexttozero x e else nexttoinf x e, e)
  nextabove_field (num z) x e = (if is_neg x.sign then nexttozero x e else nexttoinf x e, e)

  pub nextabove : Mpfr → Env → Mpfr × Env
  nextabove x e = nextabove_field x.exp x e

  pub nextbelow_field : Exp → Mpfr → Env → Mpfr × Env
  nextbelow_field nan x e = (x, raise flags_nan e)
  nextbelow_field inf x e = (if is_neg x.sign then nexttoinf x e else nexttozero x e, e)
  nextbelow_field zero_value x e = (if is_neg x.sign then nexttoinf x e else nexttozero x e, e)
  nextbelow_field (num z) x e = (if is_neg x.sign then nexttoinf x e else nexttozero x e, e)

  pub nextbelow : Mpfr → Env → Mpfr × Env
  nextbelow x e = nextbelow_field x.exp x e

  -- The result `s` of `mpfr_cmp` decides the direction.
  pub toward : ℤ → Mpfr → Env → Mpfr × Env
  toward s x e =
      if eqb_ℤ s (pos 0) then (x, e) else if ltb_ℤ s (pos 0) then nextabove x e else nextbelow x e

  pub nexttoward_field : Exp → Exp → Mpfr → Mpfr → Env → Mpfr × Env
  nexttoward_field nan t x y e = (x, raise flags_nan e)
  nexttoward_field inf nan x y e = (record x { exp = nan }, raise flags_nan e)
  nexttoward_field inf inf x y e = toward (cmp x y e).value x (cmp x y e).env
  nexttoward_field inf zero_value x y e = toward (cmp x y e).value x (cmp x y e).env
  nexttoward_field inf (num z) x y e = toward (cmp x y e).value x (cmp x y e).env
  nexttoward_field zero_value nan x y e = (record x { exp = nan }, raise flags_nan e)
  nexttoward_field zero_value inf x y e = toward (cmp x y e).value x (cmp x y e).env
  nexttoward_field zero_value zero_value x y e = toward (cmp x y e).value x (cmp x y e).env
  nexttoward_field zero_value (num z) x y e = toward (cmp x y e).value x (cmp x y e).env
  nexttoward_field (num q) nan x y e = (record x { exp = nan }, raise flags_nan e)
  nexttoward_field (num q) inf x y e = toward (cmp x y e).value x (cmp x y e).env
  nexttoward_field (num q) zero_value x y e = toward (cmp x y e).value x (cmp x y e).env
  nexttoward_field (num q) (num z) x y e = toward (cmp x y e).value x (cmp x y e).env

  pub nexttoward : Mpfr → Mpfr → Env → Mpfr × Env
  nexttoward x y e = nexttoward_field x.exp y.exp x y e
