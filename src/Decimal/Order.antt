-- ===== src/Decimal/Order.antt =====
-- The comparison of decimals is a total order on values.
use arche_api.Base.{◌≡◌, ◌⊎◌, true, false, not, ◌&&◌, arith}
use arche_api.Base.Int.{ℤ}
use arche_api.Decimal.Scale.{
  Decimal, lower, decimal_leb, decimal_ltb, decimal_beq, decimal_leb-at, copy_abs, decimal_zero,
  scale_parts, gap,
}

module _ (a b : Decimal) where
  shared : ℤ
  shared = lower a.exponent b.exponent

  -- `<` is the converse of `>=`.
  pub decimal_ltb-eq-not-leb : decimal_ltb a b ≡ not (decimal_leb b a)
  unfolding decimal_ltb
  decimal_ltb-eq-not-leb =
      let e = lower a.exponent b.exponent in
      ground (arith, decimal_leb-at b a e (ground arith) (ground arith))

  -- `==` is `<=` both ways.
  pub decimal_beq-eq-leb : decimal_beq a b ≡ (decimal_leb a b && decimal_leb b a)
  unfolding decimal_beq decimal_leb
  decimal_beq-eq-leb =
      let e = lower a.exponent b.exponent in
      ground (arith, decimal_leb-at b a e (ground arith) (ground arith))

  pub decimal_leb_total : (decimal_leb a b ≡ true) ⊎ (decimal_leb b a ≡ true)
  unfolding decimal_leb
  decimal_leb_total =
      let e = lower a.exponent b.exponent in
      ground (arith, decimal_leb-at b a e (ground arith) (ground arith))

pub decimal_leb_refl : (a : Decimal) → decimal_leb a a ≡ true
unfolding decimal_leb
decimal_leb_refl a = ground arith

pub decimal_beq_refl : (a : Decimal) → decimal_beq a a ≡ true
unfolding decimal_beq
decimal_beq_refl a = ground arith

pub decimal_leb_trans :
    (a b c : Decimal) → decimal_leb a b ≡ true → decimal_leb b c ≡ true → decimal_leb a c ≡ true
decimal_leb_trans a b c h k =
    let e = lower a.exponent (lower b.exponent c.exponent) in
    let ab = decimal_leb-at a b e (ground arith) (ground arith) in
    let bc = decimal_leb-at b c e (ground arith) (ground arith) in
    let ac = decimal_leb-at a c e (ground arith) (ground arith) in ground arith

-- An absolute value is not below zero.
pub copy_abs_nonneg : (d : Decimal) → decimal_ltb (copy_abs d) decimal_zero ≡ false
unfolding decimal_ltb
copy_abs_nonneg d =
    let e = lower d.exponent decimal_zero.exponent in
    let p = scale_parts (copy_abs d).digits (gap d.exponent e) in
    let z = scale_parts decimal_zero.digits (gap decimal_zero.exponent e) in ground (arith, p, z)
