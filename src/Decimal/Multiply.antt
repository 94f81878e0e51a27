-- ===== src/Decimal/Multiply.antt =====
-- Products, and the rounding to a whole number.
use arche_api.Base.{ℕ, ◌*◌, ◌^◌, if◌then◌else◌}
use arche_api.Base.Int.{pos, ◌+ℤ◌, leb_ℤ, neg_part}
use arche_api.Decimal.Scale.{Decimal}
use arche_api.Decimal.Round.{magnitude, with_sign, half_even, fix}
use arche_api.Decimal.Divide.{signed, signs_differ}

-- `a * b` under a context of the given precision.
unfoldable pub mul : ℕ → Decimal → Decimal → Decimal
mul prec a b = fix prec (record {
  digits = signed (signs_differ a.digits b.digits) (magnitude a.digits * magnitude b.digits);
  exponent = a.exponent +ℤ b.exponent;
})

-- `d.to_integral_value()`: the precision does not matter.
unfoldable pub to_integral_value : Decimal → Decimal
to_integral_value d = if leb_ℤ (pos 0) d.exponent then d else record {
  digits = with_sign d.digits (half_even (magnitude d.digits) (10 ^ neg_part d.exponent));
  exponent = pos 0;
}
