-- ===== src/Decimal.antt =====
-- Python's `decimal.Decimal` as the domain services use it: finite values, a context precision,
-- ROUND_HALF_EVEN. A value is `digits * 10 ^ exponent`.
mod Scale
mod Round
mod Order
mod Bounds
mod Divide
mod Multiply
mod Quantize
mod Signs
pub use Scale.{pow_pos, Decimal, whole, decimal_zero, is_zero, copy_abs}
unfoldable pub use Scale.{decimal_leb, decimal_ltb, decimal_beq, scale}
unfoldable pub use Round.{excess, half_even, fix, add, sub, abs}
pub use Round.{magnitude}
unfoldable pub use Divide.{strip_zeros, rounded_quotient, div}
unfoldable pub use Multiply.{mul, to_integral_value}
pub use Order.*
pub use Bounds.*
pub use Signs.{has_minus, decimal_ltb-zero}
pub use Quantize.{mul-to_integral_value-exact, mul-to_integral_value-near}
pub use Round.{with_sign}
