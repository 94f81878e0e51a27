-- ===== src/Decimal/Signs.antt =====
-- The sign of a decimal, and the comparison of a value with 0.
use arche_api.Base.{ℕ, ◌≡◌, Bool, true, false, arith}
use arche_api.Base.Int.{ℤ, pos, negsuc, ltb_ℤ}
use arche_api.Decimal.Scale.{Decimal, decimal_zero, decimal_ltb, scale, scale_parts, pow_pos}

-- The digits have a minus sign.
abbrev pub has_minus : Decimal → Bool
has_minus d = elim d.digits [ pos n ↦ false | negsuc n ↦ true ]

scaled-negative : (n j k : ℕ) → ltb_ℤ (scale (negsuc n) j) (scale (pos 0) k) ≡ true
scaled-negative n j k =
    let (p, q) = scale_parts (negsuc n) j in
    let (r, s) = scale_parts (pos 0) k in let w = pow_pos j in ground arith

scaled-positive : (n j k : ℕ) → ltb_ℤ (scale (pos n) j) (scale (pos 0) k) ≡ false
scaled-positive n j k =
    let (p, q) = scale_parts (pos n) j in let (r, s) = scale_parts (pos 0) k in ground arith

pub decimal_ltb-zero : (d : Decimal) → decimal_ltb d decimal_zero ≡ has_minus d
unfolding decimal_ltb
decimal_ltb-zero d = sign d.digits d.exponent
  where
    sign :
        (digits exponent : ℤ)
        → decimal_ltb (record { digits = digits; exponent = exponent }) decimal_zero
          ≡ has_minus (record { digits = digits; exponent = exponent })
    sign (pos n) e = scaled-positive n _ _
    sign (negsuc n) e = scaled-negative n _ _
