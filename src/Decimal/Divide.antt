-- ===== src/Decimal/Divide.antt =====
-- `a / b` for a divisor that is not zero.
use arche_api.Base.{
  ℕ, zero, suc, ◌+◌, ◌-◌, ◌*◌, ◌/◌, ◌%◌, ◌^◌, ◌≡◌, refl, Bool, true, false, not, if◌then◌else◌, eqb,
}
use arche_api.Base.Int.{ℤ, pos, negsuc, sub_ℕ, ◌+ℤ◌, ◌-ℤ◌}
use arche_api.Decimal.Scale.{Decimal, whole}
use arche_api.Decimal.Round.{magnitude, excess, fix, half_even, rounded}

-- The number of decimal digits of a number that is not zero.
abbrev pub num_digits : ℕ → ℕ
num_digits n = excess n 1 n

-- Zeros at the end are taken off while the exponent is below the ideal one.
unfoldable pub strip_zeros : ℕ → ℕ → ℤ → ℕ × ℤ
strip_zeros zero coeff e = (coeff, e)
strip_zeros (suc n) coeff e =
    let shorter = strip_zeros n (coeff / 10) (e +ℤ pos 1) in
    if eqb (coeff % 10) 0 then shorter else (coeff, e)

abbrev pub is_negative : ℤ → Bool
is_negative (pos n) = false
is_negative (negsuc n) = true

abbrev pub signed : Bool → ℕ → ℤ
signed true n = sub_ℕ 0 n
signed false n = pos n

abbrev pub signs_differ : ℤ → ℤ → Bool
signs_differ a b = if is_negative a then not (is_negative b) else is_negative b

-- The quotient of the numbers m * 10 ^ up and n * 10 ^ down, made odd or not a multiple of five if
-- something is left over, so that the rounding is that of the exact quotient.
unfoldable pub rounded_quotient : ℕ → Bool → ℤ → (m n up down : ℕ) → Decimal
rounded_quotient prec sign ideal m n up down =
    let num = m * 10 ^ up in
    let den = n * 10 ^ down in
    let coeff = num / den in
    let e = (ideal -ℤ pos up) +ℤ pos down in
    if not (eqb (num % den) 0)
    then fix prec (record {
      digits = signed sign (if eqb (coeff % 5) 0 then coeff + 1 else coeff);
      exponent = e;
    })
    else let (c, f) = strip_zeros up coeff e in
      fix prec (record { digits = signed sign c; exponent = f })

-- One digit more than the precision is computed.
unfoldable pub div : ℕ → Decimal → Decimal → Decimal
div prec a b =
    let m = magnitude a.digits in
    let n = magnitude b.digits in
    let ideal = a.exponent -ℤ b.exponent in
    let up = (num_digits n + (prec + 1)) - num_digits m in
    let down = num_digits m - (num_digits n + (prec + 1)) in
    if eqb m 0
    then record { digits = pos 0; exponent = ideal }
    else rounded_quotient prec (signs_differ a.digits b.digits) ideal m n up down

exact : div 5 (whole (pos 100)) (whole (negsuc 3)) ≡ whole (negsuc 24)
unfolding div rounded_quotient strip_zeros excess fix half_even rounded ◌+ℤ◌ ◌-ℤ◌
exact = refl

third : div 5 (whole (pos 1)) (whole (pos 3)) ≡ record { digits = pos 33333; exponent = negsuc 4 }
unfolding div rounded_quotient strip_zeros excess fix half_even rounded ◌+ℤ◌ ◌-ℤ◌
third = refl

two_thirds :
    div 5 (whole (pos 2)) (whole (pos 3)) ≡ record { digits = pos 66667; exponent = negsuc 4 }
unfolding div rounded_quotient strip_zeros excess fix half_even rounded ◌+ℤ◌ ◌-ℤ◌
two_thirds = refl
