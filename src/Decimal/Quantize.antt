-- ===== src/Decimal/Quantize.antt =====
-- The rounding of a value to a multiple of a power of ten.
use arche_api.Base.{
  ℕ, zero, suc, ◌+◌, ◌-◌, ◌*◌, ◌/◌, ◌%◌, ◌^◌, ◌≤◌, ◌<◌, ◌≡◌, refl, sym, ap, ◌∙◌, true, false, arith,
  Bool, eqb, eqb_iff, Bool-cases, inl, inr,
}
use native.Mathlib.Nat.{mul-le-mul, pow-suc, mul_assoc, mul-one}
use arche_api.Base.Int.{leb_ℤ, ℤ, pos, negsuc, ◌+ℤ◌, ◌-ℤ◌, int_laws, -ℤ_parts}
use arche_api.Decimal.Scale.{Decimal, pow_pos}
use arche_api.Decimal.Round.{magnitude, excess, fix, half_even, with_sign}
use arche_api.Decimal.Bounds.{magnitude-with_sign, fix_exact, half_even_near}
use native.Mathlib.Decide.{dec_le}
use arche_api.Decimal.Multiply.{mul, to_integral_value}
use arche_api.Decimal.Divide.{rounded_quotient, div, strip_zeros, num_digits, signed, signs_differ}

minus_zero : (e : ℤ) → e -ℤ pos 0 ≡ e
minus_zero e = grind int_laws

plus_zero : (e : ℤ) → e +ℤ pos 0 ≡ e
plus_zero e = grind int_laws

zero_plus : (e : ℤ) → pos 0 +ℤ e ≡ e
zero_plus e = grind int_laws

minus-plus : (a b : ℤ) → a -ℤ b +ℤ b ≡ a
minus-plus a b = grind int_laws

minus-minus : (a : ℤ) (k : ℕ) → a -ℤ pos (suc k) -ℤ a ≡ negsuc k
minus-minus a k = grind int_laws

leb_ℤ-minus : (a b : ℤ) → leb_ℤ b a ≡ true → leb_ℤ (pos 0) (a -ℤ b) ≡ true
leb_ℤ-minus a b h = ground (arith, -ℤ_parts a b)

minus_step : (e : ℤ) (k : ℕ) → e -ℤ pos (suc k) +ℤ pos 1 ≡ e -ℤ pos k
minus_step e k = grind int_laws

-- Zeros that were appended are taken off again, and no more than those.
strip_zeros-appended : (k n : ℕ) (e : ℤ) → strip_zeros k (n * 10 ^ k) (e -ℤ pos k) ≡ (n, e)
unfolding strip_zeros
strip_zeros-appended zero n e = cc (mul-one n, minus_zero e)
strip_zeros-appended (suc k) n e =
    let split : n * 10 ^ suc k ≡ n * 10 ^ k * 10 = rw pow-suc (sym (mul_assoc n (10 ^ k) 10)) in
    let last : n * 10 ^ suc k % 10 ≡ 0 = omega (arith, split) in
    let rest : n * 10 ^ suc k / 10 ≡ n * 10 ^ k = omega (arith, split) in
    let zero_last : eqb (n * 10 ^ suc k % 10) 0 ≡ true = (eqb_iff (n * 10 ^ suc k % 10) 0).1 last in
    rw (zero_last, rest, minus_step e k) (strip_zeros-appended k n e)

-- A number below a power of ten has no more digits than its exponent.
num_digits-le : (fuel k n : ℕ) → n < 10 ^ k → excess fuel 1 n ≤ k
unfolding excess
num_digits-le zero k n h = omega arith
num_digits-le (suc fuel) zero n h = ground (arith, h)
num_digits-le (suc fuel) (suc k) n h =
    let small : n / 10 < 10 ^ k =
      (let q : n < 10 ^ k * 10 = rw (← pow-suc) h in omega (arith, q)) in
    ground (arith, num_digits-le fuel k (n / 10) small)

signed-magnitude : (a : ℤ) → signed (signs_differ a (pos 1)) (magnitude a) ≡ a
signed-magnitude (pos n) = ground arith
signed-magnitude (negsuc n) = ground arith

magnitude-zero : (a : ℤ) → magnitude a ≡ 0 → a ≡ pos 0
magnitude-zero (pos n) h = ground arith
magnitude-zero (negsuc n) h = ground arith

-- A quotient by one is exact.
rounded_quotient-one :
    (prec : ℕ) (sign : Bool) (ideal : ℤ) (m up : ℕ)
    → rounded_quotient prec sign ideal m 1 up 0
      ≡ fix prec (record { digits = signed sign m; exponent = ideal })
unfolding rounded_quotient
rounded_quotient-one prec sign ideal m up =
    let none_left : eqb (m * 10 ^ up % 1) 0 ≡ true =
      (eqb_iff (m * 10 ^ up % 1) 0).1 (omega arith) in
    let whole_part : m * 10 ^ up / 1 ≡ m * 10 ^ up = omega arith in
    rw (none_left, whole_part, plus_zero (ideal -ℤ pos up), strip_zeros-appended up m ideal) refl

-- A division by a power of ten only moves the point.
pub div-power :
    (prec : ℕ) (d : Decimal) (p : ℤ)
    → magnitude d.digits < 10 ^ prec
    → div prec d (record { digits = pos 1; exponent = p })
      ≡ record { digits = d.digits; exponent = d.exponent -ℤ p }
unfolding div
div-power prec d p h =
    let m = magnitude d.digits in
    let few : num_digits m ≤ prec = num_digits-le m prec m h in
    let down : num_digits m - (num_digits 1 + (prec + 1)) ≡ 0 = omega (arith, few) in
    elim (Bool-cases (eqb m 0)) [
      | inl z ↦ rw (z, magnitude-zero d.digits ((eqb_iff m 0).0 z)) refl
      | inr nz ↦
          rw (nz, down, rounded_quotient-one, signed-magnitude d.digits)
            (fix_exact prec (record { digits = d.digits; exponent = d.exponent -ℤ p }) h)
    ]

half_even-le_self : (m p : ℕ) → 2 ≤ p → half_even m p ≤ m
half_even-le_self m p h =
    let near = half_even_near m p (omega (arith, h)) in
    elim (dec_le (half_even m p) m) [
      | yes le ↦ le
      | no gt ↦
          let above : (m + 1) * p ≤ half_even m p * p =
            mul-le-mul (omega (arith, gt)) (omega arith) in
          let twice : m * 2 ≤ m * p = mul-le-mul (omega arith) h in
          let split : (m + 1) * p ≡ m * p + p = grind arith in
          absurd (omega (arith, near.0, above, twice, split, h))
    ]

ten-pow : (k : ℕ) → 0 < k → 2 ≤ 10 ^ k
ten-pow zero h = omega (arith, h)
ten-pow (suc k) h = rw pow-suc (omega (arith, pow_pos k))

-- A product with a power of ten only moves the point.
mul-power :
    (prec : ℕ) (d : Decimal) (p : ℤ)
    → magnitude d.digits < 10 ^ prec
    → mul prec d (record { digits = pos 1; exponent = p })
      ≡ record { digits = d.digits; exponent = d.exponent +ℤ p }
unfolding mul
mul-power prec d p h =
    rw (mul-one (magnitude d.digits), signed-magnitude d.digits)
      (fix_exact prec (record { digits = d.digits; exponent = d.exponent +ℤ p }) h)

-- The quotient by a power of ten, made whole and multiplied again: a value that is a multiple of the
-- power already stays the same.
pub mul-to_integral_value-exact :
    (prec : ℕ) (d : Decimal) (p : ℤ)
    → magnitude d.digits < 10 ^ prec
    → leb_ℤ p d.exponent ≡ true
    → mul prec
        (to_integral_value (div prec d (record { digits = pos 1; exponent = p })))
        (record { digits = pos 1; exponent = p })
      ≡ d
unfolding to_integral_value
mul-to_integral_value-exact prec d p h le =
    rw (div-power prec d p h, over)
      (mul-power prec (record { digits = d.digits; exponent = d.exponent -ℤ p }) p h
        ∙ ap (λ (e : ℤ). record { digits = d.digits; exponent = e }) back)
  where
    over : leb_ℤ (pos 0) (d.exponent -ℤ p) ≡ true
    over = leb_ℤ-minus d.exponent p le

    back : d.exponent -ℤ p +ℤ p ≡ d.exponent
    back = minus-plus d.exponent p

-- A value that is no multiple is rounded half to even.
pub mul-to_integral_value-near :
    (prec k : ℕ) (d : Decimal) (p : ℤ)
    → magnitude d.digits < 10 ^ prec
    → d.exponent ≡ p -ℤ pos (suc k)
    → mul prec
        (to_integral_value (div prec d (record { digits = pos 1; exponent = p })))
        (record { digits = pos 1; exponent = p })
      ≡ record {
        digits = with_sign d.digits (half_even (magnitude d.digits) (10 ^ suc k));
        exponent = p;
      }
unfolding to_integral_value
mul-to_integral_value-near prec k d p h e =
    let q = half_even (magnitude d.digits) (10 ^ suc k) in
    rw (div-power prec d p h, below, low)
      (mul-power prec (record { digits = with_sign d.digits q; exponent = pos 0 }) p
          (rw (magnitude-with_sign d.digits q) fits)
        ∙ ap (λ (e : ℤ). record { digits = with_sign d.digits q; exponent = e }) (zero_plus p))
  where
    below : d.exponent -ℤ p ≡ negsuc k
    below = rw e (minus-minus p k)

    low : leb_ℤ (pos 0) (negsuc k) ≡ false
    low = ground arith

    fits : half_even (magnitude d.digits) (10 ^ suc k) < 10 ^ prec
    fits = omega (
      arith,
      half_even-le_self (magnitude d.digits) (10 ^ suc k) (ten-pow (suc k) (omega arith)),
      h,
    )
