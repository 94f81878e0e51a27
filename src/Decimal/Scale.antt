-- ===== src/Decimal/Scale.antt =====
-- Values, and their comparison at a common exponent.
use native.Mathlib.Nat.{
  mul_assoc, pow-suc, mul-le-mul_right, le_of_mul-le-mul_right, one-le-pow, add-zero, add-suc,
}
use arche_api.Base.{ℕ, zero, suc, ◌+◌, ◌-◌, ◌*◌, ◌^◌, ◌<◌, ◌≡◌, ◌↔◌, Bool, if◌then◌else◌, arith, ap}
use arche_api.Base.Int.{
  ℤ, pos, negsuc, pos_part, neg_part, sub_ℕ, ◌≤ℤ◌, ltb_ℤ, leb_ℤ, eqb_ℤ, eq_of_parts,
}

pub record Decimal : Type 0 where
  pub digits : ℤ
  pub exponent : ℤ

-- `Decimal("<n>")` for a whole number.
abbrev pub whole : ℤ → Decimal
whole n = record { digits = n; exponent = pos 0 }

abbrev pub decimal_zero : Decimal
decimal_zero = whole (pos 0)

-- How far `e` is above `e'`, and 0 if it is not.
abbrev pub gap : ℤ → ℤ → ℕ
gap e e' = (pos_part e + neg_part e') - (pos_part e' + neg_part e)

-- An integer times a power of ten.
unfoldable pub scale : ℤ → ℕ → ℤ
scale a k = sub_ℕ (pos_part a * 10 ^ k) (neg_part a * 10 ^ k)

abbrev pub lower : ℤ → ℤ → ℤ
lower e e' = if leb_ℤ e e' then e else e'

-- The digits of a value written at an exponent that is not above its own.
abbrev pub digits_at : ℤ → Decimal → ℤ
digits_at e d = scale d.digits (gap d.exponent e)

unfoldable pub decimal_leb : Decimal → Decimal → Bool
decimal_leb a b = let e = lower a.exponent b.exponent in leb_ℤ (digits_at e a) (digits_at e b)

-- `a < b`
unfoldable pub decimal_ltb : Decimal → Decimal → Bool
decimal_ltb a b = let e = lower a.exponent b.exponent in ltb_ℤ (digits_at e a) (digits_at e b)

-- `a == b`: equal in value, whatever the exponents.
unfoldable pub decimal_beq : Decimal → Decimal → Bool
decimal_beq a b = let e = lower a.exponent b.exponent in eqb_ℤ (digits_at e a) (digits_at e b)

-- `not d`, and `d == 0`
abbrev pub is_zero : Decimal → Bool
is_zero d = eqb_ℤ d.digits (pos 0)

-- `d.copy_abs()`: no rounding.
abbrev pub copy_abs : Decimal → Decimal
copy_abs d = record d { digits = pos (pos_part d.digits + neg_part d.digits) }

pub scale_parts :
    (a : ℤ) (k : ℕ)
    → (pos_part (scale a k) ≡ pos_part a * 10 ^ k) × (neg_part (scale a k) ≡ neg_part a * 10 ^ k)
unfolding scale
scale_parts (pos n) k = ground arith
scale_parts (negsuc n) k = ground arith

pub pow_pos : (k : ℕ) → 0 < 10 ^ k
pow_pos k = one-le-pow k 10 (omega arith)

pub pow-add : (j k : ℕ) → 10 ^ (j + k) ≡ 10 ^ j * 10 ^ k
pow-add j zero = rw add-zero (omega arith)
pow-add j (suc k) =
    rw (add-suc, pow-suc 10 (j + k), pow-suc 10 k, pow-add j k) (mul_assoc (10 ^ j) (10 ^ k) 10)

pub scale-scale : (a : ℤ) (j k : ℕ) → scale (scale a j) k ≡ scale a (j + k)
scale-scale a j k =
    let (p, n) = scale_parts a j in
    let (p', n') = scale_parts (scale a j) k in
    let (q, m) = scale_parts a (j + k) in
    eq_of_parts (scale (scale a j) k) (scale a (j + k))
      (rw (p', n', q, m, p, n, pow-add j k) (omega arith))

-- Scaling keeps the order, both ways.
pub scale-le : (a b : ℤ) (k : ℕ) → (a ≤ℤ b) ↔ (scale a k ≤ℤ scale b k)
scale-le a b k =
    let (p, n) = scale_parts a k in
    let (q, m) = scale_parts b k in
    (
      λ h. rw (p, n, q, m) (omega (arith, mul-le-mul_right (10 ^ k) h)),
      λ h. le_of_mul-le-mul_right {k = 10 ^ k} (omega arith) (pow_pos k),
    )

module _ (a b : Decimal) (e : ℤ) (ha : e ≤ℤ a.exponent) (hb : e ≤ℤ b.exponent) where
  digits_at-lower :
      (d : Decimal) (e' : ℤ)
      → e' ≤ℤ d.exponent
      → e ≤ℤ e'
      → digits_at e d ≡ scale (digits_at e' d) (gap e' e)
  digits_at-lower d e' h k = rw scale-scale (ap (scale d.digits) (omega arith))

  -- The comparison is the same at every exponent that is not above the two.
  pub decimal_leb-at : decimal_leb a b ≡ leb_ℤ (digits_at e a) (digits_at e b)
  unfolding decimal_leb
  decimal_leb-at =
      let e' = lower a.exponent b.exponent in
      let down : (e' ≤ℤ a.exponent) × (e' ≤ℤ b.exponent) × (e ≤ℤ e') = ground arith in
      rw (digits_at-lower a e' down.0 down.2, digits_at-lower b e' down.1 down.2)
        (ground (arith, scale-le (digits_at e' a) (digits_at e' b) (gap e' e)))
