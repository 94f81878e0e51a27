-- ===== src/DerivedMetrics/Rounding.antt =====
-- What `_quantize_ratio` does to a ratio.
use arche_api.Base.{ℕ, suc, ◌+◌, ◌*◌, ◌^◌, ◌≤◌, ◌<◌, ◌≡◌, true}
use arche_api.Base.Int.{pos, negsuc, ◌-ℤ◌, leb_ℤ}
use arche_api.Decimal.{
  Decimal, magnitude, half_even, with_sign, half_even_near, mul-to_integral_value-exact,
  mul-to_integral_value-near, pow_pos,
}
use arche_api.DerivedMetrics.Division.{quantize_ratio}

-- For a value with no more digits than the precision: if its exponent is at least -6 it stays the
-- same, and if its exponent is -6 - (k + 1) the result is a multiple of 1e-6 with its sign that is at
-- most half of 1e-6 away from it.
pub quantize_ratio-near :
    (prec : ℕ) (d : Decimal)
    → magnitude d.digits < 10 ^ prec
    → (leb_ℤ (negsuc 5) d.exponent ≡ true → quantize_ratio prec d ≡ d)
      × ((k : ℕ)
          → d.exponent ≡ negsuc 5 -ℤ pos (suc k)
          → (q : ℕ) × (quantize_ratio prec d
              ≡ record { digits = with_sign d.digits q; exponent = negsuc 5 })
            × (2 * (q * 10 ^ suc k) ≤ 2 * magnitude d.digits + 10 ^ suc k)
            × (2 * magnitude d.digits ≤ 2 * (q * 10 ^ suc k) + 10 ^ suc k))
unfolding quantize_ratio
quantize_ratio-near prec d h = (
  λ le. mul-to_integral_value-exact prec d (negsuc 5) h le,
  λ k e. (
    half_even (magnitude d.digits) (10 ^ suc k),
    mul-to_integral_value-near prec k d (negsuc 5) h e,
    (half_even_near (magnitude d.digits) (10 ^ suc k) (pow_pos (suc k))).0,
    (half_even_near (magnitude d.digits) (10 ^ suc k) (pow_pos (suc k))).1,
  ),
)
