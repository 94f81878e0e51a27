-- ===== src/Normalization/Quantized.antt =====
-- What `_parse_decimal` makes of a number.
use arche_api.Base.{
  ℕ, ◌+◌, ◌*◌, ◌^◌, ◌≤◌, ◌≡◌, refl, ap, ◌∙◌, ◌⊎◌, inl, inr, true, false, none, some, if◌then◌else◌,
  ltb, Bool-cases,
}
use arche_api.Base.Int.{ℤ, pos, sub_ℕ, ◌-ℤ◌, leb_ℤ, pos_part, neg_part}
use arche_api.Base.Text.{Text}
use arche_api.Base.Results.{Result, ok, err}
use arche_api.Decimal.{
  Decimal, magnitude, with_sign, half_even, half_even_near, pow_pos, magnitude-with_sign,
}
use arche_api.Normalization.Types.{NormalizationError, invalid_operation}
use arche_api.Normalization.Parse.{
  decimal_of_text, fitting, quantize, or_invalid, parsed_or_error, parse_decimal,
}

-- The digits of a number at a number of places: exact where the number has no more places, else to
-- the nearest.
abbrev pub IsAtPlaces : ℕ → Decimal → ℕ → Type 0
IsAtPlaces places d q =
    let gap = d.exponent -ℤ sub_ℕ 0 places in
    ((leb_ℤ (pos 0) gap ≡ true) × (q ≡ magnitude d.digits * 10 ^ pos_part gap))
    ⊎ ((leb_ℤ (pos 0) gap ≡ false)
        × (2 * (q * 10 ^ neg_part gap) ≤ 2 * magnitude d.digits + 10 ^ neg_part gap)
        × (2 * magnitude d.digits ≤ 2 * (q * 10 ^ neg_part gap) + 10 ^ neg_part gap))

abbrev pub IsQuantized : ℕ → ℕ → Decimal → Result NormalizationError Decimal → Type 0
IsQuantized prec places d r =
    (q : ℕ) × IsAtPlaces places d q
    × (r ≡ (
        if ltb q (10 ^ prec)
        then ok (record { digits = with_sign d.digits q; exponent = sub_ℕ 0 places })
        else err invalid_operation))

fitting-cases :
    (prec : ℕ) (d : Decimal)
    → or_invalid (fitting prec d)
      ≡ (if ltb (magnitude d.digits) (10 ^ prec) then ok d else err invalid_operation)
fitting-cases prec d = elim (Bool-cases (ltb (magnitude d.digits) (10 ^ prec))) [
  | inl e ↦ rw (e, fitting) refl
  | inr e ↦ rw (e, fitting) refl
]

signed-cases :
    (prec q : ℕ) (a e : ℤ)
    → or_invalid (fitting prec (record { digits = with_sign a q; exponent = e })) ≡ (
        if ltb q (10 ^ prec)
        then ok (record { digits = with_sign a q; exponent = e })
        else err invalid_operation)
signed-cases prec q a e =
    fitting-cases prec (record { digits = with_sign a q; exponent = e })
    ∙ ap
        (λ (n : ℕ).
          if ltb n (10 ^ prec)
          then ok (record { digits = with_sign a q; exponent = e })
          else err invalid_operation)
        (magnitude-with_sign a q)

quantize-IsQuantized :
    (prec places : ℕ) (d : Decimal)
    → IsQuantized prec places d (or_invalid (quantize prec places d))
unfolding quantize
quantize-IsQuantized prec places d =
    let gap = d.exponent -ℤ sub_ℕ 0 places in
    elim (Bool-cases (leb_ℤ (pos 0) gap)) [
      | inl e ↦ (
        magnitude d.digits * 10 ^ pos_part gap,
        inl (e, refl),
        ap or_invalid (rw e refl)
            ∙ signed-cases prec (magnitude d.digits * 10 ^ pos_part gap) d.digits (sub_ℕ 0 places),
      )
      | inr e ↦
          (let near =
              half_even_near (magnitude d.digits) (10 ^ neg_part gap) (pow_pos (neg_part gap)) in
            (
              half_even (magnitude d.digits) (10 ^ neg_part gap),
              inr (e, near.0, near.1),
              ap or_invalid (rw e refl)
                  ∙ signed-cases prec (half_even (magnitude d.digits) (10 ^ neg_part gap)) d.digits
                      (sub_ℕ 0 places),
            ))
    ]

-- Where a text is a number, it is the value if no number of places is given. With a number of places,
-- its digits are those of the number at these places, exact if it has no more and at most half a unit
-- off else; and the parse gives them where they fit the precision and raises InvalidOperation, which
-- is no error of the domain, where they do not.
pub parse_decimal-IsQuantized :
    (prec places : ℕ) (text : Text) (d : Decimal)
    → decimal_of_text text ≡ some d
    → (parse_decimal prec text none ≡ ok d)
      × IsQuantized prec places d (parse_decimal prec text (some (pos places)))
unfolding parse_decimal
parse_decimal-IsQuantized prec places text d h = (
  ap (parsed_or_error prec text none) h,
  rw (ap (parsed_or_error prec text (some (pos places))) h) (quantize-IsQuantized prec places d),
)
