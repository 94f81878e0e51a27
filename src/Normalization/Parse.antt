-- ===== src/Normalization/Parse.antt =====
-- `Decimal(text)` on ASCII digits, `Decimal.quantize`, and `_parse_decimal`.
use arche_api.Base.{
  ℕ, zero, suc, ◌+◌, ◌-◌, ◌*◌, ◌^◌, ◌≡◌, refl, Bool, true, false, not, ◌&&◌, ◌||◌, Option, none,
  some, [], ◌∷◌, if◌then◌else◌, eqb, leb, ltb, filter,
}
use arche_api.Base.Int.{ℤ, pos, negsuc, sub_ℕ, ◌-ℤ◌, leb_ℤ, pos_part, neg_part}
use arche_api.Base.Text.{Text, codes, strip, text_beq}
use arche_api.Base.Results.{Result, ok, err}
use arche_api.Decimal.{Decimal, magnitude, with_sign, half_even}
use arche_api.Normalization.Types.{NormalizationError, unparsable, invalid_operation, not_finite}

abbrev pub is_digit : ℕ → Bool
is_digit c = leb b'0' c && leb c b'9'

abbrev pub lower_case : ℕ → ℕ
lower_case c = if leb b'A' c && leb c b'Z' then c + 32 else c

abbrev pub upper_case : ℕ → ℕ
upper_case c = if leb b'a' c && leb c b'z' then c - 32 else c

-- The digits at the head of a text, with the value of those read before, their number, and the rest.
unfoldable pub read_digits : ℕ → ℕ → Text → ℕ × ℕ × Text
read_digits value count [] = (value, count, [])
read_digits value count (c ∷ cs) =
    let more = read_digits (value * 10 + (c - b'0')) (count + 1) cs in
    if is_digit c then more else (value, count, c ∷ cs)

-- A sign, if there is one: whether it is a minus, and the rest.
abbrev pub read_sign : Text → Bool × Text
read_sign [] = (false, [])
read_sign (c ∷ cs) =
    if eqb c b'-' then (true, cs) else if eqb c b'+' then (false, cs) else (false, c ∷ cs)

abbrev pub signed_ℤ : Bool → ℕ → ℤ
signed_ℤ true n = sub_ℕ 0 n
signed_ℤ false n = pos n

-- A point and the digits after it.
abbrev pub read_fraction : ℕ → ℕ → Text → ℕ × ℕ × Text
read_fraction value count [] = (value, count, [])
read_fraction value count (c ∷ cs) =
    if eqb c b'.' then read_digits value count cs else (value, count, c ∷ cs)

-- What is left after the digits: nothing, or an exponent with at least one digit.
abbrev pub whole_exponent : Bool → ℕ × ℕ × Text → Option ℤ
whole_exponent minus (value, zero, rest) = none
whole_exponent minus (value, suc count, []) = some (signed_ℤ minus value)
whole_exponent minus (value, suc count, c ∷ cs) = none

abbrev pub read_exponent : Text → Option ℤ
read_exponent [] = some (pos 0)
read_exponent (c ∷ cs) =
    if eqb (lower_case c) b'e'
    then (let (minus, digits) = read_sign cs in whole_exponent minus (read_digits 0 0 digits))
    else none

unfoldable pub decimal_of_text : Text → Option Decimal
unfolding read_digits strip
decimal_of_text text =
    let (minus, unsigned) = read_sign (filter (λ c. not (eqb c b'_')) (strip text)) in
    let (whole, n, rest) = read_digits 0 0 unsigned in
    let (value, m, tail) = read_fraction whole n rest in
    if eqb m 0 then none else (elim (read_exponent tail) [
      | none ↦ none
      | some e ↦ some (record { digits = signed_ℤ minus value; exponent = e -ℤ pos (m - n) })
    ])

abbrev pub map_text : (ℕ → ℕ) → Text → Text
map_text f [] = []
map_text f (c ∷ cs) = f c ∷ map_text f cs

-- `d.quantize(Decimal("1").scaleb(-places))`, none where it raises: the digits do not fit.
abbrev pub fitting : ℕ → Decimal → Option Decimal
fitting prec d = if ltb (magnitude d.digits) (10 ^ prec) then some d else none

unfoldable pub quantize : ℕ → ℕ → Decimal → Option Decimal
quantize prec places d =
    let target = sub_ℕ 0 places in
    let gap = d.exponent -ℤ target in
    if leb_ℤ (pos 0) gap
    then fitting prec (record {
      digits = with_sign d.digits (magnitude d.digits * 10 ^ pos_part gap);
      exponent = target;
    })
    else fitting prec (record {
      digits = with_sign d.digits (half_even (magnitude d.digits) (10 ^ neg_part gap));
      exponent = target;
    })

-- The texts of special values: an optional sign, then inf, infinity, nan or snan, the last two with
-- digits.
abbrev pub all_digits : Text → Bool
all_digits [] = true
all_digits (c ∷ cs) = is_digit c && all_digits cs

abbrev pub is_nan : Text → Text → Bool
is_nan [] s = all_digits s
is_nan (c ∷ p) [] = false
is_nan (c ∷ p) (d ∷ s) = eqb c d && is_nan p s

abbrev pub is_special : Text → Bool
is_special text =
    let body = map_text lower_case (read_sign (filter (λ c. not (eqb c b'_')) (strip text))).1 in
    text_beq body (codes "inf")
    || text_beq body (codes "infinity")
    || is_nan (codes "nan") body
    || is_nan (codes "snan") body

-- `InvalidOperation` of a quantization.
abbrev pub or_invalid : Option Decimal → Result NormalizationError Decimal
or_invalid none = err invalid_operation
or_invalid (some d) = ok d

-- `if decimals is not None and decimals >= 0`
abbrev pub rounded_to : ℕ → Option ℤ → Decimal → Result NormalizationError Decimal
rounded_to prec none d = ok d
rounded_to prec (some (negsuc n)) d = ok d
rounded_to prec (some (pos places)) d = or_invalid (quantize prec places d)

abbrev pub parsed_or_error :
    ℕ → Text → Option ℤ → Option Decimal → Result NormalizationError Decimal
parsed_or_error prec value decimals none =
    if is_special value then err not_finite else err unparsable
parsed_or_error prec value decimals (some d) = rounded_to prec decimals d

-- `_parse_decimal`
unfoldable pub parse_decimal : ℕ → Text → Option ℤ → Result NormalizationError Decimal
parse_decimal prec value decimals = parsed_or_error prec value decimals (decimal_of_text value)

parse_a :
    decimal_of_text (codes " -1_234.50e3 ")
    ≡ some (record { digits = negsuc 123449; exponent = pos 1 })
unfolding decimal_of_text ◌-ℤ◌
parse_a = refl

parse_b : decimal_of_text (codes "12a") ≡ none
unfolding decimal_of_text
parse_b = refl

parse_c : decimal_of_text (codes ".") ≡ none
unfolding decimal_of_text
parse_c = refl

parse_d :
    parse_decimal 28 (codes "12.345") (some (pos 2))
    ≡ ok (record { digits = pos 1234; exponent = negsuc 1 })
unfolding parse_decimal decimal_of_text quantize half_even ◌-ℤ◌
parse_d = refl
