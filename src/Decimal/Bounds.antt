-- ===== src/Decimal/Bounds.antt =====
-- What rounding does to a value.
use native.Mathlib.Nat.{pow-suc, div-add-mod', mod-lt, mul_assoc, lt_of_mul-lt-mul_right}
use native.Mathlib.Decide.{dec_lt}
use Prim.Native.Nat.{pred}
use arche_api.Base.{
  ◌⊎◌, ℕ, zero, suc, ◌+◌, ◌*◌, ◌/◌, ◌%◌, ◌^◌, ◌≤◌, ◌<◌, ◌≡◌, refl, true, arith, eqb, inl, inr,
  Bool-cases,
}
use arche_api.Base.Int.{ℤ, pos, negsuc}
use arche_api.Decimal.Scale.{Decimal, pow_pos}
use arche_api.Decimal.Round.{magnitude, with_sign, excess, half_even, rounded, fix}

excess_small : (fuel bound n : ℕ) → n < bound → excess (suc fuel) bound n ≡ 0
unfolding excess
excess_small fuel bound n h = ground arith

excess_large :
    (fuel bound n : ℕ) → bound ≤ n → excess (suc fuel) bound n ≡ suc (excess fuel bound (n / 10))
unfolding excess
excess_large fuel bound n h = ground arith

-- The fuel is enough: what is left after the excess digits are dropped is below the bound.
excess-lt : (fuel bound n : ℕ) → 0 < bound → n ≤ fuel → n < bound * 10 ^ excess fuel bound n
unfolding excess
excess-lt zero bound n b h = omega arith
excess-lt (suc fuel) bound n b h = elim (dec_lt n bound) [
  | yes p ↦ rw (excess_small fuel bound n p) (omega arith)
  | no p ↦
      let k = excess fuel bound (n / 10) in
      let rest : n / 10 < bound * 10 ^ k = excess-lt fuel bound (n / 10) b (omega arith) in
      rw (excess_large fuel bound n (omega arith), pow-suc, ← mul_assoc bound (10 ^ k) 10)
        (omega arith)
]

excess_fits : (bound n : ℕ) → n < bound → excess n bound n ≡ 0
unfolding excess
excess_fits bound zero h = refl
excess_fits bound (suc n) h = ground arith

half_even_cases :
    (n p : ℕ)
    → ((half_even n p ≡ n / p) × (2 * (n % p) ≤ p))
      ⊎ ((half_even n p ≡ n / p + 1) × (p ≤ 2 * (n % p)))
unfolding half_even
half_even_cases n p = ground arith

-- Half-even rounding is to a nearest multiple: the error is at most half a unit.
pub half_even_near :
    (n p : ℕ)
    → 0 < p
    → (2 * (half_even n p * p) ≤ 2 * n + p) × (2 * n ≤ 2 * (half_even n p * p) + p)
half_even_near n p h =
    let split : n / p * p + n % p ≡ n = div-add-mod' n p in
    let small : n % p < p = mod-lt n h in
    elim (half_even_cases n p) [ inl (e, r) ↦ rw e (omega arith) | inr (e, r) ↦ rw e (omega arith) ]

half_even-le : (n p bound : ℕ) → 0 < p → n < bound * p → half_even n p ≤ bound
half_even-le n p bound h lt =
    let split : n / p * p + n % p ≡ n = div-add-mod' n p in
    let below : n / p < bound = lt_of_mul-lt-mul_right p (omega arith) in
    omega (arith, half_even_cases n p)

-- A value with no more digits than the precision is not touched.
pub fix_exact : (prec : ℕ) (d : Decimal) → magnitude d.digits < 10 ^ prec → fix prec d ≡ d
unfolding fix
fix_exact prec d h = rw (excess_fits (10 ^ prec) (magnitude d.digits) h)

pub magnitude-with_sign : (a : ℤ) (n : ℕ) → magnitude (with_sign a n) ≡ n
magnitude-with_sign (pos m) n = omega arith
magnitude-with_sign (negsuc m) n = ground arith

pow-pred-lt : (prec : ℕ) → 0 < prec → 10 ^ pred prec < 10 ^ prec
pow-pred-lt zero h = omega arith
pow-pred-lt (suc p) h = rw pow-suc (omega (arith, pow_pos p))

magnitude-rounded :
    (prec : ℕ) (d : Decimal) (k q : ℕ)
    → 0 < prec
    → q ≤ 10 ^ prec
    → magnitude (rounded prec d k q).digits < 10 ^ prec
unfolding rounded
magnitude-rounded prec d k q h le = elim (Bool-cases (eqb q (10 ^ prec))) [
  | inl e ↦ rw (e, magnitude-with_sign d.digits (10 ^ pred prec)) (pow-pred-lt prec h)
  | inr e ↦ rw (e, magnitude-with_sign d.digits q) (ground arith)
]

-- The result of every rounding has no more digits than the precision.
pub fix_fits : (prec : ℕ) (d : Decimal) → 0 < prec → magnitude (fix prec d).digits < 10 ^ prec
unfolding fix
fix_fits prec d h =
    let n = magnitude d.digits in
    let k = excess n (10 ^ prec) n in
    let enough = excess-lt n (10 ^ prec) n (pow_pos prec) (omega arith) in
    let q-le = half_even-le n (10 ^ k) (10 ^ prec) (pow_pos k) enough in
    elim (Bool-cases (eqb k 0)) [
      | inl e ↦ rw e (fits_already e enough)
      | inr e ↦ rw e (magnitude-rounded prec d k (half_even n (10 ^ k)) h q-le)
    ]
  where
    fits_already :
        (let n = magnitude d.digits in eqb (excess n (10 ^ prec) n) 0 ≡ true)
        → (let n = magnitude d.digits in n < 10 ^ prec * 10 ^ excess n (10 ^ prec) n)
        → magnitude d.digits < 10 ^ prec
    fits_already e lt =
        let n = magnitude d.digits in
        let none_left : excess n (10 ^ prec) n ≡ 0 = ground arith in
        let room : n < 10 ^ prec * 10 ^ 0 = rw none_left at lt in omega arith
