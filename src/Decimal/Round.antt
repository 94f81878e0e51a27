-- ===== src/Decimal/Round.antt =====
-- Rounding to the context's precision, and the operations that round.
use Prim.Native.Nat.{pred}
use arche_api.Base.{ℕ, zero, suc, ◌+◌, ◌*◌, ◌/◌, ◌%◌, ◌^◌, true, false, if◌then◌else◌, eqb, ltb}
use arche_api.Base.Int.{ℤ, pos, negsuc, pos_part, neg_part, sub_ℕ, ◌+ℤ◌, ◌-ℤ◌}
use arche_api.Decimal.Scale.{Decimal, lower, digits_at}

abbrev pub magnitude : ℤ → ℕ
magnitude a = pos_part a + neg_part a

-- The sign of `a` on the number `n`.
abbrev pub with_sign : ℤ → ℕ → ℤ
with_sign (pos _) n = pos n
with_sign (negsuc _) n = sub_ℕ 0 n

-- How many digits `n` has beyond those that fit below `bound`, a power of ten. `n` itself is enough
-- fuel: each round divides by ten.
unfoldable pub excess : ℕ → ℕ → ℕ → ℕ
excess zero bound n = 0
excess (suc fuel) bound n = elim (ltb n bound) [
  | true ↦ 0
  | false ↦ suc (excess fuel bound (n / 10))
]

-- `n / p` to the nearest, a tie to the even neighbour.
unfoldable pub half_even : ℕ → ℕ → ℕ
half_even n p =
    let q = n / p in
    let r = n % p in
    if ltb (2 * r) p then q else if ltb p (2 * r) then q + 1 else if eqb (q % 2) 0 then q else q + 1

-- `k` digits are gone and `q` is left; a carry out of the precision drops one digit more.
unfoldable pub rounded : ℕ → Decimal → ℕ → ℕ → Decimal
rounded prec d k q =
    if eqb q (10 ^ prec)
    then record {
      digits = with_sign d.digits (10 ^ pred prec);
      exponent = d.exponent +ℤ pos (k + 1);
    }
    else record { digits = with_sign d.digits q; exponent = d.exponent +ℤ pos k }

-- `Decimal._fix`, without the limits on the exponent.
unfoldable pub fix : ℕ → Decimal → Decimal
unfolding excess half_even rounded
fix prec d =
    let n = magnitude d.digits in
    let k = excess n (10 ^ prec) n in if eqb k 0 then d else rounded prec d k (half_even n (10 ^ k))

-- `a + b`, `a - b` and `abs(a)` under a context of the given precision.
unfoldable pub add : ℕ → Decimal → Decimal → Decimal
unfolding fix
add prec a b =
    let e = lower a.exponent b.exponent in
    fix prec (record { digits = digits_at e a +ℤ digits_at e b; exponent = e })

unfoldable pub sub : ℕ → Decimal → Decimal → Decimal
unfolding fix
sub prec a b =
    let e = lower a.exponent b.exponent in
    fix prec (record { digits = digits_at e a -ℤ digits_at e b; exponent = e })

unfoldable pub abs : ℕ → Decimal → Decimal
unfolding fix
abs prec a = fix prec (record a { digits = pos (magnitude a.digits) })
