-- ===== src/Base/Results.antt =====
-- Calls that may raise: a result or the exception.
use mathlib.Core.Path.{◌≡◌, refl}
use mathlib.Core.Bool.{Bool, true, false}
use mathlib.Core.Logic.{◌↔◌, ◌⊎◌}
use mathlib.Core.Logic.{inl, inr}
use native.Mathlib.Omega.{arith}

pub data Result (E A : Type 0) : Type 0 where
  ok : A → Result E A
  err : E → Result E A

-- `if test: raise e`
abbrev pub raise_if : {E : Type 0} → Bool → E → Result E (Unit {0})
raise_if true e = err e
raise_if false e = ok tt

module _ {E B : Type 0} where
  infixl 5 ◌>>=◌ ◌>>◌
  -- An exception skips what comes after it.
  abbrev pub ◌>>=◌ : {A : Type 0} → Result E A → (A → Result E B) → Result E B
  err e >>= rest = err e
  ok a >>= rest = rest a

  abbrev pub ◌>>◌ : Result E (Unit {0}) → Result E B → Result E B
  first >> rest = first >>= λ _. rest

-- A sequence succeeds exactly when both of its parts do.
pub >>-ok :
    {E : Type 0} (m k : Result E (Unit {0})) → ((m >> k) ≡ ok tt) ↔ ((m ≡ ok tt) × (k ≡ ok tt))
>>-ok (ok tt) k = ground arith
>>-ok (err e) k = ground arith

-- A chain that did not raise: its first call returned, and so did the rest on its value.
pub bind-ok :
    {E A B : Type 0} (call : Result E A) (rest : A → Result E B) (result : B)
    → (call >>= rest) ≡ ok result
    → (value : A) × (rest value ≡ ok result) × (call ≡ ok value)
bind-ok (err e) rest result h = cc
bind-ok (ok value) rest result h = (value, h, refl)

pub Result-cases :
    {E A : Type 0} (m : Result E A) → ((a : A) × (m ≡ ok a)) ⊎ ((e : E) × (m ≡ err e))
Result-cases (ok a) = inl (a, refl)
Result-cases (err e) = inr (e, refl)

pub ok-injective : {E A : Type 0} {a b : A} → ◌≡◌ {A = Result E A} (ok a) (ok b) → a ≡ b
ok-injective h = cc

pub >>=-assoc :
    {E A B C : Type 0} (m : Result E A) (f : A → Result E B) (g : B → Result E C)
    → (m >>= λ a. (f a >>= g)) ≡ ((m >>= f) >>= g)
>>=-assoc (ok a) f g = refl
>>=-assoc (err e) f g = refl
