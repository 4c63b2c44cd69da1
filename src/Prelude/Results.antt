-- ===== src/Prelude/Results.antt =====
-- A function that may raise, and a transaction that is rolled back when it does.
use mathlib.Core.Path.{◌≡◌, refl}
use mathlib.Core.Logic.{◌⊎◌, inl, inr}

pub data Result {ℓ} (E A : Type ℓ) : Type ℓ where
  ok : A → Result E A
  err : E → Result E A

infixl 5 ◌>>=◌
abbrev pub ◌>>=◌ {ℓ} : {E A B : Type ℓ} → Result E A → (A → Result E B) → Result E B
ok a >>= f = f a
err e >>= f = err e

-- A block that commits at its end: a raise leaves the state as it was when the block began.
abbrev pub transact {ℓ} : {E A S : Type ℓ} → S → Result E (A × S) → Result E A × S
transact s (ok (a, s')) = (ok a, s')
transact s (err e) = (err e, s)

pub Result-cases {ℓ} :
    {E A : Type ℓ} (r : Result E A) → ((a : A) × (r ≡ ok a)) ⊎ ((e : E) × (r ≡ err e))
Result-cases (ok a) = inl (a, refl)
Result-cases (err e) = inr (e, refl)
