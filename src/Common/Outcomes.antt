-- ===== src/Common/Outcomes.antt =====
-- A Go call that returns `(value, error)`, and one that also changes a state.
use mathlib.Core.Path.{◌≡◌, refl}
use mathlib.Core.Logic.{◌⊎◌, inl, inr}
use mathlib.Core.Option.{Option, none, some}

pub data Outcome {ℓ κ} (E : Type ℓ) (A : Type κ) : Type (ℓ ⊔ κ) where
  ok : A → Outcome E A
  err : E → Outcome E A

infixl 5 ◌>>=◌ ◌>>◌
abbrev pub ◌>>=◌ {ℓ κ τ} :
    {E : Type ℓ} {A : Type κ} {B : Type τ} → Outcome E A → (A → Outcome E B) → Outcome E B
ok a >>= f = f a
err e >>= f = err e

abbrev pub ◌>>◌ {ℓ κ τ} :
    {E : Type ℓ} {A : Type κ} {B : Type τ} → Outcome E A → Outcome E B → Outcome E B
m >> k = m >>= λ _. k

-- a call that only returns an `error`, nil or not
abbrev pub check {ℓ} : {E : Type ℓ} → Option E → Outcome E (Unit {0})
check none = ok tt
check (some e) = err e

pub Outcome-cases {ℓ κ} :
    {E : Type ℓ} {A : Type κ} (o : Outcome E A) → ((e : E) × (o ≡ err e)) ⊎ ((a : A) × (o ≡ ok a))
Outcome-cases (ok a) = inr (a, refl)
Outcome-cases (err e) = inl (e, refl)
