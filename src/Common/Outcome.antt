-- ===== src/Common/Outcome.antt =====
-- Fallible code: a value, or the exception that was raised.
use mathlib.Core.Path.{◌≡◌, refl}

pub data Result {ℓ} (E A : Type ℓ) : Type ℓ where
  ok : A → Result E A
  err : E → Result E A

-- The rest of a function runs where nothing was raised.
module _ {ℓ} {E A B : Type ℓ} where
  infixl 5 ◌>>=◌
  abbrev pub ◌>>=◌ : Result E A → (A → Result E B) → Result E B
  err raised >>= rest = err raised
  ok value >>= rest = rest value

  -- A chain that returns has returned at its first step.
  pub >>=-eq-ok :
      (first : Result E A) (rest : A → Result E B) {last : B}
      → (first >>= rest) ≡ ok last
      → (value : A) × (first ≡ ok value) × (rest value ≡ ok last)
  >>=-eq-ok (err raised) rest chained = cc
  >>=-eq-ok (ok value) rest chained = (value, refl, chained)

-- What holds of the value, where one is returned.
abbrev pub Ensures {ℓ} : {E A : Type ℓ} → (A → Type ℓ) → Result E A → Type ℓ
Ensures P (ok a) = P a
Ensures P (err e) = Unit

pub Ensures-weaken {ℓ} :
    {E A : Type ℓ} (P Q : A → Type ℓ)
    → ((a : A) → P a → Q a)
    → (result : Result E A) → Ensures P result
    → Ensures Q result
Ensures-weaken P Q implies (ok a) h = implies a h
Ensures-weaken P Q implies (err e) h = tt

-- A chain ensures what its last step ensures after every value of the first one.
pub Ensures-chain {ℓ} :
    {E A B : Type ℓ} (P : A → Type ℓ) (Q : B → Type ℓ) (first : Result E A) (rest : A → Result E B)
    → Ensures P first
    → ((a : A) → P a → Ensures Q (rest a))
    → Ensures Q (first >>= rest)
Ensures-chain P Q (ok a) rest h last = last a h
Ensures-chain P Q (err e) rest h last = tt

pub Ensures-always {ℓ} : {E A : Type ℓ} (result : Result E A) → Ensures (λ a. Unit {ℓ}) result
Ensures-always (ok a) = tt
Ensures-always (err e) = tt
