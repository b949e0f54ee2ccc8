-- ===== src/Base/Raising.antt =====
-- Errors as values: what a call returns, or the error that it raises.
use mathlib.Core.Path.{◌≡◌, refl}
use mathlib.Core.Logic.{◌⊎◌, inl, inr}
use mathlib.Core.Bool.{Bool, true, false}

pub data Outcome {ℓ κ} (E : Type κ) (A : Type ℓ) : Type (ℓ ⊔ κ) where
  ok : A → Outcome E A
  raise : E → Outcome E A

module _ {E : Type 0} where
  infixl 5 ◌>>=◌
  abbrev pub ◌>>=◌ : {A B : Type 0} → Outcome E A → (A → Outcome E B) → Outcome E B
  raise e >>= next = raise e
  ok a >>= next = next a

  -- `if not test: raise e`
  abbrev pub require : Bool → E → Outcome E (Unit {0})
  require true e = ok tt
  require false e = raise e

  infixl 5 ◌>>◌
  abbrev pub ◌>>◌ : {A : Type 0} → Outcome E (Unit {0}) → Outcome E A → Outcome E A
  first >> second = first >>= λ _. second

  pub Outcome-cases :
      {A : Type 0} (m : Outcome E A) → ((a : A) × (m ≡ ok a)) ⊎ ((e : E) × (m ≡ raise e))
  Outcome-cases (ok a) = inl (a, refl)
  Outcome-cases (raise e) = inr (e, refl)

  -- Inversion of a successful chain.
  pub >>=-eq-ok :
      {A B : Type 0} (first : Outcome E A) (next : A → Outcome E B) {result : B}
      → (first >>= next) ≡ ok result
      → (a : A) × (first ≡ ok a) × (next a ≡ ok result)
  >>=-eq-ok (raise e) next h = cc
  >>=-eq-ok (ok a) next h = (a, refl, h)

  pub ok-inj : {A : Type 0} {a b : A} → ◌≡◌ {A = Outcome E A} (ok a) (ok b) → a ≡ b
  ok-inj h = cc
