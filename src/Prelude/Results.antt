-- ===== src/Prelude/Results.antt =====
-- A function that may raise returns a `Result`.
use mathlib.Core.Bool.{Bool, true, false}
use mathlib.Core.Path.{◌≡◌, refl}
use mathlib.Core.Logic.{◌⊎◌, inl, inr}

pub data Result {ℓ} (E A : Type ℓ) : Type ℓ where
  err : E → Result E A
  ok : A → Result E A

module _ {ℓ} {E : Type ℓ} where
  pub Result-cases :
      {A : Type ℓ} (m : Result E A) → ((a : A) × (m ≡ ok a)) ⊎ ((e : E) × (m ≡ err e))
  Result-cases (err e) = inr (e, refl)
  Result-cases (ok a) = inl (a, refl)

  -- `if not test: raise e`
  abbrev pub require : Bool → E → Result E (Unit {ℓ})
  require test e = elim test [ false ↦ err e | true ↦ ok tt ]

  infixl 5 ◌>>=◌
  abbrev pub ◌>>=◌ : {A B : Type ℓ} → Result E A → (A → Result E B) → Result E B
  m >>= next = elim m [ err e ↦ err e | ok a ↦ next a ]

  infixl 5 ◌>>◌
  abbrev pub ◌>>◌ : {B : Type ℓ} → Result E (Unit {ℓ}) → Result E B → Result E B
  m >> last = m >>= λ _. last

  -- A chain that succeeded has passed its first part.
  pub bind-eq-ok :
      {A B : Type ℓ} (first : Result E A) (next : A → Result E B) (b : B)
      → first >>= next ≡ ok b
      → (a : A) × (first ≡ ok a) × (next a ≡ ok b)
  bind-eq-ok (err e) next b h = cc
  bind-eq-ok (ok a) next b h = (a, refl, h)
