-- ===== src/Base/Errors.antt =====
-- A Go result pair `(value, error)`: the value where the error is nil, or the error.
use mathlib.Core.Path.{◌≡◌, refl}
use mathlib.Core.Bool.{Bool, true, false}
use mathlib.Core.Logic.{◌⊎◌, inl, inr}

pub data Outcome {ℓ κ} (E : Type κ) (A : Type ℓ) : Type (ℓ ⊔ κ) where
  err : E → Outcome E A
  ok : A → Outcome E A

module _ {κ} {E : Type κ} where
  -- if bad { return error }
  abbrev pub reject : Bool → E → Outcome E (Unit {0})
  reject false why = ok tt
  reject true why = err why

  module _ {ℓ} {A : Type ℓ} where
    pub Outcome-cases :
        (m : Outcome E A) → ((value : A) × (m ≡ ok value)) ⊎ ((why : E) × (m ≡ err why))
    Outcome-cases (err why) = inr (why, refl)
    Outcome-cases (ok value) = inl (value, refl)

    -- result, err := first; if err != nil { return err }; next
    infixl 5 ◌>>=◌
    abbrev pub ◌>>=◌ {μ} : {B : Type μ} → Outcome E A → (A → Outcome E B) → Outcome E B
    err why >>= next = err why
    ok value >>= next = next value

    -- The first part of a chain that succeeds has succeeded, and so has the rest on its value.
    pub >>=-succeeded {μ} :
        {B : Type μ} (first : Outcome E A) (next : A → Outcome E B) {result : B}
        → (first >>= next) ≡ ok result
        → (value : A) × (next value ≡ ok result) × (first ≡ ok value)
    >>=-succeeded (err why) next done = cc
    >>=-succeeded (ok value) next done = (value, done, refl)

  -- if err := check; err != nil { return err }
  infixl 5 ◌>>◌
  abbrev pub ◌>>◌ {μ} : {B : Type μ} → Outcome E (Unit {0}) → Outcome E B → Outcome E B
  err why >> rest = err why
  ok u >> rest = rest

  -- A chain that succeeds has passed its first check.
  pub >>-succeeded {μ} :
      {B : Type μ} (check : Outcome E (Unit {0})) (rest : Outcome E B) {result : B}
      → (check >> rest) ≡ ok result
      → (check ≡ ok tt) × (rest ≡ ok result)
  >>-succeeded (err why) rest done = cc
  >>-succeeded (ok u) rest done = (refl, done)
