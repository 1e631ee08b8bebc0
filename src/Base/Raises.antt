-- ===== src/Base/Raises.antt =====
-- A Python call's outcome: a value, or the exception that it raises.
use mathlib.Core.Path.{◌≡◌, refl}
use mathlib.Core.Bool.{Bool, true, false}

pub data Outcome {ℓ κ} (E : Type ℓ) (A : Type κ) : Type (ℓ ⊔ κ) where
  ok : A → Outcome E A
  err : E → Outcome E A

module _ {ℓ κ ι} {E : Type ℓ} {A : Type κ} {B : Type ι} where
  infixl 5 ◌>>=◌
  abbrev pub ◌>>=◌ : Outcome E A → (A → Outcome E B) → Outcome E B
  err raised >>= next = err raised
  ok value >>= next = next value

  -- Inversion of a successful bind.
  pub >>=-eq-ok :
      (call : Outcome E A) (next : A → Outcome E B) {result : B}
      → (call >>= next) ≡ ok result
      → (value : A) × (call ≡ ok value) × (next value ≡ ok result)
  >>=-eq-ok (err raised) next returned = cc
  >>=-eq-ok (ok value) next returned = (value, refl, returned)

module _ {ℓ κ} {E : Type ℓ} {B : Type κ} where
  infixl 5 ◌>>◌
  abbrev pub ◌>>◌ : Outcome E (Unit {0}) → Outcome E B → Outcome E B
  before >> after = before >>= λ _. after

-- `if not test: raise e`
module _ {ℓ} {E : Type ℓ} where
  abbrev pub ensure : Bool → E → Outcome E (Unit {0})
  ensure false failure = err failure
  ensure true failure = ok tt
