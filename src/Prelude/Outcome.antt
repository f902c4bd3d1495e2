-- ===== src/Prelude/Outcome.antt =====
-- A call that returns or throws. An error thrown inside `prisma.$transaction` rolls the writes
-- back, so a transaction from a state is a `Result` whose `ok` carries the state committed.
use mathlib.Core.Path.{◌≡◌, refl}
use mathlib.Core.Logic.{◌⊎◌, inl, inr}
use mathlib.Core.Bool.{Bool, true, false}
use mathlib.Core.Option.{Option, none, some}

pub data Result {ℓ κ} (E : Type ℓ) (A : Type κ) : Type (ℓ ⊔ κ) where
  ok : A → Result E A
  err : E → Result E A

module _ {ℓ} {E : Type ℓ} where
  -- `if (!value) throw e;`
  abbrev pub or_throw {κ} : {A : Type κ} → Option A → E → Result E A
  or_throw (some value) e = ok value
  or_throw none e = err e

  -- `if (test) throw e;`
  abbrev pub throw_if : Bool → E → Result E (Unit {0})
  throw_if false e = ok tt
  throw_if true e = err e

  infixl 5 ◌>>=◌
  abbrev pub ◌>>=◌ {κ ν} : {A : Type κ} {B : Type ν} → Result E A → (A → Result E B) → Result E B
  err thrown >>= next = err thrown
  ok value >>= next = next value

  -- Whether the call returned or threw, with the value.
  pub Result-cases {κ} :
      {A : Type κ} (call : Result E A)
      → ((value : A) × (call ≡ ok value)) ⊎ ((thrown : E) × (call ≡ err thrown))
  Result-cases (err thrown) = inr (thrown, refl)
  Result-cases (ok value) = inl (value, refl)

  infixl 5 ◌>>◌
  abbrev pub ◌>>◌ {κ} : {B : Type κ} → Result E (Unit {0}) → Result E B → Result E B
  test >> rest = test >>= λ _. rest
