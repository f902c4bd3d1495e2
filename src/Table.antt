-- ===== src/Table.antt =====
-- Database tables as the services use them through Prisma: rows in a list, `findUnique`,
-- `updateMany` with its count, and `$transaction`, which commits what its body returns and rolls
-- back when it throws. Rows are read under `FOR UPDATE` locks, so a transaction is one step.
pub mod Keys
pub mod Rowwise
use tunisia_vape_commerce.Prelude.{
  All, Bool, List, Result, [], err, filter, if◌then◌else◌, includes, ok, ℕ, ◌∷◌, ◌≢◌,
}

module _ {ℓ} {A : Type ℓ} where
  -- `updateMany({ where, data })`: the rows that fit are rewritten; the count is `count_by`'s.
  abbrev pub update_many : (A → Bool) → (A → A) → List A → List A
  update_many fits change [] = []
  update_many fits change (r ∷ rs) = (if fits r then change r else r) ∷ update_many fits change rs

  -- `where: { id: { in: ids } }`
  abbrev pub rows_in : (A → ℕ) → List ℕ → List A → List A
  rows_in key ids = filter (λ r. includes (key r) ids)

module _ {ℓ κ} {S : Type ℓ} {E : Type κ} where
  abbrev pub commit {ν} : {A : Type ν} → S → Result E (S × A) → S × Result E A
  commit s (ok (s', a)) = (s', ok a)
  commit s (err e) = (s, err e)

-- The primary key: no two rows have one identifier.
abbrev pub HasKey {ℓ} : {A : Type ℓ} → (A → ℕ) → List A → Type 0
HasKey key [] = Unit {0}
HasKey key (r ∷ rs) = All (λ q. key q ≢ key r) rs × HasKey key rs
