-- ===== src/Table/Rowwise.antt =====
-- Two states of one table, row by row: the same rows in the same order, each in a relation to what
-- it was.
use mathlib.Core.Path.{subst}
use tunisia_vape_commerce.Prelude.{
  ==_iff, All, Bool, Bool-cases, List, [], find, inl, inr, some, sym, true, ℕ, ◌==◌, ◌∙◌, ◌∷◌, ◌≡◌,
  ◌≢◌,
}
use tunisia_vape_commerce.Table.{HasKey, update_many}
use tunisia_vape_commerce.Table.Keys.{find_row_unique}

abbrev pub Rowwise : {A : Type 0} → (A → A → Type 0) → List A → List A → Type 0
Rowwise R [] [] = Unit {0}
Rowwise R [] (r ∷ rs) = ⊥
Rowwise R (r ∷ rs) [] = ⊥
Rowwise R (r ∷ rs) (q ∷ qs) = R r q × Rowwise R rs qs

pub Rowwise-trans :
    {A : Type 0} (R : A → A → Type 0)
    → ((a b c : A) → R a b → R b c → R a c)
    → (rs qs ps : List A) → Rowwise R rs qs
    → Rowwise R qs ps
    → Rowwise R rs ps
Rowwise-trans R step [] [] [] h k = tt
Rowwise-trans R step (r ∷ rs) (q ∷ qs) (p ∷ ps) h k =
    (step r q p h.0 k.0, Rowwise-trans R step rs qs ps h.1 k.1)
Rowwise-trans R step [] [] (p ∷ ps) h k = absurd k
Rowwise-trans R step [] (q ∷ qs) ps h k = absurd h
Rowwise-trans R step (r ∷ rs) [] ps h k = absurd h
Rowwise-trans R step (r ∷ rs) (q ∷ qs) [] h k = absurd k

module _ {A : Type 0} (R : A → A → Type 0) (same : (a : A) → R a a) where
  pub Rowwise-refl : (rs : List A) → Rowwise R rs rs
  Rowwise-refl [] = tt
  Rowwise-refl (r ∷ rs) = (same r, Rowwise-refl rs)

  -- An update of rows that each are in the relation to what they become.
  pub update_many-Rowwise :
      (fits : A → Bool) (change : A → A) (rs : List A)
      → All (λ r. fits r ≡ true → R r (change r)) rs
      → Rowwise R rs (update_many fits change rs)
  update_many-Rowwise fits change [] h = tt
  update_many-Rowwise fits change (r ∷ rs) h = elim (Bool-cases (fits r)) [
    | inl f ↦ rw f (h.0 f, update_many-Rowwise fits change rs h.1)
    | inr f ↦ rw f (same r, update_many-Rowwise fits change rs h.1)
  ]

  -- An update of the row that was found, by its key.
  pub update_found-Rowwise :
      (key : A → ℕ) (cur : A) (change : A → A) (rs : List A)
      → HasKey key rs
      → find (λ r. key r == key cur) rs ≡ some cur
      → R cur (change cur)
      → Rowwise R rs (update_many (λ r. key r == key cur) change rs)
  update_found-Rowwise key cur change rs k found a =
      update_many-Rowwise (λ r. key r == key cur) change rs
        (hits rs a (find_row_unique key (key cur) rs k found))
    where
      hits :
          (qs : List A)
          → R cur (change cur)
          → All (λ r. key r ≡ key cur → r ≡ cur) qs
          → All (λ r. (key r == key cur) ≡ true → R r (change r)) qs
      hits [] a h = tt
      hits (r ∷ qs) a h = (
        (λ hit. subst (λ x. R x (change x)) (sym (h.0 ((==_iff (key r) (key cur)).0 hit))) a),
        hits qs a h.1,
      )

-- A relation that keeps the key of each row keeps the keys distinct.
module _ {A : Type 0} (R : A → A → Type 0) (key : A → ℕ)
    (keeps : (a b : A) → R a b → key b ≡ key a) where
  moved_absent :
      (c : ℕ) (rs qs : List A) → Rowwise R rs qs → All (λ r. key r ≢ c) rs → All (λ r. key r ≢ c) qs
  moved_absent c [] [] h n = tt
  moved_absent c [] (q ∷ qs) h n = absurd h
  moved_absent c (r ∷ rs) [] h n = tt
  moved_absent c (r ∷ rs) (q ∷ qs) h n =
      ((λ e. n.0 (sym (keeps r q h.0) ∙ e)), moved_absent c rs qs h.1 n.1)

  pub Rowwise-HasKey : (rs qs : List A) → Rowwise R rs qs → HasKey key rs → HasKey key qs
  Rowwise-HasKey [] [] h k = tt
  Rowwise-HasKey [] (q ∷ qs) h k = absurd h
  Rowwise-HasKey (r ∷ rs) [] h k = tt
  Rowwise-HasKey (r ∷ rs) (q ∷ qs) h k = (
    subst (λ c. All (λ p. key p ≢ c) qs) (sym (keeps r q h.0)) (moved_absent (key r) rs qs h.1 k.0),
    Rowwise-HasKey rs qs h.1 k.1,
  )
