-- ===== src/Cash/Sums.antt =====
-- What is allocated to each collection after the rows of a new remittance, which name it once.
use tunisia_vape_commerce.Prelude.{
  All, All-mono, Bool-cases, List, [], ap, arith, false, includes, inl, inr, length, map, refl,
  true, ℕ, ◌++◌, ◌+ℤ◌, ◌==◌, ◌∷◌, ◌≡◌, ◌≤◌,
}
use tunisia_vape_commerce.Table.Keys.{All-both}
use tunisia_vape_commerce.Orders.Reservations.{distinct}
use tunisia_vape_commerce.Cash.{RemittanceItem}
use tunisia_vape_commerce.Cash.Remit.{Allocated, allocated_to, item_of}

abbrev pub id_of : Allocated → ℕ
id_of a = a.collection_id

abbrev pub Unrepeated : List Allocated → Type 0
Unrepeated [] = Unit {0}
Unrepeated (a ∷ as') = (includes a.collection_id (map id_of as') ≡ false) × Unrepeated as'

distinct_bounded : (xs : List ℕ) → length (distinct xs) ≤ length xs
distinct_bounded [] = omega arith
distinct_bounded (x ∷ xs) = elim (Bool-cases (includes x xs)) [
  | inl e ↦ rw e (omega (arith, distinct_bounded xs))
  | inr e ↦ rw e (omega (arith, distinct_bounded xs))
]

pub distinct-Unrepeated :
    (rows : List Allocated)
    → length (distinct (map id_of rows)) ≡ length (map id_of rows)
    → Unrepeated rows
distinct-Unrepeated [] h = tt
distinct-Unrepeated (a ∷ rows) h = elim (Bool-cases (includes a.collection_id (map id_of rows))) [
  | inl e ↦ absurd (omega (arith, rw e at h, distinct_bounded (map id_of rows)))
  | inr e ↦ (e, distinct-Unrepeated rows (omega (arith, rw e at h)))
]

-- The new rows of other collections add nothing.
allocated_elsewhere :
    (fresh id : ℕ) (rows : List Allocated) (items : List RemittanceItem)
    → includes id (map id_of rows) ≡ false
    → allocated_to id (map (item_of fresh) rows ++ items) ≡ allocated_to id items
unfolding allocated_to
allocated_elsewhere fresh id [] items h = refl
allocated_elsewhere fresh id (a ∷ rows) items h =
    let other : (a.collection_id == id) ≡ false = ground (arith, h) in
    rw other (allocated_elsewhere fresh id rows items (ground (arith, h)))

included_not :
    (x : ℕ) (rows : List Allocated)
    → includes x (map id_of rows) ≡ false
    → All (λ b. (x == b.collection_id) ≡ false) rows
included_not x [] h = tt
included_not x (b ∷ rows) h = (ground (arith, h), included_not x rows (ground (arith, h)))

pub allocated_now :
    (fresh : ℕ) (rows : List Allocated) (items : List RemittanceItem)
    → Unrepeated rows
    → All
        (λ a.
          allocated_to a.collection_id (map (item_of fresh) rows ++ items)
          ≡ a.amount +ℤ allocated_to a.collection_id items)
        rows
unfolding allocated_to
allocated_now fresh [] items u = tt
allocated_now fresh (a ∷ rows) items u = (
  own,
  All-mono
      (λ b.
        (allocated_to b.collection_id (map (item_of fresh) rows ++ items)
          ≡ b.amount +ℤ allocated_to b.collection_id items)
        × ((a.collection_id == b.collection_id) ≡ false))
      (λ b.
        allocated_to b.collection_id (map (item_of fresh) (a ∷ rows) ++ items)
        ≡ b.amount +ℤ allocated_to b.collection_id items)
      rows (λ b h. rw h.1 h.0)
      (All-both
        (λ b.
          allocated_to b.collection_id (map (item_of fresh) rows ++ items)
          ≡ b.amount +ℤ allocated_to b.collection_id items)
        (λ b. (a.collection_id == b.collection_id) ≡ false) rows
        (allocated_now fresh rows items u.1) (included_not a.collection_id rows u.0)),
)
  where
    own :
        allocated_to a.collection_id (map (item_of fresh) (a ∷ rows) ++ items)
        ≡ a.amount +ℤ allocated_to a.collection_id items
    own =
        let hit : (a.collection_id == a.collection_id) ≡ true = ground arith in
        rw hit (ap (λ n. a.amount +ℤ n) (allocated_elsewhere fresh a.collection_id rows items u.0))
