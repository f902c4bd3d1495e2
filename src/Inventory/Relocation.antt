-- ===== src/Inventory/Relocation.antt =====
-- A transfer keeps the stock sound: what leaves one bucket arrives in the other, or in a new one.
use mathlib.Core.Path.{subst}
use tunisia_vape_commerce.Prelude.{
  ==_iff, All, All-mono, Bool, Bool-cases, List, [], ap, find, inl, inr, int_laws, pos, refl, some,
  sym, true, ℕ, ℤ, ◌+ℤ◌, ◌==◌, ◌∙◌, ◌∷◌, ◌≡◌, ◌≢◌, ◌≤ℤ◌,
}
use tunisia_vape_commerce.Table.{HasKey, update_many}
use tunisia_vape_commerce.Table.Keys.{All-both, find_row_unique}
use tunisia_vape_commerce.Inventory.Calculations.{IsStock}
use tunisia_vape_commerce.Inventory.Store.{
  Item, Movement, Stock, at_version, find_item, reserved, reserved_in, set_on_hand,
}
use tunisia_vape_commerce.Inventory.Ledger.{
  Balances, Covers, IsSound, find-All, ledger, move_stock-IsSound,
}
use tunisia_vape_commerce.Inventory.Transfers.{increment}

-- A row that a test finds is found under its key, and passes the test.
pub find_tested :
    (p : Item → Bool) (rs : List Item) {d : Item}
    → HasKey (λ (r : Item). r.id) rs
    → find p rs ≡ some d
    → (find (λ r. r.id == d.id) rs ≡ some d) × (p d ≡ true)
find_tested p [] k h = cc
find_tested p (r ∷ rs) {d} k h = elim (Bool-cases (p r)) [
  | inl e ↦
      let same : r ≡ d = cc (rw e at h) in
      let hit : (r.id == d.id) ≡ true = (==_iff r.id d.id).1 (ap (λ (x : Item). x.id) same) in
      (rw hit (ap some same), subst (λ x. p x ≡ true) same e)
  | inr e ↦
      let (there, passes) = find_tested p rs k.1 (rw e at h) in
      elim (Bool-cases (r.id == d.id)) [
        | inr miss ↦ (rw miss there, passes)
        | inl hit ↦
            let apart = find-All (λ q. q.id ≢ r.id) d.id rs k.0 there in
            absurd (apart (sym ((==_iff r.id d.id).0 hit)))
      ]
]

-- The increment of the one row under an identifier, as a guarded update.
increment_one :
    (d : Item) (quantity : ℤ) (rs : List Item)
    → All (λ r. r.id ≡ d.id → r ≡ d) rs
    → update_many (λ r. r.id == d.id) (increment quantity) rs
      ≡ update_many (at_version d.id d.version) (set_on_hand (d.on_hand +ℤ quantity)) rs
increment_one d quantity [] only = refl
increment_one d quantity (r ∷ rs) only = elim (Bool-cases (r.id == d.id)) [
  | inr miss ↦ rw miss (ap (λ qs. r ∷ qs) (increment_one d quantity rs only.1))
  | inl hit ↦
      let same : r ≡ d = only.0 ((==_iff r.id d.id).0 hit) in
      let current : (r.version == d.version) ≡ true =
        (==_iff r.version d.version).1 (ap (λ (x : Item). x.version) same) in
      let one : increment quantity r ≡ set_on_hand (d.on_hand +ℤ quantity) r =
        subst (λ x. increment quantity x ≡ set_on_hand (d.on_hand +ℤ quantity) x) (sym same) refl in
      rw (hit, current)
        (ap (λ q. q ∷ update_many (λ x. x.id == d.id) (increment quantity) rs) one
          ∙ ap (λ qs. set_on_hand (d.on_hand +ℤ quantity) r ∷ qs)
              (increment_one d quantity rs only.1))
]

-- The arrival in a bucket that is there.
pub arrive-IsSound :
    (now : ℕ) (d : Item) (quantity : ℤ) (m : Movement) (s : Stock)
    → IsSound now s
    → find_item d.id s ≡ some d
    → m.inventory_item_id ≡ d.id
    → m.quantity_delta ≡ quantity
    → pos 0 ≤ℤ quantity
    → IsStock (d.on_hand +ℤ quantity)
    → IsSound now (record s {
      items = update_many (λ r. r.id == d.id) (increment quantity) s.items;
      movements = m ∷ s.movements;
    })
unfolding reserved
arrive-IsSound now d quantity m s sound found here sum grows in_range =
    let rows =
      increment_one d quantity s.items
        (find_row_unique (λ (r : Item). r.id) d.id s.items sound.keyed found) in
    let held = (find-All (Covers now s.reservations) d.id s.items sound.covered found).1 in
    subst (λ is. IsSound now (record s { items = is; movements = m ∷ s.movements })) (sym rows)
      (move_stock-IsSound now d d.version (d.on_hand +ℤ quantity) m s sound found refl here
        (ap (λ x. d.on_hand +ℤ x) (sym sum)) in_range (omega (int_laws, held, grows)))

-- An identifier that no bucket, movement or reservation has.
pub record IsFresh (now fresh : ℕ) (s : Stock) : Type 0 where
  pub no_item : All (λ (r : Item). r.id ≢ fresh) s.items
  pub no_hold : reserved_in now fresh s.reservations ≡ pos 0
  pub no_movement : ledger fresh s.movements ≡ pos 0

-- The arrival in a bucket that is created.
pub create-IsSound :
    (now : ℕ) (slot : Item) (m : Movement) (s : Stock)
    → IsSound now s
    → IsFresh now slot.id s
    → m.inventory_item_id ≡ slot.id
    → m.quantity_delta ≡ slot.on_hand
    → IsStock slot.on_hand
    → IsSound now (record s { items = slot ∷ s.items; movements = m ∷ s.movements })
create-IsSound now slot m s sound fresh here sum in_range = record {
  keyed = (fresh.no_item, sound.keyed);
  covered = ((in_range, rw fresh.no_hold in_range.0), sound.covered);
  balanced = (
    own,
    All-mono (λ r. Balances s.movements r × (r.id ≢ slot.id)) (Balances (m ∷ s.movements)) s.items
        (λ r h. others r h.0 h.1)
        (All-both (Balances s.movements) (λ r. r.id ≢ slot.id) s.items sound.balanced
          fresh.no_item),
  );
}
  where
    own : slot.on_hand ≡ ledger slot.id (m ∷ s.movements)
    own =
        let hit : (m.inventory_item_id == slot.id) ≡ true =
          (==_iff m.inventory_item_id slot.id).1 here in
        rw (hit, fresh.no_movement, sum) (omega int_laws)

    others : (r : Item) → Balances s.movements r → r.id ≢ slot.id → Balances (m ∷ s.movements) r
    others r b apart = elim (Bool-cases (m.inventory_item_id == r.id)) [
      | inr miss ↦ rw miss b
      | inl hit ↦ absurd (apart (sym ((==_iff m.inventory_item_id r.id).0 hit) ∙ here))
    ]
