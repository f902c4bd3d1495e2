-- ===== src/Inventory/Ledger.antt =====
-- Two invariants of the stock tables: every bucket is in range and covers what is reserved of it,
-- and its quantity is the sum of its movements.
use mathlib.Core.Path.{subst}
use tunisia_vape_commerce.Prelude.{
  +ℤ_comm, All, Bool, Bool-cases, List, [], arith, false, find, if◌then◌else◌, inl, inr, pos, some,
  sym, true, ℕ, ℤ, ◌+ℤ◌, ◌==◌, ◌∷◌, ◌≡◌, ◌≢◌, ◌≤ℤ◌,
}
use tunisia_vape_commerce.Table.{HasKey, update_many}
use tunisia_vape_commerce.Inventory.Calculations.{IsStock}
use tunisia_vape_commerce.Inventory.Store.{
  Item, Movement, Reservation, Stock, at_version, find_item, reserved, reserved_in, set_on_hand,
}
use tunisia_vape_commerce.Table.Keys.{All-both, All-update, find_row_unique}

-- The sum of the movements of a bucket.
abbrev pub ledger : ℕ → List Movement → ℤ
ledger i [] = pos 0
ledger i (m ∷ ms) =
    if m.inventory_item_id == i then m.quantity_delta +ℤ ledger i ms else ledger i ms

-- A bucket in range that covers its active reservations at a time.
abbrev pub Covers : ℕ → List Reservation → Item → Type 0
Covers now rs r = IsStock r.on_hand × (reserved_in now r.id rs ≤ℤ r.on_hand)

abbrev pub Balances : List Movement → Item → Type 0
Balances ms r = r.on_hand ≡ ledger r.id ms

pub record IsSound (now : ℕ) (s : Stock) : Type 0 where
  pub keyed : HasKey (λ (r : Item). r.id) s.items
  pub covered : All (Covers now s.reservations) s.items
  pub balanced : All (Balances s.movements) s.items

pub find-All :
    (P : Item → Type 0) (i : ℕ) {cur : Item} (rs : List Item)
    → All P rs
    → find (λ r. r.id == i) rs ≡ some cur
    → P cur
find-All P i [] a h = cc
find-All P i {cur} (r ∷ rs) a h = elim (Bool-cases (r.id == i)) [
  | inl e ↦ let same : r ≡ cur = ground (arith, h, e) in subst P same a.0
  | inr e ↦ find-All P i rs a.1 (rw e at h)
]

abbrev rewrite_row : (Item → Bool) → ℤ → Item → Item
rewrite_row fits q r = if fits r then set_on_hand q r else r

row_hit :
    (fits : Item → Bool) (q : ℤ) (r : Item) → fits r ≡ true → rewrite_row fits q r ≡ set_on_hand q r
row_hit fits q r e = rw e

row_missed : (fits : Item → Bool) (q : ℤ) (r : Item) → fits r ≡ false → rewrite_row fits q r ≡ r
row_missed fits q r e = rw e

same_row_id : (fits : Item → Bool) (q : ℤ) (r : Item) → (rewrite_row fits q r).id ≡ r.id
same_row_id fits q r = elim (Bool-cases (fits r)) [ inl e ↦ rw e | inr e ↦ rw e ]

HasKey-update :
    (fits : Item → Bool) (q : ℤ) (rs : List Item)
    → HasKey (λ (r : Item). r.id) rs
    → HasKey (λ (r : Item). r.id) (update_many fits (set_on_hand q) rs)
HasKey-update fits q [] k = tt
HasKey-update fits q (r ∷ rs) k = (
  rw (same_row_id fits q r) (
      All-update (λ x. x.id ≢ r.id) (λ x. x.id ≢ r.id) fits (set_on_hand q)
        (λ x n. rw (same_row_id fits q x) n) rs k.0),
  HasKey-update fits q rs k.1,
)

-- A movement against one bucket, together with the rewriting of that bucket at its version.
abbrev pub move_stock : Item → ℕ → ℤ → Movement → Stock → Stock
move_stock cur v after m s = record s {
  items = update_many (at_version cur.id v) (set_on_hand after) s.items;
  movements = m ∷ s.movements;
}

module _ (now : ℕ) (cur : Item) (v : ℕ) (same_version : cur.version ≡ v) (after : ℤ) (m : Movement)
    (rs : List Reservation) (ms : List Movement) where
  Covers-row :
      IsStock after
      → reserved_in now cur.id rs ≤ℤ after
      → (r : Item) → Covers now rs r × (r.id ≡ cur.id → r ≡ cur)
      → Covers now rs (rewrite_row (at_version cur.id v) after r)
  Covers-row ok_after covers r h = elim (Bool-cases (at_version cur.id v r)) [
    | inl e ↦ rw e (ground (arith, ok_after, covers, e))
    | inr e ↦ rw e h.0
  ]

  Balances-row :
      m.inventory_item_id ≡ cur.id
      → after ≡ cur.on_hand +ℤ m.quantity_delta
      → (r : Item) → Balances ms r × (r.id ≡ cur.id → r ≡ cur)
      → Balances (m ∷ ms) (rewrite_row (at_version cur.id v) after r)
  Balances-row same_item sum r h = elim (Bool-cases (at_version cur.id v r)) [
    | inl e ↦
        subst (Balances (m ∷ ms)) (sym (row_hit (at_version cur.id v) after r e))
          (ground (arith, same_item, sum, h.0, h.1, e, +ℤ_comm cur.on_hand m.quantity_delta))
    | inr e ↦
        subst (Balances (m ∷ ms)) (sym (row_missed (at_version cur.id v) after r e))
          (ground (arith, same_item, same_version, sum, h.0, h.1, e))
  ]

-- A movement whose result is in range and covers what is reserved keeps the tables sound.
pub move_stock-IsSound :
    (now : ℕ) (cur : Item) (v : ℕ) (after : ℤ) (m : Movement) (s : Stock)
    → IsSound now s
    → find_item cur.id s ≡ some cur
    → cur.version ≡ v
    → m.inventory_item_id ≡ cur.id
    → after ≡ cur.on_hand +ℤ m.quantity_delta
    → IsStock after
    → reserved now cur.id s ≤ℤ after
    → IsSound now (move_stock cur v after m s)
unfolding reserved
move_stock-IsSound now cur v after m s sound found same_version same_item sum in_range covers =
    record {
      keyed = HasKey-update (at_version cur.id v) after s.items sound.keyed;
      covered =
          All-update (λ r. Covers now s.reservations r × (r.id ≡ cur.id → r ≡ cur))
            (Covers now s.reservations) (at_version cur.id v) (set_on_hand after)
            (Covers-row now cur v same_version after m s.reservations s.movements in_range covers)
            s.items
            (All-both (Covers now s.reservations) (λ r. r.id ≡ cur.id → r ≡ cur) s.items
              sound.covered
              (find_row_unique (λ (r : Item). r.id) cur.id s.items sound.keyed found));
      balanced =
          All-update (λ r. Balances s.movements r × (r.id ≡ cur.id → r ≡ cur))
            (Balances (m ∷ s.movements)) (at_version cur.id v) (set_on_hand after)
            (Balances-row now cur v same_version after m s.reservations s.movements same_item sum)
            s.items
            (All-both (Balances s.movements) (λ r. r.id ≡ cur.id → r ≡ cur) s.items sound.balanced
              (find_row_unique (λ (r : Item). r.id) cur.id s.items sound.keyed found));
    }
