-- ===== src/Orders/Deduction.antt =====
-- The deduction of confirmed stock, and the ledger.
use mathlib.Core.Path.{subst}
use tunisia_vape_commerce.Prelude.{
  -ℤ_parts, ==_iff, All, Bool-cases, List, [], ap, arith, count_by, false, if◌then◌else◌, inl, inr,
  int_laws, leb_ℤ, neg, neg_parts, pos, refl, sym, true, ℕ, ℤ, ◌+ℤ◌, ◌-ℤ◌, ◌==◌, ◌∷◌, ◌≡◌, ◌≢◌,
}
use tunisia_vape_commerce.Table.{HasKey, update_many}
use tunisia_vape_commerce.Inventory.Calculations.{IsStock}
use tunisia_vape_commerce.Inventory.Store.{Item, Movement, Stock}
use tunisia_vape_commerce.Inventory.Ledger.{Balances, ledger}
use tunisia_vape_commerce.Orders.Confirm.{confirmed_movement, deduct_row, deductible}
use tunisia_vape_commerce.Table.Keys.{All-update}

-- Every bucket is in range and is the sum of its movements, under distinct identifiers.
pub record IsBalanced (s : Stock) : Type 0 where
  pub keyed : HasKey (λ (r : Item). r.id) s.items
  pub in_range : All (λ r. IsStock r.on_hand) s.items
  pub balanced : All (Balances s.movements) s.items

abbrev pub deducted_row : (i : Item) (q : ℤ) → Item → Item
deducted_row i q r = if deductible i q r then deduct_row q r else r

none_hit :
    (i : Item) (q : ℤ) (rs : List Item)
    → All (λ r. r.id ≢ i.id) rs
    → count_by (deductible i q) rs ≡ 0
none_hit i q [] n = refl
none_hit i q (r ∷ rs) n = ground (arith, n.0, none_hit i q rs n.1)

absent_vacuous :
    (i : Item) (q : ℤ) (rs : List Item)
    → All (λ r. r.id ≢ i.id) rs
    → All (λ r. r.id ≡ i.id → deductible i q r ≡ true) rs
absent_vacuous i q [] n = tt
absent_vacuous i q (r ∷ rs) n = ((λ e. absurd (n.0 e)), absent_vacuous i q rs n.1)

-- A guarded update that hits one row hits the row with the identifier.
pub hit_row :
    (i : Item) (q : ℤ) (rs : List Item)
    → HasKey (λ (r : Item). r.id) rs
    → count_by (deductible i q) rs ≡ 1
    → All (λ r. r.id ≡ i.id → deductible i q r ≡ true) rs
hit_row i q [] k h = tt
hit_row i q (r ∷ rs) k h = elim (Bool-cases (r.id == i.id)) [
  | inl e ↦
      let absent : All (λ x. x.id ≢ i.id) rs =
        subst (λ n. All (λ x. x.id ≢ n) rs) ((==_iff r.id i.id).0 e) k.0 in
      elim (Bool-cases (deductible i q r)) [
        | inl g ↦ ((λ _. g), absent_vacuous i q rs absent)
        | inr g ↦ absurd (ground (arith, rw g at h, none_hit i q rs absent))
      ]
  | inr e ↦ ((λ p. ground (arith, e, p)), hit_row i q rs k.1 (ground (arith, h, e)))
]

sub_in_range : (a q : ℤ) → leb_ℤ q (pos 0) ≡ false → leb_ℤ q a ≡ true → IsStock a → IsStock (a -ℤ q)
sub_in_range a q p e h = ground (arith, -ℤ_parts a q, p, e, h)

sub_as_sum : (a l q : ℤ) → a ≡ l → a -ℤ q ≡ neg q +ℤ l
sub_as_sum a l q h = rw h (omega (int_laws, neg_parts q))

pub row_hit :
    (i : Item) (q : ℤ) (r : Item) → deductible i q r ≡ true → deducted_row i q r ≡ deduct_row q r
row_hit i q r e = rw e

pub row_missed : (i : Item) (q : ℤ) (r : Item) → deductible i q r ≡ false → deducted_row i q r ≡ r
row_missed i q r e = rw e

-- What one row becomes: in range, and balanced with the movement.
pub deducted_in_range :
    (i : Item) (q : ℤ) (r : Item)
    → leb_ℤ q (pos 0) ≡ false
    → IsStock r.on_hand
    → IsStock (deducted_row i q r).on_hand
deducted_in_range i q r p h = elim (Bool-cases (deductible i q r)) [
  | inl e ↦
      subst (λ x. IsStock x.on_hand) (sym (row_hit i q r e))
        (sub_in_range r.on_hand q p (ground (arith, e)) h)
  | inr e ↦ subst (λ x. IsStock x.on_hand) (sym (row_missed i q r e)) h
]

-- A movement of another bucket leaves a bucket's sum.
other_balance :
    (m : Movement) (ms : List Movement) (r : Item)
    → m.inventory_item_id ≢ r.id
    → Balances ms r
    → Balances (m ∷ ms) r
other_balance m ms r n h = ground (arith, n, h)

own_balance :
    (m : Movement) (ms : List Movement) (r : Item)
    → m.inventory_item_id ≡ r.id
    → r.on_hand ≡ m.quantity_delta +ℤ ledger r.id ms
    → Balances (m ∷ ms) r
own_balance m ms r n h = ground (arith, n, h)

pub deducted-Balances :
    (order_id : ℕ) (i : Item) (q : ℤ) (ms : List Movement) (r : Item)
    → Balances ms r × (r.id ≡ i.id → deductible i q r ≡ true)
    → Balances (confirmed_movement order_id i q ∷ ms) (deducted_row i q r)
deducted-Balances order_id i q ms r h = elim (Bool-cases (r.id == i.id)) [
  | inl e ↦
      let same : r.id ≡ i.id = (==_iff r.id i.id).0 e in
      subst (Balances (confirmed_movement order_id i q ∷ ms)) (sym (row_hit i q r (h.1 same))) (
        own_balance (confirmed_movement order_id i q) ms (deduct_row q r) (sym same)
          (sub_as_sum r.on_hand (ledger r.id ms) q h.0))
  | inr e ↦
      subst (Balances (confirmed_movement order_id i q ∷ ms))
        (sym (row_missed i q r (ground (arith, e))))
        (other_balance (confirmed_movement order_id i q) ms r (λ same. ground (arith, same, e)) h.0)
]

same_row_id : (i : Item) (q : ℤ) (r : Item) → (deducted_row i q r).id ≡ r.id
same_row_id i q r = elim (Bool-cases (deductible i q r)) [
  | inl e ↦ ap (λ x. x.id) (row_hit i q r e)
  | inr e ↦ ap (λ x. x.id) (row_missed i q r e)
]

pub deducted-HasKey :
    (i : Item) (q : ℤ) (rs : List Item)
    → HasKey (λ (r : Item). r.id) rs
    → HasKey (λ (r : Item). r.id) (update_many (deductible i q) (deduct_row q) rs)
deducted-HasKey i q [] k = tt
deducted-HasKey i q (r ∷ rs) k = (
  rw (same_row_id i q r) (
      All-update (λ x. x.id ≢ r.id) (λ x. x.id ≢ r.id) (deductible i q) (deduct_row q)
        (λ x n. rw (same_row_id i q x) n) rs k.0),
  deducted-HasKey i q rs k.1,
)
