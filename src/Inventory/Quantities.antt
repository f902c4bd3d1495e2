-- ===== src/Inventory/Quantities.antt =====
-- Operations that record in the ledger and move no stock.
use mathlib.Core.Path.{subst}
use tunisia_vape_commerce.Prelude.{
  All-mono, Bool-cases, List, inl, inr, int_laws, pos, refl, sym, ℕ, ℤ, ◌+ℤ◌, ◌==◌, ◌∙◌, ◌∷◌, ◌≡◌,
  ◌≤ℤ◌,
}
use tunisia_vape_commerce.Inventory.Ledger.{Balances, Covers, IsSound, ledger}
use tunisia_vape_commerce.Inventory.Store.{Movement, Stock, reserved_in}

-- Two stocks with the same buckets and, for each bucket, the same sum of movements.
pub record SameQuantities (s s' : Stock) : Type 0 where
  pub same_items : s'.items ≡ s.items
  pub same_ledger : (i : ℕ) → ledger i s'.movements ≡ ledger i s.movements

pub SameQuantities-trans :
    (a b c : Stock) → SameQuantities a b → SameQuantities b c → SameQuantities a c
SameQuantities-trans a b c h k = record {
  same_items = k.same_items ∙ h.same_items;
  same_ledger = λ i. k.same_ledger i ∙ h.same_ledger i;
}

zero_added : (x : ℤ) → pos 0 +ℤ x ≡ x
zero_added x = omega int_laws

pub SameQuantities-refl : (s : Stock) → SameQuantities s s
SameQuantities-refl s = record { same_items = refl; same_ledger = λ i. refl }

-- A movement of nothing.
pub ledger_unmoved :
    (m : Movement) (ms : List Movement) (i : ℕ)
    → m.quantity_delta ≡ pos 0
    → ledger i (m ∷ ms) ≡ ledger i ms
ledger_unmoved m ms i z = elim (Bool-cases (m.inventory_item_id == i)) [
  | inl e ↦ rw (e, z) (zero_added (ledger i ms))
  | inr e ↦ rw e refl
]

-- Sound tables stay sound where quantities and what is reserved are the same.
pub SameQuantities-IsSound :
    (now : ℕ) (s s' : Stock)
    → IsSound now s
    → SameQuantities s s'
    → ((i : ℕ) → reserved_in now i s'.reservations ≡ reserved_in now i s.reservations)
    → IsSound now s'
SameQuantities-IsSound now s s' sound q r = record {
  keyed = rw q.same_items sound.keyed;
  covered = rw q.same_items (
      All-mono (Covers now s.reservations) (Covers now s'.reservations) s.items
        (λ x h. (h.0, subst (λ v. v ≤ℤ x.on_hand) (sym (r x.id)) h.1)) sound.covered);
  balanced = rw q.same_items (
      All-mono (Balances s.movements) (Balances s'.movements) s.items
        (λ x h. h ∙ sym (q.same_ledger x.id)) sound.balanced);
}
