-- ===== src/Orders/Confirmation.antt =====
-- `confirm`: the order and its delivery become confirmed and the ledger stays balanced.
use mathlib.Core.Path.{subst}
use tunisia_vape_commerce.Prelude.{
  ==_iff, Bool-cases, List, Result-cases, [], count_by, inl, inr, leb_ℤ, length, ltb_ℤ, ok, pos,
  true, ℕ, ◌-ℤ◌, ◌==◌, ◌∷◌, ◌≡◌,
}
use tunisia_vape_commerce.Inventory.Ledger.{Balances}
use tunisia_vape_commerce.Inventory.Calculations.{IsStock}
use tunisia_vape_commerce.Inventory.Store.{Item, Reservation, ReservationState, Stock, consumed}
use tunisia_vape_commerce.Orders.{Order}
use tunisia_vape_commerce.Orders.Confirm.{
  confirmed_movement, consume_stock, deduct_all, deduct_item, deduct_row, deductible, is_locked,
  quantity_on, set_state, settle_reservations,
}
use tunisia_vape_commerce.Orders.Deduction.{
  IsBalanced, deducted-Balances, deducted-HasKey, deducted_in_range, hit_row,
}
use tunisia_vape_commerce.Orders.Reservations.{
  Locked, assert_reservation_coverage, lock_active_inventory,
}
use tunisia_vape_commerce.Table.{update_many}
use tunisia_vape_commerce.Table.Keys.{All-both, All-update}

deduct_item-IsBalanced :
    (order_id : ℕ) (rs : List Reservation) (i : Item) (s s' : Stock)
    → IsBalanced s
    → deduct_item order_id rs i s ≡ ok s'
    → IsBalanced s'
unfolding deduct_item
deduct_item-IsBalanced order_id rs i s s' b h =
    let q = quantity_on i.id rs in
    elim (Bool-cases (leb_ℤ q (pos 0))) [
      | inl e ↦ cc (rw e at h)
      | inr e ↦ elim (Bool-cases (ltb_ℤ (i.on_hand -ℤ q) (pos 0))) [
        | inl f ↦ cc (rw (e, f) at h)
        | inr f ↦ elim (Bool-cases (count_by (deductible i q) s.items == 1)) [
          | inr g ↦ cc (rw (e, f, g) at h)
          | inl g ↦
              let after : Stock = record s {
                items = update_many (deductible i q) (deduct_row q) s.items;
                movements = confirmed_movement order_id i q ∷ s.movements;
              } in
              let same : after ≡ s' = cc (rw (e, f, g) at h) in
              subst IsBalanced same (record {
                keyed = deducted-HasKey i q s.items b.keyed;
                in_range =
                    All-update (λ r. IsStock r.on_hand) (λ r. IsStock r.on_hand) (deductible i q)
                      (deduct_row q) (λ r k. deducted_in_range i q r e k) s.items b.in_range;
                balanced =
                    All-update
                      (λ r. Balances s.movements r × (r.id ≡ i.id → deductible i q r ≡ true))
                      (Balances after.movements) (deductible i q) (deduct_row q)
                      (deducted-Balances order_id i q s.movements) s.items
                      (All-both (Balances s.movements) (λ r. r.id ≡ i.id → deductible i q r ≡ true)
                        s.items b.balanced (hit_row i q s.items b.keyed ((==_iff _ 1).0 g)));
              })
        ]
      ]
    ]

deduct_all-IsBalanced :
    (order_id : ℕ) (rs : List Reservation) (is : List Item) (s s' : Stock)
    → IsBalanced s
    → deduct_all order_id rs is s ≡ ok s'
    → IsBalanced s'
unfolding deduct_all
deduct_all-IsBalanced order_id rs [] s s' b h = let same : s ≡ s' = cc in subst IsBalanced same b
deduct_all-IsBalanced order_id rs (i ∷ is) s s' b h =
    elim (Result-cases (deduct_item order_id rs i s)) [
      | inr (x, e) ↦ cc (rw e at h)
      | inl (m, e) ↦
          deduct_all-IsBalanced order_id rs is m s' (deduct_item-IsBalanced order_id rs i s m b e)
            (rw e at h)
    ]

pub settle_reservations-IsBalanced :
    (state : ReservationState) (l : Locked) (s s' : Stock)
    → IsBalanced s
    → settle_reservations state l s ≡ ok s'
    → IsBalanced s'
unfolding settle_reservations
settle_reservations-IsBalanced state l s s' b h =
    elim (Bool-cases (count_by (is_locked l) s.reservations == length l.reservations)) [
      | inr e ↦ cc (rw e at h)
      | inl e ↦
          let same : record s {
            reservations = update_many (is_locked l) (set_state state) s.reservations;
          }
              ≡ s' =
            cc (rw e at h) in
          subst IsBalanced same
            (record { keyed = b.keyed; in_range = b.in_range; balanced = b.balanced })
    ]

pub consume_stock-IsBalanced :
    (now : ℕ) (o : Order) (s s' : Stock) (l : Locked)
    → IsBalanced s
    → consume_stock now o s ≡ ok (l, s')
    → IsBalanced s'
unfolding consume_stock
consume_stock-IsBalanced now o s s' l b h = elim (Result-cases (lock_active_inventory o.id s)) [
  | inr (x, e) ↦ cc (rw e at h)
  | inl (k, e) ↦ elim (Result-cases (assert_reservation_coverage now o k)) [
    | inr (x, f) ↦ cc (rw (e, f) at h)
    | inl (u, f) ↦ elim (Result-cases (deduct_all o.id k.reservations k.items s)) [
      | inr (x, g) ↦ cc (rw (e, f, g) at h)
      | inl (d, g) ↦ elim (Result-cases (settle_reservations consumed k d)) [
        | inr (x, j) ↦ cc (rw (e, f, g, j) at h)
        | inl (t, j) ↦
            let same : t ≡ s' = cc (rw (e, f, g, j) at h) in
            subst IsBalanced same (
              settle_reservations-IsBalanced consumed k d t
                (deduct_all-IsBalanced o.id k.reservations k.items s d b g) j)
      ]
    ]
  ]
]
