-- ===== src/Orders/Confirm.antt =====
-- `confirm` of admin-orders.service.ts, one transaction; the audit rows and the response that is
-- read back are left out.
use tunisia_vape_commerce.Prelude.{
  Bool, List, Result, [], count_by, if◌then◌else◌, includes, leb_ℤ, length, ltb_ℤ, map, neg, not,
  ok, or_throw, pos, throw_if, ℕ, ℤ, ◌&&◌, ◌+ℤ◌, ◌+◌, ◌-ℤ◌, ◌==◌, ◌>>=◌, ◌>>◌, ◌||◌, ◌∷◌,
}
use tunisia_vape_commerce.OrderStatus.{
  can_transition_order, confirmed, pending_confirmation, same_status,
}
use tunisia_vape_commerce.Inventory.Store.{
  Item, Movement, Reservation, ReservationState, Stock, at_version, consumed, is_active,
}
use tunisia_vape_commerce.Table.{update_many}
use tunisia_vape_commerce.Inventory.{order_confirmed}
use tunisia_vape_commerce.Orders.{
  Delivery, Order, OrderError, Shop, assert_version, confirmation_not_allowed,
  delivery_confirmation_not_allowed, delivery_missing, insufficient_stock, inventory_conflict,
  lock_order, move_order, notify, order_confirmed_event, record_change, reservation_conflict,
}
use tunisia_vape_commerce.Orders.Reservations.{
  Locked, assert_reservation_coverage, distinct, lock_active_inventory,
}
use tunisia_vape_commerce.Orders.Alerts.{create_low_stock_alerts}

-- The quantity of the order's reservations on a bucket.
unfoldable pub quantity_on : ℕ → List Reservation → ℤ
quantity_on i [] = pos 0
quantity_on i (r ∷ rs) =
    if r.inventory_item_id == i then r.quantity +ℤ quantity_on i rs else quantity_on i rs

-- `where: { id, version, onHandQuantity: { gte: quantity } }`
abbrev pub deductible : Item → ℤ → Item → Bool
deductible i quantity r = at_version i.id i.version r && leb_ℤ quantity r.on_hand

abbrev pub deduct_row : ℤ → Item → Item
deduct_row quantity r = record r { on_hand = r.on_hand -ℤ quantity; version = r.version + 1 }

abbrev pub confirmed_movement : ℕ → Item → ℤ → Movement
confirmed_movement order_id i quantity = record {
  inventory_item_id = i.id;
  type = order_confirmed;
  quantity_delta = neg quantity;
  on_hand_after = i.on_hand -ℤ quantity;
  reference_id = order_id;
}

-- One round of the loop of `confirm`.
unfoldable pub deduct_item : ℕ → List Reservation → Item → Stock → Result OrderError Stock
unfolding quantity_on
deduct_item order_id rs i s = do
  let quantity = quantity_on i.id rs
  throw_if (leb_ℤ quantity (pos 0) || ltb_ℤ (i.on_hand -ℤ quantity) (pos 0)) insufficient_stock
  throw_if (not (count_by (deductible i quantity) s.items == 1)) inventory_conflict
  ok (record s {
    items = update_many (deductible i quantity) (deduct_row quantity) s.items;
    movements = confirmed_movement order_id i quantity ∷ s.movements;
  })

unfoldable pub deduct_all : ℕ → List Reservation → List Item → Stock → Result OrderError Stock
unfolding deduct_item
deduct_all order_id rs [] s = ok s
deduct_all order_id rs (i ∷ is) s =
    deduct_item order_id rs i s >>= λ s'. deduct_all order_id rs is s'

-- `id in locked and state = 'ACTIVE'`, and the guarded update of those reservations.
abbrev pub is_locked : Locked → Reservation → Bool
is_locked l r = includes r.id (map (λ (q : Reservation). q.id) l.reservations) && is_active r.state

abbrev pub set_state : ReservationState → Reservation → Reservation
set_state state r = record r { state = state }

unfoldable pub settle_reservations : ReservationState → Locked → Stock → Result OrderError Stock
settle_reservations state l s = do
  throw_if (not (count_by (is_locked l) s.reservations == length l.reservations))
      reservation_conflict
  ok (record s { reservations = update_many (is_locked l) (set_state state) s.reservations })

-- The checks of `confirm` on the locked order, which give its delivery.
unfoldable pub check_confirm : Order → ℕ → Result OrderError Delivery
check_confirm o expected_version = do
  assert_version o expected_version
  throw_if
      (not (same_status o.status pending_confirmation)
        || not (can_transition_order o.status confirmed))
      confirmation_not_allowed
  d ← or_throw o.delivery delivery_missing
  throw_if (not (same_status d.status pending_confirmation)) delivery_confirmation_not_allowed
  ok d

-- Steps 3 to 6 of `confirm`: the stock is deducted and the reservations are consumed.
unfoldable pub consume_stock : ℕ → Order → Stock → Result OrderError (Locked × Stock)
unfolding lock_active_inventory assert_reservation_coverage deduct_all settle_reservations
consume_stock now o s = do
  locked ← lock_active_inventory o.id s
  assert_reservation_coverage now o locked
  deducted ← deduct_all o.id locked.reservations locked.items s
  settled ← settle_reservations consumed locked deducted
  ok (locked, settled)

unfoldable pub confirm : ℕ → ℕ → ℕ → Shop → Result OrderError Shop
unfolding consume_stock check_confirm move_order
confirm now id expected_version s = do
  o ← lock_order id s
  d ← check_confirm o expected_version
  (locked, settled) ← consume_stock now o s.stock
  let alerted =
      create_low_stock_alerts now (distinct (map (λ (i : Item). i.variant_id) locked.items))
        (record s { stock = settled })
  moved ← move_order o d expected_version confirmed (λ r. r) alerted
  ok (notify o order_confirmed_event (record_change o d confirmed moved))
