-- ===== src/Orders/Terminate.antt =====
-- `cancel` and `reject` of admin-orders.service.ts, which are `terminate`, one transaction.
use tunisia_vape_commerce.Prelude.{
  Bool, List, Result, [], any, false, find, if◌then◌else◌, leb_ℤ, length, ltb, ltb_ℤ, map, not, ok,
  or_throw, pos, throw_if, true, ℕ, ◌&&◌, ◌==◌, ◌>>=◌, ◌>>◌, ◌||◌, ◌∷◌,
}
use tunisia_vape_commerce.OrderStatus.{
  OrderStatus, can_transition_order, cancelled, early_cancellation, pending_confirmation,
  same_status,
}
use tunisia_vape_commerce.Inventory.Store.{Item, Movement, Reservation, Stock, released}
use tunisia_vape_commerce.Orders.Confirm.{settle_reservations}
use tunisia_vape_commerce.Table.{update_many}
use tunisia_vape_commerce.CashStatus.{
  CollectionStatus, collection_voided, expected, same_collection,
}
use tunisia_vape_commerce.Inventory.{reservation_release}
use tunisia_vape_commerce.Orders.{
  Delivery, Order, OrderError, PaymentStatus, Shop, assert_version, cancellation_not_allowed,
  cash_already_collected, cash_expected, delivery_cancellation_not_allowed, delivery_missing,
  delivery_rejection_not_allowed, inventory_invariant_breach, lock_order, move_order, notify,
  order_cancelled_event, payment_cancelled, payment_pending, record_change, rejection_not_allowed,
}
use tunisia_vape_commerce.Orders.Reservations.{Locked, lock_active_inventory}

pub data Disposition : Type 0 where
  cancel reject : Disposition

-- The state that the disposition allows, of the order and of its delivery.
abbrev pub may_terminate : Disposition → OrderStatus → Bool
may_terminate reject status = same_status status pending_confirmation
may_terminate cancel status = early_cancellation status

abbrev pub order_refusal : Disposition → OrderError
order_refusal reject = rejection_not_allowed
order_refusal cancel = cancellation_not_allowed

abbrev pub delivery_refusal : Disposition → OrderError
delivery_refusal reject = delivery_rejection_not_allowed
delivery_refusal cancel = delivery_cancellation_not_allowed

-- A collection that can no longer be voided.
abbrev pub is_collected : CollectionStatus → Bool
is_collected c = not (same_collection c expected) && not (same_collection c collection_voided)

abbrev pub is_unpaid : PaymentStatus → Bool
is_unpaid payment_pending = true
is_unpaid cash_expected = true
is_unpaid _ = false

-- `cashCollection.updateMany({ where: { orderId, status: 'EXPECTED' }, data: { status: 'VOIDED' } })`
abbrev pub void_expected : List CollectionStatus → List CollectionStatus
void_expected = update_many (λ c. same_collection c expected) (λ _. collection_voided)

abbrev pub released_movement : ℕ → Item → Movement
released_movement order_id i = record {
  inventory_item_id = i.id;
  type = reservation_release;
  quantity_delta = pos 0;
  on_hand_after = i.on_hand;
  reference_id = order_id;
}

-- One round of the release loop.
unfoldable pub release_one : ℕ → Locked → Reservation → Stock → Result OrderError Stock
release_one order_id l r s = do
  i ← or_throw (find (λ b. b.id == r.inventory_item_id) l.items) inventory_invariant_breach
  throw_if (leb_ℤ r.quantity (pos 0) || ltb_ℤ i.on_hand (pos 0)) inventory_invariant_breach
  ok (record s { movements = released_movement order_id i ∷ s.movements })

unfoldable pub release_all : ℕ → Locked → List Reservation → Stock → Result OrderError Stock
unfolding release_one
release_all order_id l [] s = ok s
release_all order_id l (r ∷ rs) s =
    release_one order_id l r s >>= λ s'. release_all order_id l rs s'

-- With no reservation the block is skipped.
unfoldable pub release_locked : ℕ → Locked → Stock → Result OrderError Stock
unfolding release_all settle_reservations
release_locked order_id l s =
    if ltb 0 (length l.reservations)
    then (settle_reservations released l s >>= λ s'. release_all order_id l l.reservations s')
    else ok s

abbrev pub cancel_payment : Order → Order
cancel_payment r = record r { payment_status = payment_cancelled }

abbrev pub void_cash : ℕ → Order → Order
void_cash id r =
    if r.id == id then record r { cash_collections = void_expected r.cash_collections } else r

-- The checks of `terminate` on the locked order, which give its delivery.
unfoldable pub check_terminate : Disposition → Order → ℕ → Result OrderError Delivery
check_terminate disposition o expected_version = do
  assert_version o expected_version
  throw_if
      (not (may_terminate disposition o.status) || not (can_transition_order o.status cancelled))
      (order_refusal disposition)
  d ← or_throw o.delivery delivery_missing
  throw_if (not (may_terminate disposition d.status) || not (same_status d.status o.status))
      (delivery_refusal disposition)
  throw_if (any is_collected o.cash_collections || not (is_unpaid o.payment_status))
      cash_already_collected
  ok d

-- Steps 4 and 5 of `terminate`: what is reserved for the order is released.
unfoldable pub release_stock : Order → Stock → Result OrderError Stock
unfolding lock_active_inventory release_locked
release_stock o s = do locked ← lock_active_inventory o.id s; release_locked o.id locked s

unfoldable pub terminate : Disposition → ℕ → ℕ → Shop → Result OrderError Shop
unfolding release_stock check_terminate move_order
terminate disposition id expected_version s = do
  o ← lock_order id s
  d ← check_terminate disposition o expected_version
  stock ← release_stock o s.stock
  let voided = record s { stock = stock; orders = map (void_cash o.id) s.orders }
  moved ← move_order o d expected_version cancelled cancel_payment voided
  ok (notify o order_cancelled_event (record_change o d cancelled moved))
