-- ===== src/Orders/Intake.antt =====
-- `prepare` and `readyForPickup` of admin-orders.service.ts, which are `transitionIntake`.
use tunisia_vape_commerce.Prelude.{
  Option, Result, none, not, ok, or_throw, some, throw_if, ℕ, ◌&&◌, ◌>>=◌, ◌>>◌, ◌||◌,
}
use tunisia_vape_commerce.OrderStatus.{
  OrderStatus, can_transition_order, confirmed, preparing, ready_for_pickup, same_status,
}
use tunisia_vape_commerce.Orders.{
  Delivery, Event, Order, OrderError, Shop, assert_version, lock_order, move_order,
  not_store_pickup, notify, order_preparing_event, record_change, transition_not_allowed,
}

-- The checks of transitionIntake on the locked order, which give its delivery.
unfoldable pub check_intake : Order → ℕ → OrderStatus → OrderStatus → Result OrderError Delivery
check_intake o expected_version from to = do
  assert_version o expected_version
  throw_if (not (same_status o.status from) || not (can_transition_order o.status to))
      transition_not_allowed
  d ← or_throw o.delivery transition_not_allowed
  throw_if (not (same_status d.status from)) transition_not_allowed
  throw_if (same_status to ready_for_pickup && not o.is_store_pickup) not_store_pickup
  ok d

-- `if (notification) await this.notify(…)`
abbrev pub notify_if : Option Event → Order → Shop → Shop
notify_if none o s = s
notify_if (some e) o s = notify o e s

-- transitionIntake, with the states that the order and the delivery leave and enter.
unfoldable pub transition_intake :
    ℕ → ℕ → OrderStatus → OrderStatus → Option Event → Shop → Result OrderError Shop
unfolding move_order check_intake
transition_intake id expected_version from to event s = do
  o ← lock_order id s
  d ← check_intake o expected_version from to
  moved ← move_order o d expected_version to (λ r. r) s
  ok (notify_if event o (record_change o d to moved))

unfoldable pub prepare : ℕ → ℕ → Shop → Result OrderError Shop
unfolding transition_intake
prepare id v s = transition_intake id v confirmed preparing (some order_preparing_event) s

unfoldable pub set_ready_for_pickup : ℕ → ℕ → Shop → Result OrderError Shop
unfolding transition_intake
set_ready_for_pickup id v s = transition_intake id v preparing ready_for_pickup none s
