-- ===== src/Orders.antt =====
-- apps/api/src/orders/admin-orders.service.ts: the tables that the order operations work on, with
-- the columns that their decisions rest on. The operations are in the child modules; how a
-- notification is queued is that of apps/api/src/common/outbox/order-notifications.ts.
pub mod Reservations
pub mod Alerts
pub mod Confirm
pub mod Terminate
pub mod Intake
pub mod Moves
pub mod Moved
pub mod Deduction
pub mod Deducted
pub mod Taken
pub mod Confirmation
pub mod Confirmed
pub mod Release
pub mod Freed
pub mod Released
pub mod Transitions
use tunisia_vape_commerce.Prelude.{
  Bool, List, Option, Result, [], count_by, false, find, if◌then◌else◌, none, not, ok, or_throw,
  some, throw_if, ℕ, ℤ, ◌&&◌, ◌++◌, ◌+◌, ◌==◌, ◌>>◌, ◌||◌, ◌∷◌,
}
use tunisia_vape_commerce.Table.{update_many}
use tunisia_vape_commerce.OrderStatus.{OrderStatus, same_status}
use tunisia_vape_commerce.CashStatus.{CollectionStatus}
use tunisia_vape_commerce.Inventory.Store.{Stock}

pub data PaymentStatus : Type 0 where
  payment_pending cash_expected cash_collected_by_courier cash_collected_at_store : PaymentStatus
  cash_partially_collected cash_remitted reconciliation_discrepancy refunded : PaymentStatus
  payment_cancelled : PaymentStatus

pub record OrderItem : Type 0 where
  pub id : ℕ
  pub variant_id : Option ℕ
  pub quantity : ℤ

pub record Delivery : Type 0 where
  pub status : OrderStatus
  pub version : ℕ

pub record Order : Type 0 where
  pub id : ℕ
  pub version : ℕ
  pub status : OrderStatus
  pub payment_status : PaymentStatus
  pub is_store_pickup : Bool
  pub items : List OrderItem
  pub delivery : Option Delivery
  pub cash_collections : List CollectionStatus
  pub has_email : Bool

pub data Event : Type 0 where
  order_confirmed_event order_cancelled_event order_preparing_event : Event

pub data Channel : Type 0 where
  email sms : Channel

-- A notification with the outbox event that is created beside it.
pub record Notification : Type 0 where
  pub order_id : ℕ
  pub event : Event
  pub channel : Channel

-- A row of OrderStatusHistory; the delivery's event row has the same states.
pub record HistoryRow : Type 0 where
  pub order_id : ℕ
  pub from_status : OrderStatus
  pub to_status : OrderStatus

-- A coalesced low-stock alert, keyed by variant and hour.
pub record Alert : Type 0 where
  pub variant_id : ℕ
  pub hour : ℕ
  pub remaining : ℤ

pub record Variant : Type 0 where
  pub id : ℕ
  pub low_stock_threshold : ℤ

pub record Location : Type 0 where
  pub id : ℕ
  pub active : Bool
  pub fulfills_orders : Bool

pub record Batch : Type 0 where
  pub id : ℕ
  pub archived : Bool
  pub expiry : Option ℕ

pub record Shop : Type 0 where
  pub orders : List Order
  pub stock : Stock
  pub variants : List Variant
  pub locations : List Location
  pub batches : List Batch
  pub low_stock_recipient : Bool
  pub sms_enabled : Bool
  pub notifications : List Notification
  pub alerts : List Alert
  pub history : List HistoryRow
  pub delivery_events : List HistoryRow

pub data OrderError : Type 0 where
  order_not_found order_version_conflict confirmation_not_allowed delivery_missing : OrderError
  delivery_confirmation_not_allowed reservation_conflict reservation_missing : OrderError
  reservation_expired reservation_invalid reservation_mismatch : OrderError
  insufficient_stock inventory_conflict inventory_invariant_breach : OrderError
  rejection_not_allowed cancellation_not_allowed delivery_rejection_not_allowed : OrderError
  delivery_cancellation_not_allowed cash_already_collected transition_not_allowed : OrderError
  not_store_pickup : OrderError

-- lockOrder
abbrev pub lock_order : ℕ → Shop → Result OrderError Order
lock_order id s = or_throw (find (λ o. o.id == id) s.orders) order_not_found

-- assertVersion
abbrev pub assert_version : Order → ℕ → Result OrderError (Unit {0})
assert_version o expected_version =
    throw_if (not (o.version == expected_version)) order_version_conflict

-- createOrderNotificationsWithOutbox: one notification by e-mail where the order has an address,
-- one by SMS where that is enabled.
abbrev pub notify : Order → Event → Shop → Shop
notify o e s = record s {
  notifications =
      (if o.has_email then record { order_id = o.id; event = e; channel = email } ∷ [] else [])
      ++ (if s.sms_enabled then record { order_id = o.id; event = e; channel = sms } ∷ [] else [])
      ++ s.notifications;
}

abbrev pub is_status : Option Delivery → OrderStatus → ℕ → Bool
is_status none status v = false
is_status (some d) status v = same_status d.status status && (d.version == v)

-- The `where` clauses of the order's and the delivery's guarded updates.
abbrev pub order_at : ℕ → OrderStatus → ℕ → Order → Bool
order_at id status v o = (o.id == id) && same_status o.status status && (o.version == v)

abbrev pub delivery_at : ℕ → OrderStatus → ℕ → Order → Bool
delivery_at id status v o = (o.id == id) && is_status o.delivery status v

abbrev pub bump_delivery : OrderStatus → Delivery → Delivery
bump_delivery status d = record { status = status; version = d.version + 1 }

abbrev pub map_delivery : (Delivery → Delivery) → Order → Order
map_delivery f o = record o { delivery = elim o.delivery [ none ↦ none | some d ↦ some (f d) ] }

-- The two guarded updates of an order and its delivery, each of which must hit one row.
unfoldable pub move_order :
    Order → Delivery → ℕ → OrderStatus → (Order → Order) → Shop → Result OrderError Shop
move_order o d expected_version to change s = do
  let order_fits = order_at o.id o.status expected_version
  let delivery_fits = delivery_at o.id d.status d.version
  let moved =
      update_many order_fits (λ r. record (change r) { status = to; version = r.version + 1 })
        s.orders
  throw_if (not (count_by order_fits s.orders == 1) || not (count_by delivery_fits moved == 1))
      order_version_conflict
  ok (record s { orders = update_many delivery_fits (map_delivery (bump_delivery to)) moved })

-- The rows of the order's history and of the delivery's events.
abbrev pub record_change : Order → Delivery → OrderStatus → Shop → Shop
record_change o d to s = record s {
  history = record { order_id = o.id; from_status = o.status; to_status = to } ∷ s.history;
  delivery_events =
      record { order_id = o.id; from_status = d.status; to_status = to } ∷ s.delivery_events;
}
