-- ===== src/Cash.antt =====
-- apps/api/src/cash/admin-cash.service.ts: the tables of the cash that is collected on delivery, with
-- the columns that the decisions rest on. The operations are in the child modules; audit rows, texts
-- and the detail read back are left out.
pub mod Collect
pub mod Remit
pub mod Reconcile
pub mod Resolve
pub mod Recorded
pub mod Replays
pub mod Sums
pub mod Allocations
pub mod Approvals
pub mod Accounts
pub mod Operations
pub mod Resolutions
pub mod Days
use tunisia_vape_commerce.Prelude.{
  Bool, List, Option, Result, count_by, eq_ℤ, err, false, find, if◌then◌else◌, none, not, ok, pos,
  same_id, some, throw_if, true, ℕ, ℤ, ◌&&◌, ◌+◌, ◌==◌, ◌>>=◌, ◌>>◌, ◌||◌, ◌∷◌,
}
use tunisia_vape_commerce.Table.{update_many}
use tunisia_vape_commerce.Money.{MoneyError}
use tunisia_vape_commerce.OrderStatus.{OrderStatus}
use tunisia_vape_commerce.Orders.{
  PaymentStatus, cash_collected_at_store, cash_collected_by_courier, cash_expected,
  cash_partially_collected, cash_remitted, payment_cancelled, payment_pending,
  reconciliation_discrepancy, refunded,
}
use tunisia_vape_commerce.CashStatus.{
  CollectionStatus, DiscrepancyStatus, RemittanceStatus, collected, collection_remitted,
  investigating, open_case, partially_collected, resolved, same_discrepancy,
}
use tunisia_vape_commerce.CashMath.{cash_difference}

-- DeliveryMethodType
pub data DeliveryMethod : Type 0 where
  courier store_pickup manual_quote : DeliveryMethod

abbrev pub is_pickup : DeliveryMethod → Bool
is_pickup store_pickup = true
is_pickup _ = false

abbrev pub is_by_courier : DeliveryMethod → Bool
is_by_courier courier = true
is_by_courier _ = false

pub record CashOrder : Type 0 where
  pub id : ℕ
  pub version : ℕ
  pub status : OrderStatus
  pub payment_status : PaymentStatus
  pub expected_cod : ℤ
  pub method : DeliveryMethod

pub record CashDelivery : Type 0 where
  pub id : ℕ
  pub order_id : ℕ
  pub version : ℕ
  pub status : OrderStatus
  pub courier_id : Option ℕ
  pub cash_collected_result : Option Bool

-- CashCollection
pub record Collection : Type 0 where
  pub id : ℕ
  pub order_id : ℕ
  pub delivery_id : Option ℕ
  pub courier_id : Option ℕ
  pub status : CollectionStatus
  pub expected_millimes : ℤ
  pub collected_millimes : ℤ
  pub collected_by : Option ℕ
  pub key_hash : Option ℕ
  pub request_hash : Option ℕ

-- CashRemittance
pub record Remittance : Type 0 where
  pub id : ℕ
  pub remittance_number : ℕ
  pub courier_id : ℕ
  pub status : RemittanceStatus
  pub declared_millimes : ℤ
  pub verified_millimes : Option ℤ
  pub difference_millimes : Option ℤ
  pub received_by : Option ℕ
  pub verified_by : Option ℕ

-- CashRemittanceItem
pub record RemittanceItem : Type 0 where
  pub remittance_id : ℕ
  pub collection_id : ℕ
  pub amount_millimes : ℤ

-- CashDiscrepancy
pub record Discrepancy : Type 0 where
  pub id : ℕ
  pub remittance_id : Option ℕ
  pub collection_id : Option ℕ
  pub order_id : Option ℕ
  pub status : DiscrepancyStatus
  pub expected_millimes : ℤ
  pub actual_millimes : ℤ
  pub difference_millimes : ℤ
  pub opened_by : ℕ
  pub resolved_by : Option ℕ

-- CashReconciliationEventType
pub data EventKind : Type 0 where
  collection_recorded remittance_submitted remittance_verified : EventKind
  discrepancy_opened discrepancy_resolved refund_recorded adjustment_recorded : EventKind

-- CashReconciliationEvent
pub record CashEvent : Type 0 where
  pub remittance_id : Option ℕ
  pub collection_id : Option ℕ
  pub kind : EventKind
  pub amount_millimes : ℤ

pub record Desk : Type 0 where
  pub orders : List CashOrder
  pub deliveries : List CashDelivery
  pub collections : List Collection
  pub remittances : List Remittance
  pub items : List RemittanceItem
  pub discrepancies : List Discrepancy
  pub events : List CashEvent
  pub active_couriers : List ℕ
  pub partial_enabled : Bool

pub data CashError : Type 0 where
  amount_invalid collection_not_found remittance_not_found discrepancy_not_found : CashError
  version_conflict collection_linkage_invalid collection_already_recorded : CashError
  collection_order_state_invalid collection_delivery_state_invalid : CashError
  collected_amount_invalid partial_collection_disabled reason_required : CashError
  collection_transition_not_allowed courier_required idempotency_key_reused : CashError
  duplicate_allocation allocation_invalid total_mismatch courier_unavailable : CashError
  collection_not_remittable over_allocated remittance_conflict : CashError
  submission_not_allowed total_invalid reconciliation_not_allowed : CashError
  separate_approver_required collection_state_invalid remittance_state_invalid : CashError
  remittance_collection_conflict link_missing linkage_invalid unresolved : CashError
  scope_invalid resolution_not_allowed discrepancy_state_invalid : CashError
  already_allocated final_amount_invalid final_amount_not_applicable : CashError

-- The RangeErrors of cash-calculations.ts.
abbrev pub checked {ℓ} : {A : Type ℓ} → Result MoneyError A → Result CashError A
checked (ok a) = ok a
checked (err e) = err amount_invalid

abbrev pub same_payment : PaymentStatus → PaymentStatus → Bool
same_payment payment_pending payment_pending = true
same_payment cash_expected cash_expected = true
same_payment cash_collected_by_courier cash_collected_by_courier = true
same_payment cash_collected_at_store cash_collected_at_store = true
same_payment cash_partially_collected cash_partially_collected = true
same_payment cash_remitted cash_remitted = true
same_payment reconciliation_discrepancy reconciliation_discrepancy = true
same_payment refunded refunded = true
same_payment payment_cancelled payment_cancelled = true
same_payment _ _ = false

-- COLLECTABLE_PAYMENT_STATUSES
abbrev pub is_collectable : PaymentStatus → Bool
is_collectable payment_pending = true
is_collectable cash_expected = true
is_collectable _ = false

-- REMITTABLE_COLLECTION_STATUSES
abbrev pub is_remittable : CollectionStatus → Bool
is_remittable collected = true
is_remittable partially_collected = true
is_remittable _ = false

-- ACCOUNTED_COLLECTION_STATUSES
abbrev pub is_accounted : CollectionStatus → Bool
is_accounted collected = true
is_accounted collection_remitted = true
is_accounted _ = false

abbrev pub find_collection : ℕ → Desk → Option Collection
find_collection id s = find (λ c. c.id == id) s.collections

abbrev pub find_order : ℕ → Desk → Option CashOrder
find_order id s = find (λ o. o.id == id) s.orders

abbrev pub find_remittance : ℕ → Desk → Option Remittance
find_remittance id s = find (λ r. r.id == id) s.remittances

-- `discrepancy` of a collection, of which there is one at most
abbrev pub discrepancy_of : ℕ → Desk → Option Discrepancy
discrepancy_of id s = find (λ d. same_id d.collection_id (some id)) s.discrepancies

-- The order's guarded update: `where: { id, version }`.
abbrev pub cash_order_at : CashOrder → CashOrder → Bool
cash_order_at o r = (r.id == o.id) && (r.version == o.version)

abbrev pub pay : PaymentStatus → CashOrder → CashOrder
pay status o = record o { payment_status = status; version = o.version + 1 }

unfoldable pub update_payment : CashOrder → PaymentStatus → Desk → Result CashError Desk
update_payment o status s = do
  throw_if (not (count_by (cash_order_at o) s.orders == 1)) version_conflict
  ok (record s { orders = update_many (cash_order_at o) (pay status) s.orders })

abbrev pub add_event : Option ℕ → Option ℕ → EventKind → ℤ → Desk → Desk
add_event remittance collection kind amount s = record s {
  events =
      record {
        remittance_id = remittance;
        collection_id = collection;
        kind = kind;
        amount_millimes = amount;
      }
      ∷ s.events;
}

-- The discrepancy has the amounts of its collection.
abbrev pub is_linked : Discrepancy → Collection → ℤ → Bool
is_linked d c difference =
    eq_ℤ d.expected_millimes c.expected_millimes
    && eq_ℤ d.actual_millimes c.collected_millimes
    && eq_ℤ d.difference_millimes difference

-- accountableCollectionMillimes
unfoldable pub accountable : Option Discrepancy → Collection → Result CashError ℤ
accountable none c = do
  difference ← checked (cash_difference c.expected_millimes c.collected_millimes)
  throw_if (not (eq_ℤ difference (pos 0))) link_missing
  ok c.collected_millimes
accountable (some d) c = do
  difference ← checked (cash_difference c.expected_millimes c.collected_millimes)
  throw_if (not (is_linked d c difference)) linkage_invalid
  throw_if (same_discrepancy d.status open_case || same_discrepancy d.status investigating)
      unresolved
  ok (if same_discrepancy d.status resolved then c.expected_millimes else c.collected_millimes)
