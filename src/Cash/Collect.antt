-- ===== src/Cash/Collect.antt =====
-- `recordCollection`: an administrator records the cash that a courier or the shop took for an order.
use tunisia_vape_commerce.Prelude.{
  Bool, List, Option, Result, count_by, eq_ℤ, err, false, find, if◌then◌else◌, is_some, leb, leb_ℤ,
  length, ltb_ℤ, none, not, ok, or_throw, pos, same_id, some, throw_if, ℕ, ℤ, ◌&&◌, ◌+◌, ◌==◌,
  ◌>>=◌, ◌>>◌, ◌||◌, ◌∷◌,
}
use tunisia_vape_commerce.Table.{update_many}
use tunisia_vape_commerce.OrderStatus.{OrderStatus, out_for_delivery, ready_for_pickup, same_status}
use tunisia_vape_commerce.Orders.{
  PaymentStatus, cash_collected_at_store, cash_collected_by_courier, reconciliation_discrepancy,
}
use tunisia_vape_commerce.CashStatus.{
  CollectionStatus, can_transition_collection, collected, expected, open_case, partially_collected,
  same_collection,
}
use tunisia_vape_commerce.CashMath.{cash_difference}
use tunisia_vape_commerce.Cash.{
  CashDelivery, CashError, CashOrder, Collection, DeliveryMethod, Desk, add_event, cash_order_at,
  checked, collected_amount_invalid, collection_already_recorded, collection_delivery_state_invalid,
  collection_linkage_invalid, collection_not_found, collection_order_state_invalid,
  collection_recorded, collection_transition_not_allowed, courier_required, discrepancy_opened,
  find_collection, find_order, idempotency_key_reused, is_by_courier, is_collectable, is_pickup,
  partial_collection_disabled, pay, reason_required, same_payment, version_conflict,
}

-- The rows of lockCollection.
pub record CollectionRows : Type 0 where
  pub collection : Collection
  pub order : CashOrder
  pub delivery : Option CashDelivery

unfoldable pub lock_collection : ℕ → Desk → Result CashError CollectionRows
lock_collection id s = do
  c ← or_throw (find_collection id s) collection_not_found
  delivery_id ← or_throw c.delivery_id collection_not_found
  o ← or_throw (find_order c.order_id s) collection_not_found
  ok (record { collection = c; order = o; delivery = find (λ d. d.id == delivery_id) s.deliveries })

-- RecordCashCollectionDto, with the trimmed texts as code units; `confirmation` is one constant.
pub record RecordInput : Type 0 where
  pub amount : ℤ
  pub expected_order_version : ℕ
  pub expected_delivery_version : ℕ
  pub reason_code : Option (List ℕ)
  pub reason_detail : Option (List ℕ)

-- The SHA-256 digests: of the administrator, the collection and the idempotency key, and of the
-- JSON of the request.
pub record Hashes : Type 0 where
  pub of_key : ℕ → ℕ → ℕ → ℕ
  pub of_request : RecordInput → ℕ

abbrev pub at_least_long : ℕ → Option (List ℕ) → Bool
at_least_long n none = false
at_least_long n (some text) = leb n (length text)

-- requireDiscrepancyReason
abbrev pub gives_reason : RecordInput → Bool
gives_reason input = at_least_long 1 input.reason_code && at_least_long 4 input.reason_detail

abbrev pub ready_status : DeliveryMethod → OrderStatus
ready_status method = if is_pickup method then ready_for_pickup else out_for_delivery

abbrev pub lacks_courier : Collection → CashOrder → CashDelivery → Bool
lacks_courier c o d =
    is_by_courier o.method
    && (not (is_some d.courier_id)
        || (is_some c.courier_id && not (same_id c.courier_id d.courier_id)))

abbrev pub recorded_status : ℤ → CollectionStatus
recorded_status difference = if ltb_ℤ difference (pos 0) then partially_collected else collected

-- The checks up to `now`, with the difference between the cash and what was expected.
unfoldable pub check_record :
    Bool → RecordInput → Collection → CashOrder → CashDelivery → Result CashError ℤ
check_record partial_enabled input c o d = do
  throw_if (not (d.version == input.expected_delivery_version)) version_conflict
  throw_if
      (not (c.order_id == o.id)
        || not (d.order_id == o.id)
        || not (eq_ℤ c.expected_millimes o.expected_cod))
      collection_linkage_invalid
  throw_if (not (same_collection c.status expected)) collection_already_recorded
  throw_if (not (same_status o.status d.status) || not (is_collectable o.payment_status))
      collection_order_state_invalid
  throw_if (not (same_status d.status (ready_status o.method))) collection_delivery_state_invalid
  throw_if (leb_ℤ input.amount (pos 0)) collected_amount_invalid
  difference ← checked (cash_difference c.expected_millimes input.amount)
  throw_if (ltb_ℤ difference (pos 0) && not partial_enabled) partial_collection_disabled
  throw_if (not (eq_ℤ difference (pos 0)) && not (gives_reason input)) reason_required
  throw_if (not (can_transition_collection c.status (recorded_status difference)))
      collection_transition_not_allowed
  throw_if (lacks_courier c o d) courier_required
  ok difference

-- `where: { id, status: EXPECTED, recordIdempotencyKeyHash: null }`
abbrev pub awaits_record : ℕ → Collection → Bool
awaits_record id c = (c.id == id) && same_collection c.status expected && not (is_some c.key_hash)

abbrev pub record_cash : ℕ → ℕ → ℕ → ℤ → CollectionStatus → Option ℕ → Collection → Collection
record_cash actor key request amount status courier_id c = record c {
  status = status;
  collected_millimes = amount;
  collected_by = some actor;
  courier_id = courier_id;
  key_hash = some key;
  request_hash = some request;
}

abbrev pub recorded_payment : ℤ → DeliveryMethod → PaymentStatus
recorded_payment difference method =
    if not (eq_ℤ difference (pos 0))
    then reconciliation_discrepancy
    else if is_pickup method
    then cash_collected_at_store
    else cash_collected_by_courier

-- `where: { id, version, paymentStatus }`
abbrev pub order_due : CashOrder → CashOrder → Bool
order_due o r = cash_order_at o r && same_payment r.payment_status o.payment_status

abbrev pub cash_delivery_at : CashDelivery → CashDelivery → Bool
cash_delivery_at d r = (r.id == d.id) && (r.version == d.version)

abbrev pub mark_cash : Bool → CashDelivery → CashDelivery
mark_cash exact d = record d { cash_collected_result = some exact; version = d.version + 1 }

-- The three guarded updates.
unfoldable pub apply_record :
    ℕ → ℕ → ℕ → ℤ → ℤ → Collection → CashOrder → CashDelivery → Desk → Result CashError Desk
apply_record actor key request amount difference c o d s = do
  let courier_id = if is_by_courier o.method then d.courier_id else none
  let change = record_cash actor key request amount (recorded_status difference) courier_id
  throw_if
      (not (count_by (awaits_record c.id) s.collections == 1)
        || not (count_by (order_due o) s.orders == 1)
        || not (count_by (cash_delivery_at d) s.deliveries == 1))
      version_conflict
  ok (record s {
    collections = update_many (awaits_record c.id) change s.collections;
    orders = update_many (order_due o) (pay (recorded_payment difference o.method)) s.orders;
    deliveries =
        update_many (cash_delivery_at d) (mark_cash (eq_ℤ difference (pos 0))) s.deliveries;
  })

-- The discrepancy that is opened where the cash is not what was expected.
unfoldable pub open_collection_discrepancy : ℕ → ℕ → ℤ → ℤ → Collection → Desk → Desk
open_collection_discrepancy actor fresh amount difference c s =
    if eq_ℤ difference (pos 0)
    then s
    else add_event none (some c.id) discrepancy_opened difference (record s {
      discrepancies =
          record {
            id = fresh;
            remittance_id = none;
            collection_id = some c.id;
            order_id = some c.order_id;
            status = open_case;
            expected_millimes = c.expected_millimes;
            actual_millimes = amount;
            difference_millimes = difference;
            opened_by = actor;
            resolved_by = none;
          }
          ∷ s.discrepancies;
    })

pub data Recorded : Type 0 where
  recorded replayed_record : Recorded

-- recordCollection once it is no replay.
unfoldable pub record_new :
    ℕ → ℕ → ℕ → ℕ → RecordInput → CollectionRows → Desk → Result CashError Desk
unfolding check_record apply_record open_collection_discrepancy
record_new actor fresh key request input rows s = do
  let c = rows.collection
  throw_if (not (rows.order.version == input.expected_order_version)) version_conflict
  d ← or_throw rows.delivery version_conflict
  difference ← check_record s.partial_enabled input c rows.order d
  s' ← apply_record actor key request input.amount difference c rows.order d s
  ok (
      open_collection_discrepancy actor fresh input.amount difference c
        (add_event none (some c.id) collection_recorded input.amount s'))

-- recordCollection for the collection that it locked: the hashes of the key and of the request against
-- those of the row.
unfoldable pub record_locked :
    Hashes
    → ℕ
    → ℕ
    → ℕ
    → ℕ
    → RecordInput
    → CollectionRows
    → Desk
    → Result CashError (Desk × Recorded)
unfolding record_new
record_locked hashes actor fresh key id input rows s =
    let key_hash = hashes.of_key actor id key in
    let request_hash = hashes.of_request input in
    if same_id rows.collection.key_hash (some key_hash)
    then if same_id rows.collection.request_hash (some request_hash)
      then ok (s, replayed_record)
      else err idempotency_key_reused
    else do s' ← record_new actor fresh key_hash request_hash input rows s; ok (s', recorded)

-- recordCollection by the administrator `actor` under the idempotency key `key`.
unfoldable pub record_collection :
    Hashes → ℕ → ℕ → ℕ → ℕ → RecordInput → Desk → Result CashError (Desk × Recorded)
unfolding lock_collection record_locked
record_collection hashes actor fresh key id input s = do
  rows ← lock_collection id s
  record_locked hashes actor fresh key id input rows s
