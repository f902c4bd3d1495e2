-- ===== src/Outbox/Expiry.antt =====
-- `expireReservations` and `processTransaction` of apps/worker/src/outbox-processor.ts; the audit
-- rows are left out.
use tunisia_vape_commerce.Prelude.{
  Bool, List, Result, [], count_by, err, filter, find, if◌then◌else◌, leb, leb_ℤ, length, ltb, map,
  none, not, ok, or_throw, pos, some, take, throw_if, ℕ, ◌&&◌, ◌+◌, ◌==◌, ◌>>=◌, ◌>>◌, ◌||◌, ◌∷◌,
}
use tunisia_vape_commerce.Table.{rows_in, update_many}
use tunisia_vape_commerce.Allocation.{sort_by}
use tunisia_vape_commerce.Inventory.{reservation_release}
use tunisia_vape_commerce.Inventory.Store.{
  Item, Movement, Reservation, Stock, is_active, reservation_expired,
}
use tunisia_vape_commerce.Orders.Reservations.{distinct}
use tunisia_vape_commerce.Outbox.{
  Job, OutboxEvent, Payload, Tables, WorkerError, inventory_item_missing, is_processed,
  notification_of, outbox_event_missing, outbox_handler_route_mismatch, outbox_job_mismatch,
  processed, processing, reservation_cutoff_invalid, reservation_invariant_breach,
  reservations_until, same_event_type,
}
use tunisia_vape_commerce.Outbox.Contracts.{parse_event_payload}
use tunisia_vape_commerce.Outbox.Repository.{find_event, is_terminal, schedule_retry, update_event}

-- `state = 'ACTIVE' AND expiresAt <= cutoff`
abbrev pub has_expired : ℕ → Reservation → Bool
has_expired cutoff r = is_active r.state && leb r.expires_at cutoff

abbrev pub expire_row : Reservation → Reservation
expire_row r = record r { state = reservation_expired }

abbrev pub expiry_movement : Reservation → Item → Movement
expiry_movement r i = record {
  inventory_item_id = i.id;
  type = reservation_release;
  quantity_delta = pos 0;
  on_hand_after = i.on_hand;
  reference_id = r.order_id;
}

abbrev pub expires_one : ℕ → ℕ → Reservation → Bool
expires_one cutoff id q = (q.id == id) && has_expired cutoff q

-- One round of the loop; a reservation that is no longer active is passed over.
unfoldable pub expire_one : ℕ → List Item → Reservation → Stock → Result WorkerError (Stock × ℕ)
expire_one cutoff items r s = do
  i ← or_throw (find (λ b. b.id == r.inventory_item_id) items) reservation_invariant_breach
  throw_if (leb_ℤ r.quantity (pos 0) || ltb cutoff r.expires_at) reservation_invariant_breach
  let rows = update_many (expires_one cutoff r.id) expire_row s.reservations
  if count_by (expires_one cutoff r.id) s.reservations == 1
      then ok (record s { reservations = rows; movements = expiry_movement r i ∷ s.movements }, 1)
      else ok (record s { reservations = rows }, 0)

unfoldable pub expire_all :
    ℕ → List Item → List Reservation → Stock → Result WorkerError (Stock × ℕ)
unfolding expire_one
expire_all cutoff items [] s = ok (s, 0)
expire_all cutoff items (r ∷ rs) s =
    expire_one cutoff items r s >>= λ p. expire_all cutoff items rs p.0 >>= λ q. ok (q.0, p.1 + q.1)

abbrev pub by_bucket : List Reservation → List Reservation
by_bucket rs = sort_by (λ r. r.inventory_item_id) (sort_by (λ (r : Reservation). r.id) rs)

-- The cutoff may lie five seconds ahead of the worker's clock.
unfoldable pub expire_reservations : ℕ → ℕ → ℕ → Stock → Result WorkerError (Stock × ℕ)
unfolding expire_all
expire_reservations now cutoff batch_size s = do
  throw_if (ltb (now + 5000) cutoff) reservation_cutoff_invalid
  let locked = take batch_size (by_bucket (filter (has_expired cutoff) s.reservations))
  let ids = distinct (map (λ (r : Reservation). r.inventory_item_id) locked)
  let items = rows_in (λ (i : Item). i.id) ids s.items
  if length locked == 0
      then ok (s, 0)
      else (throw_if (not (length items == length ids)) inventory_item_missing
          >> expire_all cutoff items locked s)

abbrev pub start_event : ℕ → ℕ → OutboxEvent → OutboxEvent
start_event owner until e = record e {
  status = processing;
  lease_owner = some owner;
  lease_expires_at = some until;
}

abbrev pub finish_event : OutboxEvent → OutboxEvent
finish_event e = record e { status = processed; lease_owner = none; lease_expires_at = none }

pub data Outcome : Type 0 where
  done : ℕ → Outcome
  already_processed at_end : Outcome

-- What a handler does with the payload of an event: the transaction's stock part.
unfoldable pub handle_payload : ℕ → Payload → Stock → Result WorkerError (Stock × ℕ)
unfolding expire_reservations
handle_payload now (reservations_until cutoff batch_size) s =
    expire_reservations now cutoff batch_size s
handle_payload now (notification_of id) s = err outbox_handler_route_mismatch
handle_payload now _ s = ok (s, 0)

-- The checks of a job against the event that it names.
abbrev pub matches_job : Job → OutboxEvent → Bool
matches_job job e = same_event_type e.type job.type && (e.version == job.version)

-- processTransaction for the event that it locked.
unfoldable pub process_event :
    ℕ → ℕ → ℕ → Job → OutboxEvent → Tables → Result WorkerError (Tables × Outcome)
unfolding handle_payload parse_event_payload
process_event now owner lease_ms job e s =
    if is_processed e.status
    then ok (s, already_processed)
    else if is_terminal e.status
    then ok (s, at_end)
    else do
      throw_if (not (matches_job job e)) outbox_job_mismatch
      payload ← parse_event_payload e.type e.version e.payload
      let started = update_event e.id (start_event owner (now + lease_ms)) s.events
      (stock, count) ← handle_payload now payload s.stock
      ok (record s { events = update_event e.id finish_event started; stock = stock }, done count)

unfoldable pub process_transaction :
    ℕ → ℕ → ℕ → Job → Tables → Result WorkerError (Tables × Outcome)
unfolding process_event
process_transaction now owner lease_ms job s = do
  e ← or_throw (find_event job.event_id s.events) outbox_event_missing
  process_event now owner lease_ms job e s

-- `process` for such a job: a failure rolls back, and the event is put off.
abbrev pub defer_job : ℕ → ℕ → ℕ → ℕ → Tables → Tables
defer_job now base maximum id s = record s {
  events = (schedule_retry now base maximum id s.events).0;
}

unfoldable pub process_job : ℕ → ℕ → ℕ → ℕ → ℕ → Job → Tables → Tables
unfolding process_transaction
process_job now owner lease_ms base maximum job s =
    elim (process_transaction now owner lease_ms job s) [
      | ok (s', outcome) ↦ s'
      | err e ↦ defer_job now base maximum job.event_id s
    ]
