-- ===== src/Cash/Replays.antt =====
-- A recorded collection answers the same request again.
use mathlib.Core.Path.{subst}
use tunisia_vape_commerce.Prelude.{
  Bool-cases, arith, count_by, eq_ℤ, err, if◌then◌else◌, inl, inr, none, not, ok, pos, refl,
  same_id, some, true, ℕ, ℤ, ◌==◌, ◌||◌, ◌∙◌, ◌≡◌,
}
use tunisia_vape_commerce.Table.{HasKey, update_many}
use tunisia_vape_commerce.Table.Keys.{counted_row, find_row-image, find_row-key, find_row-update}
use tunisia_vape_commerce.Cash.{
  CashDelivery, CashOrder, Collection, Desk, add_event, collection_recorded, find_collection,
  find_order, idempotency_key_reused, is_by_courier, pay,
}
use tunisia_vape_commerce.Cash.Collect.{
  Hashes, RecordInput, Recorded, apply_record, awaits_record, cash_delivery_at, lock_collection,
  mark_cash, open_collection_discrepancy, order_due, record_cash, record_collection, record_locked,
  recorded, recorded_payment, recorded_status, replayed_record,
}
use tunisia_vape_commerce.Cash.Recorded.{record_collection_ind}

-- What recordCollection found, and what it wrote.
record IsRecord (key request id : ℕ) (s s' : Desk) : Type 0 where
  row : Collection
  place : ℕ
  order : CashOrder
  found : find_collection id s' ≡ some row
  placed : row.delivery_id ≡ some place
  ordered : find_order row.order_id s' ≡ some order
  key_kept : row.key_hash ≡ some key
  request_kept : row.request_hash ≡ some request

reflexive : (n : ℕ) → (n == n) ≡ true
reflexive n = ground arith

when_same : {A : Type 0} (n : ℕ) (x y : A) → (if n == n then x else y) ≡ x
when_same n x y = rw (reflexive n) refl

flipped : (a b : ℕ) → same_id (some a) (some b) ≡ (b == a)
flipped a b = ground arith

same_some : (n : ℕ) → same_id (some n) (some n) ≡ true
same_some n = ground arith

replays :
    (hashes : Hashes) (actor fresh key request id : ℕ) (input : RecordInput) (s s' : Desk)
    → IsRecord (hashes.of_key actor id key) request id s s'
    → record_collection hashes actor fresh key id input s' ≡ (
        if hashes.of_request input == request
        then ok (s', replayed_record)
        else err idempotency_key_reused)
unfolding record_collection lock_collection record_locked
replays hashes actor fresh key request id input s s' r =
    rw
      (
        r.found,
        r.placed,
        r.ordered,
        r.key_kept,
        r.request_kept,
        same_some (hashes.of_key actor id key),
        flipped request (hashes.of_request input),
      )
      refl

module _ (actor fresh key request id : ℕ) (input : RecordInput) (s : Desk)
    (keyed : HasKey (λ (c : Collection). c.id) s.collections) where
  apply_record-IsRecord :
      (amount difference : ℤ) (c : Collection) (place : ℕ) (o : CashOrder) (d : CashDelivery)
      (s' : Desk)
      → find_collection id s ≡ some c
      → c.delivery_id ≡ some place
      → find_order c.order_id s ≡ some o
      → apply_record actor key request amount difference c o d s ≡ ok s'
      → IsRecord key request id s s'
  unfolding apply_record
  apply_record-IsRecord amount difference c place o d s' found placed ordered h =
      let courier_id = if is_by_courier o.method then d.courier_id else none in
      let change = record_cash actor key request amount (recorded_status difference) courier_id in
      let one = count_by (awaits_record c.id) s.collections == 1 in
      let two = count_by (order_due o) s.orders == 1 in
      let three = count_by (cash_delivery_at d) s.deliveries == 1 in
      elim (Bool-cases (not one || not two || not three)) [
        | inl a ↦ cc (rw a at h)
        | inr a ↦
            let q : record s {
              collections = update_many (awaits_record c.id) change s.collections;
              orders =
                  update_many (order_due o) (pay (recorded_payment difference o.method)) s.orders;
              deliveries =
                  update_many (cash_delivery_at d) (mark_cash (eq_ℤ difference (pos 0)))
                    s.deliveries;
            }
                ≡ s' =
              cc (rw a at h) in
            let counted : one ≡ true = ground (arith, a) in
            let own : c.id ≡ id = find_row-key (λ r. r.id) id s.collections found in
            let fits : awaits_record c.id c ≡ true =
              counted_row (λ r. r.id) id c (awaits_record c.id) s.collections keyed found
                (λ r f. ground (arith, f, own)) counted in
            subst (IsRecord key request id s) q (record {
              row = change c;
              place = place;
              order = if order_due o o then pay (recorded_payment difference o.method) o else o;
              found =
                  find_row-update (λ r. r.id) id c (awaits_record c.id) change s.collections
                    (λ r. refl) found fits;
              placed = placed;
              ordered =
                  find_row-image (λ r. r.id) c.order_id o (order_due o)
                    (pay (recorded_payment difference o.method)) s.orders (λ r. refl) ordered;
              key_kept = refl;
              request_kept = refl;
            })
      ]

  opened-IsRecord :
      (amount difference : ℤ) (c : Collection) (m : Desk)
      → IsRecord key request id s m
      → IsRecord key request id s (
          open_collection_discrepancy actor fresh amount difference c
            (add_event none (some c.id) collection_recorded amount m))
  unfolding open_collection_discrepancy
  opened-IsRecord amount difference c m r = elim (Bool-cases (eq_ℤ difference (pos 0))) [
    | inl a ↦ rw a (record {
      row = r.row;
      place = r.place;
      order = r.order;
      found = r.found;
      placed = r.placed;
      ordered = r.ordered;
      key_kept = r.key_kept;
      request_kept = r.request_kept;
    })
    | inr a ↦ rw a (record {
      row = r.row;
      place = r.place;
      order = r.order;
      found = r.found;
      placed = r.placed;
      ordered = r.ordered;
      key_kept = r.key_kept;
      request_kept = r.request_kept;
    })
  ]

module _ (hashes : Hashes) (actor fresh key id : ℕ) (input : RecordInput) (s : Desk)
    (keyed : HasKey (λ (c : Collection). c.id) s.collections) where
  -- A call that recorded.
  WasRecorded : Desk → Recorded → Type 0
  WasRecorded s' recorded = IsRecord (hashes.of_key actor id key) (hashes.of_request input) id s s'
  WasRecorded s' replayed_record = Unit {0}

  record_collection-IsRecord :
      (s' : Desk)
      → record_collection hashes actor fresh key id input s ≡ ok (s', recorded)
      → IsRecord (hashes.of_key actor id key) (hashes.of_request input) id s s'
  unfolding WasRecorded
  record_collection-IsRecord s' h =
      let key_hash = hashes.of_key actor id key in
      let request_hash = hashes.of_request input in
      record_collection_ind hashes actor fresh key id input s WasRecorded
        (λ difference c place o d m found placed ordered applied.
          opened-IsRecord actor fresh key_hash request_hash id input s keyed input.amount difference
            c m
            (apply_record-IsRecord actor fresh key_hash request_hash id input s keyed input.amount
              difference c place o d m found placed ordered applied))
        tt s' recorded h

-- Over collections with distinct identifiers: a collection that an administrator recorded under an
-- idempotency key answers each later call of that administrator with that key, made on the tables
-- that the recording left: with a replay that changes nothing where the request has the same hash, and
-- so for the same request, and with the error of a reused key where it has another one.
pub record_collection_replays :
    (hashes : Hashes) (actor fresh fresh' key id : ℕ) (input input' : RecordInput) (s s' : Desk)
    → HasKey (λ (c : Collection). c.id) s.collections
    → record_collection hashes actor fresh key id input s ≡ ok (s', recorded)
    → (record_collection hashes actor fresh' key id input s' ≡ ok (s', replayed_record))
      × (record_collection hashes actor fresh' key id input' s' ≡ (
          if hashes.of_request input' == hashes.of_request input
          then ok (s', replayed_record)
          else err idempotency_key_reused))
record_collection_replays hashes actor fresh fresh' key id input input' s s' keyed h =
    let request = hashes.of_request input in
    let kept = record_collection-IsRecord hashes actor fresh key id input s keyed s' h in
    (
      replays hashes actor fresh' key request id input s s' kept ∙ when_same request _ _,
      replays hashes actor fresh' key request id input' s s' kept,
    )
