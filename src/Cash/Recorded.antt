-- ===== src/Cash/Recorded.antt =====
-- What a call of `recordCollection` comes to: a replay, or the guarded updates for the rows it locked.
use mathlib.Core.Path.{subst}
use tunisia_vape_commerce.Prelude.{
  Bool-cases, Option, Option-cases, Result-cases, find, inl, inr, none, ok, same_id, some, ℕ, ℤ,
  ◌==◌, ◌≡◌,
}
use tunisia_vape_commerce.Cash.{
  CashDelivery, CashOrder, Collection, Desk, add_event, collection_recorded, find_collection,
  find_order,
}
use tunisia_vape_commerce.Cash.Collect.{
  CollectionRows, Hashes, RecordInput, Recorded, apply_record, check_record, lock_collection,
  open_collection_discrepancy, record_collection, record_locked, record_new, recorded,
  replayed_record,
}

-- What holds of the tables after the updates for any rows that were locked, and of a replay, holds
-- after a call.
module _ (hashes : Hashes) (actor fresh key id : ℕ) (input : RecordInput) (s : Desk)
    (P : Desk → Recorded → Type 0)
    (step : (difference : ℤ) (c : Collection) (place : ℕ) (o : CashOrder) (d : CashDelivery)
        (m : Desk)
      → find_collection id s ≡ some c
      → c.delivery_id ≡ some place
      → find_order c.order_id s ≡ some o
      → apply_record actor
          (hashes.of_key actor id key)
          (hashes.of_request input)
          input.amount
          difference
          c
          o
          d
          s
        ≡ ok m
      → P
          (open_collection_discrepancy actor fresh input.amount difference c
            (add_event none (some c.id) collection_recorded input.amount m))
          recorded) where
  record_new_ind :
      (c : Collection) (place : ℕ) (o : CashOrder) (delivery : Option CashDelivery) (s' : Desk)
      → find_collection id s ≡ some c
      → c.delivery_id ≡ some place
      → find_order c.order_id s ≡ some o
      → record_new actor fresh
          (hashes.of_key actor id key)
          (hashes.of_request input)
          input
          (record { collection = c; order = o; delivery = delivery })
          s
        ≡ ok s'
      → P s' recorded
  unfolding record_new
  record_new_ind c place o delivery s' found placed ordered h =
      elim (Bool-cases (o.version == input.expected_order_version)) [
        | inr a ↦ cc (rw a at h)
        | inl a ↦ elim (Option-cases delivery) [
          | inl b ↦ cc (rw (a, b) at h)
          | inr (d, b) ↦ elim (Result-cases (check_record s.partial_enabled input c o d)) [
            | inr (x, e) ↦ cc (rw (a, b, e) at h)
            | inl (difference, e) ↦
                elim (Result-cases (
                  apply_record actor (hashes.of_key actor id key) (hashes.of_request input)
                    input.amount difference c o d s)) [
                      | inr (x, f) ↦ cc (rw (a, b, e, f) at h)
                      | inl (m, f) ↦
                          let q : open_collection_discrepancy actor fresh input.amount difference c
                                (add_event none (some c.id) collection_recorded input.amount m)
                              ≡ s' =
                            cc (rw (a, b, e, f) at h) in
                          subst (λ t. P t recorded) q
                            (step difference c place o d m found placed ordered f)
                    ]
          ]
        ]
      ]

  module _ (again : P s replayed_record) where
    record_locked_ind :
        (c : Collection) (place : ℕ) (o : CashOrder) (delivery : Option CashDelivery) (s' : Desk)
        → (r : Recorded) → find_collection id s ≡ some c
        → c.delivery_id ≡ some place
        → find_order c.order_id s ≡ some o
        → record_locked hashes actor fresh key id input
            (record { collection = c; order = o; delivery = delivery })
            s
          ≡ ok (s', r)
        → P s' r
    unfolding record_locked
    record_locked_ind c place o delivery s' r found placed ordered h =
        elim (Bool-cases (same_id c.key_hash (some (hashes.of_key actor id key)))) [
          | inl x ↦ elim (Bool-cases (same_id c.request_hash (some (hashes.of_request input)))) [
            | inl y ↦
                let p : s ≡ s' = cc (rw (x, y) at h) in
                let q : replayed_record ≡ r = cc (rw (x, y) at h) in
                subst (P s') q (subst (λ t. P t replayed_record) p again)
            | inr y ↦ cc (rw (x, y) at h)
          ]
          | inr x ↦
              let rows : CollectionRows = record {
                collection = c;
                order = o;
                delivery = delivery;
              } in
              elim (Result-cases (
                record_new actor fresh (hashes.of_key actor id key) (hashes.of_request input) input
                  rows s)) [
                    | inr (e, f) ↦ cc (rw (x, f) at h)
                    | inl (m, f) ↦
                        let p : m ≡ s' = cc (rw (x, f) at h) in
                        let q : recorded ≡ r = cc (rw (x, f) at h) in
                        subst (P s') q (
                          subst (λ t. P t recorded) p
                            (record_new_ind c place o delivery m found placed ordered f))
                  ]
        ]

    pub record_collection_ind :
        (s' : Desk) (r : Recorded)
        → record_collection hashes actor fresh key id input s ≡ ok (s', r)
        → P s' r
    unfolding record_collection lock_collection
    record_collection_ind s' r h = elim (Option-cases (find_collection id s)) [
      | inl a ↦ cc (rw a at h)
      | inr (c, a) ↦ elim (Option-cases c.delivery_id) [
        | inl b ↦ cc (rw (a, b) at h)
        | inr (place, b) ↦ elim (Option-cases (find_order c.order_id s)) [
          | inl e ↦ cc (rw (a, b, e) at h)
          | inr (o, e) ↦
              record_locked_ind c place o (find (λ (d : CashDelivery). d.id == place) s.deliveries)
                s' r a b e (rw (a, b, e) at h)
        ]
      ]
    ]
