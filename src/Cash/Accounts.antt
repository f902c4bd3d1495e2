-- ===== src/Cash/Accounts.antt =====
-- What any operation of the cash desk may do to a collection.
use mathlib.Core.Path.{subst}
use tunisia_vape_commerce.Prelude.{
  All, Bool, Bool-cases, List, Option-cases, Result-cases, [], arith, count_by, eq_ℤ, false, filter,
  if◌then◌else◌, inl, inr, ltb_ℤ, none, not, ok, pos, refl, some, sym, true, ℕ, ℤ, ◌==◌, ◌||◌, ◌∙◌,
  ◌∷◌, ◌≡◌,
}
use tunisia_vape_commerce.Table.{update_many}
use tunisia_vape_commerce.Table.Rowwise.{Rowwise, Rowwise-refl, Rowwise-trans, update_many-Rowwise}
use tunisia_vape_commerce.Orders.{PaymentStatus, reconciliation_discrepancy}
use tunisia_vape_commerce.CashStatus.{
  can_transition_collection, collection_remitted, expected, same_collection,
}
use tunisia_vape_commerce.Cash.{
  CashDelivery, CashOrder, Collection, Desk, RemittanceItem, accountable, add_event, cash_order_at,
  collection_recorded, discrepancy_of, find_collection, is_by_courier, pay, update_payment,
}
use tunisia_vape_commerce.Cash.Collect.{
  Hashes, RecordInput, Recorded, apply_record, awaits_record, cash_delivery_at, mark_cash,
  open_collection_discrepancy, order_due, record_cash, record_collection, recorded_payment,
  recorded_status,
}
use tunisia_vape_commerce.Cash.Remit.{allocated_to}
use tunisia_vape_commerce.Cash.Reconcile.{
  collection_at, counts_for, dispute_orders, remit_row, settle_item, settle_items,
}
use tunisia_vape_commerce.Cash.Recorded.{record_collection_ind}

-- A collection keeps its identity and what was expected; once it is recorded, the cash counted is never
-- rewritten and it is not open for recording again; once it is remitted it stays so.
pub record Accounts (c c' : Collection) : Type 0 where
  pub same_id : c'.id ≡ c.id
  pub same_expected : c'.expected_millimes ≡ c.expected_millimes
  pub kept :
      same_collection c.status expected ≡ false
      → (c'.collected_millimes ≡ c.collected_millimes)
        × (same_collection c'.status expected ≡ false)
  pub stays :
      same_collection c.status collection_remitted ≡ true
      → same_collection c'.status collection_remitted ≡ true

Accounts-refl : (c : Collection) → Accounts c c
Accounts-refl c = record {
  same_id = refl;
  same_expected = refl;
  kept = λ h. (refl, h);
  stays = λ h. h;
}

Accounts-trans : (a b c : Collection) → Accounts a b → Accounts b c → Accounts a c
Accounts-trans a b c h k = record {
  same_id = k.same_id ∙ h.same_id;
  same_expected = k.same_expected ∙ h.same_expected;
  kept = λ p. ((k.kept (h.kept p).1).0 ∙ (h.kept p).0, (k.kept (h.kept p).1).1);
  stays = λ p. k.stays (h.stays p);
}

abbrev pub AllAccount : Desk → Desk → Type 0
AllAccount s s' = Rowwise Accounts s.collections s'.collections

pub AllAccount-refl : (s : Desk) → AllAccount s s
AllAccount-refl s = Rowwise-refl Accounts Accounts-refl s.collections

pub AllAccount-trans : (a b c : Desk) → AllAccount a b → AllAccount b c → AllAccount a c
AllAccount-trans a b c =
    Rowwise-trans Accounts Accounts-trans a.collections b.collections c.collections

-- A table of collections that is left alone.
pub unmoved : (s s' : Desk) → s.collections ≡ s'.collections → AllAccount s s'
unmoved s s' e =
    subst (λ cs. Rowwise Accounts s.collections cs) e
      (Rowwise-refl Accounts Accounts-refl s.collections)

pub updated-AllAccount :
    (s : Desk) (fits : Collection → Bool) (change : Collection → Collection)
    → ((c : Collection) → fits c ≡ true → Accounts c (change c))
    → AllAccount s (record s { collections = update_many fits change s.collections })
updated-AllAccount s fits change h =
    update_many-Rowwise Accounts Accounts-refl fits change s.collections (always s.collections)
  where
    always : (rows : List Collection) → All (λ c. fits c ≡ true → Accounts c (change c)) rows
    always [] = tt
    always (c ∷ rows) = (h c, always rows)

apply_record-AllAccount :
    (actor key request : ℕ) (amount difference : ℤ) (c : Collection) (o : CashOrder)
    → (d : CashDelivery) (s s' : Desk)
    → apply_record actor key request amount difference c o d s ≡ ok s'
    → AllAccount s s'
unfolding apply_record
apply_record-AllAccount actor key request amount difference c o d s s' h =
    let courier_id = if is_by_courier o.method then d.courier_id else none in
    let change = record_cash actor key request amount (recorded_status difference) courier_id in
    let one = count_by (awaits_record c.id) s.collections == 1 in
    let two = count_by (order_due o) s.orders == 1 in
    let three = count_by (cash_delivery_at d) s.deliveries == 1 in
    elim (Bool-cases (not one || not two || not three)) [
      | inl a ↦ cc (rw a at h)
      | inr a ↦
          let q : record s {
            collections = update_many (awaits_record c.id) change s.collections;
            orders =
                update_many (order_due o) (pay (recorded_payment difference o.method)) s.orders;
            deliveries =
                update_many (cash_delivery_at d) (mark_cash (eq_ℤ difference (pos 0))) s.deliveries;
          }
              ≡ s' =
            cc (rw a at h) in
          subst (AllAccount s) q (
            updated-AllAccount s (awaits_record c.id) change (λ r f. record {
              same_id = refl;
              same_expected = refl;
              kept = λ p. absurd (ground (arith, f, p));
              stays = λ p. absurd (ground (arith, f, p));
            }))
    ]

opened-collections :
    (actor fresh : ℕ) (amount difference : ℤ) (c : Collection) (s : Desk)
    → (open_collection_discrepancy actor fresh amount difference c s).collections ≡ s.collections
unfolding open_collection_discrepancy
opened-collections actor fresh amount difference c s = elim (Bool-cases (eq_ℤ difference (pos 0))) [
  | inl a ↦ rw a refl
  | inr a ↦ rw a refl
]

pub record_collection-AllAccount :
    (hashes : Hashes) (actor fresh key id : ℕ) (input : RecordInput) (s s' : Desk) (r : Recorded)
    → record_collection hashes actor fresh key id input s ≡ ok (s', r)
    → AllAccount s s'
record_collection-AllAccount hashes actor fresh key id input s s' r h =
    record_collection_ind hashes actor fresh key id input s (λ t k. AllAccount s t)
      (λ difference c place o d m found placed ordered applied.
        subst (λ cs. Rowwise Accounts s.collections cs)
          (sym (
            opened-collections actor fresh input.amount difference c
              (add_event none (some c.id) collection_recorded input.amount m)))
          (apply_record-AllAccount actor (hashes.of_key actor id key) (hashes.of_request input)
            input.amount difference c o d s m applied))
      (AllAccount-refl s) s' r h

-- Updates of orders leave the collections alone.
pub update_payment-AllAccount :
    (o : CashOrder) (status : PaymentStatus) (s s' : Desk)
    → update_payment o status s ≡ ok s'
    → AllAccount s s'
unfolding update_payment
update_payment-AllAccount o status s s' h =
    elim (Bool-cases (count_by (cash_order_at o) s.orders == 1)) [
      | inr a ↦ cc (rw a at h)
      | inl a ↦
          let q : record s { orders = update_many (cash_order_at o) (pay status) s.orders } ≡ s' =
            cc (rw a at h) in
          subst (AllAccount s) q (AllAccount-refl s)
    ]

pub dispute_orders-AllAccount :
    (orders : List CashOrder) (s s' : Desk) → dispute_orders orders s ≡ ok s' → AllAccount s s'
unfolding dispute_orders
dispute_orders-AllAccount [] s s' h =
    let q : s ≡ s' = cc in subst (AllAccount s) q (AllAccount-refl s)
dispute_orders-AllAccount (o ∷ orders) s s' h =
    elim (Result-cases (update_payment o reconciliation_discrepancy s)) [
      | inr (x, e) ↦ cc (rw e at h)
      | inl (m, e) ↦
          AllAccount-trans s m s' (update_payment-AllAccount o reconciliation_discrepancy s m e)
            (dispute_orders-AllAccount orders m s' (rw e at h))
    ]

remit_row-Accounts : (r : Collection) → Accounts r (remit_row r)
remit_row-Accounts r = record {
  same_id = refl;
  same_expected = refl;
  kept = λ p. (refl, refl);
  stays = λ p. refl;
}

settle_item-AllAccount :
    (id : ℕ) (before : Desk) (i : RemittanceItem) (s s' : Desk)
    → settle_item id before i s ≡ ok s'
    → AllAccount s s'
unfolding settle_item
settle_item-AllAccount id before i s s' h =
    elim (Option-cases (find_collection i.collection_id before)) [
      | inl a ↦ cc (rw a at h)
      | inr (c, a) ↦ elim (Result-cases (accountable (discrepancy_of c.id before) c)) [
        | inr (x, b) ↦ cc (rw (a, b) at h)
        | inl (limit, b) ↦
            let allocated = allocated_to c.id (filter (counts_for id before) before.items) in
            elim (Bool-cases (ltb_ℤ limit allocated)) [
              | inl e ↦ cc (rw (a, b, e) at h)
              | inr e ↦ elim (Bool-cases (eq_ℤ allocated limit)) [
                | inr f ↦
                    let q : s ≡ s' = cc (rw (a, b, e, f) at h) in
                    subst (AllAccount s) q (AllAccount-refl s)
                | inl f ↦
                    elim (Bool-cases (can_transition_collection c.status collection_remitted)) [
                      | inr g ↦ cc (rw (a, b, e, f, g) at h)
                      | inl g ↦ elim (Bool-cases (count_by (collection_at c) s.collections == 1)) [
                        | inr k ↦ cc (rw (a, b, e, f, g, k) at h)
                        | inl k ↦
                            let q : record s {
                              collections = update_many (collection_at c) remit_row s.collections;
                            }
                                ≡ s' =
                              cc (rw (a, b, e, f, g, k) at h) in
                            subst (AllAccount s) q (
                              updated-AllAccount s (collection_at c) remit_row
                                (λ r x. remit_row-Accounts r))
                      ]
                    ]
              ]
            ]
      ]
    ]

pub settle_items-AllAccount :
    (id : ℕ) (before : Desk) (items : List RemittanceItem) (s s' : Desk)
    → settle_items id before items s ≡ ok s'
    → AllAccount s s'
unfolding settle_items
settle_items-AllAccount id before [] s s' h =
    let q : s ≡ s' = cc in subst (AllAccount s) q (AllAccount-refl s)
settle_items-AllAccount id before (i ∷ items) s s' h =
    elim (Result-cases (settle_item id before i s)) [
      | inr (x, e) ↦ cc (rw e at h)
      | inl (m, e) ↦
          AllAccount-trans s m s' (settle_item-AllAccount id before i s m e)
            (settle_items-AllAccount id before items m s' (rw e at h))
    ]
