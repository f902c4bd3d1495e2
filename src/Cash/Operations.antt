-- ===== src/Cash/Operations.antt =====
-- Every operation of the cash desk keeps the collections as `Accounts` says.
use mathlib.Core.Path.{subst}
use tunisia_vape_commerce.Prelude.{
  Bool-cases, List, Option-cases, Result-cases, [], any, count_by, eq_ℤ, includes, inl, inr,
  is_some, length, map, none, not, ok, pos, some, ℕ, ◌++◌, ◌==◌, ◌||◌, ◌∷◌, ◌≡◌,
}
use tunisia_vape_commerce.Table.{update_many}
use tunisia_vape_commerce.Orders.{cash_remitted}
use tunisia_vape_commerce.CashStatus.{
  can_transition_remittance, collection_remitted, draft, same_collection, submitted,
}
use tunisia_vape_commerce.CashMath.{sum_millimes}
use tunisia_vape_commerce.Cash.{
  CashOrder, Collection, Desk, Remittance, add_event, checked, find_collection, find_remittance,
  remittance_submitted, remittance_verified,
}
use tunisia_vape_commerce.Cash.Remit.{
  Allocated, RemittanceInput, amounts, check_allocations, check_input, create_remittance, item_of,
  items_of, new_remittance, remittance_at, submit_remittance, submit_row,
}
use tunisia_vape_commerce.Cash.Reconcile.{
  ReconcileInput, accountable_all, apply_verified_allocations, check_reconcile, counted_collections,
  open_remittance_discrepancy, reconcile_remittance, reconcile_row, settle_items, settle_order,
  settle_orders, unique_orders, verify_remittance,
}
use tunisia_vape_commerce.Cash.Accounts.{
  AllAccount, AllAccount-refl, AllAccount-trans, dispute_orders-AllAccount, settle_items-AllAccount,
  update_payment-AllAccount,
}

settle_order-AllAccount : (o : CashOrder) (s s' : Desk) → settle_order o s ≡ ok s' → AllAccount s s'
unfolding settle_order
settle_order-AllAccount o s s' h =
    let rows = counted_collections o.id s in
    let waits =
      (length rows == 0)
      || any (λ (c : Collection). not (same_collection c.status collection_remitted)) rows in
    elim (Bool-cases waits) [
      | inl a ↦ let q : s ≡ s' = cc (rw a at h) in subst (AllAccount s) q (AllAccount-refl s)
      | inr a ↦ elim (Result-cases (accountable_all s rows)) [
        | inr (x, b) ↦ cc (rw (a, b) at h)
        | inl (each, b) ↦ elim (Result-cases (checked (sum_millimes each))) [
          | inr (x, e) ↦ cc (rw (a, b, e) at h)
          | inl (total, e) ↦ elim (Bool-cases (eq_ℤ total o.expected_cod)) [
            | inr f ↦
                let q : s ≡ s' = cc (rw (a, b, e, f) at h) in
                subst (AllAccount s) q (AllAccount-refl s)
            | inl f ↦ update_payment-AllAccount o cash_remitted s s' (rw (a, b, e, f) at h)
          ]
        ]
      ]
    ]

settle_orders-AllAccount :
    (orders : List CashOrder) (s s' : Desk) → settle_orders orders s ≡ ok s' → AllAccount s s'
unfolding settle_orders
settle_orders-AllAccount [] s s' h =
    let q : s ≡ s' = cc in subst (AllAccount s) q (AllAccount-refl s)
settle_orders-AllAccount (o ∷ orders) s s' h = elim (Result-cases (settle_order o s)) [
  | inr (x, e) ↦ cc (rw e at h)
  | inl (m, e) ↦
      AllAccount-trans s m s' (settle_order-AllAccount o s m e)
        (settle_orders-AllAccount orders m s' (rw e at h))
]

pub apply_verified_allocations-AllAccount :
    (id : ℕ) (s s' : Desk) → apply_verified_allocations id s ≡ ok s' → AllAccount s s'
unfolding apply_verified_allocations
apply_verified_allocations-AllAccount id s s' h =
    let items = items_of id s in
    elim (Result-cases (settle_items id s items s)) [
      | inr (x, e) ↦ cc (rw e at h)
      | inl (m, e) ↦
          AllAccount-trans s m s' (settle_items-AllAccount id s items s m e)
            (settle_orders-AllAccount (unique_orders s items) m s' (rw e at h))
    ]

pub reconcile_remittance-AllAccount :
    (actor fresh id : ℕ) (input : ReconcileInput) (s s' : Desk)
    → reconcile_remittance actor fresh id input s ≡ ok s'
    → AllAccount s s'
unfolding reconcile_remittance verify_remittance open_remittance_discrepancy
reconcile_remittance-AllAccount actor fresh id input s s' h =
    elim (Option-cases (find_remittance id s)) [
      | inl a ↦ cc (rw a at h)
      | inr (r, a) ↦ elim (Result-cases (check_reconcile actor input r s)) [
        | inr (x, b) ↦ cc (rw (a, b) at h)
        | inl (difference, b) ↦
            let fits = remittance_at id submitted in
            let m : Desk = record s {
              remittances =
                  update_many fits (reconcile_row actor input.counted difference) s.remittances;
            } in
            elim (Bool-cases (count_by fits s.remittances == 1)) [
              | inr e ↦ cc (rw (a, b, e) at h)
              | inl e ↦ elim (Bool-cases (eq_ℤ difference (pos 0))) [
                | inl f ↦ elim (Result-cases (apply_verified_allocations r.id m)) [
                  | inr (x, g) ↦ cc (rw (a, b, e, f, g) at h)
                  | inl (n, g) ↦
                      let q : add_event (some r.id) none remittance_verified input.counted n ≡ s' =
                        cc (rw (a, b, e, f, g) at h) in
                      subst (AllAccount s) q (apply_verified_allocations-AllAccount r.id m n g)
                ]
                | inr f ↦
                    dispute_orders-AllAccount (unique_orders m (items_of r.id m)) _ s'
                      (rw (a, b, e, f) at h)
              ]
            ]
      ]
    ]

pub create_remittance-AllAccount :
    (fresh : ℕ) (input : RemittanceInput) (s s' : Desk)
    → create_remittance fresh input s ≡ ok s'
    → AllAccount s s'
unfolding create_remittance
create_remittance-AllAccount fresh input s s' h = elim (Result-cases (check_input input)) [
  | inr (x, e) ↦ cc (rw e at h)
  | inl (u, e) ↦
      let absent =
        any (λ (a : Allocated). not (is_some (find_collection a.collection_id s)))
          input.allocations in
      elim (Bool-cases absent) [
        | inl f ↦ cc (rw (e, f) at h)
        | inr f ↦ elim (Bool-cases (includes input.from_courier s.active_couriers)) [
          | inr g ↦ cc (rw (e, f, g) at h)
          | inl g ↦ elim (Result-cases (check_allocations input.from_courier input.allocations s)) [
            | inr (x, k) ↦ cc (rw (e, f, g, k) at h)
            | inl (v, k) ↦
                let taken =
                  any (λ (r : Remittance). r.remittance_number == input.number) s.remittances in
                elim (Bool-cases taken) [
                  | inl m ↦ cc (rw (e, f, g, k, m) at h)
                  | inr m ↦
                      let q : record s {
                        remittances = new_remittance fresh input ∷ s.remittances;
                        items = map (item_of fresh) input.allocations ++ s.items;
                      }
                          ≡ s' =
                        cc (rw (e, f, g, k, m) at h) in
                      subst (AllAccount s) q (AllAccount-refl s)
                ]
          ]
        ]
      ]
]

pub submit_remittance-AllAccount :
    (actor id : ℕ) (s s' : Desk) → submit_remittance actor id s ≡ ok s' → AllAccount s s'
unfolding submit_remittance
submit_remittance-AllAccount actor id s s' h = elim (Option-cases (find_remittance id s)) [
  | inl a ↦ cc (rw a at h)
  | inr (r, a) ↦ elim (Bool-cases (can_transition_remittance r.status submitted)) [
    | inr b ↦ cc (rw (a, b) at h)
    | inl b ↦ elim (Result-cases (checked (sum_millimes (amounts (items_of id s))))) [
      | inr (x, e) ↦ cc (rw (a, b, e) at h)
      | inl (total, e) ↦ elim (Bool-cases (eq_ℤ total r.declared_millimes)) [
        | inr f ↦ cc (rw (a, b, e, f) at h)
        | inl f ↦ elim (Bool-cases (count_by (remittance_at id draft) s.remittances == 1)) [
          | inr g ↦ cc (rw (a, b, e, f, g) at h)
          | inl g ↦
              let rows = update_many (remittance_at id draft) (submit_row actor) s.remittances in
              let q : add_event (some id) none remittance_submitted r.declared_millimes
                    (record s { remittances = rows })
                  ≡ s' =
                cc (rw (a, b, e, f, g) at h) in
              subst (AllAccount s) q (AllAccount-refl s)
        ]
      ]
    ]
  ]
]
