-- ===== src/Cash/Resolutions.antt =====
-- Resolutions of differences keep the collections as `Accounts` says.
use mathlib.Core.Path.{subst}
use tunisia_vape_commerce.Prelude.{
  Bool-cases, Option, Option-cases, Result-cases, arith, count_by, inl, inr, is_some, none, not, ok,
  refl, same_id, some, true, ℕ, ◌-ℤ◌, ◌==◌, ◌||◌, ◌≡◌,
}
use tunisia_vape_commerce.Table.{update_many}
use tunisia_vape_commerce.Orders.{reconciliation_discrepancy}
use tunisia_vape_commerce.CashStatus.{discrepancy, resolved, same_discrepancy}
use tunisia_vape_commerce.Cash.{
  CashDelivery, CashOrder, Collection, Desk, Discrepancy, Remittance, add_event,
  adjustment_recorded, discrepancy_resolved, find_remittance, is_remittable, same_payment,
  update_payment,
}
use tunisia_vape_commerce.Cash.Collect.{
  CollectionRows, cash_delivery_at, lock_collection, mark_cash,
}
use tunisia_vape_commerce.Cash.Remit.{remittance_at}
use tunisia_vape_commerce.Cash.Reconcile.{apply_verified_allocations, collection_at}
use tunisia_vape_commerce.Cash.Resolve.{
  ResolveInput, check_collection_case, check_remittance_case, clear_order, clears_order,
  close_discrepancy, close_row, collected_payment, discrepancy_at, find_discrepancy, has_amount,
  resolve_collection_discrepancy, resolve_discrepancy, resolve_remittance_discrepancy,
  route_discrepancy, settle_collection, settle_remittance, settle_row, verify_row,
}
use tunisia_vape_commerce.Cash.Approvals.{check_collection_case_lem}
use tunisia_vape_commerce.Cash.Accounts.{
  Accounts, AllAccount, AllAccount-refl, AllAccount-trans, update_payment-AllAccount,
  updated-AllAccount,
}
use tunisia_vape_commerce.Cash.Operations.{apply_verified_allocations-AllAccount}

clear_order-AllAccount :
    (o : CashOrder) (d : CashDelivery) (s s' : Desk) → clear_order o d s ≡ ok s' → AllAccount s s'
unfolding clear_order
clear_order-AllAccount o d s s' h =
    elim (Bool-cases (same_payment o.payment_status reconciliation_discrepancy)) [
      | inr a ↦ cc (rw a at h)
      | inl a ↦ elim (Result-cases (update_payment o (collected_payment o) s)) [
        | inr (x, b) ↦ cc (rw (a, b) at h)
        | inl (m, b) ↦ elim (Bool-cases (count_by (cash_delivery_at d) s.deliveries == 1)) [
          | inr e ↦ cc (rw (a, b, e) at h)
          | inl e ↦
              let q : record m {
                deliveries = update_many (cash_delivery_at d) (mark_cash true) m.deliveries;
              }
                  ≡ s' =
                cc (rw (a, b, e) at h) in
              subst (AllAccount s) q (update_payment-AllAccount o (collected_payment o) s m b)
        ]
      ]
    ]

settle_row-Accounts :
    (c r : Collection)
    → is_remittable c.status ≡ true
    → collection_at c r ≡ true
    → Accounts r (settle_row r)
settle_row-Accounts c r h f = record {
  same_id = refl;
  same_expected = refl;
  kept = λ p. (refl, refl);
  stays = λ p. absurd (ground (arith, h, f, p));
}

settle_collection-AllAccount :
    (input : ResolveInput) (rows : CollectionRows) (d : CashDelivery) (s s' : Desk)
    → is_remittable rows.collection.status ≡ true
    → settle_collection input rows d s ≡ ok s'
    → AllAccount s s'
unfolding settle_collection
settle_collection-AllAccount input rows d s s' counted h =
    let c = rows.collection in
    elim (Bool-cases (has_amount input.final_verified c.expected_millimes)) [
      | inr a ↦ cc (rw a at h)
      | inl a ↦ elim (Result-cases (clears_order c rows.order s)) [
        | inr (x, b) ↦ cc (rw (a, b) at h)
        | inl (clears, b) ↦ elim (Bool-cases (count_by (collection_at c) s.collections == 1)) [
          | inr e ↦ cc (rw (a, b, e) at h)
          | inl e ↦
              let m : Desk = record s {
                collections = update_many (collection_at c) settle_row s.collections;
              } in
              let first =
                updated-AllAccount s (collection_at c) settle_row
                  (λ r x. settle_row-Accounts c r counted x) in
              let difference = c.expected_millimes -ℤ c.collected_millimes in
              elim (Bool-cases clears) [
                | inr f ↦
                    let q : add_event none (some c.id) adjustment_recorded difference m ≡ s' =
                      cc (rw (a, b, e, f) at h) in
                    subst (AllAccount s) q first
                | inl f ↦ elim (Result-cases (clear_order rows.order d m)) [
                  | inr (x, g) ↦ cc (rw (a, b, e, f, g) at h)
                  | inl (n, g) ↦
                      let q : add_event none (some c.id) adjustment_recorded difference n ≡ s' =
                        cc (rw (a, b, e, f, g) at h) in
                      subst (AllAccount s) q
                        (AllAccount-trans s m n first (clear_order-AllAccount rows.order d m n g))
                ]
              ]
        ]
      ]
    ]

close_discrepancy-AllAccount :
    (actor : ℕ) (input : ResolveInput) (d : Discrepancy) (remittance collection : Option ℕ)
    → (s s' : Desk) → close_discrepancy actor input d remittance collection s ≡ ok s'
    → AllAccount s s'
unfolding close_discrepancy
close_discrepancy-AllAccount actor input d remittance collection s s' h =
    elim (Bool-cases (count_by (discrepancy_at d) s.discrepancies == 1)) [
      | inr a ↦ cc (rw a at h)
      | inl a ↦
          let rows =
            update_many (discrepancy_at d) (close_row actor input.resolution) s.discrepancies in
          let q : add_event remittance collection discrepancy_resolved d.difference_millimes
                (record s { discrepancies = rows })
              ≡ s' =
            cc (rw a at h) in
          subst (AllAccount s) q (AllAccount-refl s)
    ]

resolve_collection-AllAccount :
    (actor collection_id id : ℕ) (input : ResolveInput) (s s' : Desk)
    → resolve_collection_discrepancy actor collection_id id input s ≡ ok s'
    → AllAccount s s'
unfolding resolve_collection_discrepancy
resolve_collection-AllAccount actor collection_id id input s s' h =
    elim (Result-cases (lock_collection collection_id s)) [
      | inr (x, a) ↦ cc (rw a at h)
      | inl (rows, a) ↦ elim (Option-cases (find_discrepancy id s)) [
        | inl b ↦ cc (rw (a, b) at h)
        | inr (d, b) ↦ elim (Option-cases rows.delivery) [
          | inl e ↦ cc (rw (a, b, e) at h)
          | inr (delivery, e) ↦
              elim (Result-cases (check_collection_case actor input d rows delivery s)) [
                | inr (x, f) ↦ cc (rw (a, b, e, f) at h)
                | inl (u, f) ↦
                    let remittable =
                      (check_collection_case_lem actor input d rows delivery s u f).1 in
                    let close =
                      close_discrepancy-AllAccount actor input d none (some rows.collection.id) in
                    elim (Bool-cases (same_discrepancy input.resolution resolved)) [
                      | inl g ↦ elim (Result-cases (settle_collection input rows delivery s)) [
                        | inr (x, k) ↦ cc (rw (a, b, e, f, g, k) at h)
                        | inl (m, k) ↦
                            AllAccount-trans s m s'
                              (settle_collection-AllAccount input rows delivery s m remittable k)
                              (close m s' (rw (a, b, e, f, g, k) at h))
                      ]
                      | inr g ↦ elim (Bool-cases (is_some input.final_verified)) [
                        | inl k ↦ cc (rw (a, b, e, f, g, k) at h)
                        | inr k ↦ close s s' (rw (a, b, e, f, g, k) at h)
                      ]
                    ]
              ]
        ]
      ]
    ]

settle_remittance-AllAccount :
    (actor : ℕ) (input : ResolveInput) (r : Remittance) (s s' : Desk)
    → settle_remittance actor input r s ≡ ok s'
    → AllAccount s s'
unfolding settle_remittance
settle_remittance-AllAccount actor input r s s' h =
    elim (Bool-cases (has_amount input.final_verified r.declared_millimes)) [
      | inr a ↦ cc (rw a at h)
      | inl a ↦ elim (Result-cases (apply_verified_allocations r.id s)) [
        | inr (x, b) ↦ cc (rw (a, b) at h)
        | inl (m, b) ↦
            let fits = remittance_at r.id discrepancy in
            elim (Bool-cases (count_by fits m.remittances == 1)) [
              | inr e ↦ cc (rw (a, b, e) at h)
              | inl e ↦
                  let q : record m {
                    remittances = update_many fits (verify_row actor) m.remittances;
                  }
                      ≡ s' =
                    cc (rw (a, b, e) at h) in
                  subst (AllAccount s) q (apply_verified_allocations-AllAccount r.id s m b)
            ]
      ]
    ]

resolve_remittance-AllAccount :
    (actor remittance_id id : ℕ) (input : ResolveInput) (s s' : Desk)
    → resolve_remittance_discrepancy actor remittance_id id input s ≡ ok s'
    → AllAccount s s'
unfolding resolve_remittance_discrepancy
resolve_remittance-AllAccount actor remittance_id id input s s' h =
    elim (Option-cases (find_discrepancy id s)) [
      | inl a ↦ cc (rw a at h)
      | inr (d, a) ↦
          let off =
            not (same_id d.remittance_id (some remittance_id))
            || is_some d.collection_id
            || is_some d.order_id in
          elim (Bool-cases off) [
            | inl b ↦ cc (rw (a, b) at h)
            | inr b ↦ elim (Option-cases (find_remittance remittance_id s)) [
              | inl e ↦ cc (rw (a, b, e) at h)
              | inr (r, e) ↦ elim (Result-cases (check_remittance_case actor input d r)) [
                | inr (x, f) ↦ cc (rw (a, b, e, f) at h)
                | inl (u, f) ↦
                    let close =
                      close_discrepancy-AllAccount actor input d (some remittance_id) none in
                    elim (Bool-cases (same_discrepancy input.resolution resolved)) [
                      | inl g ↦ elim (Result-cases (settle_remittance actor input r s)) [
                        | inr (x, k) ↦ cc (rw (a, b, e, f, g, k) at h)
                        | inl (m, k) ↦
                            AllAccount-trans s m s'
                              (settle_remittance-AllAccount actor input r s m k)
                              (close m s' (rw (a, b, e, f, g, k) at h))
                      ]
                      | inr g ↦ elim (Bool-cases (is_some input.final_verified)) [
                        | inl k ↦ cc (rw (a, b, e, f, g, k) at h)
                        | inr k ↦ close s s' (rw (a, b, e, f, g, k) at h)
                      ]
                    ]
              ]
            ]
          ]
    ]

pub resolve_discrepancy-AllAccount :
    (actor id : ℕ) (input : ResolveInput) (s s' : Desk)
    → resolve_discrepancy actor id input s ≡ ok s'
    → AllAccount s s'
unfolding resolve_discrepancy route_discrepancy
resolve_discrepancy-AllAccount actor id input s s' h = elim (Option-cases (find_discrepancy id s)) [
  | inl a ↦ cc (rw a at h)
  | inr (d, a) ↦ by_scope d.collection_id d.order_id d.remittance_id (rw a at h)
]
  where
    by_scope :
        (c o r : Option ℕ) → route_discrepancy actor id input c o r s ≡ ok s' → AllAccount s s'
    by_scope (some c) (some o) none h = resolve_collection-AllAccount actor c id input s s' h
    by_scope none none (some r) h = resolve_remittance-AllAccount actor r id input s s' h
    by_scope (some c) (some o) (some r) h = cc
    by_scope (some c) none r h = cc
    by_scope none (some o) r h = cc
    by_scope none none none h = cc
