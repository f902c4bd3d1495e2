-- ===== src/Cash/Approvals.antt =====
-- Two pairs of eyes on cash: who may reconcile a remittance and who may resolve a difference.
use tunisia_vape_commerce.Prelude.{
  Bool-cases, Option, Option-cases, Result, Result-cases, ap, arith, eq_ℤ, eq_ℤ_iff, err, false,
  inl, inr, is_some, none, not, ok, refl, same_id, some, true, ℕ, ℤ, ◌==◌, ◌||◌, ◌∙◌, ◌≡◌,
}
use tunisia_vape_commerce.Money.{MoneyError}
use tunisia_vape_commerce.Orders.{reconciliation_discrepancy}
use tunisia_vape_commerce.CashStatus.{
  DiscrepancyStatus, can_transition_discrepancy, can_transition_remittance, verified,
}
use tunisia_vape_commerce.CashMath.{cash_difference, sum_millimes}
use tunisia_vape_commerce.Cash.{
  CashDelivery, Desk, Discrepancy, Remittance, checked, find_remittance, is_remittable,
  same_payment,
}
use tunisia_vape_commerce.Cash.Collect.{CollectionRows, lock_collection}
use tunisia_vape_commerce.Cash.Remit.{amounts, items_of}
use tunisia_vape_commerce.Cash.Reconcile.{ReconcileInput, check_reconcile, reconcile_remittance}
use tunisia_vape_commerce.Cash.Resolve.{
  ResolveInput, check_collection_case, check_remittance_case, find_discrepancy, fits_collection,
  resolve_collection_discrepancy, resolve_discrepancy, resolve_remittance_discrepancy,
  route_discrepancy,
}

-- What a reconciliation has checked of its remittance.
pub record IsChecked (actor : ℕ) (s : Desk) (r : Remittance) : Type 0 where
  pub receiver : ℕ
  pub received : r.received_by ≡ some receiver
  pub other : (receiver == actor) ≡ false
  pub balanced : sum_millimes (amounts (items_of r.id s)) ≡ ok r.declared_millimes
  pub moves : can_transition_remittance r.status verified ≡ true

independent_actor :
    (received_by : Option ℕ) (actor : ℕ)
    → not (is_some received_by) || same_id received_by (some actor) ≡ false
    → (receiver : ℕ) × (received_by ≡ some receiver) × ((receiver == actor) ≡ false)
independent_actor none actor h = cc
independent_actor (some u) actor h = (u, refl, h)

check_reconcile-IsChecked :
    (actor : ℕ) (input : ReconcileInput) (r : Remittance) (s : Desk) (difference : ℤ)
    → check_reconcile actor input r s ≡ ok difference
    → IsChecked actor s r
unfolding check_reconcile
check_reconcile-IsChecked actor input r s difference h =
    elim (Bool-cases (can_transition_remittance r.status verified)) [
      | inr a ↦ cc (rw a at h)
      | inl a ↦
          elim (Bool-cases (not (is_some r.received_by) || same_id r.received_by (some actor))) [
            | inl b ↦ cc (rw (a, b) at h)
            | inr b ↦ elim (Result-cases (checked (sum_millimes (amounts (items_of r.id s))))) [
              | inr (x, e) ↦ cc (rw (a, b, e) at h)
              | inl (total, e) ↦ elim (Bool-cases (eq_ℤ total r.declared_millimes)) [
                | inr f ↦ cc (rw (a, b, e, f) at h)
                | inl f ↦
                    let (receiver, received, other) = independent_actor r.received_by actor b in
                    let same : total ≡ r.declared_millimes =
                      (eq_ℤ_iff total r.declared_millimes).0 f in
                    record {
                      receiver = receiver;
                      received = received;
                      other = other;
                      balanced =
                          checked_ok (sum_millimes (amounts (items_of r.id s))) r.declared_millimes
                            (e ∙ ap ok same);
                      moves = a;
                    }
              ]
            ]
          ]
    ]
  where
    checked_ok : (call : Result MoneyError ℤ) (v : ℤ) → checked call ≡ ok v → call ≡ ok v
    checked_ok (ok w) v h = let q : w ≡ v = cc in ap ok q
    checked_ok (err e) v h = cc

-- A remittance is reconciled only by another administrator than the one who received it, and only
-- where its items add up to what was declared.
pub reconcile_remittance-IsChecked :
    (actor fresh id : ℕ) (input : ReconcileInput) (s s' : Desk)
    → reconcile_remittance actor fresh id input s ≡ ok s'
    → (r : Remittance) × (find_remittance id s ≡ some r) × IsChecked actor s r
unfolding reconcile_remittance
reconcile_remittance-IsChecked actor fresh id input s s' h =
    elim (Option-cases (find_remittance id s)) [
      | inl a ↦ cc (rw a at h)
      | inr (r, a) ↦ elim (Result-cases (check_reconcile actor input r s)) [
        | inr (x, b) ↦ cc (rw (a, b) at h)
        | inl (difference, b) ↦ (r, a, check_reconcile-IsChecked actor input r s difference b)
      ]
    ]

-- What a resolution has checked of its discrepancy.
pub record IsOpenFor (actor : ℕ) (resolution : DiscrepancyStatus) (d : Discrepancy) : Type 0 where
  pub other : (d.opened_by == actor) ≡ false
  pub moves : can_transition_discrepancy d.status resolution ≡ true

pub check_collection_case_lem :
    (actor : ℕ) (input : ResolveInput) (d : Discrepancy) (rows : CollectionRows)
    → (delivery : CashDelivery) (s : Desk) (u : Unit {0})
    → check_collection_case actor input d rows delivery s ≡ ok u
    → IsOpenFor actor input.resolution d × (is_remittable rows.collection.status ≡ true)
unfolding check_collection_case
check_collection_case_lem actor input d rows delivery s u h =
    let c = rows.collection in
    elim (Result-cases (checked (cash_difference c.expected_millimes c.collected_millimes))) [
      | inr (x, a) ↦ cc (rw a at h)
      | inl (difference, a) ↦ elim (Bool-cases (fits_collection d c delivery difference)) [
        | inr b ↦ cc (rw (a, b) at h)
        | inl b ↦ elim (Bool-cases (can_transition_discrepancy d.status input.resolution)) [
          | inr e ↦ cc (rw (a, b, e) at h)
          | inl e ↦
              let off =
                not (is_remittable c.status)
                || not (same_payment rows.order.payment_status reconciliation_discrepancy) in
              elim (Bool-cases off) [
                | inl f ↦ cc (rw (a, b, e, f) at h)
                | inr f ↦
                    let mine =
                      not (is_some c.collected_by)
                      || (d.opened_by == actor)
                      || same_id c.collected_by (some actor) in
                    elim (Bool-cases mine) [
                      | inl g ↦ cc (rw (a, b, e, f, g) at h)
                      | inr g ↦ (record { other = ground (arith, g); moves = e }, ground (arith, f))
                    ]
              ]
        ]
      ]
    ]

check_remittance_case-IsOpenFor :
    (actor : ℕ) (input : ResolveInput) (d : Discrepancy) (r : Remittance) (u : Unit {0})
    → check_remittance_case actor input d r ≡ ok u
    → IsOpenFor actor input.resolution d
unfolding check_remittance_case
check_remittance_case-IsOpenFor actor input d r u h =
    elim (Bool-cases (can_transition_discrepancy d.status input.resolution)) [
      | inr e ↦ cc (rw e at h)
      | inl e ↦ elim (Bool-cases (d.opened_by == actor)) [
        | inl g ↦ cc (rw (e, g) at h)
        | inr g ↦ record { other = g; moves = e }
      ]
    ]

-- The discrepancy of that identifier passed the checks.
IsResolvable : ℕ → ℕ → ResolveInput → Desk → Type 0
IsResolvable actor id input s =
    (d : Discrepancy) × (find_discrepancy id s ≡ some d) × IsOpenFor actor input.resolution d

resolve_collection-IsResolvable :
    (actor collection_id id : ℕ) (input : ResolveInput) (s s' : Desk)
    → resolve_collection_discrepancy actor collection_id id input s ≡ ok s'
    → IsResolvable actor id input s
unfolding resolve_collection_discrepancy IsResolvable
resolve_collection-IsResolvable actor collection_id id input s s' h =
    elim (Result-cases (lock_collection collection_id s)) [
      | inr (x, a) ↦ cc (rw a at h)
      | inl (rows, a) ↦ elim (Option-cases (find_discrepancy id s)) [
        | inl b ↦ cc (rw (a, b) at h)
        | inr (d, b) ↦ elim (Option-cases rows.delivery) [
          | inl e ↦ cc (rw (a, b, e) at h)
          | inr (delivery, e) ↦
              elim (Result-cases (check_collection_case actor input d rows delivery s)) [
                | inr (x, f) ↦ cc (rw (a, b, e, f) at h)
                | inl (u, f) ↦
                    (d, b, (check_collection_case_lem actor input d rows delivery s u f).0)
              ]
        ]
      ]
    ]

resolve_remittance-IsResolvable :
    (actor remittance_id id : ℕ) (input : ResolveInput) (s s' : Desk)
    → resolve_remittance_discrepancy actor remittance_id id input s ≡ ok s'
    → IsResolvable actor id input s
unfolding resolve_remittance_discrepancy IsResolvable
resolve_remittance-IsResolvable actor remittance_id id input s s' h =
    elim (Option-cases (find_discrepancy id s)) [
      | inl a ↦ cc (rw a at h)
      | inr (d, a) ↦
          let off =
            not (same_id d.remittance_id (some remittance_id))
            || is_some d.collection_id
            || is_some d.order_id in
          elim (Bool-cases off) [
            | inl b ↦ cc (rw (a, b) at h)
            | inr b ↦ elim (Option-cases (find_remittance remittance_id s)) [
              | inl e ↦ cc (rw (a, b, e) at h)
              | inr (r, e) ↦ elim (Result-cases (check_remittance_case actor input d r)) [
                | inr (x, f) ↦ cc (rw (a, b, e, f) at h)
                | inl (u, f) ↦ (d, a, check_remittance_case-IsOpenFor actor input d r u f)
              ]
            ]
          ]
    ]

-- A difference in cash, of a collection or of a remittance, is resolved or written off only by another
-- administrator than the one who opened it, and only along the transitions of a discrepancy.
pub resolve_discrepancy-IsOpenFor :
    (actor id : ℕ) (input : ResolveInput) (s s' : Desk)
    → resolve_discrepancy actor id input s ≡ ok s'
    → (d : Discrepancy) × (find_discrepancy id s ≡ some d) × IsOpenFor actor input.resolution d
unfolding resolve_discrepancy route_discrepancy IsResolvable
resolve_discrepancy-IsOpenFor actor id input s s' h = elim (Option-cases (find_discrepancy id s)) [
  | inl a ↦ cc (rw a at h)
  | inr (d, a) ↦ by_scope d.collection_id d.order_id d.remittance_id (rw a at h)
]
  where
    by_scope :
        (c o r : Option ℕ)
        → route_discrepancy actor id input c o r s ≡ ok s'
        → IsResolvable actor id input s
    by_scope (some c) (some o) none h = resolve_collection-IsResolvable actor c id input s s' h
    by_scope none none (some r) h = resolve_remittance-IsResolvable actor r id input s s' h
    by_scope (some c) (some o) (some r) h = cc
    by_scope (some c) none r h = cc
    by_scope none (some o) r h = cc
    by_scope none none none h = cc
