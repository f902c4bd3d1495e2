-- ===== src/Cash/Reconcile.antt =====
-- `reconcileRemittance`: another administrator counts what the courier handed over.
use tunisia_vape_commerce.Prelude.{
  Bool, List, Option, Result, [], any, count_by, eq_ℤ, false, filter, if◌then◌else◌, is_some,
  length, ltb_ℤ, none, not, ok, or_throw, pos, same_id, some, throw_if, true, ℕ, ℤ, ◌&&◌, ◌==◌,
  ◌>>=◌, ◌>>◌, ◌||◌, ◌∷◌,
}
use tunisia_vape_commerce.Table.{update_many}
use tunisia_vape_commerce.Orders.{cash_remitted, reconciliation_discrepancy}
use tunisia_vape_commerce.CashStatus.{
  RemittanceStatus, can_transition_collection, can_transition_remittance, collection_remitted,
  collection_voided, discrepancy, open_case, same_collection, same_remittance, submitted, verified,
}
use tunisia_vape_commerce.CashMath.{cash_difference, sum_millimes}
use tunisia_vape_commerce.Cash.{
  CashError, CashOrder, Collection, Desk, Remittance, RemittanceItem, accountable, add_event,
  checked, collection_not_found, collection_state_invalid, discrepancy_of, discrepancy_opened,
  find_collection, find_remittance, is_remittable, over_allocated, reason_required,
  reconciliation_not_allowed, remittance_collection_conflict, remittance_not_found,
  remittance_state_invalid, remittance_verified, separate_approver_required, total_invalid,
  update_payment,
}
use tunisia_vape_commerce.Cash.Remit.{allocated_to, amounts, items_of, remittance_at}

-- assertIndependentActor
abbrev pub assert_independent_actor : Option ℕ → ℕ → Result CashError (Unit {0})
assert_independent_actor received_by actor =
    throw_if (not (is_some received_by) || same_id received_by (some actor))
      separate_approver_required

-- The allocations that applyVerifiedAllocations sums: those of the remittance, and those of verified
-- ones.
abbrev pub counts_for : ℕ → Desk → RemittanceItem → Bool
counts_for id s i =
    (i.remittance_id == id)
    || any (λ (r : Remittance). (r.id == i.remittance_id) && same_remittance r.status verified)
        s.remittances

-- `where: { id, status }`
abbrev pub collection_at : Collection → Collection → Bool
collection_at c r = (r.id == c.id) && same_collection r.status c.status

abbrev pub remit_row : Collection → Collection
remit_row c = record c { status = collection_remitted }

-- The body of the loop over the items: a collection that is allocated in full is remitted. The
-- collection and the allocations are those read before the loop.
unfoldable pub settle_item : ℕ → Desk → RemittanceItem → Desk → Result CashError Desk
unfolding accountable allocated_to
settle_item id before i s = do
  c ← or_throw (find_collection i.collection_id before) collection_not_found
  limit ← accountable (discrepancy_of c.id before) c
  let allocated = allocated_to c.id (filter (counts_for id before) before.items)
  throw_if (ltb_ℤ limit allocated) over_allocated
  let rows = update_many (collection_at c) remit_row s.collections
  if not (eq_ℤ allocated limit)
      then ok s
      else (throw_if (not (can_transition_collection c.status collection_remitted))
            remittance_state_invalid
          >> throw_if (not (count_by (collection_at c) s.collections == 1))
              remittance_collection_conflict
          >> ok (record s { collections = rows }))

unfoldable pub settle_items : ℕ → Desk → List RemittanceItem → Desk → Result CashError Desk
unfolding settle_item
settle_items id before [] s = ok s
settle_items id before (i ∷ items) s =
    settle_item id before i s >>= λ s'. settle_items id before items s'

unfoldable pub accountable_all : Desk → List Collection → Result CashError (List ℤ)
unfolding accountable
accountable_all s [] = ok []
accountable_all s (c ∷ cs) = do
  amount ← accountable (discrepancy_of c.id s) c
  rest ← accountable_all s cs
  ok (amount ∷ rest)

abbrev pub counted_collections : ℕ → Desk → List Collection
counted_collections order s =
    filter (λ c. (c.order_id == order) && not (same_collection c.status collection_voided))
      s.collections

-- The body of the loop over the orders.
unfoldable pub settle_order : CashOrder → Desk → Result CashError Desk
unfolding accountable_all update_payment
settle_order o s =
    if (length (counted_collections o.id s) == 0)
      || any (λ (c : Collection). not (same_collection c.status collection_remitted))
          (counted_collections o.id s)
    then ok s
    else do
      amounts ← accountable_all s (counted_collections o.id s)
      total ← checked (sum_millimes amounts)
      if eq_ℤ total o.expected_cod then update_payment o cash_remitted s else ok s

unfoldable pub settle_orders : List CashOrder → Desk → Result CashError Desk
unfolding settle_order
settle_orders [] s = ok s
settle_orders (o ∷ orders) s = settle_order o s >>= λ s'. settle_orders orders s'

abbrev pub belongs_to : CashOrder → Desk → RemittanceItem → Bool
belongs_to o s i = elim (find_collection i.collection_id s) [
  | none ↦ false
  | some c ↦ c.order_id == o.id
]

-- uniqueOrders
abbrev pub unique_orders : Desk → List RemittanceItem → List CashOrder
unique_orders s items = filter (λ o. any (belongs_to o s) items) s.orders

-- applyVerifiedAllocations
unfoldable pub apply_verified_allocations : ℕ → Desk → Result CashError Desk
unfolding settle_items settle_orders
apply_verified_allocations id s = do
  let items = items_of id s
  s' ← settle_items id s items s
  settle_orders (unique_orders s items) s'

-- ReconcileCashRemittanceDto
pub record ReconcileInput : Type 0 where
  pub counted : ℤ
  pub has_reason : Bool

abbrev pub foreign_collection : Remittance → Desk → RemittanceItem → Bool
foreign_collection r s i = elim (find_collection i.collection_id s) [
  | none ↦ true
  | some c ↦ not (same_id c.courier_id (some r.courier_id)) || not (is_remittable c.status)
]

abbrev pub reconciled_status : ℤ → RemittanceStatus
reconciled_status difference = if eq_ℤ difference (pos 0) then verified else discrepancy

-- The checks, with the difference between the count and the declaration.
unfoldable pub check_reconcile : ℕ → ReconcileInput → Remittance → Desk → Result CashError ℤ
check_reconcile actor input r s = do
  throw_if (not (can_transition_remittance r.status verified)) reconciliation_not_allowed
  assert_independent_actor r.received_by actor
  total ← checked (sum_millimes (amounts (items_of r.id s)))
  throw_if (not (eq_ℤ total r.declared_millimes)) total_invalid
  throw_if (any (foreign_collection r s) (items_of r.id s)) collection_state_invalid
  difference ← checked (cash_difference r.declared_millimes input.counted)
  throw_if (not (eq_ℤ difference (pos 0)) && not input.has_reason) reason_required
  throw_if (not (can_transition_remittance r.status (reconciled_status difference)))
      reconciliation_not_allowed
  ok difference

abbrev pub reconcile_row : ℕ → ℤ → ℤ → Remittance → Remittance
reconcile_row actor counted difference r = record r {
  status = reconciled_status difference;
  verified_millimes = some counted;
  difference_millimes = some difference;
  verified_by = some actor;
}

unfoldable pub dispute_orders : List CashOrder → Desk → Result CashError Desk
unfolding update_payment
dispute_orders [] s = ok s
dispute_orders (o ∷ orders) s =
    update_payment o reconciliation_discrepancy s >>= λ s'. dispute_orders orders s'

-- The branch of a count that differs.
unfoldable pub open_remittance_discrepancy :
    ℕ → ℕ → ReconcileInput → ℤ → Remittance → Desk → Result CashError Desk
unfolding dispute_orders
open_remittance_discrepancy actor fresh input difference r s =
    dispute_orders (unique_orders s (items_of r.id s)) (
      add_event (some r.id) none discrepancy_opened difference (record s {
        discrepancies =
            record {
              id = fresh;
              remittance_id = some r.id;
              collection_id = none;
              order_id = none;
              status = open_case;
              expected_millimes = r.declared_millimes;
              actual_millimes = input.counted;
              difference_millimes = difference;
              opened_by = actor;
              resolved_by = none;
            }
            ∷ s.discrepancies;
      }))

unfoldable pub verify_remittance : ReconcileInput → Remittance → Desk → Result CashError Desk
unfolding apply_verified_allocations
verify_remittance input r s = do
  s' ← apply_verified_allocations r.id s
  ok (add_event (some r.id) none remittance_verified input.counted s')

unfoldable pub reconcile_remittance : ℕ → ℕ → ℕ → ReconcileInput → Desk → Result CashError Desk
unfolding check_reconcile verify_remittance open_remittance_discrepancy
reconcile_remittance actor fresh id input s = do
  r ← or_throw (find_remittance id s) remittance_not_found
  difference ← check_reconcile actor input r s
  throw_if (not (count_by (remittance_at id submitted) s.remittances == 1))
      reconciliation_not_allowed
  let change = reconcile_row actor input.counted difference
  let s' : Desk = record s {
    remittances = update_many (remittance_at id submitted) change s.remittances;
  }
  if eq_ℤ difference (pos 0)
      then verify_remittance input r s'
      else open_remittance_discrepancy actor fresh input difference r s'
