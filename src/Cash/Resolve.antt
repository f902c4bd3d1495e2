-- ===== src/Cash/Resolve.antt =====
-- `resolveDiscrepancy`: a second administrator settles or writes off a difference, of a collection or
-- of a remittance.
use tunisia_vape_commerce.Prelude.{
  Bool, List, Option, Result, [], any, count_by, eq_ℤ, err, false, find, if◌then◌else◌, is_some,
  none, not, ok, or_throw, pos, same_id, some, throw_if, true, ℕ, ℤ, ◌&&◌, ◌+ℤ◌, ◌-ℤ◌, ◌==◌, ◌>>=◌,
  ◌>>◌, ◌||◌, ◌∷◌,
}
use tunisia_vape_commerce.Table.{update_many}
use tunisia_vape_commerce.Orders.{
  PaymentStatus, cash_collected_at_store, cash_collected_by_courier, reconciliation_discrepancy,
}
use tunisia_vape_commerce.CashStatus.{
  DiscrepancyStatus, can_transition_discrepancy, collected, discrepancy, resolved, same_discrepancy,
  same_remittance, verified,
}
use tunisia_vape_commerce.CashMath.{cash_difference}
use tunisia_vape_commerce.Cash.{
  CashDelivery, CashError, CashOrder, Collection, Desk, Discrepancy, Remittance, RemittanceItem,
  add_event, adjustment_recorded, already_allocated, checked, discrepancy_not_found, discrepancy_of,
  discrepancy_resolved, discrepancy_state_invalid, final_amount_invalid,
  final_amount_not_applicable, find_remittance, is_accounted, is_linked, is_pickup, is_remittable,
  linkage_invalid, remittance_not_found, resolution_not_allowed, same_payment, scope_invalid,
  separate_approver_required, update_payment, version_conflict,
}
use tunisia_vape_commerce.Cash.Collect.{
  CollectionRows, cash_delivery_at, lock_collection, mark_cash,
}
use tunisia_vape_commerce.Cash.Remit.{remittance_at}
use tunisia_vape_commerce.Cash.Reconcile.{
  apply_verified_allocations, assert_independent_actor, collection_at, counted_collections,
}

-- ResolveCashDiscrepancyDto
pub record ResolveInput : Type 0 where
  pub resolution : DiscrepancyStatus
  pub final_verified : Option ℤ

abbrev pub find_discrepancy : ℕ → Desk → Option Discrepancy
find_discrepancy id s = find (λ d. d.id == id) s.discrepancies

abbrev pub has_amount : Option ℤ → ℤ → Bool
has_amount none v = false
has_amount (some a) v = eq_ℤ a v

-- The discrepancy is the one of the collection, and its amounts are the collection's.
abbrev pub fits_collection : Discrepancy → Collection → CashDelivery → ℤ → Bool
fits_collection d c delivery difference =
    not (is_some d.remittance_id)
    && same_id d.collection_id (some c.id)
    && same_id d.order_id (some c.order_id)
    && (delivery.order_id == c.order_id)
    && is_linked d c difference

-- The checks of resolveCollectionDiscrepancy.
unfoldable pub check_collection_case :
    ℕ
    → ResolveInput
    → Discrepancy
    → CollectionRows
    → CashDelivery
    → Desk
    → Result CashError (Unit {0})
check_collection_case actor input d rows delivery s = do
  let c = rows.collection
  difference ← checked (cash_difference c.expected_millimes c.collected_millimes)
  throw_if (not (fits_collection d c delivery difference)) linkage_invalid
  throw_if (not (can_transition_discrepancy d.status input.resolution)) resolution_not_allowed
  throw_if
      (not (is_remittable c.status)
        || not (same_payment rows.order.payment_status reconciliation_discrepancy))
      discrepancy_state_invalid
  throw_if
      (not (is_some c.collected_by)
        || (d.opened_by == actor)
        || same_id c.collected_by (some actor))
      separate_approver_required
  throw_if (any (λ (i : RemittanceItem). i.collection_id == c.id) s.items) already_allocated

-- What another collection of the order adds to its accountable cash; none where it is not accounted.
unfoldable pub projected : Desk → Collection → Result CashError (Option ℤ)
projected s c = do
  difference ← checked (cash_difference c.expected_millimes c.collected_millimes)
  ok (elim (discrepancy_of c.id s) [
    | none ↦
        if not (is_accounted c.status) || not (eq_ℤ difference (pos 0))
        then none
        else some c.collected_millimes
    | some d ↦
        if not (same_discrepancy d.status resolved)
          || not (is_linked d c difference)
          || not (is_accounted c.status)
        then none
        else some c.expected_millimes
  ])

abbrev pub add_amount : ℤ → Option ℤ → Option ℤ
add_amount a none = none
add_amount a (some b) = some (a +ℤ b)

-- The `every` over the order's collections, which stops at the first that is not accounted.
unfoldable pub project_all : ℕ → Desk → List Collection → Result CashError (Option ℤ)
unfolding projected
project_all id s [] = ok (some (pos 0))
project_all id s (c ∷ cs) =
    let this = if c.id == id then ok (some c.expected_millimes) else projected s c in
    let rest = project_all id s cs in
    this >>= λ first. elim first [
      | none ↦ ok none
      | some a ↦ rest >>= λ total. ok (add_amount a total)
    ]

-- Whether the order's cash is complete: `clearProjection`.
unfoldable pub clears_order : Collection → CashOrder → Desk → Result CashError Bool
unfolding project_all
clears_order c o s = do
  total ← project_all c.id s (counted_collections c.order_id s)
  ok (
      any (λ (q : Collection). q.id == c.id) (counted_collections c.order_id s)
      && has_amount total o.expected_cod)

abbrev pub settle_row : Collection → Collection
settle_row c = record c { status = collected }

abbrev pub collected_payment : CashOrder → PaymentStatus
collected_payment o =
    if is_pickup o.method then cash_collected_at_store else cash_collected_by_courier

unfoldable pub clear_order : CashOrder → CashDelivery → Desk → Result CashError Desk
unfolding update_payment
clear_order o d s = do
  throw_if (not (same_payment o.payment_status reconciliation_discrepancy)) version_conflict
  s' ← update_payment o (collected_payment o) s
  throw_if (not (count_by (cash_delivery_at d) s.deliveries == 1)) version_conflict
  ok (record s' { deliveries = update_many (cash_delivery_at d) (mark_cash true) s'.deliveries })

-- The branch of RESOLVED of a collection.
unfoldable pub settle_collection :
    ResolveInput → CollectionRows → CashDelivery → Desk → Result CashError Desk
unfolding clears_order clear_order
settle_collection input rows d s = do
  let c = rows.collection
  throw_if (not (has_amount input.final_verified c.expected_millimes)) final_amount_invalid
  clears ← clears_order c rows.order s
  throw_if (not (count_by (collection_at c) s.collections == 1)) version_conflict
  let s' : Desk = record s { collections = update_many (collection_at c) settle_row s.collections }
  s'' ← (if clears then clear_order rows.order d s' else ok s')
  ok (
      add_event none (some c.id) adjustment_recorded (c.expected_millimes -ℤ c.collected_millimes)
        s'')

-- `where: { id, status }`
abbrev pub discrepancy_at : Discrepancy → Discrepancy → Bool
discrepancy_at d r = (r.id == d.id) && same_discrepancy r.status d.status

abbrev pub close_row : ℕ → DiscrepancyStatus → Discrepancy → Discrepancy
close_row actor status d = record d { status = status; resolved_by = some actor }

-- The end of both: the discrepancy gets its final state.
unfoldable pub close_discrepancy :
    ℕ → ResolveInput → Discrepancy → Option ℕ → Option ℕ → Desk → Result CashError Desk
close_discrepancy actor input d remittance collection s = do
  throw_if (not (count_by (discrepancy_at d) s.discrepancies == 1)) resolution_not_allowed
  ok (
      add_event remittance collection discrepancy_resolved d.difference_millimes (record s {
        discrepancies =
            update_many (discrepancy_at d) (close_row actor input.resolution) s.discrepancies;
      }))

unfoldable pub resolve_collection_discrepancy :
    ℕ → ℕ → ℕ → ResolveInput → Desk → Result CashError Desk
unfolding lock_collection check_collection_case settle_collection close_discrepancy
resolve_collection_discrepancy actor collection_id id input s = do
  rows ← lock_collection collection_id s
  d ← or_throw (find_discrepancy id s) discrepancy_not_found
  delivery ← or_throw rows.delivery linkage_invalid
  check_collection_case actor input d rows delivery s
  throw_if (not (same_discrepancy input.resolution resolved) && is_some input.final_verified)
      final_amount_not_applicable
  s' ←
      (if same_discrepancy input.resolution resolved
        then settle_collection input rows delivery s
        else ok s)
  close_discrepancy actor input d none (some rows.collection.id) s'

-- The branch of RESOLVED of a remittance.
abbrev pub verify_row : ℕ → Remittance → Remittance
verify_row actor r = record r {
  status = verified;
  verified_millimes = some r.declared_millimes;
  difference_millimes = some (pos 0);
  verified_by = some actor;
}

unfoldable pub settle_remittance : ℕ → ResolveInput → Remittance → Desk → Result CashError Desk
unfolding apply_verified_allocations
settle_remittance actor input r s = do
  throw_if (not (has_amount input.final_verified r.declared_millimes)) final_amount_invalid
  s' ← apply_verified_allocations r.id s
  throw_if (not (count_by (remittance_at r.id discrepancy) s'.remittances == 1))
      resolution_not_allowed
  ok (record s' {
    remittances = update_many (remittance_at r.id discrepancy) (verify_row actor) s'.remittances;
  })

-- The checks of resolveRemittanceDiscrepancy.
unfoldable pub check_remittance_case :
    ℕ → ResolveInput → Discrepancy → Remittance → Result CashError (Unit {0})
check_remittance_case actor input d r = do
  throw_if (not (can_transition_discrepancy d.status input.resolution)) resolution_not_allowed
  throw_if (d.opened_by == actor) separate_approver_required
  throw_if (not (same_remittance r.status discrepancy)) discrepancy_state_invalid
  assert_independent_actor r.received_by actor

unfoldable pub resolve_remittance_discrepancy :
    ℕ → ℕ → ℕ → ResolveInput → Desk → Result CashError Desk
unfolding check_remittance_case settle_remittance close_discrepancy
resolve_remittance_discrepancy actor remittance_id id input s = do
  d ← or_throw (find_discrepancy id s) discrepancy_not_found
  throw_if
      (not (same_id d.remittance_id (some remittance_id))
        || is_some d.collection_id
        || is_some d.order_id)
      scope_invalid
  r ← or_throw (find_remittance remittance_id s) remittance_not_found
  check_remittance_case actor input d r
  throw_if (not (same_discrepancy input.resolution resolved) && is_some input.final_verified)
      final_amount_not_applicable
  s' ←
      (if same_discrepancy input.resolution resolved
        then settle_remittance actor input r s
        else ok s)
  close_discrepancy actor input d (some remittance_id) none s'

unfoldable pub route_discrepancy :
    ℕ → ℕ → ResolveInput → Option ℕ → Option ℕ → Option ℕ → Desk → Result CashError Desk
unfolding resolve_collection_discrepancy resolve_remittance_discrepancy
route_discrepancy actor id input (some c) (some o) none s =
    resolve_collection_discrepancy actor c id input s
route_discrepancy actor id input none none (some r) s =
    resolve_remittance_discrepancy actor r id input s
route_discrepancy actor id input _ _ _ s = err scope_invalid

-- resolveDiscrepancy, by the scope of the discrepancy
unfoldable pub resolve_discrepancy : ℕ → ℕ → ResolveInput → Desk → Result CashError Desk
unfolding route_discrepancy
resolve_discrepancy actor id input s = do
  d ← or_throw (find_discrepancy id s) discrepancy_not_found
  route_discrepancy actor id input d.collection_id d.order_id d.remittance_id s
