-- ===== src/Cash/Remit.antt =====
-- `createRemittance` and `submitRemittance`: what a courier hands over is allocated to the collections
-- that it comes from.
use tunisia_vape_commerce.Prelude.{
  Bool, List, Result, [], any, count_by, eq_ℤ, filter, if◌then◌else◌, includes, is_some, leb_ℤ,
  length, ltb_ℤ, map, none, not, ok, or_throw, pos, same_id, some, throw_if, ℕ, ℤ, ◌&&◌, ◌++◌, ◌+ℤ◌,
  ◌==◌, ◌>>=◌, ◌>>◌, ◌||◌, ◌∷◌,
}
use tunisia_vape_commerce.Table.{update_many}
use tunisia_vape_commerce.Orders.Reservations.{distinct}
use tunisia_vape_commerce.CashStatus.{
  RemittanceStatus, can_transition_remittance, draft, same_remittance, submitted,
}
use tunisia_vape_commerce.CashMath.{sum_millimes}
use tunisia_vape_commerce.Cash.{
  CashError, Desk, Remittance, RemittanceItem, accountable, add_event, allocation_invalid, checked,
  collection_not_found, collection_not_remittable, courier_unavailable, discrepancy_of,
  duplicate_allocation, find_collection, find_remittance, is_remittable, over_allocated,
  remittance_conflict, remittance_not_found, remittance_submitted, submission_not_allowed,
  total_invalid, total_mismatch,
}

pub record Allocated : Type 0 where
  pub collection_id : ℕ
  pub amount : ℤ

-- CreateCashRemittanceDto
pub record RemittanceInput : Type 0 where
  pub number : ℕ
  pub from_courier : ℕ
  pub declared : ℤ
  pub allocations : List Allocated

abbrev pub amounts : List RemittanceItem → List ℤ
amounts items = map (λ (i : RemittanceItem). i.amount_millimes) items

-- What is allocated to a collection by some rows.
unfoldable pub allocated_to : ℕ → List RemittanceItem → ℤ
allocated_to id [] = pos 0
allocated_to id (i ∷ items) =
    let rest = allocated_to id items in
    if i.collection_id == id then i.amount_millimes +ℤ rest else rest

-- The checks before the transaction.
unfoldable pub check_input : RemittanceInput → Result CashError (Unit {0})
check_input input = do
  let ids = map (λ (a : Allocated). a.collection_id) input.allocations
  throw_if (not (length (distinct ids) == length ids)) duplicate_allocation
  throw_if (any (λ (a : Allocated). leb_ℤ a.amount (pos 0)) input.allocations) allocation_invalid
  total ← checked (sum_millimes (map (λ (a : Allocated). a.amount) input.allocations))
  throw_if (not (eq_ℤ total input.declared)) total_mismatch

-- The body of the loop over the collections.
unfoldable pub check_allocation : ℕ → Desk → Allocated → Result CashError (Unit {0})
unfolding accountable allocated_to
check_allocation from_courier s a = do
  c ← or_throw (find_collection a.collection_id s) collection_not_found
  limit ← accountable (discrepancy_of c.id s) c
  throw_if (not (same_id c.courier_id (some from_courier)) || not (is_remittable c.status))
      collection_not_remittable
  throw_if (ltb_ℤ limit (allocated_to c.id s.items +ℤ a.amount)) over_allocated

unfoldable pub check_allocations : ℕ → List Allocated → Desk → Result CashError (Unit {0})
unfolding check_allocation
check_allocations from_courier [] s = ok tt
check_allocations from_courier (a ∷ allocations) s =
    check_allocation from_courier s a >> check_allocations from_courier allocations s

abbrev pub item_of : ℕ → Allocated → RemittanceItem
item_of remittance a = record {
  remittance_id = remittance;
  collection_id = a.collection_id;
  amount_millimes = a.amount;
}

abbrev pub new_remittance : ℕ → RemittanceInput → Remittance
new_remittance fresh input = record {
  id = fresh;
  remittance_number = input.number;
  courier_id = input.from_courier;
  status = draft;
  declared_millimes = input.declared;
  verified_millimes = none;
  difference_millimes = none;
  received_by = none;
  verified_by = none;
}

-- createRemittance; the number of a remittance is unique, which the database checks.
unfoldable pub create_remittance : ℕ → RemittanceInput → Desk → Result CashError Desk
unfolding check_input check_allocations
create_remittance fresh input s = do
  check_input input
  throw_if
      (any (λ (a : Allocated). not (is_some (find_collection a.collection_id s))) input.allocations)
      collection_not_found
  throw_if (not (includes input.from_courier s.active_couriers)) courier_unavailable
  check_allocations input.from_courier input.allocations s
  throw_if (any (λ (r : Remittance). r.remittance_number == input.number) s.remittances)
      remittance_conflict
  ok (record s {
    remittances = new_remittance fresh input ∷ s.remittances;
    items = map (item_of fresh) input.allocations ++ s.items;
  })

-- `remittance.items`
abbrev pub items_of : ℕ → Desk → List RemittanceItem
items_of remittance s = filter (λ i. i.remittance_id == remittance) s.items

-- `where: { id, status }`
abbrev pub remittance_at : ℕ → RemittanceStatus → Remittance → Bool
remittance_at id status r = (r.id == id) && same_remittance r.status status

abbrev pub submit_row : ℕ → Remittance → Remittance
submit_row actor r = record r { status = submitted; received_by = some actor }

unfoldable pub submit_remittance : ℕ → ℕ → Desk → Result CashError Desk
submit_remittance actor id s = do
  r ← or_throw (find_remittance id s) remittance_not_found
  throw_if (not (can_transition_remittance r.status submitted)) submission_not_allowed
  total ← checked (sum_millimes (amounts (items_of id s)))
  throw_if (not (eq_ℤ total r.declared_millimes)) total_invalid
  throw_if (not (count_by (remittance_at id draft) s.remittances == 1)) submission_not_allowed
  ok (
      add_event (some id) none remittance_submitted r.declared_millimes (record s {
        remittances = update_many (remittance_at id draft) (submit_row actor) s.remittances;
      }))
