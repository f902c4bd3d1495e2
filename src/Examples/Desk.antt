-- ===== src/Examples/Desk.antt =====
-- The cash of one order: recorded, handed over, counted, and a difference resolved.
use tunisia_vape_commerce.Prelude.{
  All, List, [], err, false, none, ok, pos, pos_part, refl, some, true, ◌*◌, ◌+ℤ◌, ◌+◌, ◌-ℤ◌, ◌∷◌,
  ◌≡◌,
}
use tunisia_vape_commerce.OrderStatus.{out_for_delivery}
use tunisia_vape_commerce.Orders.{cash_expected}
use tunisia_vape_commerce.CashStatus.{
  can_transition_collection, can_transition_discrepancy, can_transition_remittance, collected,
  collection_transitions, discrepancy_transitions, expected, remittance_transitions, resolved,
  submitted,
}
use tunisia_vape_commerce.CashMath.{assert_cash, cash_difference, sum_cash_from, sum_millimes}
use tunisia_vape_commerce.Cash.{
  CashDelivery, CashOrder, Collection, Desk, Discrepancy, Remittance, accountable, courier,
  find_remittance, idempotency_key_reused, update_payment,
}
use tunisia_vape_commerce.Cash.Collect.{
  Hashes, RecordInput, apply_record, check_record, lock_collection, open_collection_discrepancy,
  record_collection, record_locked, record_new, replayed_record,
}
use tunisia_vape_commerce.Cash.Remit.{
  RemittanceInput, allocated_to, check_allocation, check_allocations, check_input,
  create_remittance,
}
use tunisia_vape_commerce.Cash.Reconcile.{
  ReconcileInput, accountable_all, apply_verified_allocations, check_reconcile, dispute_orders,
  open_remittance_discrepancy, reconcile_remittance, settle_item, settle_items, settle_order,
  settle_orders, verify_remittance,
}
use tunisia_vape_commerce.Cash.Resolve.{
  ResolveInput, check_collection_case, clear_order, clears_order, close_discrepancy,
  find_discrepancy, project_all, projected, resolve_collection_discrepancy, resolve_discrepancy,
  route_discrepancy, settle_collection,
}
use tunisia_vape_commerce.Cash.Approvals.{
  IsChecked, IsOpenFor, reconcile_remittance-IsChecked, resolve_discrepancy-IsOpenFor,
}
use tunisia_vape_commerce.Cash.Accounts.{AllAccount}
use tunisia_vape_commerce.Cash.Allocations.{IsCovered, create_remittance-IsCovered}
use tunisia_vape_commerce.Cash.Replays.{record_collection_replays}
use tunisia_vape_commerce.Cash.Days.{
  Call, collect, create, reconcile, resolve, serve, serve_all, serve_all-AllAccount, submit,
}

abbrev cod_order : CashOrder
cod_order = record {
  id = 1;
  version = 4;
  status = out_for_delivery;
  payment_status = cash_expected;
  expected_cod = pos 50000;
  method = courier;
}

abbrev cod_delivery : CashDelivery
cod_delivery = record {
  id = 20;
  order_id = 1;
  version = 2;
  status = out_for_delivery;
  courier_id = some 7;
  cash_collected_result = none;
}

abbrev cod_collection : Collection
cod_collection = record {
  id = 30;
  order_id = 1;
  delivery_id = some 20;
  courier_id = none;
  status = expected;
  expected_millimes = pos 50000;
  collected_millimes = pos 0;
  collected_by = none;
  key_hash = none;
  request_hash = none;
}

abbrev cash_desk : Desk
cash_desk = record {
  orders = cod_order ∷ [];
  deliveries = cod_delivery ∷ [];
  collections = cod_collection ∷ [];
  remittances = [];
  items = [];
  discrepancies = [];
  events = [];
  active_couriers = 7 ∷ [];
  partial_enabled = true;
}

abbrev full_amount : RecordInput
full_amount = record {
  amount = pos 50000;
  expected_order_version = 4;
  expected_delivery_version = 2;
  reason_code = none;
  reason_detail = none;
}

abbrev short_amount : RecordInput
short_amount = record {
  amount = pos 48000;
  expected_order_version = 4;
  expected_delivery_version = 2;
  reason_code = some (83 ∷ []);
  reason_detail = some (108 ∷ 101 ∷ 115 ∷ 115 ∷ []);
}

-- Stand-ins for the digests.
abbrev digests : Hashes
digests = record {
  of_key = λ actor id key. actor * 1000000 + id * 1000 + key;
  of_request = λ input. pos_part input.amount;
}

abbrev after_recording : Desk
after_recording = serve digests (collect 100 500 900 30 full_amount) cash_desk

abbrev short_desk : Desk
short_desk = serve digests (collect 100 500 900 30 short_amount) cash_desk

record_collection_replays_example :
    (record_collection digests 100 501 900 30 full_amount after_recording
      ≡ ok (after_recording, replayed_record))
    × (record_collection digests 100 501 900 30 short_amount after_recording
        ≡ err idempotency_key_reused)
unfolding serve record_collection lock_collection record_locked record_new check_record apply_record
    open_collection_discrepancy cash_difference assert_cash can_transition_collection
    collection_transitions ◌-ℤ◌
record_collection_replays_example =
    record_collection_replays digests 100 500 501 900 30 full_amount short_amount cash_desk
      after_recording (tt, tt) refl

abbrev handed_over : RemittanceInput
handed_over = record {
  number = 12;
  from_courier = 7;
  declared = pos 50000;
  allocations = record { collection_id = 30; amount = pos 50000 } ∷ [];
}

abbrev after_handing : Desk
after_handing = serve digests (create 40 handed_over) after_recording

create_remittance-IsCovered_example :
    All (IsCovered after_recording after_handing) handed_over.allocations
unfolding serve record_collection lock_collection record_locked record_new check_record apply_record
    open_collection_discrepancy cash_difference assert_cash can_transition_collection
    collection_transitions ◌-ℤ◌ create_remittance check_input sum_millimes sum_cash_from
    check_allocations check_allocation accountable allocated_to ◌+ℤ◌
create_remittance-IsCovered_example =
    create_remittance-IsCovered 40 handed_over after_recording after_handing refl

abbrev submitted_row : Remittance
submitted_row = record {
  id = 40;
  remittance_number = 12;
  courier_id = 7;
  status = submitted;
  declared_millimes = pos 50000;
  verified_millimes = none;
  difference_millimes = none;
  received_by = some 100;
  verified_by = none;
}

abbrev paid_collection : Collection
paid_collection = record cod_collection {
  status = collected;
  collected_millimes = pos 50000;
  courier_id = some 7;
}

abbrev submitted_desk : Desk
submitted_desk = record cash_desk {
  collections = paid_collection ∷ [];
  remittances = submitted_row ∷ [];
  items = record { remittance_id = 40; collection_id = 30; amount_millimes = pos 50000 } ∷ [];
}

abbrev count_in_full : ReconcileInput
count_in_full = record { counted = pos 50000; has_reason = false }

abbrev after_counting : Desk
after_counting = serve digests (reconcile 101 600 40 count_in_full) submitted_desk

reconcile_remittance-IsChecked_example :
    (r : Remittance) × (find_remittance 40 submitted_desk ≡ some r) × IsChecked 101 submitted_desk r
unfolding serve reconcile_remittance check_reconcile verify_remittance open_remittance_discrepancy
    apply_verified_allocations settle_items settle_item settle_orders settle_order accountable_all
    accountable allocated_to sum_millimes sum_cash_from assert_cash cash_difference
    can_transition_remittance remittance_transitions can_transition_collection
    collection_transitions update_payment dispute_orders ◌-ℤ◌ ◌+ℤ◌
reconcile_remittance-IsChecked_example =
    reconcile_remittance-IsChecked 101 600 40 count_in_full submitted_desk after_counting refl

abbrev recount : ResolveInput
recount = record { resolution = resolved; final_verified = some (pos 50000) }

abbrev after_recount : Desk
after_recount = serve digests (resolve 101 500 recount) short_desk

resolve_discrepancy-IsOpenFor_example :
    (d : Discrepancy) × (find_discrepancy 500 short_desk ≡ some d) × IsOpenFor 101 resolved d
unfolding serve record_collection lock_collection record_locked record_new check_record apply_record
    open_collection_discrepancy cash_difference assert_cash can_transition_collection
    collection_transitions ◌-ℤ◌ resolve_discrepancy route_discrepancy resolve_collection_discrepancy
    check_collection_case settle_collection clears_order project_all projected clear_order
    update_payment close_discrepancy can_transition_discrepancy discrepancy_transitions ◌+ℤ◌
resolve_discrepancy-IsOpenFor_example =
    resolve_discrepancy-IsOpenFor 101 500 recount short_desk after_recount refl

abbrev whole_day : List Call
whole_day =
    collect 100 500 900 30 full_amount
    ∷ create 40 handed_over
    ∷ submit 100 40
    ∷ reconcile 101 600 40 count_in_full
    ∷ []

serve_all-AllAccount_example : AllAccount cash_desk (serve_all digests whole_day cash_desk)
serve_all-AllAccount_example = serve_all-AllAccount digests whole_day cash_desk
