-- ===== src/Examples/Stocks.antt =====
-- Two buckets, and an adjustment that is requested and decided.
use tunisia_vape_commerce.Prelude.{
  [], arith, false, find, negsuc, none, ok, pos, refl, some, true, ◌+ℤ◌, ◌+◌, ◌-ℤ◌, ◌==◌, ◌∷◌, ◌≡◌,
  ◌≢◌, ◌≤ℤ◌, ◌⊎◌,
}
use tunisia_vape_commerce.Inventory.{
  Adjusted, adjust_by, adjustment_approval_ttl_ms, assert_reason_allowed, calculate_adjustment,
  calculate_transfer, damage, damage_movement, movement_type, receipt_movement, remove_op,
}
use tunisia_vape_commerce.Inventory.Store.{
  Adjustment, Item, Movement, Reservation, Stock, active, applied, pending_approval, reserved,
  reserved_in,
}
use tunisia_vape_commerce.Inventory.Ledger.{IsSound}
use tunisia_vape_commerce.Inventory.Adjustments.{
  AdjustInput, adjust, apply_adjustment, approve, approve_adjustment, decide_adjustment,
  decide_pending, decide_transaction, decided, dispatch_decision, is_past,
}
use tunisia_vape_commerce.Inventory.Control.{
  adjust_proposes, decide_pending_moves, decide_transaction_dual,
}
use tunisia_vape_commerce.Inventory.Soundness.{decide_adjustment-IsSound}

transfer_runs : calculate_transfer (pos 10) (pos 2) (pos 5) (pos 3) ≡ ok (pos 7, pos 8)
unfolding calculate_transfer ◌-ℤ◌ ◌+ℤ◌
transfer_runs = refl

abbrev removed : Adjusted
removed = record { quantity_delta = negsuc 2; on_hand_after = pos 7 }

removal_runs : calculate_adjustment (pos 10) remove_op (some (pos 3)) none ≡ ok removed
unfolding calculate_adjustment adjust_by ◌+ℤ◌
removal_runs = refl

abbrev pub bucket : Item
bucket = record {
  id = 1;
  variant_id = 1;
  location_id = 1;
  batch_id = none;
  lot_key = 0;
  on_hand = pos 10;
  version = 4;
}

abbrev pub receipt : Movement
receipt = record {
  inventory_item_id = 1;
  type = receipt_movement;
  quantity_delta = pos 10;
  on_hand_after = pos 10;
  reference_id = 0;
}

abbrev pub held : Reservation
held = record {
  id = 1;
  inventory_item_id = 1;
  order_id = 1;
  order_item_id = 1;
  quantity = pos 2;
  state = active;
  expires_at = 9000;
}

-- The request, by administrator 5, to write off three damaged pieces.
abbrev request : Adjustment
request = record {
  id = 1;
  inventory_item_id = 1;
  quantity_delta = negsuc 2;
  reason = damage;
  status = pending_approval;
  requested_by = 5;
  approved_by = none;
  expected_version = 4;
  on_hand_before = pos 10;
  expires_at = some 86401000;
  decided_at = none;
  was_applied = false;
}

abbrev pub stock_before : Stock
stock_before = record {
  items = bucket ∷ [];
  reservations = held ∷ [];
  movements = receipt ∷ [];
  adjustments = [];
  active_locations = 1 ∷ [];
}

abbrev stock_requested : Stock
stock_requested = record stock_before { adjustments = request ∷ [] }

abbrev write_off : AdjustInput
write_off = record {
  operation = remove_op;
  quantity = some (pos 3);
  target = none;
  reason = damage;
  has_note = false;
  expected_version = 4;
}

request_runs : adjust 1000 5 1 write_off 1 stock_before ≡ ok (stock_requested, request)
unfolding adjust assert_reason_allowed calculate_adjustment adjust_by reserved reserved_in ◌+ℤ◌
request_runs = refl

adjust_proposes_example :
    (stock_requested ≡ record stock_before { adjustments = request ∷ [] })
    × (request.status ≡ pending_approval)
    × (request.requested_by ≡ 5)
    × (request.expires_at ≡ some (1000 + adjustment_approval_ttl_ms))
    × (reserved 1000 1 stock_before ≤ℤ request.on_hand_before +ℤ request.quantity_delta)
adjust_proposes_example =
    adjust_proposes 1000 5 1 write_off 1 stock_before stock_requested request request_runs

-- The stock after administrator 6 approves.
abbrev stock_decided : Stock
stock_decided = record {
  items = record bucket { on_hand = pos 7; version = 5 } ∷ [];
  reservations = held ∷ [];
  movements =
      record {
        inventory_item_id = 1;
        type = damage_movement;
        quantity_delta = negsuc 2;
        on_hand_after = pos 7;
        reference_id = 1;
      }
      ∷ receipt
      ∷ [];
  adjustments =
      record request {
        status = applied;
        approved_by = some 6;
        decided_at = some 2000;
        was_applied = true;
      }
      ∷ [];
  active_locations = 1 ∷ [];
}

decision_runs :
    decide_transaction 2000 6 1 approve stock_requested ≡ ok (stock_decided, decided applied)
unfolding decide_transaction dispatch_decision decide_pending approve_adjustment apply_adjustment
    movement_type reserved reserved_in ◌+ℤ◌
decision_runs = refl

decide_transaction_dual_example :
    (p : Adjustment) × (find (λ q. q.id == 1) stock_requested.adjustments ≡ some p)
    × (p.requested_by ≢ 6)
decide_transaction_dual_example =
    decide_transaction_dual 2000 6 1 approve stock_requested (stock_decided, decided applied)
      decision_runs

dispatch_runs :
    dispatch_decision pending_approval 2000 6 approve request stock_requested
    ≡ ok (stock_decided, decided applied)
unfolding dispatch_decision decide_pending approve_adjustment apply_adjustment movement_type
    reserved reserved_in ◌+ℤ◌
dispatch_runs = refl

decide_pending_moves_example :
    ((pending_approval ≡ pending_approval)
      × (approve ≡ approve)
      × (is_past (some 86401000) 2000 ≡ false)
      × (decided applied ≡ decided applied))
    ⊎ ((stock_decided.items ≡ stock_requested.items)
        × (stock_decided.movements ≡ stock_requested.movements))
decide_pending_moves_example =
    decide_pending_moves pending_approval 2000 6 approve request stock_requested stock_decided
      (decided applied) dispatch_runs

requested-IsSound : IsSound 2000 stock_requested
unfolding reserved_in ◌+ℤ◌
requested-IsSound = record { keyed = (tt, tt); covered = ground arith; balanced = (refl, tt) }

decide_adjustment-IsSound_example :
    IsSound 2000 (decide_adjustment 2000 6 1 approve false stock_requested).0
decide_adjustment-IsSound_example =
    decide_adjustment-IsSound 2000 6 1 approve false stock_requested requested-IsSound
