-- ===== src/Inventory/Adjustments.antt =====
-- `adjust` and `decideAdjustment` of admin-inventory.service.ts: a stock correction is requested by
-- one administrator and decided by another. The audit log rows that they write are left out.
use tunisia_vape_commerce.Prelude.{
  Bool, Option, Result, count_by, eq_ℤ, err, false, find, if◌then◌else◌, leb, ltb_ℤ, none, not, ok,
  or_throw, pos, some, throw_if, true, ℕ, ℤ, ◌&&◌, ◌+ℤ◌, ◌+◌, ◌==◌, ◌>>=◌, ◌>>◌, ◌||◌, ◌∷◌,
}
use tunisia_vape_commerce.Table.{commit, update_many}
use tunisia_vape_commerce.Inventory.{
  Adjusted, InventoryError, Operation, Reason, add_op, adjustment_approval_ttl_ms,
  adjustment_not_found, adjustment_stale, already_decided, approval_expired, assert_reason_allowed,
  calculate_adjustment, database_int_max, dual_control_required, invalid_resulting_stock,
  item_not_found, movement_type, rejection_reason_required, remove_op, reserved_quantity_conflict,
  version_conflict,
}
use tunisia_vape_commerce.Inventory.Store.{
  Adjustment, AdjustmentStatus, Item, Movement, Stock, applied, at_version, expired, find_item,
  pending_approval, rejected, reserved, set_on_hand,
}

-- ApplyInventoryAdjustmentDto, validated
pub record AdjustInput : Type 0 where
  pub operation : Operation
  pub quantity : Option ℤ
  pub target : Option ℤ
  pub reason : Reason
  pub has_note : Bool
  pub expected_version : ℕ

-- The row that `adjust` creates, under the identifier that the database gives it.
abbrev pub new_adjustment : ℕ → Item → Adjusted → AdjustInput → ℕ → ℕ → Adjustment
new_adjustment fresh item a input actor now = record {
  id = fresh;
  inventory_item_id = item.id;
  quantity_delta = a.quantity_delta;
  reason = input.reason;
  status = pending_approval;
  requested_by = actor;
  approved_by = none;
  expected_version = item.version;
  on_hand_before = item.on_hand;
  expires_at = some (now + adjustment_approval_ttl_ms);
  decided_at = none;
  was_applied = false;
}

-- The transaction of `adjust`: it proposes, and leaves stock alone.
unfoldable pub adjust :
    ℕ → ℕ → ℕ → AdjustInput → ℕ → Stock → Result InventoryError (Stock × Adjustment)
unfolding reserved
adjust now actor i input fresh s = do
  assert_reason_allowed input.operation input.reason input.has_note
  current ← or_throw (find_item i s) item_not_found
  throw_if (not (current.version == input.expected_version)) version_conflict
  a ← calculate_adjustment current.on_hand input.operation input.quantity input.target
  throw_if (ltb_ℤ a.on_hand_after (reserved now i s)) reserved_quantity_conflict
  let row = new_adjustment fresh current a input actor now
  ok (record s { adjustments = row ∷ s.adjustments }, row)

pub data Decision : Type 0 where
  approve reject : Decision

-- What a call of `decideAdjustment` answers, with the adjustment's final state.
pub data Decided : Type 0 where
  replayed decided : AdjustmentStatus → Decided
  expired_outcome stale_outcome : Decided

abbrev pub close_adjustment : AdjustmentStatus → ℕ → ℕ → Adjustment → Adjustment
close_adjustment status actor now r = record r {
  status = status;
  approved_by = some actor;
  decided_at = some now;
}

abbrev pub mark_applied : ℕ → ℕ → Adjustment → Adjustment
mark_applied actor now r = record r {
  status = applied;
  approved_by = some actor;
  decided_at = some now;
  was_applied = true;
}

-- `inventoryAdjustment.update({ where: { id }, data })`
abbrev pub update_adjustment : ℕ → (Adjustment → Adjustment) → Stock → Stock
update_adjustment id change s = record s {
  adjustments = update_many (λ r. r.id == id) change s.adjustments;
}

-- `pending.expiresAt && pending.expiresAt <= now`
abbrev pub is_past : Option ℕ → ℕ → Bool
is_past none now = false
is_past (some t) now = leb t now

abbrev pub delta_operation : ℤ → Operation
delta_operation d = if ltb_ℤ (pos 0) d then add_op else remove_op

-- The approval of a pending adjustment that is neither expired nor stale.
unfoldable pub apply_adjustment :
    ℕ → ℕ → Adjustment → Item → Stock → Result InventoryError (Stock × Decided)
unfolding reserved
apply_adjustment now actor pending current s = do
  let after = current.on_hand +ℤ pending.quantity_delta
  throw_if (ltb_ℤ after (pos 0) || ltb_ℤ (pos database_int_max) after) invalid_resulting_stock
  throw_if (ltb_ℤ after (reserved now current.id s)) reserved_quantity_conflict
  let fits = at_version current.id pending.expected_version
  throw_if (not (count_by fits s.items == 1)) version_conflict
  let moved : Movement = record {
    inventory_item_id = current.id;
    type = movement_type (delta_operation pending.quantity_delta) pending.reason;
    quantity_delta = pending.quantity_delta;
    on_hand_after = after;
    reference_id = pending.id;
  }
  let s' : Stock = record s {
    items = update_many fits (set_on_hand after) s.items;
    movements = moved ∷ s.movements;
  }
  ok (update_adjustment pending.id (mark_applied actor now) s', decided applied)

-- The bucket is no longer the one that the request was made for.
abbrev pub is_stale : Item → Adjustment → Bool
is_stale current pending =
    not (current.version == pending.expected_version)
    || not (eq_ℤ current.on_hand pending.on_hand_before)

unfoldable pub approve_adjustment :
    ℕ → ℕ → Adjustment → Stock → Result InventoryError (Stock × Decided)
unfolding apply_adjustment
approve_adjustment now actor pending s = do
  current ← or_throw (find_item pending.inventory_item_id s) item_not_found
  if is_stale current pending
      then ok (update_adjustment pending.id (close_adjustment rejected actor now) s, stale_outcome)
      else apply_adjustment now actor pending current s

-- A pending adjustment, by expiry and decision.
unfoldable pub decide_pending :
    ℕ → ℕ → Decision → Adjustment → Stock → Result InventoryError (Stock × Decided)
unfolding approve_adjustment
decide_pending now actor decision pending s =
    if is_past pending.expires_at now
    then ok (update_adjustment pending.id (close_adjustment expired actor now) s, expired_outcome)
    else elim decision [
      | reject ↦
          ok
            (update_adjustment pending.id (close_adjustment rejected actor now) s, decided rejected)
      | approve ↦ approve_adjustment now actor pending s
    ]

-- The states that end the call before anything is written, then a pending adjustment.
unfoldable pub dispatch_decision :
    AdjustmentStatus
    → ℕ
    → ℕ
    → Decision
    → Adjustment
    → Stock
    → Result InventoryError (Stock × Decided)
unfolding decide_pending
dispatch_decision applied now actor approve pending s = ok (s, replayed applied)
dispatch_decision rejected now actor reject pending s = ok (s, replayed rejected)
dispatch_decision pending_approval now actor decision pending s =
    decide_pending now actor decision pending s
dispatch_decision _ now actor decision pending s = err already_decided

unfoldable pub decide_transaction :
    ℕ → ℕ → ℕ → Decision → Stock → Result InventoryError (Stock × Decided)
unfolding dispatch_decision
decide_transaction now actor id decision s = do
  pending ← or_throw (find (λ r. r.id == id) s.adjustments) adjustment_not_found
  throw_if (pending.requested_by == actor) dual_control_required
  dispatch_decision pending.status now actor decision pending s

abbrev pub is_reject : Decision → Bool
is_reject reject = true
is_reject approve = false

-- After the commit an expired or a stale request is reported as an error.
abbrev pub report : Stock × Result InventoryError Decided → Stock × Result InventoryError Decided
report (s, ok expired_outcome) = (s, err approval_expired)
report (s, ok stale_outcome) = (s, err adjustment_stale)
report (s, r) = (s, r)

-- `has_reason` says that the reason, trimmed, is not empty.
unfoldable pub decide_adjustment :
    ℕ → ℕ → ℕ → Decision → Bool → Stock → Stock × Result InventoryError Decided
unfolding decide_transaction
decide_adjustment now actor id decision has_reason s =
    if is_reject decision && not has_reason
    then (s, err rejection_reason_required)
    else report (commit s (decide_transaction now actor id decision s))
