-- ===== src/Inventory/Soundness.antt =====
-- Deciding an adjustment keeps the stock tables sound.
use mathlib.Core.Path.{subst}
use tunisia_vape_commerce.Prelude.{
  Bool, Bool-cases, Option-cases, Result, Result-cases, arith, err, find, inl, inr, not, ok, refl,
  some, sym, ℕ, ℤ, ◌&&◌, ◌+ℤ◌, ◌==◌, ◌≡◌, ◌≤ℤ◌,
}
use tunisia_vape_commerce.Table.{commit}
use tunisia_vape_commerce.Inventory.{InventoryError, movement_type}
use tunisia_vape_commerce.Inventory.Calculations.{IsStock}
use tunisia_vape_commerce.Inventory.Store.{
  Adjustment, AdjustmentStatus, Item, Movement, Stock, applied, expired, find_item,
  pending_approval, rejected, reserved,
}
use tunisia_vape_commerce.Inventory.Ledger.{IsSound, move_stock, move_stock-IsSound}
use tunisia_vape_commerce.Inventory.Adjustments.{
  Decided, Decision, apply_adjustment, approve, approve_adjustment, close_adjustment,
  decide_adjustment, decide_pending, decide_transaction, decided, delta_operation,
  dispatch_decision, expired_outcome, is_past, is_reject, is_stale, mark_applied, reject, replayed,
  report, stale_outcome, update_adjustment,
}
use tunisia_vape_commerce.Table.Keys.{find_row-key}

-- The movement that an approval writes.
abbrev applied_movement : Adjustment → Item → Movement
applied_movement pending current = record {
  inventory_item_id = current.id;
  type = movement_type (delta_operation pending.quantity_delta) pending.reason;
  quantity_delta = pending.quantity_delta;
  on_hand_after = current.on_hand +ℤ pending.quantity_delta;
  reference_id = pending.id;
}

apply_adjustment_ok :
    (now actor : ℕ) (pending : Adjustment) (current : Item) (s s' : Stock) (d : Decided)
    → apply_adjustment now actor pending current s ≡ ok (s', d)
    → IsStock (current.on_hand +ℤ pending.quantity_delta)
      × (reserved now current.id s ≤ℤ current.on_hand +ℤ pending.quantity_delta)
      × (s'
          ≡ update_adjustment pending.id (mark_applied actor now) (
              move_stock current pending.expected_version
                (current.on_hand +ℤ pending.quantity_delta)
                (applied_movement pending current)
                s))
unfolding apply_adjustment
apply_adjustment_ok now actor pending current s s' d h = ground (arith, h)

-- The soundness of the stock tables is not a matter of the adjustments.
keep-IsSound :
    (now id : ℕ) (change : Adjustment → Adjustment) (s : Stock)
    → IsSound now s
    → IsSound now (update_adjustment id change s)
keep-IsSound now id change s h = record {
  keyed = h.keyed;
  covered = h.covered;
  balanced = h.balanced;
}

apply_adjustment-IsSound :
    (now actor : ℕ) (pending : Adjustment) (current : Item) (s s' : Stock) (d : Decided)
    → IsSound now s
    → find_item current.id s ≡ some current
    → current.version ≡ pending.expected_version
    → apply_adjustment now actor pending current s ≡ ok (s', d)
    → IsSound now s'
apply_adjustment-IsSound now actor pending current s s' d sound found same h =
    let (in_range, covers, e) = apply_adjustment_ok now actor pending current s s' d h in
    let after : ℤ = current.on_hand +ℤ pending.quantity_delta in
    subst (IsSound now) (sym e) (
      keep-IsSound now pending.id (mark_applied actor now)
        (move_stock current pending.expected_version after (applied_movement pending current) s)
        (move_stock-IsSound now current pending.expected_version after
          (applied_movement pending current) s sound found same refl refl in_range covers))

-- What a transaction leaves is sound, if it commits.
abbrev Keeps : ℕ → Result InventoryError (Stock × Decided) → Type 0
Keeps now (ok (s', d)) = IsSound now s'
Keeps now (err e) = Unit

apply_adjustment-Keeps :
    (now actor : ℕ) (pending : Adjustment) (current : Item) (s : Stock)
    → IsSound now s
    → find_item current.id s ≡ some current
    → current.version ≡ pending.expected_version
    → Keeps now (apply_adjustment now actor pending current s)
apply_adjustment-Keeps now actor pending current s sound found same =
    elim (Result-cases (apply_adjustment now actor pending current s)) [
      | inl ((s', d), e) ↦
          rw e (apply_adjustment-IsSound now actor pending current s s' d sound found same e)
      | inr (x, e) ↦ rw e tt
    ]

approve_adjustment-Keeps :
    (now actor : ℕ) (pending : Adjustment) (s : Stock)
    → IsSound now s
    → Keeps now (approve_adjustment now actor pending s)
unfolding approve_adjustment
approve_adjustment-Keeps now actor pending s sound =
    elim (Option-cases (find_item pending.inventory_item_id s)) [
      | inl e ↦ rw e tt
      | inr (cur, e) ↦ elim (Bool-cases (is_stale cur pending)) [
        | inl stale ↦
            rw (e, stale)
              (keep-IsSound now pending.id (close_adjustment rejected actor now) s sound)
        | inr fresh ↦
            rw (e, fresh)
              (apply_adjustment-Keeps now actor pending cur s sound
                (subst (λ i. find_item i s ≡ some cur)
                  (sym (find_row-key (λ (r : Item). r.id) pending.inventory_item_id s.items e)) e)
                (ground (arith, fresh)))
      ]
    ]

decide_pending-Keeps :
    (now actor : ℕ) (decision : Decision) (pending : Adjustment) (s : Stock)
    → IsSound now s
    → Keeps now (decide_pending now actor decision pending s)
unfolding decide_pending
decide_pending-Keeps now actor approve pending s sound =
    elim (Bool-cases (is_past pending.expires_at now)) [
      | inl e ↦ rw e (keep-IsSound now pending.id (close_adjustment expired actor now) s sound)
      | inr e ↦ rw e (approve_adjustment-Keeps now actor pending s sound)
    ]
decide_pending-Keeps now actor reject pending s sound =
    elim (Bool-cases (is_past pending.expires_at now)) [
      | inl e ↦ rw e (keep-IsSound now pending.id (close_adjustment expired actor now) s sound)
      | inr e ↦ rw e (keep-IsSound now pending.id (close_adjustment rejected actor now) s sound)
    ]

dispatch_decision-Keeps :
    (status : AdjustmentStatus) (now actor : ℕ) (decision : Decision) (pending : Adjustment)
    (s : Stock)
    → IsSound now s
    → Keeps now (dispatch_decision status now actor decision pending s)
unfolding dispatch_decision
dispatch_decision-Keeps pending_approval now actor d pending s h =
    decide_pending-Keeps now actor d pending s h
dispatch_decision-Keeps applied now actor approve pending s h = h
dispatch_decision-Keeps applied now actor reject pending s h = tt
dispatch_decision-Keeps rejected now actor approve pending s h = tt
dispatch_decision-Keeps rejected now actor reject pending s h = h
dispatch_decision-Keeps expired now actor d pending s h = tt

decide_transaction-Keeps :
    (now actor id : ℕ) (decision : Decision) (s : Stock)
    → IsSound now s
    → Keeps now (decide_transaction now actor id decision s)
unfolding decide_transaction
decide_transaction-Keeps now actor id decision s h =
    elim (Option-cases (find (λ r. r.id == id) s.adjustments)) [
      | inl e ↦ rw e tt
      | inr (p, e) ↦ elim (Bool-cases (p.requested_by == actor)) [
        | inl own ↦ rw (e, own) tt
        | inr others ↦ rw (e, others) (dispatch_decision-Keeps p.status now actor decision p s h)
      ]
    ]

report_state :
    (s : Stock) (r : Result InventoryError (Stock × Decided)) (now : ℕ)
    → IsSound now s
    → Keeps now r
    → IsSound now (report (commit s r)).0
report_state s (err e) now h k = h
report_state s (ok (s', replayed x)) now h k = k
report_state s (ok (s', decided x)) now h k = k
report_state s (ok (s', expired_outcome)) now h k = k
report_state s (ok (s', stale_outcome)) now h k = k

-- Whatever a call of `decideAdjustment` answers, it leaves every bucket between zero and the
-- column's maximum, at or above what is reserved of it, and equal to the sum of its movements, if
-- they were so before.
pub decide_adjustment-IsSound :
    (now actor id : ℕ) (decision : Decision) (has_reason : Bool) (s : Stock)
    → IsSound now s
    → IsSound now (decide_adjustment now actor id decision has_reason s).0
unfolding decide_adjustment
decide_adjustment-IsSound now actor id decision has_reason s h =
    elim (Bool-cases (is_reject decision && not has_reason)) [
      | inl e ↦ rw e h
      | inr e ↦ rw e (
          report_state s (decide_transaction now actor id decision s) now h
            (decide_transaction-Keeps now actor id decision s h))
    ]
