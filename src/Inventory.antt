-- ===== src/Inventory.antt =====
-- apps/api/src/inventory/admin-inventory.service.ts, the calculations that its operations share.
-- The operations themselves are in the child modules.
pub mod Calculations
pub mod Store
pub mod Ledger
pub mod Quantities
pub mod Adjustments
pub mod Control
pub mod Soundness
pub mod Transfers
pub mod Transferred
pub mod Relocation
pub mod Relocated
use tunisia_vape_commerce.Prelude.{
  Bool, Option, Result, eq_ℤ, err, false, if◌then◌else◌, ltb_ℤ, neg, none, not, ok, pos, some,
  throw_if, true, ℕ, ℤ, ◌&&◌, ◌+ℤ◌, ◌-ℤ◌, ◌>>◌, ◌||◌,
}

-- DATABASE_INT_MAX
abbrev pub database_int_max : ℕ
database_int_max = 2147483647

-- ADJUSTMENT_APPROVAL_TTL_MS
abbrev pub adjustment_approval_ttl_ms : ℕ
adjustment_approval_ttl_ms = 86400000

-- The codes of the exceptions that these operations throw.
pub data InventoryError : Type 0 where
  transfer_available_quantity_conflict invalid_resulting_stock : InventoryError
  invalid_adjustment_input zero_adjustment batch_receipt_required : InventoryError
  invalid_adjustment_reason adjustment_note_required : InventoryError
  item_not_found version_conflict reserved_quantity_conflict : InventoryError
  rejection_reason_required adjustment_not_found dual_control_required : InventoryError
  already_decided approval_expired adjustment_stale : InventoryError
  same_location location_unavailable : InventoryError

-- InventoryAdjustmentOperation
pub data Operation : Type 0 where
  add_op remove_op set_op : Operation

-- InventoryAdjustmentReason
pub data Reason : Type 0 where
  purchase_receipt stock_count_correction damage expiry other : Reason

-- The stock movement types that the inventory and order services write.
pub data MovementType : Type 0 where
  receipt_movement damage_movement expiry_movement manual_adjustment : MovementType
  transfer_out transfer_in order_confirmed reservation_release : MovementType

-- calculateInventoryTransfer
unfoldable pub calculate_transfer : ℤ → ℤ → ℤ → ℤ → Result InventoryError (ℤ × ℤ)
calculate_transfer source reserved destination quantity =
    if ltb_ℤ (source -ℤ reserved) quantity
    then err transfer_available_quantity_conflict
    else if ltb_ℤ (pos database_int_max -ℤ quantity) destination
    then err invalid_resulting_stock
    else ok (source -ℤ quantity, destination +ℤ quantity)

-- CalculatedInventoryAdjustment
pub record Adjusted : Type 0 where
  pub quantity_delta : ℤ
  pub on_hand_after : ℤ

-- `operation === 'ADD' ? quantity : -quantity`
abbrev pub signed_quantity : Operation → ℤ → ℤ
signed_quantity add_op quantity = quantity
signed_quantity _ quantity = neg quantity

-- calculateInventoryAdjustment, by its SET part and the rest
unfoldable pub adjust_to : ℤ → Option ℤ → Option ℤ → Result InventoryError Adjusted
adjust_to current none (some target) =
    if eq_ℤ target current
    then err zero_adjustment
    else ok (record { quantity_delta = target -ℤ current; on_hand_after = target })
adjust_to current _ _ = err invalid_adjustment_input

unfoldable pub adjust_by : ℤ → Operation → Option ℤ → Option ℤ → Result InventoryError Adjusted
adjust_by current operation (some quantity) none =
    let delta = signed_quantity operation quantity in
    let after = current +ℤ delta in
    if ltb_ℤ after (pos 0) || ltb_ℤ (pos database_int_max) after
    then err invalid_resulting_stock
    else ok (record { quantity_delta = delta; on_hand_after = after })
adjust_by current operation _ _ = err invalid_adjustment_input

unfoldable pub calculate_adjustment :
    ℤ → Operation → Option ℤ → Option ℤ → Result InventoryError Adjusted
unfolding adjust_to adjust_by
calculate_adjustment current set_op quantity target = adjust_to current quantity target
calculate_adjustment current add_op quantity target = adjust_by current add_op quantity target
calculate_adjustment current remove_op quantity target = adjust_by current remove_op quantity target

-- The table of `assertReasonAllowed`.
abbrev pub allowed_reason : Operation → Reason → Bool
allowed_reason _ stock_count_correction = true
allowed_reason _ other = true
allowed_reason remove_op damage = true
allowed_reason remove_op expiry = true
allowed_reason _ _ = false

abbrev pub is_purchase : Reason → Bool
is_purchase purchase_receipt = true
is_purchase _ = false

abbrev pub is_other : Reason → Bool
is_other other = true
is_other _ = false

-- assertReasonAllowed; `has_note` says that the note, trimmed, is not empty.
unfoldable pub assert_reason_allowed : Operation → Reason → Bool → Result InventoryError (Unit {0})
assert_reason_allowed operation reason has_note = do
  throw_if (is_purchase reason) batch_receipt_required
  throw_if (not (allowed_reason operation reason)) invalid_adjustment_reason
  throw_if (is_other reason && not has_note) adjustment_note_required

-- movementType
unfoldable pub movement_type : Operation → Reason → MovementType
movement_type add_op purchase_receipt = receipt_movement
movement_type _ damage = damage_movement
movement_type _ expiry = expiry_movement
movement_type _ _ = manual_adjustment
