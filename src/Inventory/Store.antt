-- ===== src/Inventory/Store.antt =====
-- The tables that the inventory and order services read and write, with the columns that their
-- decisions rest on. Free text (notes, request metadata) is left out; identifiers are naturals.
use tunisia_vape_commerce.Prelude.{
  Bool, List, Option, [], false, find, if◌then◌else◌, ltb, pos, true, ℕ, ℤ, ◌&&◌, ◌+ℤ◌, ◌+◌, ◌==◌,
  ◌∷◌,
}
use tunisia_vape_commerce.Inventory.{MovementType, Reason}

-- InventoryItem
pub record Item : Type 0 where
  pub id : ℕ
  pub variant_id : ℕ
  pub location_id : ℕ
  pub batch_id : Option ℕ
  pub lot_key : ℕ
  pub on_hand : ℤ
  pub version : ℕ

pub data ReservationState : Type 0 where
  active consumed released reservation_expired : ReservationState

abbrev pub is_active : ReservationState → Bool
is_active active = true
is_active _ = false

-- StockReservation
pub record Reservation : Type 0 where
  pub id : ℕ
  pub inventory_item_id : ℕ
  pub order_id : ℕ
  pub order_item_id : ℕ
  pub quantity : ℤ
  pub state : ReservationState
  pub expires_at : ℕ

-- StockMovement, an append-only ledger
pub record Movement : Type 0 where
  pub inventory_item_id : ℕ
  pub type : MovementType
  pub quantity_delta : ℤ
  pub on_hand_after : ℤ
  pub reference_id : ℕ

pub data AdjustmentStatus : Type 0 where
  pending_approval applied rejected expired : AdjustmentStatus

-- InventoryAdjustment
pub record Adjustment : Type 0 where
  pub id : ℕ
  pub inventory_item_id : ℕ
  pub quantity_delta : ℤ
  pub reason : Reason
  pub status : AdjustmentStatus
  pub requested_by : ℕ
  pub approved_by : Option ℕ
  pub expected_version : ℕ
  pub on_hand_before : ℤ
  pub expires_at : Option ℕ
  pub decided_at : Option ℕ
  pub was_applied : Bool

pub record Stock : Type 0 where
  pub items : List Item
  pub reservations : List Reservation
  pub movements : List Movement
  pub adjustments : List Adjustment
  pub active_locations : List ℕ

-- `findUnique({ where: { id } })`
abbrev pub find_item : ℕ → Stock → Option Item
find_item i s = find (λ r. r.id == i) s.items

-- `stockReservation.aggregate` over the active, unexpired reservations of an item: `_sum ?? 0`.
abbrev pub holds : ℕ → ℕ → Reservation → Bool
holds now i r = (r.inventory_item_id == i) && is_active r.state && ltb now r.expires_at

unfoldable pub reserved_in : ℕ → ℕ → List Reservation → ℤ
reserved_in now i [] = pos 0
reserved_in now i (r ∷ rs) =
    if holds now i r then r.quantity +ℤ reserved_in now i rs else reserved_in now i rs

unfoldable pub reserved : ℕ → ℕ → Stock → ℤ
reserved now i s = reserved_in now i s.reservations

-- `updateMany({ where: { id, version }, data: { onHandQuantity, version: { increment: 1 } } })`
abbrev pub at_version : ℕ → ℕ → Item → Bool
at_version i v r = (r.id == i) && (r.version == v)

abbrev pub set_on_hand : ℤ → Item → Item
set_on_hand q r = record r { on_hand = q; version = r.version + 1 }
