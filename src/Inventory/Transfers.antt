-- ===== src/Inventory/Transfers.antt =====
-- `transfer` of admin-inventory.service.ts, without its replay by the idempotency key.
use tunisia_vape_commerce.Prelude.{
  Bool, List, Option, Result, count_by, find, includes, neg, none, not, ok, or_throw, pos, some,
  throw_if, ℕ, ℤ, ◌&&◌, ◌+ℤ◌, ◌+◌, ◌==◌, ◌>>=◌, ◌>>◌, ◌∷◌,
}
use tunisia_vape_commerce.Table.{update_many}
use tunisia_vape_commerce.Inventory.{
  InventoryError, MovementType, calculate_transfer, item_not_found, location_unavailable,
  same_location, transfer_in, transfer_out, version_conflict,
}
use tunisia_vape_commerce.Inventory.Store.{
  Item, Movement, Stock, at_version, find_item, reserved, set_on_hand,
}

-- The bucket of the same variant and lot at another location.
abbrev pub is_slot : Item → ℕ → Item → Bool
is_slot source to r =
    (r.variant_id == source.variant_id) && (r.location_id == to) && (r.lot_key == source.lot_key)

abbrev pub on_hand_or_zero : Option Item → ℤ
on_hand_or_zero none = pos 0
on_hand_or_zero (some d) = d.on_hand

-- The bucket that is created where the destination has none.
abbrev pub new_slot : Item → ℕ → ℕ → ℤ → Item
new_slot source to fresh quantity = record {
  id = fresh;
  variant_id = source.variant_id;
  location_id = to;
  batch_id = source.batch_id;
  lot_key = source.lot_key;
  on_hand = quantity;
  version = 1;
}

abbrev pub increment : ℤ → Item → Item
increment quantity r = record r { on_hand = r.on_hand +ℤ quantity; version = r.version + 1 }

abbrev pub receive : Item → ℕ → ℕ → ℤ → Option Item → List Item → List Item
receive source to fresh quantity none items = new_slot source to fresh quantity ∷ items
receive source to fresh quantity (some d) items =
    update_many (λ r. r.id == d.id) (increment quantity) items

abbrev pub slot_id : ℕ → Option Item → ℕ
slot_id fresh none = fresh
slot_id fresh (some d) = d.id

abbrev pub transfer_movement : MovementType → ℕ → ℤ → ℤ → ℕ → Movement
transfer_movement type item delta after transfer_id = record {
  inventory_item_id = item;
  type = type;
  quantity_delta = delta;
  on_hand_after = after;
  reference_id = transfer_id;
}

-- The transaction of `transfer`; the identifiers of a new bucket and of the transfer are those that
-- the database gives.
unfoldable pub transfer : ℕ → ℕ → ℕ → ℤ → ℕ → ℕ → ℕ → Stock → Result InventoryError Stock
unfolding calculate_transfer reserved
transfer now source_id to quantity expected_version fresh transfer_id s = do
  source ← or_throw (find_item source_id s) item_not_found
  throw_if (source.location_id == to) same_location
  throw_if (not (includes source.location_id s.active_locations && includes to s.active_locations))
      location_unavailable
  throw_if (not (source.version == expected_version)) version_conflict
  let destination = find (is_slot source to) s.items
  (source_after, destination_after) ←
      calculate_transfer source.on_hand (reserved now source.id s) (on_hand_or_zero destination)
        quantity
  throw_if (not (count_by (at_version source.id expected_version) s.items == 1)) version_conflict
  let sent = update_many (at_version source.id expected_version) (set_on_hand source_after) s.items
  ok (record s {
    items = receive source to fresh quantity destination sent;
    movements =
        transfer_movement transfer_in (slot_id fresh destination) quantity destination_after
          transfer_id
        ∷ transfer_movement transfer_out source.id (neg quantity) source_after transfer_id
        ∷ s.movements;
  })
