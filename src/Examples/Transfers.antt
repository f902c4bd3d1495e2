-- ===== src/Examples/Transfers.antt =====
-- The transfer of three pieces to a location that has none.
use tunisia_vape_commerce.Prelude.{[], arith, negsuc, ok, pos, refl, ◌+ℤ◌, ◌-ℤ◌, ◌∷◌, ◌≡◌, ◌≤ℤ◌}
use tunisia_vape_commerce.Inventory.{calculate_transfer, transfer_in, transfer_out}
use tunisia_vape_commerce.Inventory.Store.{Stock, reserved, reserved_in}
use tunisia_vape_commerce.Inventory.Transfers.{transfer}
use tunisia_vape_commerce.Inventory.Transferred.{Transferred}
use tunisia_vape_commerce.Examples.Stocks.{bucket, receipt, stock_before}
use tunisia_vape_commerce.Inventory.Ledger.{IsSound}
use tunisia_vape_commerce.Inventory.Relocation.{IsFresh}
use tunisia_vape_commerce.Inventory.Relocated.{transfer-IsSound}

abbrev two_locations : Stock
two_locations = record stock_before { active_locations = 1 ∷ 2 ∷ [] }

abbrev spread : Stock
spread = record two_locations {
  items =
      record bucket { id = 2; location_id = 2; on_hand = pos 3; version = 1 }
      ∷ record bucket { on_hand = pos 7; version = 5 }
      ∷ [];
  movements =
      record {
        inventory_item_id = 2;
        type = transfer_in;
        quantity_delta = pos 3;
        on_hand_after = pos 3;
        reference_id = 9;
      }
      ∷ record {
        inventory_item_id = 1;
        type = transfer_out;
        quantity_delta = negsuc 2;
        on_hand_after = pos 7;
        reference_id = 9;
      }
      ∷ receipt
      ∷ [];
}

spread_runs : transfer 1000 1 2 (pos 3) 4 2 9 two_locations ≡ ok spread
unfolding transfer calculate_transfer reserved reserved_in ◌+ℤ◌ ◌-ℤ◌
spread_runs = refl

two_locations-IsSound : IsSound 1000 two_locations
unfolding reserved_in ◌+ℤ◌
two_locations-IsSound = record { keyed = (tt, tt); covered = ground arith; balanced = (refl, tt) }

slot_two-IsFresh : IsFresh 1000 2 two_locations
unfolding reserved_in
slot_two-IsFresh = record {
  no_item = ((λ e. ground (arith, e)), tt);
  no_hold = refl;
  no_movement = refl;
}

some_reserved : pos 0 ≤ℤ reserved 1000 1 two_locations
unfolding reserved reserved_in ◌+ℤ◌
some_reserved = ground arith

transfer-IsSound_example : IsSound 1000 spread
transfer-IsSound_example =
    transfer-IsSound 1000 1 2 (pos 3) 4 2 9 two_locations spread two_locations-IsSound
      (ground arith) some_reserved slot_two-IsFresh spread_runs
