-- ===== src/Examples/Cancellations.antt =====
-- The cancellation of the order that awaits confirmation.
use tunisia_vape_commerce.Prelude.{[], ok, pos, refl, some, ◌∷◌, ◌≡◌}
use tunisia_vape_commerce.Inventory.{reservation_release}
use tunisia_vape_commerce.Inventory.Store.{released}
use tunisia_vape_commerce.OrderStatus.{
  pending_confirmation, can_transition_order, cancelled, early_cancellation, order_transitions,
}
use tunisia_vape_commerce.Allocation.{insert_by, sort_by}
use tunisia_vape_commerce.Orders.{
  HistoryRow, Shop, email, move_order, order_cancelled_event, payment_cancelled,
}
use tunisia_vape_commerce.Orders.Confirm.{settle_reservations}
use tunisia_vape_commerce.Orders.Freed.{HoldsNothing}
use tunisia_vape_commerce.Inventory.Quantities.{SameQuantities}
use tunisia_vape_commerce.Orders.Release.{terminate_keeps_quantities}
use tunisia_vape_commerce.Orders.Released.{terminate-HoldsNothing}
use tunisia_vape_commerce.Orders.Reservations.{lock_active_inventory}
use tunisia_vape_commerce.Orders.Terminate.{
  cancel, check_terminate, release_all, release_locked, release_one, release_stock, terminate,
}
use tunisia_vape_commerce.Examples.Fulfilment.{held, placed, receipt, shelf, shop}

abbrev placed_to_cancelled : HistoryRow
placed_to_cancelled = record {
  order_id = 1;
  from_status = pending_confirmation;
  to_status = cancelled;
}

abbrev cancelled_shop : Shop
cancelled_shop = record shop {
  orders =
      record placed {
        status = cancelled;
        version = 2;
        payment_status = payment_cancelled;
        delivery = some (record { status = cancelled; version = 2 });
      }
      ∷ [];
  stock = record {
    items = shelf ∷ [];
    reservations = record held { state = released } ∷ [];
    movements =
        record {
          inventory_item_id = 1;
          type = reservation_release;
          quantity_delta = pos 0;
          on_hand_after = pos 10;
          reference_id = 1;
        }
        ∷ receipt
        ∷ [];
    adjustments = [];
    active_locations = 1 ∷ [];
  };
  notifications = record { order_id = 1; event = order_cancelled_event; channel = email } ∷ [];
  history = placed_to_cancelled ∷ [];
  delivery_events = placed_to_cancelled ∷ [];
}

cancellation_runs : terminate cancel 1 1 shop ≡ ok cancelled_shop
unfolding terminate check_terminate release_stock lock_active_inventory release_locked release_all
    release_one settle_reservations move_order sort_by insert_by can_transition_order
    order_transitions early_cancellation
cancellation_runs = refl

terminate_keeps_quantities_example : SameQuantities shop.stock cancelled_shop.stock
terminate_keeps_quantities_example =
    terminate_keeps_quantities cancel 1 1 shop cancelled_shop cancellation_runs

terminate-HoldsNothing_example : HoldsNothing 1 cancelled_shop.stock.reservations
terminate-HoldsNothing_example =
    terminate-HoldsNothing cancel 1 1 shop cancelled_shop cancellation_runs
