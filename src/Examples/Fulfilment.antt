-- ===== src/Examples/Fulfilment.antt =====
-- An order of two pieces, its confirmation and its preparation.
use tunisia_vape_commerce.Prelude.{
  [], arith, false, negsuc, none, ok, pos, refl, some, true, ◌+ℤ◌, ◌-ℤ◌, ◌∷◌, ◌≡◌,
}
use tunisia_vape_commerce.Inventory.{order_confirmed, receipt_movement}
use tunisia_vape_commerce.Inventory.Store.{
  Item, Movement, Reservation, active, consumed, reserved_in,
}
use tunisia_vape_commerce.OrderStatus.{
  can_transition_order, confirmed, order_transitions, pending_confirmation, preparing,
}
use tunisia_vape_commerce.Allocation.{insert_by, sort_by}
use tunisia_vape_commerce.Orders.{
  HistoryRow, Order, Shop, email, move_order, order_confirmed_event, order_preparing_event,
  payment_pending,
}
use tunisia_vape_commerce.Orders.Alerts.{
  alert_all, alert_variant, create_low_stock_alerts, remaining_in,
}
use tunisia_vape_commerce.Orders.Confirm.{
  check_confirm, confirm, consume_stock, deduct_all, deduct_item, quantity_on, settle_reservations,
}
use tunisia_vape_commerce.Orders.Confirmed.{confirm-IsBalanced, confirm_moves}
use tunisia_vape_commerce.Orders.Deduction.{IsBalanced}
use tunisia_vape_commerce.Orders.Intake.{check_intake, transition_intake}
use tunisia_vape_commerce.Orders.Moved.{Moved}
use tunisia_vape_commerce.Orders.Reservations.{
  assert_reservation_coverage, check_reservations, lock_active_inventory, reserved_for,
}
use tunisia_vape_commerce.Orders.Transitions.{transition_intake_moves}
use tunisia_vape_commerce.Table.Rowwise.{Rowwise}
use tunisia_vape_commerce.Orders.Deducted.{IsDeducted}

abbrev pub shelf : Item
shelf = record {
  id = 1;
  variant_id = 1;
  location_id = 1;
  batch_id = none;
  lot_key = 0;
  on_hand = pos 10;
  version = 4;
}

abbrev pub receipt : Movement
receipt = record {
  inventory_item_id = 1;
  type = receipt_movement;
  quantity_delta = pos 10;
  on_hand_after = pos 10;
  reference_id = 0;
}

abbrev pub held : Reservation
held = record {
  id = 1;
  inventory_item_id = 1;
  order_id = 1;
  order_item_id = 1;
  quantity = pos 2;
  state = active;
  expires_at = 9000;
}

abbrev pub placed : Order
placed = record {
  id = 1;
  version = 1;
  status = pending_confirmation;
  payment_status = payment_pending;
  is_store_pickup = false;
  items = record { id = 1; variant_id = some 1; quantity = pos 2 } ∷ [];
  delivery = some (record { status = pending_confirmation; version = 1 });
  cash_collections = [];
  has_email = true;
}

abbrev pub shop : Shop
shop = record {
  orders = placed ∷ [];
  stock = record {
    items = shelf ∷ [];
    reservations = held ∷ [];
    movements = receipt ∷ [];
    adjustments = [];
    active_locations = 1 ∷ [];
  };
  variants = record { id = 1; low_stock_threshold = pos 8 } ∷ [];
  locations = record { id = 1; active = true; fulfills_orders = true } ∷ [];
  batches = [];
  low_stock_recipient = true;
  sms_enabled = false;
  notifications = [];
  alerts = [];
  history = [];
  delivery_events = [];
}

abbrev placed_to_confirmed : HistoryRow
placed_to_confirmed = record {
  order_id = 1;
  from_status = pending_confirmation;
  to_status = confirmed;
}

-- The shop after the confirmation: two pieces less, and a low-stock alert.
abbrev confirmed_shop : Shop
confirmed_shop = record shop {
  orders =
      record placed {
        status = confirmed;
        version = 2;
        delivery = some (record { status = confirmed; version = 2 });
      }
      ∷ [];
  stock = record {
    items = record shelf { on_hand = pos 8; version = 5 } ∷ [];
    reservations = record held { state = consumed } ∷ [];
    movements =
        record {
          inventory_item_id = 1;
          type = order_confirmed;
          quantity_delta = negsuc 1;
          on_hand_after = pos 8;
          reference_id = 1;
        }
        ∷ receipt
        ∷ [];
    adjustments = [];
    active_locations = 1 ∷ [];
  };
  notifications = record { order_id = 1; event = order_confirmed_event; channel = email } ∷ [];
  alerts = record { variant_id = 1; hour = 0; remaining = pos 8 } ∷ [];
  history = placed_to_confirmed ∷ [];
  delivery_events = placed_to_confirmed ∷ [];
}

confirmation_runs : confirm 1000 1 1 shop ≡ ok confirmed_shop
unfolding confirm check_confirm consume_stock lock_active_inventory assert_reservation_coverage
    check_reservations reserved_for deduct_all deduct_item quantity_on settle_reservations
    create_low_stock_alerts alert_all alert_variant remaining_in reserved_in move_order sort_by
    insert_by can_transition_order order_transitions ◌-ℤ◌ ◌+ℤ◌
confirmation_runs = refl

confirm_moves_example : Moved 1 1 pending_confirmation confirmed (λ r. r) shop confirmed_shop
confirm_moves_example = confirm_moves 1000 1 1 shop confirmed_shop confirmation_runs

shop-IsBalanced : IsBalanced shop.stock
unfolding ◌+ℤ◌
shop-IsBalanced = record { keyed = (tt, tt); in_range = ground arith; balanced = (refl, tt) }

confirm-IsBalanced_example :
    IsBalanced confirmed_shop.stock
    × Rowwise (IsDeducted 1 shop.stock.reservations) shop.stock.items confirmed_shop.stock.items
confirm-IsBalanced_example =
    confirm-IsBalanced 1000 1 1 shop confirmed_shop shop-IsBalanced confirmation_runs

abbrev prepared_shop : Shop
prepared_shop = record confirmed_shop {
  orders =
      record placed {
        status = preparing;
        version = 3;
        delivery = some (record { status = preparing; version = 3 });
      }
      ∷ [];
  notifications =
      record { order_id = 1; event = order_preparing_event; channel = email }
      ∷ record { order_id = 1; event = order_confirmed_event; channel = email }
      ∷ [];
  history =
      record { order_id = 1; from_status = confirmed; to_status = preparing }
      ∷ placed_to_confirmed
      ∷ [];
  delivery_events =
      record { order_id = 1; from_status = confirmed; to_status = preparing }
      ∷ placed_to_confirmed
      ∷ [];
}

preparation_runs :
    transition_intake 1 2 confirmed preparing (some order_preparing_event) confirmed_shop
    ≡ ok prepared_shop
unfolding transition_intake check_intake move_order can_transition_order order_transitions
preparation_runs = refl

transition_intake_moves_example :
    Moved 1 2 confirmed preparing (λ r. r) confirmed_shop prepared_shop
    × (prepared_shop.stock ≡ confirmed_shop.stock)
transition_intake_moves_example =
    transition_intake_moves 1 2 confirmed preparing (some order_preparing_event) confirmed_shop
      prepared_shop preparation_runs
