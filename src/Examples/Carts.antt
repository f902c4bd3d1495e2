-- ===== src/Examples/Carts.antt =====
-- A cart over two buckets, at a promotion.
use tunisia_vape_commerce.Prelude.{
  All, List, [], arith, ok, pos, refl, some, ◌+ℤ◌, ◌-ℤ◌, ◌∷◌, ◌≡◌, ◌≤ℤ◌,
}
use tunisia_vape_commerce.Pricing.Laws.{calculate_quote_line_exact, quote_line}
use tunisia_vape_commerce.Cart.{
  CartPrice, Slot, add_slot, available_cart_quantity, available_from, effective_cart_unit_price,
  reserve_from,
}
use tunisia_vape_commerce.Cart.Agreement.{cart_price_agrees}
use tunisia_vape_commerce.Cart.Availability.{
  CoversReserved, available_cart_quantity_lem, unreserved,
}
use tunisia_vape_commerce.Double.{add_double, nearest, nearest_size, sub_double}

abbrev two_slots : List Slot
two_slots =
    record { on_hand = pos 10; reservations = pos 2 ∷ pos 1 ∷ [] }
    ∷ record { on_hand = pos 4; reservations = [] }
    ∷ []

slots_run : available_cart_quantity two_slots ≡ ok (pos 11)
unfolding available_cart_quantity available_from add_slot reserve_from add_double sub_double nearest
    nearest_size ◌+ℤ◌ ◌-ℤ◌
slots_run = refl

available_cart_quantity_lem_example :
    (pos 11 ≡ unreserved two_slots) × (pos 0 ≤ℤ pos 11) × All CoversReserved two_slots
available_cart_quantity_lem_example =
    available_cart_quantity_lem two_slots (pos 11) (ground arith) slots_run

abbrev shown : CartPrice
shown = record { list_price = pos 1000; promotional_price = some (pos 900); unit_price = pos 900 }

price_run : effective_cart_unit_price (pos 1000) (some (pos 900)) ≡ ok shown
unfolding effective_cart_unit_price
price_run = refl

cart_price_agrees_example :
    (quote_line 1000 900 3 1900).effective_unit_price_millimes ≡ shown.unit_price
cart_price_agrees_example =
    cart_price_agrees (pos 1000) (pos 900) (pos 3) (pos 1900) shown (quote_line 1000 900 3 1900)
      price_run
      (calculate_quote_line_exact 1000 (some 900) 3 1900 (ground arith) (ground arith)
        (ground arith) (ground arith) (ground arith) (ground arith))
