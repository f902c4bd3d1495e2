-- ===== src/Examples/Statuses.antt =====
-- Runs of the order and delivery tables.
use tunisia_vape_commerce.Prelude.{false, refl, true, ◌≡◌, ◌⊎◌}
use tunisia_vape_commerce.OrderStatus.{
  can_transition_order, cancelled, early_cancellation, handed_to_courier, in_transit,
  order_transitions, out_for_delivery, ready_for_pickup, rescheduled, return_to_sender, returned,
}
use tunisia_vape_commerce.OrderStatus.Delivery.{can_transition_delivery, delivery_transitions}
use tunisia_vape_commerce.OrderStatus.Paths.{
  cancellation_agrees, delivery_within_order, has_left_store, here, left_store_forever, step, ◌⟶*◌,
}

cancellation_agrees_example :
    can_transition_order ready_for_pickup cancelled ≡ early_cancellation ready_for_pickup
cancellation_agrees_example = cancellation_agrees ready_for_pickup

out_and_back : handed_to_courier ⟶* returned
unfolding can_transition_order order_transitions
out_and_back =
    step {t = return_to_sender}
      (step {t = in_transit} (step {t = handed_to_courier} here refl) refl) refl

left_store_forever_example :
    (has_left_store returned ≡ true) × (early_cancellation returned ≡ false)
left_store_forever_example = left_store_forever refl out_and_back

delivery_within_order_example :
    (can_transition_order out_for_delivery rescheduled ≡ true)
    ⊎ ((out_for_delivery ≡ out_for_delivery) × (rescheduled ≡ rescheduled))
unfolding can_transition_delivery delivery_transitions
delivery_within_order_example = delivery_within_order out_for_delivery rescheduled refl
