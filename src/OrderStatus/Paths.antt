-- ===== src/OrderStatus/Paths.antt =====
-- What the transition tables of orders and deliveries allow over any number of steps.
use tunisia_vape_commerce.Prelude.{Bool, arith, false, inl, inr, refl, true, ◌↔◌, ◌≡◌, ◌≢◌, ◌⊎◌}
use tunisia_vape_commerce.OrderStatus.{
  OrderStatus, assigned_to_courier, can_transition_order, cancelled, confirmed, delivered,
  delivery_attempted, early_cancellation, failed, handed_to_courier, in_transit, on_hold,
  out_for_delivery, pending_confirmation, preparing, ready_for_pickup, refused, rescheduled,
  return_to_sender, returned,
}
use tunisia_vape_commerce.OrderStatus.Delivery.{
  AttemptOutcome, attempt_outcome_status, can_transition_delivery, customer_unavailable,
}

-- Any number of allowed order transitions.
infix 40 ◌⟶*◌
pub data ◌⟶*◌ : OrderStatus → OrderStatus → Type 0 where
  here : {s : OrderStatus} → s ⟶* s
  step : {s t u : OrderStatus} → s ⟶* t → can_transition_order t u ≡ true → s ⟶* u

abbrev pub is_final : OrderStatus → Bool
is_final delivered = true
is_final returned = true
is_final cancelled = true
is_final _ = false

-- The states from the hand-over to the courier on, and the pickup's delivery.
abbrev pub has_left_store : OrderStatus → Bool
has_left_store handed_to_courier = true
has_left_store in_transit = true
has_left_store out_for_delivery = true
has_left_store delivery_attempted = true
has_left_store rescheduled = true
has_left_store delivered = true
has_left_store refused = true
has_left_store failed = true
has_left_store return_to_sender = true
has_left_store returned = true
has_left_store _ = false

-- An order may be cancelled from exactly the states of EARLY_CANCELLATION_STATUSES.
pub cancellation_agrees :
    (s : OrderStatus) → can_transition_order s cancelled ≡ early_cancellation s
unfolding can_transition_order early_cancellation
cancellation_agrees pending_confirmation = refl
cancellation_agrees _ = refl

left_store_step :
    (s t : OrderStatus)
    → has_left_store s ≡ true
    → can_transition_order s t ≡ true
    → has_left_store t ≡ true
unfolding can_transition_order
left_store_step handed_to_courier t h e = ground arith
left_store_step _ t h e = ground arith

-- Once the goods have left the store no sequence of transitions leads to a state in which the order
-- could be cancelled, confirmed or prepared again.
pub left_store_forever :
    {s t : OrderStatus}
    → has_left_store s ≡ true
    → s ⟶* t
    → (has_left_store t ≡ true) × (early_cancellation t ≡ false)
unfolding early_cancellation
left_store_forever {s} h here = (h, ground arith)
left_store_forever h (step {t = t} {u = u} r e) =
    let next = left_store_step t u (left_store_forever h r).0 e in (next, ground arith)

some_next : OrderStatus → OrderStatus
some_next pending_confirmation = confirmed
some_next confirmed = preparing
some_next on_hold = preparing
some_next preparing = assigned_to_courier
some_next ready_for_pickup = delivered
some_next assigned_to_courier = handed_to_courier
some_next handed_to_courier = in_transit
some_next in_transit = out_for_delivery
some_next out_for_delivery = delivered
some_next delivery_attempted = delivered
some_next rescheduled = out_for_delivery
some_next refused = return_to_sender
some_next failed = return_to_sender
some_next _ = returned

some_next_allowed :
    (s : OrderStatus) → (is_final s ≡ true) ⊎ (can_transition_order s (some_next s) ≡ true)
unfolding can_transition_order some_next
some_next_allowed delivered = inl refl
some_next_allowed returned = inl refl
some_next_allowed cancelled = inl refl
some_next_allowed _ = inr refl

final_stuck :
    (s : OrderStatus) → is_final s ≡ true → (t : OrderStatus) → can_transition_order s t ≡ false
unfolding can_transition_order
final_stuck delivered h t = refl
final_stuck _ h t = ground arith

-- The states that allow no transition are exactly delivered, returned and cancelled.
pub is_final_iff :
    (s : OrderStatus) → (is_final s ≡ true) ↔ ((t : OrderStatus) → can_transition_order s t ≡ false)
is_final_iff s = (final_stuck s, λ h. ground (arith, h (some_next s), some_next_allowed s))

-- Every delivery transition is an order transition, but for the one from out for delivery to
-- rescheduled.
pub delivery_within_order :
    (s t : OrderStatus)
    → can_transition_delivery s t ≡ true
    → (can_transition_order s t ≡ true) ⊎ ((s ≡ out_for_delivery) × (t ≡ rescheduled))
unfolding can_transition_order can_transition_delivery
delivery_within_order pending_confirmation t h = ground arith
delivery_within_order _ t h = ground arith

-- A delivery never enters a cancelled state or its first state by a transition.
pub delivery_no_cancel :
    (s t : OrderStatus)
    → can_transition_delivery s t ≡ true
    → (t ≢ cancelled) × (t ≢ pending_confirmation)
unfolding can_transition_delivery
delivery_no_cancel pending_confirmation t h = ground arith
delivery_no_cancel _ t h = ground arith

-- Every failed attempt on a delivery that is out for delivery has an allowed next state.
pub attempt_allowed :
    (o : AttemptOutcome)
    → can_transition_delivery out_for_delivery (attempt_outcome_status o) ≡ true
unfolding can_transition_delivery attempt_outcome_status
attempt_allowed customer_unavailable = refl
attempt_allowed _ = refl
