-- ===== src/OrderStatus/Delivery.antt =====
-- apps/api/src/delivery/delivery-transition-policy.ts: the states of a delivery. The Prisma enums
-- DeliveryStatus and OrderStatus have the same members, and the services compare one with the
-- other, so both are `OrderStatus` here.
use tunisia_vape_commerce.Prelude.{Bool, List, [], any, false, true, ◌∷◌}
use tunisia_vape_commerce.OrderStatus.{
  OrderStatus, assigned_to_courier, cancelled, confirmed, delivered, delivery_attempted, failed,
  handed_to_courier, in_transit, on_hold, out_for_delivery, pending_confirmation, preparing,
  ready_for_pickup, refused, rescheduled, return_to_sender, returned, same_status,
}

-- DELIVERY_TRANSITIONS
unfoldable pub delivery_transitions : OrderStatus → List OrderStatus
delivery_transitions pending_confirmation = []
delivery_transitions confirmed = on_hold ∷ preparing ∷ []
delivery_transitions on_hold = confirmed ∷ []
delivery_transitions preparing = ready_for_pickup ∷ assigned_to_courier ∷ []
delivery_transitions ready_for_pickup = delivered ∷ []
delivery_transitions assigned_to_courier = handed_to_courier ∷ []
delivery_transitions handed_to_courier = in_transit ∷ []
delivery_transitions in_transit = out_for_delivery ∷ []
delivery_transitions out_for_delivery =
    delivery_attempted ∷ rescheduled ∷ delivered ∷ refused ∷ failed ∷ []
delivery_transitions delivery_attempted = rescheduled ∷ []
delivery_transitions rescheduled = out_for_delivery ∷ []
delivery_transitions delivered = []
delivery_transitions refused = return_to_sender ∷ []
delivery_transitions failed = return_to_sender ∷ []
delivery_transitions return_to_sender = returned ∷ []
delivery_transitions returned = []
delivery_transitions cancelled = []

-- canTransitionDelivery
unfoldable pub can_transition_delivery : OrderStatus → OrderStatus → Bool
unfolding delivery_transitions
can_transition_delivery from to = any (same_status to) (delivery_transitions from)

-- DELIVERY_ASSIGNMENT_STATUSES.has
unfoldable pub is_assignment_status : OrderStatus → Bool
is_assignment_status confirmed = true
is_assignment_status preparing = true
is_assignment_status assigned_to_courier = true
is_assignment_status _ = false

-- FAILED_ATTEMPT_OUTCOMES
pub data AttemptOutcome : Type 0 where
  customer_unavailable address_not_found customer_refused failed_age_verification : AttemptOutcome
  partial_cash_not_allowed attempt_rescheduled other_failed : AttemptOutcome

-- ATTEMPT_OUTCOME_STATUS
unfoldable pub attempt_outcome_status : AttemptOutcome → OrderStatus
attempt_outcome_status customer_unavailable = delivery_attempted
attempt_outcome_status address_not_found = failed
attempt_outcome_status customer_refused = refused
attempt_outcome_status failed_age_verification = failed
attempt_outcome_status partial_cash_not_allowed = failed
attempt_outcome_status attempt_rescheduled = rescheduled
attempt_outcome_status other_failed = failed
