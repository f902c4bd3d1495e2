-- ===== src/OrderStatus.antt =====
-- apps/api/src/orders/order-state-machine.ts: the states of an order and its allowed transitions.
-- The delivery machines and the cash machines are in the modules beside this one.
pub mod Delivery
pub mod Paths
use tunisia_vape_commerce.Prelude.{Bool, List, [], any, arith, false, true, ℕ, ◌==◌, ◌↔◌, ◌∷◌, ◌≡◌}

pub data OrderStatus : Type 0 where
  pending_confirmation confirmed on_hold preparing ready_for_pickup assigned_to_courier :
      OrderStatus
  handed_to_courier in_transit out_for_delivery delivery_attempted rescheduled : OrderStatus
  delivered refused failed return_to_sender returned cancelled : OrderStatus

pub OrderStatus-discrete : Discrete OrderStatus
OrderStatus-discrete = hlevel

-- The position in the Prisma enum, by which two states are compared.
abbrev pub order_index : OrderStatus → ℕ
order_index pending_confirmation = 0
order_index confirmed = 1
order_index on_hold = 2
order_index preparing = 3
order_index ready_for_pickup = 4
order_index assigned_to_courier = 5
order_index handed_to_courier = 6
order_index in_transit = 7
order_index out_for_delivery = 8
order_index delivery_attempted = 9
order_index rescheduled = 10
order_index delivered = 11
order_index refused = 12
order_index failed = 13
order_index return_to_sender = 14
order_index returned = 15
order_index cancelled = 16

-- `===` on two states
abbrev pub same_status : OrderStatus → OrderStatus → Bool
same_status a b = order_index a == order_index b

pub same_status_iff : (a b : OrderStatus) → (same_status a b ≡ true) ↔ (a ≡ b)
same_status_iff pending_confirmation b = ground arith
same_status_iff _ b = ground arith

-- ORDER_STATUS_TRANSITIONS
unfoldable pub order_transitions : OrderStatus → List OrderStatus
order_transitions pending_confirmation = confirmed ∷ on_hold ∷ cancelled ∷ []
order_transitions confirmed = on_hold ∷ preparing ∷ cancelled ∷ []
order_transitions on_hold = confirmed ∷ preparing ∷ cancelled ∷ []
order_transitions preparing = ready_for_pickup ∷ assigned_to_courier ∷ cancelled ∷ []
order_transitions ready_for_pickup = delivered ∷ cancelled ∷ []
order_transitions assigned_to_courier = handed_to_courier ∷ cancelled ∷ []
order_transitions handed_to_courier = in_transit ∷ return_to_sender ∷ []
order_transitions in_transit = out_for_delivery ∷ delivery_attempted ∷ return_to_sender ∷ []
order_transitions out_for_delivery = delivered ∷ delivery_attempted ∷ refused ∷ failed ∷ []
order_transitions delivery_attempted =
    rescheduled ∷ delivered ∷ refused ∷ failed ∷ return_to_sender ∷ []
order_transitions rescheduled = out_for_delivery ∷ return_to_sender ∷ []
order_transitions delivered = []
order_transitions refused = return_to_sender ∷ []
order_transitions failed = rescheduled ∷ return_to_sender ∷ []
order_transitions return_to_sender = returned ∷ []
order_transitions returned = []
order_transitions cancelled = []

-- EARLY_CANCELLATION_STATUSES.has
unfoldable pub early_cancellation : OrderStatus → Bool
early_cancellation pending_confirmation = true
early_cancellation confirmed = true
early_cancellation on_hold = true
early_cancellation preparing = true
early_cancellation ready_for_pickup = true
early_cancellation assigned_to_courier = true
early_cancellation _ = false

-- canTransitionOrder
unfoldable pub can_transition_order : OrderStatus → OrderStatus → Bool
unfolding order_transitions
can_transition_order from to = any (same_status to) (order_transitions from)
