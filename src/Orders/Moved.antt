-- ===== src/Orders/Moved.antt =====
-- What a guarded move of an order and its delivery does to the orders and the history.
use mathlib.Core.Path.{subst, ap₂}
use tunisia_vape_commerce.Prelude.{
  Bool-cases, List, [], ap, arith, find, inl, inr, ok, refl, some, sym, true, ℕ, ◌==◌, ◌∙◌, ◌∷◌,
  ◌≡◌, ◌≢◌,
}
use tunisia_vape_commerce.OrderStatus.{
  OrderStatus, can_transition_order, same_status, same_status_iff,
}
use tunisia_vape_commerce.Orders.{Delivery, Order, Shop, move_order}
use tunisia_vape_commerce.Orders.Moves.{
  KeepsRow, move_order_found, move_order_others, move_order_rest, moved_order, order_with,
}

-- What a finished move of an order did: it was at the expected version, it and its delivery were
-- in one state from which the order's table allows the new one, and now both are in the new state,
-- one version on; every other order is as it was, and the history has one row more.
pub record Moved (id v : ℕ) (from to : OrderStatus) (change : Order → Order) (s s' : Shop)
    : Type 0 where
  pub order : Order
  pub delivery : Delivery
  pub found : order_with id s ≡ some order
  pub at_expected_version : order.version ≡ v
  pub order_from : order.status ≡ from
  pub has_delivery : order.delivery ≡ some delivery
  pub delivery_from : delivery.status ≡ from
  pub allowed : can_transition_order from to ≡ true
  pub moved : order_with id s' ≡ some (moved_order change to delivery order)
  pub others : (j : ℕ) → j ≢ id → order_with j s' ≡ order_with j s
  pub logged :
      s'.history ≡ record { order_id = order.id; from_status = from; to_status = to } ∷ s.history

pub KeepsRow-same : KeepsRow (λ r. r)
KeepsRow-same = record { keeps_id = λ r. refl; keeps_delivery = λ r. refl }

pub find_order-id :
    (id : ℕ) {o : Order} (os : List Order) → find (λ r. r.id == id) os ≡ some o → o.id ≡ id
find_order-id id [] h = cc
find_order-id id (r ∷ os) h = elim (Bool-cases (r.id == id)) [
  | inl e ↦ ground (arith, h, e)
  | inr e ↦ find_order-id id os (rw e at h)
]

-- The checks of an operation, all passed, with the shop that its move starts from and leaves.
pub record Checked (id v : ℕ) (from to : OrderStatus) (s base m s' : Shop) (o : Order)
    (d : Delivery) : Type 0 where
  pub found : order_with id s ≡ some o
  pub version_ok : o.version ≡ v
  pub order_ok : same_status o.status from ≡ true
  pub allowed_ok : can_transition_order o.status to ≡ true
  pub delivery_is : o.delivery ≡ some d
  pub delivery_ok : same_status d.status from ≡ true
  pub same_orders : base.orders ≡ s.orders
  pub same_history : base.history ≡ s.history
  pub move : move_order o d v to (λ r. r) base ≡ ok m
  pub orders_are : s'.orders ≡ m.orders
  pub history_is :
      s'.history ≡ record { order_id = o.id; from_status = o.status; to_status = to } ∷ m.history

-- What the checks and the move amount to.
pub Checked→Moved :
    (id v : ℕ) (from to : OrderStatus) (s base m s' : Shop) (o : Order) (d : Delivery)
    → Checked id v from to s base m s' o d
    → Moved id v from to (λ r. r) s s'
Checked→Moved id v from to s base m s' o d c =
    let from_is : o.status ≡ from = (same_status_iff o.status from).0 c.order_ok in
    let same : o.id ≡ id = find_order-id id s.orders c.found in
    let found' : order_with o.id base ≡ some o =
      ap (λ os. find (λ r. r.id == o.id) os) c.same_orders
      ∙ subst (λ i. order_with i s ≡ some o) (sym same) c.found in
    let rest = move_order_rest o d v to (λ r. r) base m KeepsRow-same c.move in
    record {
      order = o;
      delivery = d;
      found = c.found;
      at_expected_version = c.version_ok;
      order_from = from_is;
      has_delivery = c.delivery_is;
      delivery_from = (same_status_iff d.status from).0 c.delivery_ok;
      allowed = subst (λ t. can_transition_order t to ≡ true) from_is c.allowed_ok;
      moved =
          subst (λ i. find (λ r. r.id == i) s'.orders ≡ some (moved_order (λ r. r) to d o)) same
            (subst (λ os. find (λ r. r.id == o.id) os ≡ some (moved_order (λ r. r) to d o))
              (sym c.orders_are)
              (move_order_found o d v to (λ r. r) base m KeepsRow-same c.move found' c.delivery_is
                c.version_ok));
      others = λ j n.
          ap (λ os. find (λ r. r.id == j) os) c.orders_are
          ∙ move_order_others o d v to (λ r. r) base m KeepsRow-same c.move j (λ e. n (e ∙ same))
          ∙ ap (λ os. find (λ r. r.id == j) os) c.same_orders;
      logged =
          c.history_is
          ∙ ap₂ (λ t hs. record { order_id = o.id; from_status = t; to_status = to } ∷ hs) from_is
              (rest.1 ∙ c.same_history);
    }
