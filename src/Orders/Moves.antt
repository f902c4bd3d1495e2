-- ===== src/Orders/Moves.antt =====
-- What the guarded updates of an order and its delivery do to the tables.
use tunisia_vape_commerce.Prelude.{
  Bool, Bool-cases, List, Option, [], arith, find, inl, inr, ok, refl, some, true, ℕ, ◌+◌, ◌==◌,
  ◌∙◌, ◌∷◌, ◌≡◌, ◌≢◌,
}
use tunisia_vape_commerce.Table.{update_many}
use tunisia_vape_commerce.OrderStatus.{OrderStatus, same_status, same_status_iff}
use tunisia_vape_commerce.Orders.{
  Delivery, Order, Shop, bump_delivery, delivery_at, map_delivery, move_order, order_at,
}

abbrev pub order_with : ℕ → Shop → Option Order
order_with id s = find (λ o. o.id == id) s.orders

pub find-update :
    (id : ℕ) (fits : Order → Bool) (change : Order → Order) {o : Order} (os : List Order)
    → ((r : Order) → (change r).id ≡ r.id)
    → find (λ r. r.id == id) os ≡ some o
    → fits o ≡ true
    → find (λ r. r.id == id) (update_many fits change os) ≡ some (change o)
find-update id fits change [] same h f = cc
find-update id fits change {o} (r ∷ os) same h f = elim (Bool-cases (r.id == id)) [
  | inl e ↦ ground (arith, h, e, f, same r, same o)
  | inr e ↦ elim (Bool-cases (fits r)) [
    | inl g ↦ rw g (ground (arith, e, same r, find-update id fits change os same (rw e at h) f))
    | inr g ↦ rw (g, e) (find-update id fits change os same (rw e at h) f)
  ]
]

pub find-other :
    (id j : ℕ) (fits : Order → Bool) (change : Order → Order) (os : List Order)
    → ((r : Order) → (change r).id ≡ r.id)
    → ((r : Order) → fits r ≡ true → r.id ≡ id)
    → j ≢ id
    → find (λ r. r.id == j) (update_many fits change os) ≡ find (λ r. r.id == j) os
find-other id j fits change [] same only n = refl
find-other id j fits change (r ∷ os) same only n = elim (Bool-cases (fits r)) [
  | inl g ↦ rw g (ground (arith, n, same r, only r g, find-other id j fits change os same only n))
  | inr g ↦ rw g (ground (arith, find-other id j fits change os same only n))
]

-- The order after a move to a state.
abbrev pub moved_order : (Order → Order) → OrderStatus → Delivery → Order → Order
moved_order change to d o =
    map_delivery (bump_delivery to) (record (change o) { status = to; version = o.version + 1 })

-- What a change of the order's other columns leaves alone.
pub record KeepsRow (change : Order → Order) : Type 0 where
  pub keeps_id : (r : Order) → (change r).id ≡ r.id
  pub keeps_delivery : (r : Order) → (change r).delivery ≡ r.delivery

same_status_refl : (a : OrderStatus) → same_status a a ≡ true
same_status_refl a = (same_status_iff a a).1 refl

-- The row of the first update.
abbrev status_row : (Order → Order) → OrderStatus → Order → Order
status_row change to r = record (change r) { status = to; version = r.version + 1 }

abbrev moved_rows : Order → ℕ → OrderStatus → (Order → Order) → Shop → List Order
moved_rows o v to change s = update_many (order_at o.id o.status v) (status_row change to) s.orders

move_order_ok :
    (o : Order) (d : Delivery) (v : ℕ) (to : OrderStatus) (change : Order → Order) (s s' : Shop)
    → move_order o d v to change s ≡ ok s'
    → s' ≡ record s {
      orders =
          update_many
            (delivery_at o.id d.status d.version)
            (map_delivery (bump_delivery to))
            (moved_rows o v to change s);
    }
unfolding move_order
move_order_ok o d v to change s s' h = ground (arith, h)

module _ (o : Order) (d : Delivery) (v : ℕ) (to : OrderStatus) (change : Order → Order)
    (s s' : Shop) (keeps : KeepsRow change) (h : move_order o d v to change s ≡ ok s') where
  -- The order stands in its new state, one version on, and its delivery too.
  pub move_order_found :
      order_with o.id s ≡ some o
      → o.delivery ≡ some d
      → o.version ≡ v
      → order_with o.id s' ≡ some (moved_order change to d o)
  move_order_found found has_delivery version_ok = rw (move_order_ok o d v to change s s' h) (
      find-update o.id (delivery_at o.id d.status d.version) (map_delivery (bump_delivery to))
        (moved_rows o v to change s) (λ r. refl)
        (find-update o.id (order_at o.id o.status v) (status_row change to) s.orders keeps.keeps_id
          found (ground (arith, version_ok, same_status_refl o.status)))
        (ground (
          arith,
          has_delivery,
          keeps.keeps_id o,
          keeps.keeps_delivery o,
          same_status_refl d.status,
        )))

  -- No other order changes.
  pub move_order_others : (j : ℕ) → j ≢ o.id → order_with j s' ≡ order_with j s
  move_order_others j n = rw (move_order_ok o d v to change s s' h) (
      find-other o.id j (delivery_at o.id d.status d.version) (map_delivery (bump_delivery to))
        (moved_rows o v to change s) (λ r. refl) (λ r e. ground (arith, e)) n
      ∙ find-other o.id j (order_at o.id o.status v) (status_row change to) s.orders keeps.keeps_id
          (λ r e. ground (arith, e)) n)

  -- Nothing but the orders table is written.
  pub move_order_rest :
      (s'.stock ≡ s.stock)
      × (s'.history ≡ s.history)
      × (s'.notifications ≡ s.notifications)
      × (s'.delivery_events ≡ s.delivery_events)
  move_order_rest = rw (move_order_ok o d v to change s s' h) (refl, refl, refl, refl)
