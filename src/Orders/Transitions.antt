-- ===== src/Orders/Transitions.antt =====
-- `prepare` and `readyForPickup`: an order and its delivery move together, along the order's table.
use mathlib.Core.Path.{subst}
use tunisia_vape_commerce.Prelude.{
  ==_iff, Bool-cases, Option, Option-cases, Result-cases, ap, inl, inr, none, not, ok, refl, some,
  sym, true, ℕ, ◌&&◌, ◌==◌, ◌∙◌, ◌≡◌,
}
use tunisia_vape_commerce.OrderStatus.{
  OrderStatus, can_transition_order, ready_for_pickup, same_status,
}
use tunisia_vape_commerce.Orders.{Delivery, Event, Order, Shop, move_order, record_change}
use tunisia_vape_commerce.Orders.Intake.{check_intake, notify_if, transition_intake}
use tunisia_vape_commerce.Orders.Moves.{move_order_rest, order_with}
use tunisia_vape_commerce.Orders.Moved.{Checked, KeepsRow-same, Moved, Checked→Moved}

announced :
    (event : Option Event) (o : Order) (m : Shop)
    → ((notify_if event o m).orders ≡ m.orders)
      × ((notify_if event o m).stock ≡ m.stock)
      × ((notify_if event o m).history ≡ m.history)
announced none o m = (refl, refl, refl)
announced (some e) o m = (refl, refl, refl)

check_intake_ok :
    (o : Order) (v : ℕ) (from to : OrderStatus) (d : Delivery)
    → check_intake o v from to ≡ ok d
    → (o.version ≡ v)
      × (same_status o.status from ≡ true)
      × (can_transition_order o.status to ≡ true)
      × (o.delivery ≡ some d)
      × (same_status d.status from ≡ true)
unfolding check_intake
check_intake_ok o v from to d h = elim (Bool-cases (o.version == v)) [
  | inr b1 ↦ cc (rw b1 at h)
  | inl b1 ↦ elim (Bool-cases (same_status o.status from)) [
    | inr b2 ↦ cc (rw (b1, b2) at h)
    | inl b2 ↦ elim (Bool-cases (can_transition_order o.status to)) [
      | inr b3 ↦ cc (rw (b1, b2, b3) at h)
      | inl b3 ↦ elim (Option-cases o.delivery) [
        | inl f ↦ cc (rw (b1, b2, b3, f) at h)
        | inr (d', f) ↦ elim (Bool-cases (same_status d'.status from)) [
          | inr b4 ↦ cc (rw (b1, b2, b3, f, b4) at h)
          | inl b4 ↦ elim (Bool-cases (same_status to ready_for_pickup && not o.is_store_pickup)) [
            | inl b5 ↦ cc (rw (b1, b2, b3, f, b4, b5) at h)
            | inr b5 ↦
                let q : d' ≡ d = cc (rw (b1, b2, b3, f, b4, b5) at h) in
                (
                  (==_iff o.version v).0 b1,
                  b2,
                  b3,
                  f ∙ ap some q,
                  subst (λ r. same_status r.status from ≡ true) q b4,
                )
          ]
        ]
      ]
    ]
  ]
]

transition_intake_ok :
    (id v : ℕ) (from to : OrderStatus) (event : Option Event) (s s' : Shop)
    → transition_intake id v from to event s ≡ ok s'
    → (o : Order) × (d : Delivery) × (m : Shop) × Checked id v from to s s m s' o d
      × (s'.stock ≡ m.stock)
unfolding transition_intake
transition_intake_ok id v from to event s s' h = elim (Option-cases (order_with id s)) [
  | inl e ↦ cc (rw e at h)
  | inr (o, e) ↦ elim (Result-cases (check_intake o v from to)) [
    | inr (x, f) ↦ cc (rw (e, f) at h)
    | inl (d, f) ↦ elim (Result-cases (move_order o d v to (λ r. r) s)) [
      | inr (x, g) ↦ cc (rw (e, f, g) at h)
      | inl (m, g) ↦
          let q : notify_if event o (record_change o d to m) ≡ s' = cc (rw (e, f, g) at h) in
          let kept = announced event o (record_change o d to m) in
          let checks = check_intake_ok o v from to d f in
          (
            o,
            d,
            m,
            record {
              found = e;
              version_ok = checks.0;
              order_ok = checks.1;
              allowed_ok = checks.2;
              delivery_is = checks.3;
              delivery_ok = checks.4;
              same_orders = refl;
              same_history = refl;
              move = g;
              orders_are = ap (λ r. r.orders) (sym q) ∙ kept.0;
              history_is = ap (λ r. r.history) (sym q) ∙ kept.2;
            },
            ap (λ r. r.stock) (sym q) ∙ kept.1,
          )
    ]
  ]
]

-- A fulfilment step that goes through was of an order in the state it starts from, at the expected
-- version, with its delivery in that state; now both are in the new state, one version on, every
-- other order is as it was, the history has one row more, and the stock tables are unchanged.
pub transition_intake_moves :
    (id v : ℕ) (from to : OrderStatus) (event : Option Event) (s s' : Shop)
    → transition_intake id v from to event s ≡ ok s'
    → Moved id v from to (λ r. r) s s' × (s'.stock ≡ s.stock)
transition_intake_moves id v from to event s s' h =
    let (o, d, m, c, stock_is) = transition_intake_ok id v from to event s s' h in
    (
      Checked→Moved id v from to s s m s' o d c,
      stock_is ∙ (move_order_rest o d v to (λ r. r) s m KeepsRow-same c.move).0,
    )
