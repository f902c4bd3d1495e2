-- ===== src/Orders/Confirmed.antt =====
-- `confirm` as a whole.
use mathlib.Core.Path.{subst}
use tunisia_vape_commerce.Prelude.{
  ==_iff, Bool, Bool-cases, List, Option-cases, Result-cases, [], ap, false, if◌then◌else◌, inl,
  inr, ltb_ℤ, map, ok, refl, some, sym, true, ℕ, ◌==◌, ◌∙◌, ◌∷◌, ◌≡◌,
}
use tunisia_vape_commerce.Table.{rows_in}
use tunisia_vape_commerce.Inventory.Store.{Item, Stock}
use tunisia_vape_commerce.OrderStatus.{
  can_transition_order, confirmed, pending_confirmation, same_status,
}
use tunisia_vape_commerce.Orders.{
  Delivery, Order, Shop, Variant, move_order, notify, order_confirmed_event, record_change,
}
use tunisia_vape_commerce.Orders.Alerts.{
  alert_all, alert_variant, create_low_stock_alerts, remaining_in,
}
use tunisia_vape_commerce.Orders.Confirm.{check_confirm, confirm, consume_stock}
use tunisia_vape_commerce.Orders.Confirmation.{consume_stock-IsBalanced}
use tunisia_vape_commerce.Orders.Deduction.{IsBalanced}
use tunisia_vape_commerce.Orders.Moves.{move_order_rest, order_with}
use tunisia_vape_commerce.Orders.Moved.{Checked→Moved, KeepsRow-same, Moved}
use tunisia_vape_commerce.Orders.Reservations.{Locked, distinct}
use tunisia_vape_commerce.Table.Rowwise.{Rowwise}
use tunisia_vape_commerce.Orders.Taken.{consume_stock-IsDeducted}
use tunisia_vape_commerce.Orders.Deducted.{IsDeducted}
use tunisia_vape_commerce.Table.Keys.{find_row-key}

-- What an alert leaves alone.
abbrev Untouched : Shop → Shop → Type 0
Untouched s s' = (s'.orders ≡ s.orders) × (s'.stock ≡ s.stock) × (s'.history ≡ s.history)

alert_variant_rest : (now : ℕ) (v : Variant) (s : Shop) → Untouched s (alert_variant now v s)
unfolding alert_variant
alert_variant_rest now v s =
    elim (Bool-cases (ltb_ℤ v.low_stock_threshold (remaining_in now v.id s s.stock.items))) [
      | inl e ↦ rw e (refl, refl, refl)
      | inr e ↦ rw e (refl, refl, refl)
    ]

alert_all_rest : (now : ℕ) (vs : List Variant) (s : Shop) → Untouched s (alert_all now vs s)
unfolding alert_all
alert_all_rest now [] s = (refl, refl, refl)
alert_all_rest now (v ∷ vs) s =
    let a = alert_variant_rest now v s in
    let b = alert_all_rest now vs (alert_variant now v s) in (b.0 ∙ a.0, b.1 ∙ a.1, b.2 ∙ a.2)

if_rest : (b : Bool) (s s' : Shop) → Untouched s s' → Untouched s (if b then s' else s)
if_rest true s s' h = h
if_rest false s s' h = (refl, refl, refl)

create_low_stock_alerts_rest :
    (now : ℕ) (ids : List ℕ) (s : Shop) → Untouched s (create_low_stock_alerts now ids s)
unfolding create_low_stock_alerts
create_low_stock_alerts_rest now ids s =
    if_rest s.low_stock_recipient s
      (alert_all now (rows_in (λ (v : Variant). v.id) ids s.variants) s)
      (alert_all_rest now (rows_in (λ (v : Variant). v.id) ids s.variants) s)

check_confirm_ok :
    (o : Order) (v : ℕ) (d : Delivery)
    → check_confirm o v ≡ ok d
    → (o.version ≡ v)
      × (same_status o.status pending_confirmation ≡ true)
      × (can_transition_order o.status confirmed ≡ true)
      × (o.delivery ≡ some d)
      × (same_status d.status pending_confirmation ≡ true)
unfolding check_confirm
check_confirm_ok o v d h = elim (Bool-cases (o.version == v)) [
  | inr b1 ↦ cc (rw b1 at h)
  | inl b1 ↦ elim (Bool-cases (same_status o.status pending_confirmation)) [
    | inr b2 ↦ cc (rw (b1, b2) at h)
    | inl b2 ↦ elim (Bool-cases (can_transition_order o.status confirmed)) [
      | inr b3 ↦ cc (rw (b1, b2, b3) at h)
      | inl b3 ↦ elim (Option-cases o.delivery) [
        | inl f ↦ cc (rw (b1, b2, b3, f) at h)
        | inr (d', f) ↦ elim (Bool-cases (same_status d'.status pending_confirmation)) [
          | inr b4 ↦ cc (rw (b1, b2, b3, f, b4) at h)
          | inl b4 ↦
              let q : d' ≡ d = cc (rw (b1, b2, b3, f, b4) at h) in
              (
                (==_iff o.version v).0 b1,
                b2,
                b3,
                f ∙ ap some q,
                subst (λ r. same_status r.status pending_confirmation ≡ true) q b4,
              )
        ]
      ]
    ]
  ]
]

-- The shop after the low-stock alerts.
abbrev alerted : ℕ → Locked → Stock → Shop → Shop
alerted now l t s =
    create_low_stock_alerts now (distinct (map (λ (i : Item). i.variant_id) l.items))
      (record s { stock = t })

confirm_parts :
    (now id v : ℕ) (s s' : Shop)
    → confirm now id v s ≡ ok s'
    → Moved id v pending_confirmation confirmed (λ r. r) s s'
      × ((o : Order) × (l : Locked) × (o.id ≡ id)
          × (consume_stock now o s.stock ≡ ok (l, s'.stock)))
unfolding confirm
confirm_parts now id v s s' h = elim (Option-cases (order_with id s)) [
  | inl e ↦ cc (rw e at h)
  | inr (o, e) ↦ elim (Result-cases (check_confirm o v)) [
    | inr (x, f) ↦ cc (rw (e, f) at h)
    | inl (d, f) ↦ elim (Result-cases (consume_stock now o s.stock)) [
      | inr (x, g) ↦ cc (rw (e, f, g) at h)
      | inl ((l, t), g) ↦
          let base = alerted now l t s in
          elim (Result-cases (move_order o d v confirmed (λ r. r) base)) [
            | inr (x, j) ↦ cc (rw (e, f, g, j) at h)
            | inl (m, j) ↦
                let q : notify o order_confirmed_event (record_change o d confirmed m) ≡ s' =
                  cc (rw (e, f, g, j) at h) in
                let checks = check_confirm_ok o v d f in
                let alerts =
                  create_low_stock_alerts_rest now
                    (distinct (map (λ (i : Item). i.variant_id) l.items))
                    (record s { stock = t }) in
                (
                  Checked→Moved id v pending_confirmation confirmed s base m s' o d (record {
                    found = e;
                    version_ok = checks.0;
                    order_ok = checks.1;
                    allowed_ok = checks.2;
                    delivery_is = checks.3;
                    delivery_ok = checks.4;
                    same_orders = alerts.0;
                    same_history = alerts.2;
                    move = j;
                    orders_are = ap (λ r. r.orders) (sym q);
                    history_is = ap (λ r. r.history) (sym q);
                  }),
                  (
                    o,
                    l,
                    find_row-key (λ r. r.id) id s.orders e,
                    g
                        ∙ ap (λ x. ok (l, x))
                            (sym (
                              ap (λ r. r.stock) (sym q)
                              ∙ (move_order_rest o d v confirmed (λ r. r) base m KeepsRow-same j).0
                              ∙ alerts.1)),
                  ),
                )
          ]
    ]
  ]
]

-- A confirmation that goes through was of an order that awaited confirmation at the expected
-- version, with its delivery; now both are confirmed, one version on, every other order is as it
-- was, and the history has one row more.
pub confirm_moves :
    (now id v : ℕ) (s s' : Shop)
    → confirm now id v s ≡ ok s'
    → Moved id v pending_confirmation confirmed (λ r. r) s s'
confirm_moves now id v s s' h = (confirm_parts now id v s s' h).0

-- If every bucket is in range and is the sum of its movements, under distinct identifiers, then a
-- confirmation that goes through takes from each bucket exactly what the active reservations of the
-- order held of it, and nothing from the others, and every bucket is in range and the sum of its
-- movements afterwards.
pub confirm-IsBalanced :
    (now id v : ℕ) (s s' : Shop)
    → IsBalanced s.stock
    → confirm now id v s ≡ ok s'
    → IsBalanced s'.stock
      × Rowwise (IsDeducted id s.stock.reservations) s.stock.items s'.stock.items
confirm-IsBalanced now id v s s' b h =
    let (o, l, same, g) = (confirm_parts now id v s s' h).1 in
    (
      consume_stock-IsBalanced now o s.stock s'.stock l b g,
      subst (λ n. Rowwise (IsDeducted n s.stock.reservations) s.stock.items s'.stock.items) same
          (consume_stock-IsDeducted now o s.stock s'.stock l b.keyed g),
    )
