-- ===== src/Orders/Release.antt =====
-- `terminate` and the stock: what was reserved is released, and no quantity changes.
use mathlib.Core.Path.{subst}
use tunisia_vape_commerce.Prelude.{
  Bool-cases, List, Option-cases, Result-cases, [], ap, count_by, find, inl, inr, leb_ℤ, length,
  ltb, ltb_ℤ, map, ok, pos, refl, some, sym, ℕ, ◌==◌, ◌||◌, ◌∙◌, ◌∷◌, ◌≡◌,
}
use tunisia_vape_commerce.Table.{update_many}
use tunisia_vape_commerce.Inventory.Store.{
  Item, Movement, Reservation, ReservationState, Stock, released,
}
use tunisia_vape_commerce.Inventory.Ledger.{ledger}
use tunisia_vape_commerce.Orders.{
  Order, Shop, move_order, notify, order_cancelled_event, record_change,
}
use tunisia_vape_commerce.Orders.Confirm.{is_locked, set_state, settle_reservations}
use tunisia_vape_commerce.Orders.Terminate.{
  Disposition, cancel_payment, check_terminate, release_all, release_locked, release_one,
  release_stock, released_movement, terminate, void_cash,
}
use tunisia_vape_commerce.OrderStatus.{cancelled}
use tunisia_vape_commerce.Orders.Moves.{KeepsRow, move_order_rest, order_with}
use tunisia_vape_commerce.Orders.Reservations.{Locked, lock_active_inventory}
use tunisia_vape_commerce.Inventory.Quantities.{
  SameQuantities, SameQuantities-trans, ledger_unmoved,
}

release_ledger :
    (order_id : ℕ) (b : Item) (ms : List Movement) (i : ℕ)
    → ledger i (released_movement order_id b ∷ ms) ≡ ledger i ms
release_ledger order_id b ms i = ledger_unmoved (released_movement order_id b) ms i refl

release_one_lem :
    (order_id : ℕ) (l : Locked) (r : Reservation) (s s' : Stock)
    → release_one order_id l r s ≡ ok s'
    → SameQuantities s s'
unfolding release_one
release_one_lem order_id l r s s' h =
    elim (Option-cases (find (λ b. b.id == r.inventory_item_id) l.items)) [
      | inl e ↦ cc (rw e at h)
      | inr (b, e) ↦ elim (Bool-cases (leb_ℤ r.quantity (pos 0) || ltb_ℤ b.on_hand (pos 0))) [
        | inl f ↦ cc (rw (e, f) at h)
        | inr f ↦
            let q : record s { movements = released_movement order_id b ∷ s.movements } ≡ s' =
              cc (rw (e, f) at h) in
            subst (SameQuantities s) q
              (record { same_items = refl; same_ledger = release_ledger order_id b s.movements })
      ]
    ]

release_all_lem :
    (order_id : ℕ) (l : Locked) (rs : List Reservation) (s s' : Stock)
    → release_all order_id l rs s ≡ ok s'
    → SameQuantities s s'
unfolding release_all
release_all_lem order_id l [] s s' h =
    let q : s ≡ s' = cc in
    subst (SameQuantities s) q (record { same_items = refl; same_ledger = λ i. refl })
release_all_lem order_id l (r ∷ rs) s s' h = elim (Result-cases (release_one order_id l r s)) [
  | inr (x, e) ↦ cc (rw e at h)
  | inl (m, e) ↦
      SameQuantities-trans s m s' (release_one_lem order_id l r s m e)
        (release_all_lem order_id l rs m s' (rw e at h))
]

pub settle_lem :
    (state : ReservationState) (l : Locked) (s s' : Stock)
    → settle_reservations state l s ≡ ok s'
    → SameQuantities s s'
      × (s'.reservations ≡ update_many (is_locked l) (set_state state) s.reservations)
unfolding settle_reservations
settle_lem state l s s' h =
    elim (Bool-cases (count_by (is_locked l) s.reservations == length l.reservations)) [
      | inr e ↦ cc (rw e at h)
      | inl e ↦
          let rows = update_many (is_locked l) (set_state state) s.reservations in
          let q : record s { reservations = rows } ≡ s' = cc (rw e at h) in
          subst (λ x. SameQuantities s x × (x.reservations ≡ rows)) q
            (record { same_items = refl; same_ledger = λ i. refl }, refl)
    ]

release_locked_lem :
    (order_id : ℕ) (l : Locked) (s s' : Stock)
    → release_locked order_id l s ≡ ok s'
    → SameQuantities s s'
unfolding release_locked
release_locked_lem order_id l s s' h = elim (Bool-cases (ltb 0 (length l.reservations))) [
  | inr e ↦
      let q : s ≡ s' = cc (rw e at h) in
      subst (SameQuantities s) q (record { same_items = refl; same_ledger = λ i. refl })
  | inl e ↦ elim (Result-cases (settle_reservations released l s)) [
    | inr (x, f) ↦ cc (rw (e, f) at h)
    | inl (m, f) ↦
        SameQuantities-trans s m s' (settle_lem released l s m f).0
          (release_all_lem order_id l l.reservations m s' (rw (e, f) at h))
  ]
]

pub release_stock_lem : (o : Order) (s s' : Stock) → release_stock o s ≡ ok s' → SameQuantities s s'
unfolding release_stock
release_stock_lem o s s' h = elim (Result-cases (lock_active_inventory o.id s)) [
  | inr (x, e) ↦ cc (rw e at h)
  | inl (l, e) ↦ release_locked_lem o.id l s s' (rw e at h)
]

pub terminate_parts :
    (disposition : Disposition) (id v : ℕ) (s s' : Shop)
    → terminate disposition id v s ≡ ok s'
    → (o : Order) × (order_with id s ≡ some o) × (release_stock o s.stock ≡ ok s'.stock)
unfolding terminate
terminate_parts disposition id v s s' h = elim (Option-cases (order_with id s)) [
  | inl e ↦ cc (rw e at h)
  | inr (o, e) ↦ elim (Result-cases (check_terminate disposition o v)) [
    | inr (x, f) ↦ cc (rw (e, f) at h)
    | inl (d, f) ↦ elim (Result-cases (release_stock o s.stock)) [
      | inr (x, g) ↦ cc (rw (e, f, g) at h)
      | inl (t, g) ↦
          elim (Result-cases (move_order o d v cancelled cancel_payment (voided o t s))) [
            | inr (x, j) ↦ cc (rw (e, f, g, j) at h)
            | inl (m, j) ↦
                let q : notify o order_cancelled_event (record_change o d cancelled m) ≡ s' =
                  cc (rw (e, f, g, j) at h) in
                let kept : t ≡ s'.stock =
                  sym (move_order_rest o d v cancelled cancel_payment (voided o t s) m keeps j).0
                  ∙ ap (λ r. r.stock) q in
                (o, e, g ∙ ap ok kept)
          ]
    ]
  ]
]
  where
    voided : Order → Stock → Shop → Shop
    voided o t s = record s { stock = t; orders = map (void_cash o.id) s.orders }

    keeps : KeepsRow cancel_payment
    keeps = record { keeps_id = λ r. refl; keeps_delivery = λ r. refl }

-- A cancellation or a rejection that goes through leaves every bucket as it is, and the sum of each
-- bucket's movements.
pub terminate_keeps_quantities :
    (disposition : Disposition) (id v : ℕ) (s s' : Shop)
    → terminate disposition id v s ≡ ok s'
    → SameQuantities s.stock s'.stock
terminate_keeps_quantities disposition id v s s' h =
    let (o, e, g) = terminate_parts disposition id v s s' h in
    release_stock_lem o s.stock s'.stock g
