-- ===== src/Orders/Released.antt =====
-- `terminate` and the reservations of the order, as a whole.
use mathlib.Core.Path.{subst}
use tunisia_vape_commerce.Prelude.{
  Bool-cases, List, Option-cases, Result-cases, [], ap, arith, false, find, inl, inr, leb_ℤ, length,
  ltb, ltb_ℤ, ok, pos, refl, sym, ℕ, ◌==◌, ◌||◌, ◌∙◌, ◌∷◌, ◌≡◌,
}
use tunisia_vape_commerce.Inventory.Store.{Reservation, Stock, released}
use tunisia_vape_commerce.Orders.{Order, Shop}
use tunisia_vape_commerce.Orders.Confirm.{settle_reservations}
use tunisia_vape_commerce.Orders.Freed.{
  HeldAreLocked, HoldsNothing, freed_rows, lock_active_inventory-HeldAreLocked, nothing_held,
}
use tunisia_vape_commerce.Orders.Moved.{find_order-id}
use tunisia_vape_commerce.Orders.Release.{settle_lem, terminate_parts}
use tunisia_vape_commerce.Orders.Reservations.{Locked, lock_active_inventory}
use tunisia_vape_commerce.Orders.Terminate.{
  Disposition, release_all, release_locked, release_one, release_stock, released_movement,
  terminate,
}

release_one_rest :
    (order_id : ℕ) (l : Locked) (r : Reservation) (s s' : Stock)
    → release_one order_id l r s ≡ ok s'
    → s'.reservations ≡ s.reservations
unfolding release_one
release_one_rest order_id l r s s' h =
    elim (Option-cases (find (λ b. b.id == r.inventory_item_id) l.items)) [
      | inl e ↦ cc (rw e at h)
      | inr (b, e) ↦ elim (Bool-cases (leb_ℤ r.quantity (pos 0) || ltb_ℤ b.on_hand (pos 0))) [
        | inl f ↦ cc (rw (e, f) at h)
        | inr f ↦
            let q : record s { movements = released_movement order_id b ∷ s.movements } ≡ s' =
              cc (rw (e, f) at h) in
            ap (λ x. x.reservations) (sym q)
      ]
    ]

release_all_rest :
    (order_id : ℕ) (l : Locked) (rs : List Reservation) (s s' : Stock)
    → release_all order_id l rs s ≡ ok s'
    → s'.reservations ≡ s.reservations
unfolding release_all
release_all_rest order_id l [] s s' h = let q : s ≡ s' = cc in ap (λ x. x.reservations) (sym q)
release_all_rest order_id l (r ∷ rs) s s' h = elim (Result-cases (release_one order_id l r s)) [
  | inr (x, e) ↦ cc (rw e at h)
  | inl (m, e) ↦
      release_all_rest order_id l rs m s' (rw e at h) ∙ release_one_rest order_id l r s m e
]

no_length : {A : Type 0} (xs : List A) → ltb 0 (length xs) ≡ false → xs ≡ []
no_length [] h = refl
no_length (x ∷ xs) h = ground (arith, h)

release_locked-HoldsNothing :
    (o : ℕ) (l : Locked) (s s' : Stock)
    → HeldAreLocked o l s.reservations
    → release_locked o l s ≡ ok s'
    → HoldsNothing o s'.reservations
unfolding release_locked
release_locked-HoldsNothing o l s s' held h = elim (Bool-cases (ltb 0 (length l.reservations))) [
  | inr e ↦
      let q : s ≡ s' = cc (rw e at h) in
      subst (λ x. HoldsNothing o x.reservations) q
        (nothing_held o l s.reservations (no_length l.reservations e) held)
  | inl e ↦ elim (Result-cases (settle_reservations released l s)) [
    | inr (x, f) ↦ cc (rw (e, f) at h)
    | inl (m, f) ↦
        subst (HoldsNothing o)
          (sym (
            release_all_rest o l l.reservations m s' (rw (e, f) at h)
            ∙ (settle_lem released l s m f).1))
          (freed_rows o l s.reservations held)
  ]
]

release_stock-HoldsNothing :
    (o : Order) (s s' : Stock) → release_stock o s ≡ ok s' → HoldsNothing o.id s'.reservations
unfolding release_stock
release_stock-HoldsNothing o s s' h = elim (Result-cases (lock_active_inventory o.id s)) [
  | inr (x, e) ↦ cc (rw e at h)
  | inl (l, e) ↦
      release_locked-HoldsNothing o.id l s s' (lock_active_inventory-HeldAreLocked o.id s l e)
        (rw e at h)
]

-- After a cancellation or a rejection that goes through, no active reservation is held for the
-- order.
pub terminate-HoldsNothing :
    (disposition : Disposition) (id v : ℕ) (s s' : Shop)
    → terminate disposition id v s ≡ ok s'
    → HoldsNothing id s'.stock.reservations
terminate-HoldsNothing disposition id v s s' h =
    let (o, e, g) = terminate_parts disposition id v s s' h in
    subst (λ i. HoldsNothing i s'.stock.reservations) (find_order-id id s.orders e)
      (release_stock-HoldsNothing o s.stock s'.stock g)
