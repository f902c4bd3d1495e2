-- ===== src/Outbox/Expired.antt =====
-- The expiry of reservations leaves the stock sound.
use mathlib.Core.Path.{subst}
use tunisia_vape_commerce.Prelude.{
  Bool-cases, List, Option-cases, Result-cases, [], arith, count_by, false, filter, find, inl, inr,
  leb_ℤ, length, ltb, map, ok, pos, refl, take, ℕ, ◌+◌, ◌==◌, ◌||◌, ◌∙◌, ◌∷◌, ◌≡◌, ◌≤◌,
}
use tunisia_vape_commerce.Table.{rows_in, update_many}
use tunisia_vape_commerce.Inventory.Ledger.{IsSound}
use tunisia_vape_commerce.Inventory.Quantities.{
  SameQuantities, SameQuantities-IsSound, SameQuantities-refl, SameQuantities-trans, ledger_unmoved,
}
use tunisia_vape_commerce.Inventory.Store.{Item, Reservation, Stock, holds, reserved_in}
use tunisia_vape_commerce.Orders.Reservations.{distinct}
use tunisia_vape_commerce.Outbox.{
  Payload, malformed, notification_of, object_of, objects_of, reservations_until,
}
use tunisia_vape_commerce.Outbox.Expiry.{
  by_bucket, expire_all, expire_one, expire_reservations, expire_row, expires_one, expiry_movement,
  handle_payload, has_expired,
}

-- The same stock and, from the cutoff on, the same quantities held.
pub record Unheld (cutoff : ℕ) (s s' : Stock) : Type 0 where
  pub quantities : SameQuantities s s'
  pub same_held :
      (now i : ℕ)
      → cutoff ≤ now
      → reserved_in now i s'.reservations ≡ reserved_in now i s.reservations

Unheld-refl : (cutoff : ℕ) (s : Stock) → Unheld cutoff s s
Unheld-refl cutoff s = record { quantities = SameQuantities-refl s; same_held = λ now i h. refl }

Unheld-trans :
    (cutoff : ℕ) (a b c : Stock) → Unheld cutoff a b → Unheld cutoff b c → Unheld cutoff a c
Unheld-trans cutoff a b c h k = record {
  quantities = SameQuantities-trans a b c h.quantities k.quantities;
  same_held = λ now i t. k.same_held now i t ∙ h.same_held now i t;
}

held_later :
    (cutoff id now i : ℕ) (rs : List Reservation)
    → cutoff ≤ now
    → reserved_in now i (update_many (expires_one cutoff id) expire_row rs) ≡ reserved_in now i rs
unfolding reserved_in
held_later cutoff id now i [] h = refl
held_later cutoff id now i (r ∷ rs) h = elim (Bool-cases (expires_one cutoff id r)) [
  | inr e ↦ rw e (ground (arith, held_later cutoff id now i rs h))
  | inl e ↦
      let gone : holds now i r ≡ false = ground (arith, e, h) in
      rw (e, gone) (ground (arith, held_later cutoff id now i rs h))
]

expire_one_lem :
    (cutoff : ℕ) (items : List Item) (r : Reservation) (s s' : Stock) (n : ℕ)
    → expire_one cutoff items r s ≡ ok (s', n)
    → Unheld cutoff s s'
unfolding expire_one
expire_one_lem cutoff items r s s' n h =
    elim (Option-cases (find (λ b. b.id == r.inventory_item_id) items)) [
      | inl e ↦ cc (rw e at h)
      | inr (b, e) ↦ elim (Bool-cases (leb_ℤ r.quantity (pos 0) || ltb cutoff r.expires_at)) [
        | inl f ↦ cc (rw (e, f) at h)
        | inr f ↦
            let rows = update_many (expires_one cutoff r.id) expire_row s.reservations in
            let held = λ (now : ℕ) (i : ℕ) (t : cutoff ≤ now).
              held_later cutoff r.id now i s.reservations t in
            elim (Bool-cases (count_by (expires_one cutoff r.id) s.reservations == 1)) [
              | inl g ↦
                  let q : record s {
                    reservations = rows;
                    movements = expiry_movement r b ∷ s.movements;
                  }
                      ≡ s' =
                    cc (rw (e, f, g) at h) in
                  subst (Unheld cutoff s) q (record {
                    quantities = record {
                      same_items = refl;
                      same_ledger = λ i. ledger_unmoved (expiry_movement r b) s.movements i refl;
                    };
                    same_held = held;
                  })
              | inr g ↦
                  let q : record s { reservations = rows } ≡ s' = cc (rw (e, f, g) at h) in
                  subst (Unheld cutoff s) q (record {
                    quantities = record { same_items = refl; same_ledger = λ i. refl };
                    same_held = held;
                  })
            ]
      ]
    ]

expire_all_lem :
    (cutoff : ℕ) (items : List Item) (rs : List Reservation) (s s' : Stock) (n : ℕ)
    → expire_all cutoff items rs s ≡ ok (s', n)
    → Unheld cutoff s s'
unfolding expire_all
expire_all_lem cutoff items [] s s' n h =
    let q : s ≡ s' = cc in subst (Unheld cutoff s) q (Unheld-refl cutoff s)
expire_all_lem cutoff items (r ∷ rs) s s' n h = elim (Result-cases (expire_one cutoff items r s)) [
  | inr (x, e) ↦ cc (rw e at h)
  | inl ((m, j), e) ↦ elim (Result-cases (expire_all cutoff items rs m)) [
    | inr (x, f) ↦ cc (rw (e, f) at h)
    | inl ((t, k), f) ↦
        let q : t ≡ s' = cc (rw (e, f) at h) in
        Unheld-trans cutoff s m s' (expire_one_lem cutoff items r s m j e)
          (subst (Unheld cutoff m) q (expire_all_lem cutoff items rs m t k f))
  ]
]

expire_reservations_lem :
    (now cutoff batch_size : ℕ) (s s' : Stock) (n : ℕ)
    → expire_reservations now cutoff batch_size s ≡ ok (s', n)
    → (cutoff ≤ now + 5000) × Unheld cutoff s s'
unfolding expire_reservations
expire_reservations_lem now cutoff batch_size s s' n h =
    elim (Bool-cases (ltb (now + 5000) cutoff)) [
      | inl e ↦ cc (rw e at h)
      | inr e ↦
          let locked = take batch_size (by_bucket (filter (has_expired cutoff) s.reservations)) in
          let ids = distinct (map (λ (r : Reservation). r.inventory_item_id) locked) in
          let items = rows_in (λ (i : Item). i.id) ids s.items in
          (
            ground (arith, e),
            elim (Bool-cases (length locked == 0)) [
              | inl f ↦
                  let q : s ≡ s' = cc (rw (e, f) at h) in
                  subst (Unheld cutoff s) q (Unheld-refl cutoff s)
              | inr f ↦ elim (Bool-cases (length items == length ids)) [
                | inr g ↦ cc (rw (e, f, g) at h)
                | inl g ↦ expire_all_lem cutoff items locked s s' n (rw (e, f, g) at h)
              ]
            ],
          )
    ]

-- A transaction of the processor, at a time that lies five seconds on.
module _ (now t : ℕ) (later : now + 5000 ≤ t) where
  pub handle_payload-IsSound :
      (p : Payload) (s s' : Stock) (n : ℕ)
      → handle_payload now p s ≡ ok (s', n)
      → IsSound t s
      → IsSound t s'
  unfolding handle_payload
  handle_payload-IsSound (reservations_until cutoff batch_size) s s' n h sound =
      let (before, u) = expire_reservations_lem now cutoff batch_size s s' n h in
      SameQuantities-IsSound t s s' sound u.quantities
        (λ i. u.same_held t i (omega (arith, before, later)))
  handle_payload-IsSound (notification_of id) s s' n h sound = cc
  handle_payload-IsSound (object_of b k) s s' n h sound =
      let q : s ≡ s' = cc in subst (IsSound t) q sound
  handle_payload-IsSound (objects_of b k) s s' n h sound =
      let q : s ≡ s' = cc in subst (IsSound t) q sound
  handle_payload-IsSound malformed s s' n h sound = let q : s ≡ s' = cc in subst (IsSound t) q sound
