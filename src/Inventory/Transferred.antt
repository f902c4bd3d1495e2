-- ===== src/Inventory/Transferred.antt =====
-- What a transfer that goes through has checked and written.
use mathlib.Core.Path.{subst}
use tunisia_vape_commerce.Prelude.{
  ==_iff, Bool-cases, Option-cases, Result-cases, arith, count_by, find, includes, inl, inr, neg,
  ok, pos, some, ℕ, ℤ, ◌&&◌, ◌+ℤ◌, ◌-ℤ◌, ◌==◌, ◌∷◌, ◌≡◌, ◌≢◌, ◌≤ℤ◌,
}
use tunisia_vape_commerce.Inventory.{calculate_transfer, transfer_in, transfer_out}
use tunisia_vape_commerce.Inventory.Store.{
  Item, Movement, Stock, at_version, find_item, reserved, set_on_hand,
}
use tunisia_vape_commerce.Inventory.Transfers.{
  is_slot, on_hand_or_zero, receive, slot_id, transfer, transfer_movement,
}
use tunisia_vape_commerce.Table.{update_many}

-- The bucket that a transfer takes from, with its two movements.
pub record Transferred (now i to : ℕ) (quantity : ℤ) (v : ℕ) (s s' : Stock) : Type 0 where
  pub source : Item
  pub into : Movement
  pub out : Movement
  pub found : find_item i s ≡ some source
  pub elsewhere : source.location_id ≢ to
  pub at_expected_version : source.version ≡ v
  pub unreserved : quantity ≤ℤ source.on_hand -ℤ reserved now source.id s
  pub written : s'.movements ≡ into ∷ out ∷ s.movements
  pub cancels : into.quantity_delta +ℤ out.quantity_delta ≡ pos 0
  pub left_over : out.on_hand_after ≡ source.on_hand -ℤ quantity

-- The tables that a transfer writes.
abbrev pub after_transfer : Item → ℕ → ℤ → ℕ → ℕ → ℕ → ℤ → ℤ → Stock → Stock
after_transfer source to quantity v fresh id a b s =
    let destination = find (is_slot source to) s.items in
    record s {
      items =
          receive source to fresh quantity destination
            (update_many (at_version source.id v) (set_on_hand a) s.items);
      movements =
          transfer_movement transfer_in (slot_id fresh destination) quantity b id
          ∷ transfer_movement transfer_out source.id (neg quantity) a id
          ∷ s.movements;
    }

-- What holds of the tables that a transfer writes after its checks holds after a transfer that goes
-- through.
module _ (now i to : ℕ) (quantity : ℤ) (v fresh id : ℕ) (s : Stock) (P : Stock → Type 0)
    (step : (source : Item) (a b : ℤ)
      → find_item i s ≡ some source
      → source.location_id ≢ to
      → source.version ≡ v
      → calculate_transfer source.on_hand
          (reserved now source.id s)
          (on_hand_or_zero (find (is_slot source to) s.items))
          quantity
        ≡ ok (a, b)
      → P (after_transfer source to quantity v fresh id a b s)) where
  pub transfer_ind : (s' : Stock) → transfer now i to quantity v fresh id s ≡ ok s' → P s'
  unfolding transfer
  transfer_ind s' h = elim (Option-cases (find_item i s)) [
    | inl e ↦ cc (rw e at h)
    | inr (source, e) ↦ elim (Bool-cases (source.location_id == to)) [
      | inl b1 ↦ cc (rw (e, b1) at h)
      | inr b1 ↦
          let open_sites =
            includes source.location_id s.active_locations && includes to s.active_locations in
          elim (Bool-cases open_sites) [
            | inr b2 ↦ cc (rw (e, b1, b2) at h)
            | inl b2 ↦ elim (Bool-cases (source.version == v)) [
              | inr b3 ↦ cc (rw (e, b1, b2, b3) at h)
              | inl b3 ↦
                  let call =
                    calculate_transfer source.on_hand (reserved now source.id s)
                      (on_hand_or_zero (find (is_slot source to) s.items)) quantity in
                  elim (Result-cases call) [
                    | inr (x, f) ↦ cc (rw (e, b1, b2, b3, f) at h)
                    | inl ((a, b), f) ↦
                        elim (Bool-cases (count_by (at_version source.id v) s.items == 1)) [
                          | inr b4 ↦ cc (rw (e, b1, b2, b3, f, b4) at h)
                          | inl b4 ↦
                              let q : after_transfer source to quantity v fresh id a b s ≡ s' =
                                cc (rw (e, b1, b2, b3, f, b4) at h) in
                              subst P q (
                                step source a b e (λ n. ground (arith, n, b1))
                                  ((==_iff source.version v).0 b3) f)
                        ]
                  ]
            ]
          ]
    ]
  ]
