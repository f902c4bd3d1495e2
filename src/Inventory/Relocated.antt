-- ===== src/Inventory/Relocated.antt =====
-- The two moves of a transfer, one after the other.
use mathlib.Core.Path.{subst}
use tunisia_vape_commerce.Prelude.{
  ==_iff, Bool-cases, Option, ap, arith, false, find, if◌then◌else◌, inl, inr, int_laws, neg,
  neg_parts, none, ok, pos, refl, some, sym, true, ℕ, ℤ, ◌+ℤ◌, ◌==◌, ◌∙◌, ◌∷◌, ◌≡◌, ◌≢◌, ◌≤ℤ◌,
}
use tunisia_vape_commerce.Table.{update_many}
use tunisia_vape_commerce.Table.Keys.{All-update, find_row-image, find_row-key}
use tunisia_vape_commerce.Inventory.{calculate_transfer, transfer_in, transfer_out}
use tunisia_vape_commerce.Inventory.Calculations.{
  IsStock, calculate_transfer_exact, calculate_transfer_safe,
}
use tunisia_vape_commerce.Inventory.Store.{
  Item, Movement, Stock, at_version, find_item, reserved, set_on_hand,
}
use tunisia_vape_commerce.Inventory.Ledger.{
  Covers, IsSound, find-All, move_stock, move_stock-IsSound,
}
use tunisia_vape_commerce.Inventory.Transfers.{
  is_slot, new_slot, on_hand_or_zero, receive, slot_id, transfer, transfer_movement,
}
use tunisia_vape_commerce.Inventory.Relocation.{
  IsFresh, arrive-IsSound, create-IsSound, find_tested,
}
use tunisia_vape_commerce.Inventory.Transferred.{after_transfer, transfer_ind}

-- The source is left in range, above what is reserved of it.
module _ (now : ℕ) (source : Item) (to : ℕ) (quantity : ℤ) (v fresh id : ℕ) (s : Stock)
    (sound : IsSound now s) (found : find_item source.id s ≡ some source)
    (apart : source.location_id ≢ to) (versioned : source.version ≡ v) (grows : pos 0 ≤ℤ quantity)
    (sane : pos 0 ≤ℤ reserved now source.id s) (unused : IsFresh now fresh s) where
  taken : ℤ → Movement
  taken a = transfer_movement transfer_out source.id (neg quantity) a id

  sent-IsSound :
      (a b dest : ℤ)
      → IsStock dest
      → calculate_transfer source.on_hand (reserved now source.id s) dest quantity ≡ ok (a, b)
      → IsSound now (move_stock source v a (taken a) s) × IsStock b × (b ≡ dest +ℤ quantity)
  unfolding taken
  sent-IsSound a b dest in_range h =
      let held = find-All (Covers now s.reservations) source.id s.items sound.covered found in
      let (low, high, covers, total) =
        calculate_transfer_safe source.on_hand (reserved now source.id s) dest quantity a b held.0
          in_range sane grows h in
      let sums =
        (calculate_transfer_exact source.on_hand (reserved now source.id s) dest quantity a b).0
          h in
      (
        move_stock-IsSound now source v a (taken a) s sound found versioned refl
            (sums.2 ∙ omega (int_laws, neg_parts quantity)) low covers,
        high,
        sums.3,
      )

  arrived-IsSound :
      (a b : ℤ) (destination : Option Item)
      → find (is_slot source to) s.items ≡ destination
      → calculate_transfer source.on_hand
          (reserved now source.id s)
          (on_hand_or_zero destination)
          quantity
        ≡ ok (a, b)
      → IsSound now (record s {
        items =
            receive source to fresh quantity destination
              (update_many (at_version source.id v) (set_on_hand a) s.items);
        movements =
            transfer_movement transfer_in (slot_id fresh destination) quantity b id
            ∷ taken a
            ∷ s.movements;
      })
  unfolding taken reserved
  arrived-IsSound a b (some d) at h =
      let (there, slot) = find_tested (is_slot source to) s.items sound.keyed at in
      let in_range = (find-All (Covers now s.reservations) d.id s.items sound.covered there).0 in
      let (sent, high, sum) = sent-IsSound a b d.on_hand in_range h in
      let other : at_version source.id v d ≡ false = ground (arith, not_source d there slot) in
      let still =
        find_row-image (λ (r : Item). r.id) d.id d (at_version source.id v) (set_on_hand a) s.items
          (λ r. refl) there in
      arrive-IsSound now d quantity (transfer_movement transfer_in d.id quantity b id)
        (move_stock source v a (taken a) s) sent (still ∙ rw other refl) refl refl grows
        (subst IsStock sum high)
    where
      not_source :
          (d : Item)
          → find_item d.id s ≡ some d
          → is_slot source to d ≡ true
          → (d.id == source.id) ≡ false
      not_source d there slot = elim (Bool-cases (d.id == source.id)) [
        | inr miss ↦ miss
        | inl hit ↦
            let same_id = (==_iff d.id source.id).0 hit in
            let again : find_item source.id s ≡ some d =
              subst (λ i. find_item i s ≡ some d) same_id there in
            let same : d ≡ source = cc (again, found) in
            absurd (
              apart (
                ap (λ (x : Item). x.location_id) (sym same)
                ∙ (==_iff d.location_id to).0 (ground (arith, slot))))
      ]
  arrived-IsSound a b none at h =
      let (sent, high, sum) = sent-IsSound a b (pos 0) (ground arith) h in
      let amount : b ≡ quantity = sum ∙ omega int_laws in
      create-IsSound now (new_slot source to fresh quantity)
        (transfer_movement transfer_in fresh quantity b id) (move_stock source v a (taken a) s) sent
        (record {
          no_item =
              All-update (λ r. r.id ≢ fresh) (λ r. r.id ≢ fresh) (at_version source.id v)
                (set_on_hand a) kept s.items unused.no_item;
          no_hold = unused.no_hold;
          no_movement = rw not_fresh unused.no_movement;
        })
        refl refl (subst IsStock amount high)
    where
      kept :
          (r : Item)
          → r.id ≢ fresh
          → (if at_version source.id v r then set_on_hand a r else r).id ≢ fresh
      kept r h = elim (Bool-cases (at_version source.id v r)) [ inl e ↦ rw e h | inr e ↦ rw e h ]

      not_fresh : (source.id == fresh) ≡ false
      not_fresh = elim (Bool-cases (source.id == fresh)) [
        | inr miss ↦ miss
        | inl hit ↦ absurd (
            find-All (λ r. r.id ≢ fresh) source.id s.items unused.no_item found
              ((==_iff source.id fresh).0 hit))
      ]

-- If the stock is sound, the new identifier is in no table, and neither the quantity nor what is
-- reserved of the source is negative: a transfer that goes through leaves the stock sound.
pub transfer-IsSound :
    (now i to : ℕ) (quantity : ℤ) (v fresh id : ℕ) (s s' : Stock)
    → IsSound now s
    → pos 0 ≤ℤ quantity
    → pos 0 ≤ℤ reserved now i s
    → IsFresh now fresh s
    → transfer now i to quantity v fresh id s ≡ ok s'
    → IsSound now s'
unfolding taken
transfer-IsSound now i to quantity v fresh id s s' sound grows sane unused =
    transfer_ind now i to quantity v fresh id s (IsSound now) step s'
  where
    step :
        (source : Item) (a b : ℤ)
        → find_item i s ≡ some source
        → source.location_id ≢ to
        → source.version ≡ v
        → calculate_transfer source.on_hand
            (reserved now source.id s)
            (on_hand_or_zero (find (is_slot source to) s.items))
            quantity
          ≡ ok (a, b)
        → IsSound now (after_transfer source to quantity v fresh id a b s)
    step source a b found apart versioned h =
        let own : source.id ≡ i = find_row-key (λ (r : Item). r.id) i s.items found in
        arrived-IsSound now source to quantity v fresh id s sound
          (subst (λ c. find_item c s ≡ some source) (sym own) found) apart versioned grows
          (subst (λ c. pos 0 ≤ℤ reserved now c s) (sym own) sane) unused a b
          (find (is_slot source to) s.items) refl h
