-- ===== src/Orders/Taken.antt =====
-- `confirm` takes from each bucket what the order's reservations held of it, and from no other.
use mathlib.Core.Path.{subst}
use tunisia_vape_commerce.Prelude.{
  ==_iff, All, Bool-cases, List, Result-cases, [], ap, arith, count_by, false, inl, inr, int_laws,
  leb_ℤ, length, ltb_ℤ, ok, pos, refl, sym, true, ℕ, ℤ, ◌+ℤ◌, ◌-ℤ◌, ◌==◌, ◌||◌, ◌∙◌, ◌∷◌, ◌≡◌,
}
use tunisia_vape_commerce.Table.{HasKey, update_many}
use tunisia_vape_commerce.Table.Rowwise.{Rowwise, Rowwise-refl}
use tunisia_vape_commerce.Inventory.Store.{Item, Reservation, ReservationState, Stock, consumed}
use tunisia_vape_commerce.Orders.{Order}
use tunisia_vape_commerce.Orders.Confirm.{
  confirmed_movement, consume_stock, deduct_all, deduct_item, deduct_row, deductible, is_locked,
  quantity_on, set_state, settle_reservations,
}
use tunisia_vape_commerce.Orders.Deduction.{
  deducted-HasKey, deducted_row, hit_row, row_hit, row_missed,
}
use tunisia_vape_commerce.Orders.Deducted.{IsDeducted, drawn, held_of, locked_draws}
use tunisia_vape_commerce.Orders.Reservations.{
  Locked, assert_reservation_coverage, lock_active_inventory,
}

-- A bucket has what a list of buckets takes from it less.
abbrev Gives : (ℕ → ℤ) → List Item → Item → Item → Type 0
Gives amount is a b = (b.id ≡ a.id) × (b.on_hand ≡ a.on_hand -ℤ drawn amount is a.id)

sub_twice : (a q d : ℤ) → a -ℤ q -ℤ d ≡ a -ℤ (q +ℤ d)
sub_twice a q d = omega int_laws

sub_none : (a d : ℤ) → a -ℤ d ≡ a -ℤ (pos 0 +ℤ d)
sub_none a d = omega int_laws

sub_nothing : (a : ℤ) → a ≡ a -ℤ pos 0
sub_nothing a = omega int_laws

row-Gives :
    (amount : ℕ → ℤ) (i : Item) (is : List Item) (r b : Item)
    → (r.id ≡ i.id → deductible i (amount i.id) r ≡ true)
    → Gives amount is (deducted_row i (amount i.id) r) b
    → Gives amount (i ∷ is) r b
row-Gives amount i is r b hit h = elim (Bool-cases (i.id == r.id)) [
  | inl e ↦
      let same : i.id ≡ r.id = (==_iff i.id r.id).0 e in
      let k : Gives amount is (deduct_row (amount i.id) r) b =
        subst (λ x. Gives amount is x b) (row_hit i (amount i.id) r (hit (sym same))) h in
      rw e (
        k.0,
        k.1
            ∙ ap (λ n. r.on_hand -ℤ amount n -ℤ drawn amount is r.id) same
            ∙ sub_twice r.on_hand (amount r.id) (drawn amount is r.id),
      )
  | inr e ↦
      let miss : deductible i (amount i.id) r ≡ false = ground (arith, e) in
      let k : Gives amount is r b =
        subst (λ x. Gives amount is x b) (row_missed i (amount i.id) r miss) h in
      rw e (k.0, k.1 ∙ sub_none r.on_hand (drawn amount is r.id))
]

rows_drawn :
    (amount : ℕ → ℤ) (i : Item) (is rs bs : List Item)
    → All (λ r. r.id ≡ i.id → deductible i (amount i.id) r ≡ true) rs
    → Rowwise
        (Gives amount is)
        (update_many (deductible i (amount i.id)) (deduct_row (amount i.id)) rs)
        bs
    → Rowwise (Gives amount (i ∷ is)) rs bs
rows_drawn amount i is [] [] a h = tt
rows_drawn amount i is [] (b ∷ bs) a h = absurd h
rows_drawn amount i is (r ∷ rs) [] a h = absurd h
rows_drawn amount i is (r ∷ rs) (b ∷ bs) a h =
    (row-Gives amount i is r b a.0 h.0, rows_drawn amount i is rs bs a.1 h.1)

deduct_all-Gives :
    (order_id : ℕ) (rs : List Reservation) (is : List Item) (s s' : Stock)
    → HasKey (λ (r : Item). r.id) s.items
    → deduct_all order_id rs is s ≡ ok s'
    → Rowwise (Gives (λ n. quantity_on n rs) is) s.items s'.items
unfolding deduct_all deduct_item
deduct_all-Gives order_id rs [] s s' k h =
    let same : s ≡ s' = cc in
    subst (λ t. Rowwise (Gives (λ n. quantity_on n rs) []) s.items t.items) same
      (Rowwise-refl (Gives (λ n. quantity_on n rs) []) (λ r. (refl, sub_nothing r.on_hand)) s.items)
deduct_all-Gives order_id rs (i ∷ is) s s' k h =
    let q = quantity_on i.id rs in
    elim (Bool-cases (leb_ℤ q (pos 0) || ltb_ℤ (i.on_hand -ℤ q) (pos 0))) [
      | inl e ↦ cc (rw e at h)
      | inr e ↦ elim (Bool-cases (count_by (deductible i q) s.items == 1)) [
        | inr g ↦ cc (rw (e, g) at h)
        | inl g ↦
            let after : Stock = record s {
              items = update_many (deductible i q) (deduct_row q) s.items;
              movements = confirmed_movement order_id i q ∷ s.movements;
            } in
            rows_drawn (λ n. quantity_on n rs) i is s.items s'.items
              (hit_row i q s.items k ((==_iff _ 1).0 g))
              (deduct_all-Gives order_id rs is after s' (deducted-HasKey i q s.items k)
                (rw (e, g) at h))
      ]
    ]

settle_reservations-items :
    (state : ReservationState) (l : Locked) (s s' : Stock)
    → settle_reservations state l s ≡ ok s'
    → s.items ≡ s'.items
unfolding settle_reservations
settle_reservations-items state l s s' h =
    elim (Bool-cases (count_by (is_locked l) s.reservations == length l.reservations)) [
      | inr e ↦ cc (rw e at h)
      | inl e ↦
          let same : record s {
            reservations = update_many (is_locked l) (set_state state) s.reservations;
          }
              ≡ s' =
            cc (rw e at h) in
          ap (λ t. t.items) same
    ]

Gives-held :
    (order_id : ℕ) (rs : List Reservation) (amount : ℕ → ℤ) (is xs bs : List Item)
    → All (λ a. drawn amount is a.id ≡ held_of order_id a.id rs) xs
    → Rowwise (Gives amount is) xs bs
    → Rowwise (IsDeducted order_id rs) xs bs
Gives-held order_id rs amount is [] [] a h = tt
Gives-held order_id rs amount is [] (b ∷ bs) a h = absurd h
Gives-held order_id rs amount is (x ∷ xs) [] a h = absurd h
Gives-held order_id rs amount is (x ∷ xs) (b ∷ bs) a h =
    ((h.0.0, h.0.1 ∙ ap (λ d. x.on_hand -ℤ d) a.0), Gives-held order_id rs amount is xs bs a.1 h.1)

pub consume_stock-IsDeducted :
    (now : ℕ) (o : Order) (s s' : Stock) (l : Locked)
    → HasKey (λ (r : Item). r.id) s.items
    → consume_stock now o s ≡ ok (l, s')
    → Rowwise (IsDeducted o.id s.reservations) s.items s'.items
unfolding consume_stock
consume_stock-IsDeducted now o s s' l b h = elim (Result-cases (lock_active_inventory o.id s)) [
  | inr (x, e) ↦ cc (rw e at h)
  | inl (k, e) ↦ elim (Result-cases (assert_reservation_coverage now o k)) [
    | inr (x, f) ↦ cc (rw (e, f) at h)
    | inl (u, f) ↦ elim (Result-cases (deduct_all o.id k.reservations k.items s)) [
      | inr (x, g) ↦ cc (rw (e, f, g) at h)
      | inl (d, g) ↦ elim (Result-cases (settle_reservations consumed k d)) [
        | inr (x, j) ↦ cc (rw (e, f, g, j) at h)
        | inl (t, j) ↦
            let same : t ≡ s' = cc (rw (e, f, g, j) at h) in
            subst (λ is. Rowwise (IsDeducted o.id s.reservations) s.items is)
              (settle_reservations-items consumed k d t j ∙ ap (λ x. x.items) same)
              (Gives-held o.id s.reservations (λ n. quantity_on n k.reservations) k.items s.items
                d.items (locked_draws o.id s k b e)
                (deduct_all-Gives o.id k.reservations k.items s d b g))
      ]
    ]
  ]
]
