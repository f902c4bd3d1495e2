-- ===== src/Orders/Reservations.antt =====
-- `lockActiveInventory` and `assertReservationCoverage` of admin-orders.service.ts: the stock that
-- is held for an order.
use tunisia_vape_commerce.Prelude.{
  Bool, List, Option, Result, [], all, any, eq_ℤ, err, false, filter, find, if◌then◌else◌, includes,
  leb, length, ltb_ℤ, map, none, not, ok, pos, some, throw_if, ℕ, ℤ, ◌&&◌, ◌+ℤ◌, ◌==◌, ◌>>◌, ◌||◌,
  ◌∷◌,
}
use tunisia_vape_commerce.Table.{rows_in}
use tunisia_vape_commerce.Allocation.{sort_by}
use tunisia_vape_commerce.Inventory.Store.{Item, Reservation, Stock, is_active}
use tunisia_vape_commerce.Orders.{
  Order, OrderError, OrderItem, reservation_conflict, reservation_expired, reservation_invalid,
  reservation_mismatch, reservation_missing,
}

pub record Locked : Type 0 where
  pub reservations : List Reservation
  pub items : List Item

-- `state = 'ACTIVE' AND orderId = …`
abbrev pub holds_for : ℕ → Reservation → Bool
holds_for order_id r = (r.order_id == order_id) && is_active r.state

-- `[...new Set(ids)]`
abbrev pub distinct : List ℕ → List ℕ
distinct [] = []
distinct (x ∷ xs) = if includes x xs then distinct xs else x ∷ distinct xs

unfoldable pub lock_active_inventory : ℕ → Stock → Result OrderError Locked
lock_active_inventory order_id s = do
  let rows =
      sort_by (λ r. r.inventory_item_id)
        (sort_by (λ (r : Reservation). r.id) (filter (holds_for order_id) s.reservations))
  let inventory_ids = distinct (map (λ (r : Reservation). r.inventory_item_id) rows)
  let found = sort_by (λ (i : Item). i.id) (rows_in (λ (i : Item). i.id) inventory_ids s.items)
  throw_if (not (length found == length inventory_ids)) reservation_conflict
  ok (record { reservations = rows; items = found })

-- What a reservation must satisfy: it is for one of the order's items, of whose variant the bucket
-- is.
abbrev pub is_variant : Option ℕ → Option Item → Bool
is_variant none bucket = false
is_variant (some v) none = false
is_variant (some v) (some b) = b.variant_id == v

abbrev pub matches_item : Option OrderItem → Option Item → Bool
matches_item none bucket = false
matches_item (some o) bucket = is_variant o.variant_id bucket

abbrev pub is_valid_reservation : Order → Locked → Reservation → Bool
is_valid_reservation o l r =
    ltb_ℤ (pos 0) r.quantity
    && matches_item (find (λ i. i.id == r.order_item_id) o.items)
        (find (λ i. i.id == r.inventory_item_id) l.items)

-- The first loop: each reservation in turn, an expired one first.
unfoldable pub check_reservations :
    ℕ → Order → Locked → List Reservation → Result OrderError (Unit {0})
check_reservations now o l [] = ok tt
check_reservations now o l (r ∷ rs) =
    if leb r.expires_at now
    then err reservation_expired
    else if not (is_valid_reservation o l r)
    then err reservation_invalid
    else check_reservations now o l rs

-- `reservedByOrderItem.get(id) ?? 0` after the loop
unfoldable pub reserved_for : ℕ → List Reservation → ℤ
reserved_for i [] = pos 0
reserved_for i (r ∷ rs) =
    if r.order_item_id == i then r.quantity +ℤ reserved_for i rs else reserved_for i rs

-- An item with no reservation has no entry in the map, so it is never equal to its quantity.
abbrev pub is_covered : List Reservation → OrderItem → Bool
is_covered rs i = any (λ r. r.order_item_id == i.id) rs && eq_ℤ (reserved_for i.id rs) i.quantity

unfoldable pub assert_reservation_coverage : ℕ → Order → Locked → Result OrderError (Unit {0})
unfolding check_reservations reserved_for
assert_reservation_coverage now o l = do
  throw_if ((length l.reservations == 0) || (length o.items == 0)) reservation_missing
  check_reservations now o l l.reservations
  throw_if (not (all (is_covered l.reservations) o.items)) reservation_mismatch
