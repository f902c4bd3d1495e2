-- ===== src/Cart.antt =====
-- apps/api/src/cart/cart-policy.ts: the prices and the availability that a cart shows. Its quantities are
-- added up as doubles are.
pub mod Availability
pub mod Agreement
use tunisia_vape_commerce.Prelude.{
  List, Option, Result, [], get_or_else, if◌then◌else◌, leb_ℤ, ltb_ℤ, none, not, ok, pos, some,
  throw_if, ℤ, ◌&&◌, ◌>>=◌, ◌>>◌, ◌||◌, ◌∷◌,
}
use tunisia_vape_commerce.Money.{MoneyError, add_millimes, multiply_millimes}
use tunisia_vape_commerce.Double.{add_double, is_safe_integer, sub_double}

-- InventoryAvailabilityInput
pub record Slot : Type 0 where
  pub on_hand : ℤ
  pub reservations : List ℤ

pub data CartError : Type 0 where
  catalog_price_invalid inventory_breach : CartError

-- What effectiveCartUnitPrice returns.
pub record CartPrice : Type 0 where
  pub list_price : ℤ
  pub promotional_price : Option ℤ
  pub unit_price : ℤ

-- `promotionIsValid ? promotionalPriceMillimes : null`
abbrev pub valid_promotion : ℤ → Option ℤ → Option ℤ
valid_promotion list none = none
valid_promotion list (some p) =
    if is_safe_integer p && leb_ℤ (pos 0) p && leb_ℤ p list then some p else none

unfoldable pub effective_cart_unit_price : ℤ → Option ℤ → Result CartError CartPrice
effective_cart_unit_price list promotional = do
  throw_if (not (is_safe_integer list) || ltb_ℤ list (pos 0)) catalog_price_invalid
  let promotion = valid_promotion list promotional
  ok (record {
    list_price = list;
    promotional_price = promotion;
    unit_price = get_or_else promotion list;
  })

-- The inner `reduce`: the reserved quantity, from an accumulator.
unfoldable pub reserve_from : ℤ → List ℤ → Result CartError ℤ
unfolding add_double
reserve_from quantity [] = ok quantity
reserve_from quantity (r ∷ rs) =
    throw_if (not (is_safe_integer r) || leb_ℤ r (pos 0)) inventory_breach
    >> (throw_if (not (is_safe_integer (add_double quantity r))) inventory_breach
        >> reserve_from (add_double quantity r) rs)

-- One round of the outer `reduce`.
unfoldable pub add_slot : ℤ → Slot → Result CartError ℤ
unfolding reserve_from add_double sub_double
add_slot total slot = do
  throw_if (not (is_safe_integer slot.on_hand) || ltb_ℤ slot.on_hand (pos 0)) inventory_breach
  reserved ← reserve_from (pos 0) slot.reservations
  throw_if (ltb_ℤ slot.on_hand reserved) inventory_breach
  let next = sub_double (add_double total slot.on_hand) reserved
  throw_if (not (is_safe_integer next)) inventory_breach
  ok next

unfoldable pub available_from : ℤ → List Slot → Result CartError ℤ
unfolding add_slot
available_from total [] = ok total
available_from total (i ∷ is) = add_slot total i >>= λ next. available_from next is

unfoldable pub available_cart_quantity : List Slot → Result CartError ℤ
unfolding available_from
available_cart_quantity slots = available_from (pos 0) slots

unfoldable pub cart_line_total : ℤ → ℤ → Result MoneyError ℤ
unfolding multiply_millimes
cart_line_total unit_price quantity = multiply_millimes unit_price quantity

unfoldable pub cart_subtotal : List ℤ → Result MoneyError ℤ
unfolding add_millimes
cart_subtotal line_totals = add_millimes line_totals
