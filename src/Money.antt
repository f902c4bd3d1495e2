-- ===== src/Money.antt =====
-- apps/api/src/common/money/money.ts and apps/api/src/cash/cash-calculations.ts: amounts in
-- integer millimes. A `number` that reaches these functions is an integer (database Int columns
-- and validated DTO fields), so it is a ℤ; a sum is added up as doubles are, each step rounded.
pub mod Sums
pub mod Laws
use tunisia_vape_commerce.Prelude.{
  List, Result, [], eq_ℤ, if◌then◌else◌, ltb_ℤ, neg, negsuc, not, ok, pos, suc, throw_if, ℤ, ◌%◌,
  ◌*ℤ◌, ◌+ℤ◌, ◌-ℤ◌, ◌/◌, ◌>>◌, ◌||◌, ◌∷◌,
}
use tunisia_vape_commerce.Double.{add_double, is_safe_integer}

-- The RangeErrors of money.ts and of cash-calculations.ts.
pub data MoneyError : Type 0 where
  unsafe_money invalid_quantity invalid_basis_points invalid_millimes : MoneyError

-- `assertMillimes` of money.ts
unfoldable pub assert_millimes : ℤ → Result MoneyError (Unit {0})
assert_millimes v = throw_if (not (is_safe_integer v)) unsafe_money

-- `values.forEach(assertMillimes)`
unfoldable pub assert_all : List ℤ → Result MoneyError (Unit {0})
unfolding assert_millimes
assert_all [] = ok tt
assert_all (v ∷ vs) = assert_millimes v >> assert_all vs

-- `values.reduce((sum, value) => sum + value, acc)`
unfoldable pub add_from : ℤ → List ℤ → ℤ
unfolding add_double
add_from acc [] = acc
add_from acc (v ∷ vs) = add_from (add_double acc v) vs

unfoldable pub add_millimes : List ℤ → Result MoneyError ℤ
unfolding assert_all add_from assert_millimes
add_millimes values = do
  assert_all values
  let total = add_from (pos 0) values
  assert_millimes total
  ok total

unfoldable pub multiply_millimes : ℤ → ℤ → Result MoneyError ℤ
unfolding assert_millimes
multiply_millimes unit_price quantity = do
  assert_millimes unit_price
  throw_if (not (is_safe_integer quantity) || ltb_ℤ quantity (pos 0)) invalid_quantity
  let total = unit_price *ℤ quantity
  assert_millimes total
  ok total

-- BigInt division by 10000 truncates towards zero, and the remainder has the numerator's sign.
abbrev pub quotient : ℤ → ℤ
quotient (pos n) = pos (n / 10000)
quotient (negsuc n) = neg (pos (suc n / 10000))

abbrev pub remainder : ℤ → ℤ
remainder (pos n) = pos (n % 10000)
remainder (negsuc n) = neg (pos (suc n % 10000))

-- The rounding ladder of `calculateBasisPoints`.
unfoldable pub round_quotient : ℤ → ℤ
round_quotient n =
    if ltb_ℤ (pos 5000) (remainder n)
    then quotient n +ℤ pos 1
    else if ltb_ℤ (remainder n) (negsuc 4999)
    then quotient n -ℤ pos 1
    else if eq_ℤ (remainder n) (pos 5000)
    then quotient n +ℤ pos 1
    else quotient n

unfoldable pub calculate_basis_points : ℤ → ℤ → Result MoneyError ℤ
unfolding assert_millimes
calculate_basis_points amount basis_points = do
  assert_millimes amount
  throw_if (ltb_ℤ basis_points (pos 0) || ltb_ℤ (pos 100000) basis_points) invalid_basis_points
  let result = round_quotient (amount *ℤ basis_points)
  assert_millimes result
  ok result
