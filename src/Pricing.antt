-- ===== src/Pricing.antt =====
-- apps/api/src/checkout/checkout-pricing.ts, `calculateQuoteLine`: the amounts of one quote line.
-- The delivery rates of the same file are in Rates.
pub mod Laws
pub mod Rates
use tunisia_vape_commerce.Prelude.{
  Bool, Option, Result, [], err, false, get_or_else, ltb_ℤ, neg, none, ok, pos, some, throw_if, ℤ,
  ◌>>=◌, ◌>>◌, ◌||◌, ◌∷◌,
}
use tunisia_vape_commerce.Money.{
  MoneyError, add_millimes, calculate_basis_points, multiply_millimes,
}

pub record QuoteLineInput : Type 0 where
  pub list_unit_price_millimes : ℤ
  pub promotional_unit_price_millimes : Option ℤ
  pub quantity : ℤ
  pub tax_rate_bps : ℤ

pub record QuoteLineCalculation : Type 0 where
  pub list_subtotal_millimes : ℤ
  pub discount_millimes : ℤ
  pub taxable_subtotal_millimes : ℤ
  pub tax_millimes : ℤ
  pub total_millimes : ℤ
  pub effective_unit_price_millimes : ℤ

-- Every error thrown here is a RangeError: the catalog price check's, or one of money.ts.
pub data PricingError : Type 0 where
  invalid_catalog_price : PricingError
  money : MoneyError → PricingError

abbrev pub lift {ℓ} : {A : Type ℓ} → Result MoneyError A → Result PricingError A
lift (ok a) = ok a
lift (err e) = err (money e)

-- `promotional !== null && (promotional < 0 || promotional > list)`
abbrev pub bad_promotion : Option ℤ → ℤ → Bool
bad_promotion none list = false
bad_promotion (some p) list = ltb_ℤ p (pos 0) || ltb_ℤ list p

-- The amounts of a line at the unit price that is charged.
unfoldable pub line_amounts : QuoteLineInput → ℤ → Result PricingError QuoteLineCalculation
line_amounts input effective = do
  list_subtotal ← lift (multiply_millimes input.list_unit_price_millimes input.quantity)
  effective_subtotal ← lift (multiply_millimes effective input.quantity)
  discount ← lift (add_millimes (list_subtotal ∷ neg effective_subtotal ∷ []))
  tax ← lift (calculate_basis_points effective_subtotal input.tax_rate_bps)
  total ← lift (add_millimes (effective_subtotal ∷ tax ∷ []))
  ok (record {
    list_subtotal_millimes = list_subtotal;
    discount_millimes = discount;
    taxable_subtotal_millimes = effective_subtotal;
    tax_millimes = tax;
    total_millimes = total;
    effective_unit_price_millimes = effective;
  })

unfoldable pub calculate_quote_line : QuoteLineInput → Result PricingError QuoteLineCalculation
unfolding line_amounts
calculate_quote_line input = do
  throw_if
      (ltb_ℤ input.list_unit_price_millimes (pos 0)
        || bad_promotion input.promotional_unit_price_millimes input.list_unit_price_millimes)
      invalid_catalog_price
  line_amounts input
      (get_or_else input.promotional_unit_price_millimes input.list_unit_price_millimes)
