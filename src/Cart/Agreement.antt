-- ===== src/Cart/Agreement.antt =====
-- The price that a cart shows and the one that a quote charges.
use tunisia_vape_commerce.Prelude.{
  Bool-cases, Result-cases, arith, inl, inr, ltb_ℤ, ok, pos, some, true, ℤ, ◌||◌, ◌∙◌, ◌≡◌,
}
use tunisia_vape_commerce.Money.{multiply_millimes}
use tunisia_vape_commerce.Money.Laws.{multiply_millimes_exact}
use tunisia_vape_commerce.Pricing.{
  QuoteLineCalculation, QuoteLineInput, bad_promotion, calculate_quote_line, line_amounts,
}
use tunisia_vape_commerce.Pricing.Laws.{line_amounts_adds_up}
use tunisia_vape_commerce.Cart.{CartPrice, effective_cart_unit_price}
use tunisia_vape_commerce.Double.{IsSafe→is_safe_integer, is_safe_integer}

-- A line that is calculated has the unit price that was handed over, a safe integer.
line_amounts_unit :
    (input : QuoteLineInput) (unit : ℤ) (c : QuoteLineCalculation)
    → line_amounts input unit ≡ ok c
    → (c.effective_unit_price_millimes ≡ unit) × (is_safe_integer unit ≡ true)
unfolding line_amounts
line_amounts_unit input unit c h =
    let unit_is = (line_amounts_adds_up input unit c h).5 in
    elim (Result-cases (multiply_millimes input.list_unit_price_millimes input.quantity)) [
      | inr (x, e) ↦ cc (rw e at h)
      | inl (l, e) ↦ elim (Result-cases (multiply_millimes unit input.quantity)) [
        | inr (x, f) ↦ cc (rw (e, f) at h)
        | inl (r, f) ↦ (
          unit_is,
          IsSafe→is_safe_integer unit ((multiply_millimes_exact unit input.quantity r).0 f).0,
        )
      ]
    ]

abbrev pub quote_input : ℤ → ℤ → ℤ → ℤ → QuoteLineInput
quote_input list p quantity rate = record {
  list_unit_price_millimes = list;
  promotional_unit_price_millimes = some p;
  quantity = quantity;
  tax_rate_bps = rate;
}

-- A cart and a quote charge one unit price: for a list price and a promotion, where the cart
-- computes a price and the quote a line, the line has the unit price of the cart.
pub cart_price_agrees :
    (list p : ℤ) (quantity rate : ℤ) (c : CartPrice) (line : QuoteLineCalculation)
    → effective_cart_unit_price list (some p) ≡ ok c
    → calculate_quote_line (quote_input list p quantity rate) ≡ ok line
    → line.effective_unit_price_millimes ≡ c.unit_price
unfolding effective_cart_unit_price calculate_quote_line
cart_price_agrees list p quantity rate c line h k =
    elim (Bool-cases (ltb_ℤ list (pos 0) || bad_promotion (some p) list)) [
      | inl e ↦ cc (rw e at k)
      | inr e ↦
          let (unit_is, safe) =
            line_amounts_unit (quote_input list p quantity rate) p line (rw e at k) in
          unit_is ∙ ground (arith, h, e, safe)
    ]
