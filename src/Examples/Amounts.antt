-- ===== src/Examples/Amounts.antt =====
-- Amounts, quote lines and allocations.
use tunisia_vape_commerce.Prelude.{
  All, List, [], arith, err, inl, inr, negsuc, ok, pos, refl, some, ℤ, ◌*ℤ◌, ◌*◌, ◌+ℤ◌, ◌+◌, ◌-ℤ◌,
  ◌/◌, ◌<ℤ◌, ◌∷◌, ◌≡◌, ◌≤ℤ◌,
}
use tunisia_vape_commerce.Money.{
  add_from, add_millimes, assert_all, assert_millimes, calculate_basis_points, multiply_millimes,
  round_quotient,
}
use tunisia_vape_commerce.Money.Laws.{
  IsAmount, add_millimes_exact, calculate_basis_points-pos, multiply_millimes_exact,
  round_quotient_nearest,
}
use tunisia_vape_commerce.CashMath.{sum_millimes, sum_millimes_exact}
use tunisia_vape_commerce.Pricing.{QuoteLineInput, calculate_quote_line, invalid_catalog_price}
use tunisia_vape_commerce.Pricing.Laws.{
  calculate_quote_line_adds_up, calculate_quote_line_exact, calculate_quote_line_refuses,
  quote_line,
}
use tunisia_vape_commerce.Allocation.{Bucket, Line, allocate_inventory}
use tunisia_vape_commerce.Allocation.Theorems.{Allocated, allocate_inventory_lem}
use tunisia_vape_commerce.Double.{IsSafe, add_double, nearest, nearest_size, round_to, spacing}
use tunisia_vape_commerce.Money.Sums.{sum_ℤ}

abbrev amounts : List ℤ
amounts = pos 1500 ∷ pos 500 ∷ pos 100 ∷ []

amounts-IsSafe : All IsSafe amounts × IsSafe (pos 2100) × (pos 2100 ≡ sum_ℤ amounts)
unfolding ◌+ℤ◌
amounts-IsSafe = ground arith

add_millimes_exact_example : add_millimes amounts ≡ ok (pos 2100)
add_millimes_exact_example =
    (add_millimes_exact amounts (pos 2100) (inl (ground arith))).1 amounts-IsSafe

-- Three safe amounts whose exact sum is 2^53 - 1: the double partial sum rounds.
rounds : add_millimes (pos 9007199254740991 ∷ pos 2 ∷ negsuc 1 ∷ []) ≡ ok (pos 9007199254740990)
unfolding add_millimes assert_all assert_millimes add_from add_double nearest nearest_size spacing
    round_to ◌+ℤ◌
rounds = refl

product-IsSafe :
    IsSafe (pos 1500) × IsAmount (pos 3) × IsSafe (pos 4500) × (pos 4500 ≡ pos 1500 *ℤ pos 3)
unfolding ◌*ℤ◌
product-IsSafe = ground arith

multiply_millimes_exact_example : multiply_millimes (pos 1500) (pos 3) ≡ ok (pos 4500)
multiply_millimes_exact_example =
    (multiply_millimes_exact (pos 1500) (pos 3) (pos 4500)).1 product-IsSafe

round_quotient_nearest_example :
    (negsuc 14999 -ℤ pos 5000 <ℤ pos 10000 *ℤ round_quotient (negsuc 14999))
    × (pos 10000 *ℤ round_quotient (negsuc 14999) ≤ℤ negsuc 14999 +ℤ pos 5000)
round_quotient_nearest_example = round_quotient_nearest (negsuc 14999)

calculate_basis_points-pos_example :
    calculate_basis_points (pos 1003) (pos 1900) ≡ ok (pos ((1003 * 1900 + 5000) / 10000))
calculate_basis_points-pos_example =
    calculate_basis_points-pos 1003 1900 (ground arith) (ground arith) (ground arith)

sum_millimes_exact_example : sum_millimes (pos 700 ∷ pos 300 ∷ []) ≡ ok (pos 1000)
sum_millimes_exact_example =
    (sum_millimes_exact (pos 700 ∷ pos 300 ∷ []) (pos 1000)).1 (ground arith)

difference : pos 300 -ℤ pos 1000 ≡ negsuc 699
unfolding ◌-ℤ◌
difference = refl

abbrev promoted : QuoteLineInput
promoted = record {
  list_unit_price_millimes = pos 1000;
  promotional_unit_price_millimes = some (pos 900);
  quantity = pos 3;
  tax_rate_bps = pos 1900;
}

calculate_quote_line_exact_example : calculate_quote_line promoted ≡ ok (quote_line 1000 900 3 1900)
calculate_quote_line_exact_example =
    calculate_quote_line_exact 1000 (some 900) 3 1900 (ground arith) (ground arith) (ground arith)
      (ground arith) (ground arith) (ground arith)

abbrev overpriced : QuoteLineInput
overpriced = record promoted { promotional_unit_price_millimes = some (pos 1001) }

calculate_quote_line_refuses_example : calculate_quote_line overpriced ≡ err invalid_catalog_price
calculate_quote_line_refuses_example =
    (calculate_quote_line_refuses overpriced).1 (inr (pos 1001, refl, inr (ground arith)))

calculate_quote_line_adds_up_example :
    ((quote_line 1000 900 3 1900).list_subtotal_millimes ≡ pos 1000 *ℤ pos 3)
    × ((quote_line 1000 900 3 1900).taxable_subtotal_millimes
        ≡ (quote_line 1000 900 3 1900).effective_unit_price_millimes *ℤ pos 3)
    × ((quote_line 1000 900 3 1900).taxable_subtotal_millimes
          +ℤ (quote_line 1000 900 3 1900).discount_millimes
        ≡ (quote_line 1000 900 3 1900).list_subtotal_millimes)
    × ((quote_line 1000 900 3 1900).total_millimes
        ≡ (quote_line 1000 900 3 1900).taxable_subtotal_millimes
          +ℤ (quote_line 1000 900 3 1900).tax_millimes)
    × ((quote_line 1000 900 3 1900).effective_unit_price_millimes ≤ℤ pos 1000)
calculate_quote_line_adds_up_example =
    calculate_quote_line_adds_up promoted (quote_line 1000 900 3 1900)
      calculate_quote_line_exact_example

-- Two lines of a variant that two buckets serve.
abbrev two_lines : List Line
two_lines = record { variant_id = 1; quantity = 3 } ∷ record { variant_id = 1; quantity = 2 } ∷ []

abbrev two_buckets : List Bucket
two_buckets =
    record { id = 8; variant_id = 1; available_quantity = pos 4 }
    ∷ record { id = 7; variant_id = 1; available_quantity = pos 1 }
    ∷ []

allocate_inventory_lem_example :
    Allocated two_lines two_buckets (allocate_inventory two_lines two_buckets)
allocate_inventory_lem_example = allocate_inventory_lem two_lines two_buckets
