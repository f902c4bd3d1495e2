-- ===== src/Pricing/Laws.antt =====
-- The amounts of a quote line agree with one another and stay within bounds.
use mathlib.Core.Option
use mathlib.Core.Path.{subst}
use tunisia_vape_commerce.Prelude.{
  Bool-cases, Option, [], ap, arith, err, get_or_else, inl, inr, int_laws, ltb_ℤ, neg, neg_part,
  neg_parts, none, ok, pos, pos-+ℤ, pos_part, refl, some, sym, true, ℕ, ℤ, ◌*ℤ◌, ◌*◌, ◌+ℤ◌, ◌+◌,
  ◌-◌, ◌/◌, ◌<ℤ◌, ◌||◌, ◌↔◌, ◌∙◌, ◌∷◌, ◌≡◌, ◌≢◌, ◌≤ℤ◌, ◌≤◌, ◌⊎◌,
}
use tunisia_vape_commerce.Money.{add_millimes, round_quotient}
use tunisia_vape_commerce.Money.Laws.{
  add_millimes-cases, add_millimes-two, calculate_basis_points-cases, calculate_basis_points-pos,
  multiply_millimes-cases, multiply_millimes-pos,
}
use tunisia_vape_commerce.Pricing.{
  QuoteLineCalculation, QuoteLineInput, bad_promotion, calculate_quote_line, invalid_catalog_price,
  line_amounts,
}
use tunisia_vape_commerce.Double.{max_safe_integer}
use tunisia_vape_commerce.Money.Sums.{sum_ℤ}

-- The line that the amounts stand for, by plain arithmetic.
abbrev pub quote_line : ℕ → ℕ → ℕ → ℕ → QuoteLineCalculation
quote_line list unit quantity rate = record {
  list_subtotal_millimes = pos (list * quantity);
  discount_millimes = pos (list * quantity - unit * quantity);
  taxable_subtotal_millimes = pos (unit * quantity);
  tax_millimes = pos ((unit * quantity * rate + 5000) / 10000);
  total_millimes = pos (unit * quantity + (unit * quantity * rate + 5000) / 10000);
  effective_unit_price_millimes = pos unit;
}

neg_pos : (n : ℕ) → (pos_part (neg (pos n)) ≡ 0) × (neg_part (neg (pos n)) ≡ n)
neg_pos n = ground arith

difference-pos : (a b : ℕ) → b ≤ a → pos a +ℤ neg (pos b) ≡ pos (a - b)
unfolding ◌+ℤ◌
difference-pos a b h = ground arith

-- The calls that the line makes, each with its result, for a unit price of at most the list price.
module _ (list unit quantity rate : ℕ) (le : unit ≤ list) (rate_ok : rate ≤ 100000)
    (subtotal_ok : list * quantity ≤ max_safe_integer) (list_ok : list ≤ max_safe_integer)
    (quantity_ok : quantity ≤ max_safe_integer)
    (total_ok : unit * quantity + (unit * quantity * rate + 5000) / 10000 ≤ max_safe_integer) where
  subtotal_le : unit * quantity ≤ list * quantity
  subtotal_le = grind arith

  discount_call :
      add_millimes (pos (list * quantity) ∷ neg (pos (unit * quantity)) ∷ [])
      ≡ ok (pos (list * quantity - unit * quantity))
  discount_call =
      let e : pos (list * quantity) +ℤ neg (pos (unit * quantity))
          ≡ pos (list * quantity - unit * quantity) =
        difference-pos (list * quantity) (unit * quantity) subtotal_le in
      add_millimes-two (pos (list * quantity)) (neg (pos (unit * quantity))) (omega arith)
        (omega (arith, subtotal_le, neg_parts (pos (unit * quantity)), neg_pos (unit * quantity)))
        (rw e (omega (arith, subtotal_le)))
      ∙ ap ok e

  total_call :
      add_millimes (pos (unit * quantity) ∷ pos ((unit * quantity * rate + 5000) / 10000) ∷ [])
      ≡ ok (pos (unit * quantity + (unit * quantity * rate + 5000) / 10000))
  total_call =
      let e = pos-+ℤ (unit * quantity) ((unit * quantity * rate + 5000) / 10000) in
      add_millimes-two (pos (unit * quantity)) (pos ((unit * quantity * rate + 5000) / 10000))
        (omega arith) (omega arith) (rw e (omega arith))
      ∙ ap ok e

-- For a list price, an optional promotion of at most that price, a quantity and a rate of at most
-- 100000, whose list subtotal and total are safe integers, the code returns a line: the promotion
-- is charged where there is one, else the list price, and the amounts are the products, their
-- difference, the rounded tax and the sum.
pub calculate_quote_line_exact :
    (list : ℕ) (promotion : Option ℕ) (quantity rate : ℕ)
    → get_or_else promotion list ≤ list
    → rate ≤ 100000
    → list * quantity ≤ max_safe_integer
    → list ≤ max_safe_integer
    → quantity ≤ max_safe_integer
    → get_or_else promotion list * quantity
        + (get_or_else promotion list * quantity * rate + 5000) / 10000
      ≤ max_safe_integer
    → calculate_quote_line (record {
      list_unit_price_millimes = pos list;
      promotional_unit_price_millimes = Option.map pos promotion;
      quantity = pos quantity;
      tax_rate_bps = pos rate;
    })
      ≡ ok (quote_line list (get_or_else promotion list) quantity rate)
unfolding calculate_quote_line
calculate_quote_line_exact list none quantity rate h1 h2 h3 h4 h5 h6 = ground (
  arith,
  multiply_millimes-pos list quantity h4 h5 h3,
  discount_call list list quantity rate h1 h2 h3 h4 h5 h6,
  calculate_basis_points-pos (list * quantity) rate h3 h2,
  total_call list list quantity rate h1 h2 h3 h4 h5 h6,
)
calculate_quote_line_exact list (some p) quantity rate h1 h2 h3 h4 h5 h6 = ground (
  arith,
  multiply_millimes-pos list quantity h4 h5 h3,
  multiply_millimes-pos p quantity,
  discount_call list p quantity rate h1 h2 h3 h4 h5 h6,
  calculate_basis_points-pos (p * quantity) rate,
  total_call list p quantity rate h1 h2 h3 h4 h5 h6,
)

line_amounts-ne :
    (input : QuoteLineInput) (effective : ℤ)
    → line_amounts input effective ≢ err invalid_catalog_price
unfolding line_amounts
line_amounts-ne input effective h = ground (arith, h)

-- A list price below zero, or a promotional price below zero or above the list price.
abbrev pub IsInvalidCatalogPrice : ℤ → Option ℤ → Type 0
IsInvalidCatalogPrice list promotional =
    (list <ℤ pos 0) ⊎ ((p : ℤ) × (promotional ≡ some p) × ((p <ℤ pos 0) ⊎ (list <ℤ p)))

ltb_ℤ_iff : (a b : ℤ) → (ltb_ℤ a b ≡ true) ↔ (a <ℤ b)
ltb_ℤ_iff a b = ground arith

refused :
    (list p : ℤ)
    → (p <ℤ pos 0) ⊎ (list <ℤ p)
    → ltb_ℤ list (pos 0) || (ltb_ℤ p (pos 0) || ltb_ℤ list p) ≡ true
refused list p h = ground (arith, h)

invalid_test :
    (list : ℤ) (promotional : Option ℤ)
    → (ltb_ℤ list (pos 0) || bad_promotion promotional list ≡ true)
      ↔ IsInvalidCatalogPrice list promotional
invalid_test list none =
    (λ h. ground (arith, h), λ h. elim h [ inl l ↦ ground (arith, l) | inr (p, e, q) ↦ cc ])
invalid_test list (some p) = (
  λ h. elim (Bool-cases (ltb_ℤ list (pos 0))) [
    | inl a ↦ inl ((ltb_ℤ_iff list (pos 0)).0 a)
    | inr a ↦ elim (Bool-cases (ltb_ℤ p (pos 0))) [
      | inl b ↦ inr (p, refl, inl ((ltb_ℤ_iff p (pos 0)).0 b))
      | inr b ↦ inr (p, refl, inr ((ltb_ℤ_iff list p).0 (rw (a, b) at h)))
    ]
  ],
  λ h. elim h [
    | inl l ↦ rw ((ltb_ℤ_iff list (pos 0)).1 l) refl
    | inr (q, e, l) ↦
        let same : p ≡ q = cc in
        refused list p (subst (λ x. (x <ℤ pos 0) ⊎ (list <ℤ x)) (sym same) l)
  ],
)

-- `calculateQuoteLine` throws 'Invalid catalog price' exactly when the list price is negative or
-- there is a promotional price that is negative or above the list price.
pub calculate_quote_line_refuses :
    (input : QuoteLineInput)
    → (calculate_quote_line input ≡ err invalid_catalog_price)
      ↔ IsInvalidCatalogPrice input.list_unit_price_millimes input.promotional_unit_price_millimes
unfolding calculate_quote_line
calculate_quote_line_refuses input = (
  λ h.
      (invalid_test list promotional).0
        (ground (arith, line_amounts-ne input (get_or_else promotional list))),
  λ h. rw ((invalid_test list promotional).1 h) refl,
)
  where
    list : ℤ
    list = input.list_unit_price_millimes

    promotional : Option ℤ
    promotional = input.promotional_unit_price_millimes

sum_two : (a b : ℤ) → sum_ℤ (a ∷ b ∷ []) ≡ a +ℤ b
sum_two a b = omega int_laws

sum_back : (a b : ℤ) → b +ℤ sum_ℤ (a ∷ neg b ∷ []) ≡ a
sum_back a b = omega (int_laws, neg_parts b)

pub line_amounts_adds_up :
    (input : QuoteLineInput) (unit : ℤ) (c : QuoteLineCalculation)
    → line_amounts input unit ≡ ok c
    → (c.list_subtotal_millimes ≡ input.list_unit_price_millimes *ℤ input.quantity)
      × (c.taxable_subtotal_millimes ≡ unit *ℤ input.quantity)
      × (c.taxable_subtotal_millimes +ℤ c.discount_millimes ≡ c.list_subtotal_millimes)
      × (c.tax_millimes ≡ round_quotient (unit *ℤ input.quantity *ℤ input.tax_rate_bps))
      × (c.total_millimes ≡ c.taxable_subtotal_millimes +ℤ c.tax_millimes)
      × (c.effective_unit_price_millimes ≡ unit)
unfolding line_amounts
line_amounts_adds_up input unit c h =
    let list : ℤ = input.list_unit_price_millimes *ℤ input.quantity in
    let charged : ℤ = unit *ℤ input.quantity in
    let tax : ℤ = round_quotient (charged *ℤ input.tax_rate_bps) in
    ground (
      arith,
      multiply_millimes-cases input.list_unit_price_millimes input.quantity,
      multiply_millimes-cases unit input.quantity,
      add_millimes-cases list (neg charged),
      calculate_basis_points-cases charged input.tax_rate_bps,
      add_millimes-cases charged tax,
      sum_two charged tax,
      sum_back list charged,
    )

-- Whatever amounts come in, a line that is returned adds up: the discount is the list subtotal less
-- the charged one, the total is the charged subtotal and its tax, and the subtotals are the unit
-- prices times the quantity.
pub calculate_quote_line_adds_up :
    (input : QuoteLineInput) (c : QuoteLineCalculation)
    → calculate_quote_line input ≡ ok c
    → (c.list_subtotal_millimes ≡ input.list_unit_price_millimes *ℤ input.quantity)
      × (c.taxable_subtotal_millimes ≡ c.effective_unit_price_millimes *ℤ input.quantity)
      × (c.taxable_subtotal_millimes +ℤ c.discount_millimes ≡ c.list_subtotal_millimes)
      × (c.total_millimes ≡ c.taxable_subtotal_millimes +ℤ c.tax_millimes)
      × (c.effective_unit_price_millimes ≤ℤ input.list_unit_price_millimes)
unfolding calculate_quote_line
calculate_quote_line_adds_up input c h = ground (
  arith,
  line_amounts_adds_up input
      (get_or_else input.promotional_unit_price_millimes input.list_unit_price_millimes) c,
)
