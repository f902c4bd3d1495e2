-- ===== src/CashMath.antt =====
-- apps/api/src/cash/cash-calculations.ts: bounded totals of cash, in millimes.
use tunisia_vape_commerce.Prelude.{
  All, List, Result, Result-cases, [], ap, arith, err, if◌then◌else◌, inl, inr, ltb_ℤ, neg_part,
  not, ok, pos, pos-+ℤ, pos_part, sym, ℕ, ℤ, ◌+ℤ◌, ◌+◌, ◌-ℤ◌, ◌>>=◌, ◌||◌, ◌↔◌, ◌∙◌, ◌∷◌, ◌≡◌, ◌≤◌,
}
use tunisia_vape_commerce.Money.{MoneyError, invalid_millimes}
use tunisia_vape_commerce.Double.{is_safe_integer}

-- MAX_MILLIMES
abbrev pub max_millimes : ℕ
max_millimes = 2000000000

-- `assertMillimes` of cash-calculations.ts returns its argument.
unfoldable pub assert_cash : ℤ → Result MoneyError ℤ
assert_cash value =
    if not (is_safe_integer value) || ltb_ℤ value (pos 0) || ltb_ℤ (pos max_millimes) value
    then err invalid_millimes
    else ok value

-- `values.reduce((sum, value) => sum + assertMillimes(value), acc)`
unfoldable pub sum_cash_from : ℤ → List ℤ → Result MoneyError ℤ
unfolding assert_cash
sum_cash_from acc [] = ok acc
sum_cash_from acc (v ∷ vs) = assert_cash v >>= λ a. sum_cash_from (acc +ℤ a) vs

unfoldable pub sum_millimes : List ℤ → Result MoneyError ℤ
unfolding sum_cash_from assert_cash
sum_millimes values = do total ← sum_cash_from (pos 0) values; assert_cash total

-- actual - expected
unfoldable pub cash_difference : ℤ → ℤ → Result MoneyError ℤ
unfolding assert_cash
cash_difference expected actual = do a ← assert_cash actual; e ← assert_cash expected; ok (a -ℤ e)

abbrev pub IsCash : ℤ → Type 0
IsCash v = (neg_part v ≡ 0) × (pos_part v ≤ max_millimes)

abbrev pub total_cash : List ℤ → ℕ
total_cash [] = 0
total_cash (v ∷ vs) = pos_part v + total_cash vs

pub assert_cash_ok : (v r : ℤ) → assert_cash v ≡ ok r → IsCash v × (r ≡ v)
unfolding assert_cash
assert_cash_ok v r h = ground arith

pub assert_cash-IsCash : (v : ℤ) → IsCash v → assert_cash v ≡ ok v
unfolding assert_cash
assert_cash-IsCash v h = ground arith

pos_of_amount : (v : ℤ) → neg_part v ≡ 0 → v ≡ pos (pos_part v)
pos_of_amount v h = ground arith

sum_cash_from_ok :
    (acc : ℕ) (vs : List ℤ) (r : ℤ)
    → sum_cash_from (pos acc) vs ≡ ok r
    → All IsCash vs × (r ≡ pos (acc + total_cash vs))
unfolding sum_cash_from
sum_cash_from_ok acc [] r h = ground arith
sum_cash_from_ok acc (v ∷ vs) r h = elim (Result-cases (assert_cash v)) [
  | inr (x, e) ↦ cc (rw e at h)
  | inl (a, e) ↦
      let (cash, same) = assert_cash_ok v a e in
      let e' : assert_cash v ≡ ok (pos (pos_part v)) = e ∙ ap ok (same ∙ pos_of_amount v cash.0) in
      let h' : sum_cash_from (pos acc +ℤ pos (pos_part v)) vs ≡ ok r = rw e' at h in
      let (rest, total) =
        sum_cash_from_ok (acc + pos_part v) vs r (rw (pos-+ℤ acc (pos_part v)) at h') in
      ((cash, rest), total ∙ ap pos (omega arith))
]

sum_cash_from-total :
    (acc : ℕ) (vs : List ℤ)
    → All IsCash vs
    → sum_cash_from (pos acc) vs ≡ ok (pos (acc + total_cash vs))
unfolding sum_cash_from
sum_cash_from-total acc [] h = ground arith
sum_cash_from-total acc (v ∷ vs) h =
    rw (assert_cash-IsCash v h.0, pos_of_amount v h.0.0, pos-+ℤ acc (pos_part v))
      (sum_cash_from-total (acc + pos_part v) vs h.1 ∙ ap ok (ap pos (omega arith)))

-- `sumMillimes` returns a value exactly when each amount lies between 0 and 2 000 000 000 and so
-- does their total; the value is the total, so no partial or capped sum is ever returned.
pub sum_millimes_exact :
    (vs : List ℤ) (r : ℤ)
    → (sum_millimes vs ≡ ok r)
      ↔ (All IsCash vs × (total_cash vs ≤ max_millimes) × (r ≡ pos (total_cash vs)))
unfolding sum_millimes
sum_millimes_exact vs r = (into, back)
  where
    into :
        sum_millimes vs ≡ ok r
        → All IsCash vs × (total_cash vs ≤ max_millimes) × (r ≡ pos (total_cash vs))
    into h = elim (Result-cases (sum_cash_from (pos 0) vs)) [
      | inr (thrown, e) ↦ cc (rw e at h)
      | inl (t, e) ↦
          let (each, total) = sum_cash_from_ok 0 vs t e in
          let (cash, same) = assert_cash_ok t r (rw e at h) in
          let total' : t ≡ pos (total_cash vs) = total ∙ ap pos (omega arith) in
          (each, rw total' at cash.1, same ∙ total')
    ]

    back :
        All IsCash vs × (total_cash vs ≤ max_millimes) × (r ≡ pos (total_cash vs))
        → sum_millimes vs ≡ ok r
    back h = rw (sum_cash_from-total 0 vs h.0) (
        assert_cash-IsCash (pos (0 + total_cash vs)) (omega (arith, h.1))
        ∙ ap ok (ap pos (omega arith) ∙ sym h.2))

-- `cashDifference` returns a value exactly when both amounts lie between 0 and 2 000 000 000, and
-- then it is the actual amount less the expected one.
pub cash_difference_exact :
    (expected actual r : ℤ)
    → (cash_difference expected actual ≡ ok r)
      ↔ (IsCash expected × IsCash actual × (r ≡ actual -ℤ expected))
unfolding cash_difference
cash_difference_exact expected actual r = (λ h. ground arith, λ h. ground arith)
