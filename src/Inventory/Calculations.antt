-- ===== src/Inventory/Calculations.antt =====
-- The arithmetic of stock changes: ranges, conservation and what the refusals mean.
use tunisia_vape_commerce.Prelude.{
  Bool-cases, Option, ap, arith, eq_ℤ, eq_ℤ_iff, inl, inr, int_laws, neg_part, none, ok, pos,
  pos_part, some, true, ℤ, ◌+ℤ◌, ◌-ℤ◌, ◌↔◌, ◌≡◌, ◌≢◌, ◌≤ℤ◌,
}
use tunisia_vape_commerce.Inventory.{
  Adjusted, Operation, add_op, adjust_by, adjust_to, calculate_adjustment, calculate_transfer,
  database_int_max, remove_op, set_op,
}

-- A quantity that the database column holds and that is no debt.
abbrev pub IsStock : ℤ → Type 0
IsStock v = (pos 0 ≤ℤ v) × (v ≤ℤ pos database_int_max)

-- A transfer is calculated exactly when the unreserved stock of the source covers it and the
-- destination stays within the column; the results are the source less the quantity and the
-- destination with it.
pub calculate_transfer_exact :
    (source reserved destination quantity a b : ℤ)
    → (calculate_transfer source reserved destination quantity ≡ ok (a, b)) ↔ (
        (quantity ≤ℤ source -ℤ reserved)
        × (destination ≤ℤ pos database_int_max -ℤ quantity)
        × (a ≡ source -ℤ quantity)
        × (b ≡ destination +ℤ quantity))
unfolding calculate_transfer
calculate_transfer_exact source reserved destination quantity a b =
    (λ h. ground arith, λ h. ground arith)

-- From two stocks in range, for a reserved quantity and a transfer of zero or more, both results of
-- a transfer that is calculated are in range, the source still covers what is reserved, and the
-- total is kept.
pub calculate_transfer_safe :
    (source reserved destination quantity a b : ℤ)
    → IsStock source
    → IsStock destination
    → pos 0 ≤ℤ reserved
    → pos 0 ≤ℤ quantity
    → calculate_transfer source reserved destination quantity ≡ ok (a, b)
    → IsStock a × IsStock b × (reserved ≤ℤ a) × (a +ℤ b ≡ source +ℤ destination)
calculate_transfer_safe source reserved destination quantity a b hs hd hr hq h =
    let (covers, fits, ea, eb) =
      (calculate_transfer_exact source reserved destination quantity a b).0 h in
    rw (ea, eb) (omega int_laws, omega int_laws, omega int_laws, omega int_laws)

adjust_to_safe :
    (current : ℤ) (quantity target : Option ℤ) (r : Adjusted)
    → adjust_to current quantity target ≡ ok r
    → (target ≡ some r.on_hand_after)
      × (current +ℤ r.quantity_delta ≡ r.on_hand_after)
      × (r.quantity_delta ≢ pos 0)
unfolding adjust_to
adjust_to_safe current none (some t) r h = elim (Bool-cases (eq_ℤ t current)) [
  | inl e ↦ cc (rw e at h)
  | inr e ↦ ground (arith, h, e, back_to current t, delta_zero current t)
]
  where
    back_to : (a b : ℤ) → a +ℤ (b -ℤ a) ≡ b
    back_to a b = omega int_laws

    delta_zero : (a b : ℤ) → b -ℤ a ≡ pos 0 → eq_ℤ b a ≡ true
    delta_zero a b e = (eq_ℤ_iff b a).1 (omega (int_laws, ap pos_part e, ap neg_part e))
adjust_to_safe current none none r h = cc
adjust_to_safe current (some _) none r h = cc
adjust_to_safe current (some _) (some _) r h = cc

adjust_by_safe :
    (current : ℤ) (operation : Operation) (quantity target : Option ℤ) (r : Adjusted)
    → adjust_by current operation quantity target ≡ ok r
    → IsStock r.on_hand_after × (current +ℤ r.quantity_delta ≡ r.on_hand_after)
unfolding adjust_by
adjust_by_safe current operation (some q) none r h = ground (arith, h)
adjust_by_safe current operation none none r h = cc
adjust_by_safe current operation none (some _) r h = cc
adjust_by_safe current operation (some _) (some _) r h = cc

-- An adjustment that is calculated changes the stock by its delta, and leaves it in range if a
-- target, where one is given, is in range; the stock before it may be anything.
pub calculate_adjustment_safe :
    (current : ℤ) (operation : Operation) (quantity target : Option ℤ) (r : Adjusted)
    → ((t : ℤ) → target ≡ some t → IsStock t)
    → calculate_adjustment current operation quantity target ≡ ok r
    → IsStock r.on_hand_after × (current +ℤ r.quantity_delta ≡ r.on_hand_after)
unfolding calculate_adjustment
calculate_adjustment_safe current set_op quantity target r ht h =
    let (e, sum, _) = adjust_to_safe current quantity target r h in (ht r.on_hand_after e, sum)
calculate_adjustment_safe current add_op quantity target r ht h =
    adjust_by_safe current add_op quantity target r h
calculate_adjustment_safe current remove_op quantity target r ht h =
    adjust_by_safe current remove_op quantity target r h

pub calculate_adjustment_sum :
    (current : ℤ) (operation : Operation) (quantity target : Option ℤ) (r : Adjusted)
    → calculate_adjustment current operation quantity target ≡ ok r
    → current +ℤ r.quantity_delta ≡ r.on_hand_after
unfolding calculate_adjustment
calculate_adjustment_sum current set_op quantity target r h =
    (adjust_to_safe current quantity target r h).1
calculate_adjustment_sum current add_op quantity target r h =
    (adjust_by_safe current add_op quantity target r h).1
calculate_adjustment_sum current remove_op quantity target r h =
    (adjust_by_safe current remove_op quantity target r h).1
