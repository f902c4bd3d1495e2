-- ===== src/Money/Laws.antt =====
-- What money.ts guarantees: exact totals, exact rounding, and when it throws.
use mathlib.Core.Path.{subst}
use tunisia_vape_commerce.Prelude.{
  *ℤ_parts, All, Bool-cases, List, Result-cases, [], ap, arith, err, inl, inr, int_laws, neg,
  neg_part, neg_parts, negsuc, ok, pos, pos-*ℤ, pos_part, refl, suc, sym, ℕ, ℤ, ◌*ℤ◌, ◌*◌, ◌+ℤ◌,
  ◌+◌, ◌-ℤ◌, ◌/◌, ◌<ℤ◌, ◌↔◌, ◌∙◌, ◌∷◌, ◌≡◌, ◌≤ℤ◌, ◌≤◌, ◌⊎◌,
}
use tunisia_vape_commerce.Money.{
  MoneyError, add_from, add_millimes, assert_all, calculate_basis_points, multiply_millimes,
  round_quotient,
}
use tunisia_vape_commerce.Double.{
  IsSafe, IsSafe→is_safe_integer, is_safe_integer, max_safe_integer, test→IsSafe,
}
use tunisia_vape_commerce.Money.Sums.{IsSummand, add_up, sum_ℤ}

-- Zero or more, and a safe integer.
abbrev pub IsAmount : ℤ → Type 0
IsAmount v = (neg_part v ≡ 0) × (pos_part v ≤ max_safe_integer)

assert_all_sound : (vs : List ℤ) → assert_all vs ≡ ok tt → All IsSafe vs
unfolding assert_all
assert_all_sound [] h = tt
assert_all_sound (v ∷ vs) h = elim (Bool-cases (is_safe_integer v)) [
  | inl safe ↦ (test→IsSafe v safe, assert_all_sound vs (rw safe at h))
  | inr unsafe ↦ cc (rw unsafe at h)
]

assert_all_complete : (vs : List ℤ) → All IsSafe vs → assert_all vs ≡ ok tt
unfolding assert_all
assert_all_complete [] h = refl
assert_all_complete (v ∷ vs) h = rw (IsSafe→is_safe_integer v h.0) (assert_all_complete vs h.1)

-- For amounts of zero or more, and for two amounts of any sign, `addMillimes` returns a value exactly
-- when each argument and their exact sum are safe integers, and that value is the exact sum, though
-- each step of the addition is rounded to a double; otherwise it throws.
pub add_millimes_exact :
    (vs : List ℤ) (r : ℤ)
    → IsSummand vs
    → (add_millimes vs ≡ ok r) ↔ (All IsSafe vs × IsSafe r × (r ≡ sum_ℤ vs))
unfolding add_millimes
add_millimes_exact vs r fits = (into, back)
  where
    into : add_millimes vs ≡ ok r → All IsSafe vs × IsSafe r × (r ≡ sum_ℤ vs)
    into h = elim (Result-cases (assert_all vs)) [
      | inr (x, e) ↦ cc (rw e at h)
      | inl (u, e) ↦ elim (Bool-cases (is_safe_integer (add_from (pos 0) vs))) [
        | inr f ↦ cc (rw (e, f) at h)
        | inl f ↦
            let q : add_from (pos 0) vs ≡ r = cc (rw (e, f) at h) in
            let safe = assert_all_sound vs e in
            let total = test→IsSafe (add_from (pos 0) vs) f in
            (safe, subst IsSafe q total, sym q ∙ (add_up vs fits safe).0 total)
      ]
    ]

    back : All IsSafe vs × IsSafe r × (r ≡ sum_ℤ vs) → add_millimes vs ≡ ok r
    back h =
        let q : add_from (pos 0) vs ≡ r = (add_up vs fits h.0).1 (subst IsSafe h.2 h.1) ∙ sym h.2 in
        rw (assert_all_complete vs h.0, q, IsSafe→is_safe_integer r h.1) refl

-- `multiplyMillimes` returns a value exactly when the price is a safe integer, the quantity a safe
-- integer of zero or more and the product a safe integer; the value is the product.
pub multiply_millimes_exact :
    (p q r : ℤ) → (multiply_millimes p q ≡ ok r) ↔ (IsSafe p × IsAmount q × IsSafe r × (r ≡ p *ℤ q))
unfolding multiply_millimes
multiply_millimes_exact p q r = (λ h. ground arith, λ h. ground arith)

-- Rounding in one division: halves go up, so away from zero above it and towards it below.
round_quotient-pos : (n : ℕ) → round_quotient (pos n) ≡ pos ((n + 5000) / 10000)
unfolding round_quotient ◌+ℤ◌ ◌-ℤ◌
round_quotient-pos n = ground arith

round_quotient-negsuc : (n : ℕ) → round_quotient (negsuc n) ≡ neg (pos ((suc n + 4999) / 10000))
unfolding round_quotient ◌+ℤ◌ ◌-ℤ◌
round_quotient-negsuc n = ground arith

-- The rounding of `calculateBasisPoints` returns the integer nearest to n / 10000, and of two that
-- are equally near the greater one, for amounts of either sign.
pub round_quotient_nearest :
    (n : ℤ)
    → (n -ℤ pos 5000 <ℤ pos 10000 *ℤ round_quotient n)
      × (pos 10000 *ℤ round_quotient n ≤ℤ n +ℤ pos 5000)
round_quotient_nearest (pos n) = rw (round_quotient-pos n) (omega (int_laws, *ℤ_parts))
round_quotient_nearest (negsuc n) =
    rw (round_quotient-negsuc n) (omega (int_laws, *ℤ_parts, neg_parts))

-- For an amount of zero or more and a rate of at most 100000, `calculateBasisPoints` returns the
-- rounded share whenever that is a safe integer.
pub calculate_basis_points-pos :
    (amount rate : ℕ)
    → amount ≤ max_safe_integer
    → rate ≤ 100000
    → (amount * rate + 5000) / 10000 ≤ max_safe_integer
    → calculate_basis_points (pos amount) (pos rate) ≡ ok (pos ((amount * rate + 5000) / 10000))
unfolding calculate_basis_points
calculate_basis_points-pos amount rate a b c =
    rw (pos-*ℤ amount rate, round_quotient-pos (amount * rate)) (ground arith)

pub multiply_millimes-pos :
    (p q : ℕ)
    → p ≤ max_safe_integer
    → q ≤ max_safe_integer
    → p * q ≤ max_safe_integer
    → multiply_millimes (pos p) (pos q) ≡ ok (pos (p * q))
multiply_millimes-pos p q hp hq h =
    (multiply_millimes_exact (pos p) (pos q) (pos (p * q))).1
      ((hp, omega arith), (omega arith, hq), (h, omega arith), sym (pos-*ℤ p q))

pub add_millimes-two :
    (a b : ℤ) → IsSafe a → IsSafe b → IsSafe (a +ℤ b) → add_millimes (a ∷ b ∷ []) ≡ ok (a +ℤ b)
add_millimes-two a b ha hb hs =
    (add_millimes_exact (a ∷ b ∷ []) (a +ℤ b) (inr (a, b, refl))).1
      ((ha, (hb, tt)), hs, omega int_laws)

rounded :
    (amount rate r : ℤ)
    → calculate_basis_points amount rate ≡ ok r
    → r ≡ round_quotient (amount *ℤ rate)
unfolding calculate_basis_points
rounded amount rate r h = ground arith

-- Each function returns the exact value or throws.
pub multiply_millimes-cases :
    (p q : ℤ)
    → (multiply_millimes p q ≡ ok (p *ℤ q)) ⊎ ((e : MoneyError) × (multiply_millimes p q ≡ err e))
multiply_millimes-cases p q = elim (Result-cases (multiply_millimes p q)) [
  | inl (r, e) ↦ inl (e ∙ ap ok ((multiply_millimes_exact p q r).0 e).3)
  | inr x ↦ inr x
]

pub add_millimes-cases :
    (a b : ℤ)
    → (add_millimes (a ∷ b ∷ []) ≡ ok (sum_ℤ (a ∷ b ∷ [])))
      ⊎ ((e : MoneyError) × (add_millimes (a ∷ b ∷ []) ≡ err e))
add_millimes-cases a b = elim (Result-cases (add_millimes (a ∷ b ∷ []))) [
  | inl (r, e) ↦ inl (e ∙ ap ok ((add_millimes_exact (a ∷ b ∷ []) r (inr (a, b, refl))).0 e).2)
  | inr x ↦ inr x
]

pub calculate_basis_points-cases :
    (amount rate : ℤ)
    → (calculate_basis_points amount rate ≡ ok (round_quotient (amount *ℤ rate)))
      ⊎ ((e : MoneyError) × (calculate_basis_points amount rate ≡ err e))
calculate_basis_points-cases amount rate =
    elim (Result-cases (calculate_basis_points amount rate)) [
      | inl (r, e) ↦ inl (e ∙ ap ok (rounded amount rate r e))
      | inr x ↦ inr x
    ]
