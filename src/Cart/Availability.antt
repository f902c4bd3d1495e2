-- ===== src/Cart/Availability.antt =====
-- What a cart says is available.
use mathlib.Core.Path.{subst}
use tunisia_vape_commerce.Prelude.{
  All, Bool-cases, List, Result-cases, [], ap, arith, false, inl, inr, int_laws, leb_ℤ, ltb_ℤ,
  neg_part, not, ok, pos, pos_part, sym, ℕ, ℤ, ◌+ℤ◌, ◌+◌, ◌-ℤ◌, ◌||◌, ◌∙◌, ◌∷◌, ◌≡◌, ◌≤ℤ◌, ◌≤◌,
}
use tunisia_vape_commerce.Cart.{
  Slot, add_slot, available_cart_quantity, available_from, reserve_from,
}
use tunisia_vape_commerce.Double.{
  IsSafe, add_double, add_double-exact, add_double-safe, is_safe_integer, max_safe_integer,
  sub_double, sub_double-exact,
}
use tunisia_vape_commerce.Money.Sums.{no_neg, sum_ℤ}

-- What is on hand and not reserved, over all the buckets.
abbrev pub unreserved : List Slot → ℤ
unreserved [] = pos 0
unreserved (i ∷ is) = i.on_hand -ℤ sum_ℤ i.reservations +ℤ unreserved is

-- The pieces on hand, over all the buckets.
abbrev pub held : List Slot → ℕ
held [] = 0
held (i ∷ is) = pos_part i.on_hand + held is

assoc_sum : (a b c : ℤ) → a +ℤ b +ℤ c ≡ a +ℤ (b +ℤ c)
assoc_sum a b c = omega int_laws

zero_sum : (a : ℤ) → a +ℤ pos 0 ≡ a
zero_sum a = omega int_laws

sum_zero : (a : ℤ) → pos 0 +ℤ a ≡ a
sum_zero a = omega int_laws

add_sub : (t a r : ℤ) → t +ℤ a -ℤ r ≡ t +ℤ (a -ℤ r)
add_sub t a r = omega int_laws

add_unreserved : (a r u : ℤ) → r ≤ℤ a → pos 0 ≤ℤ u → pos 0 ≤ℤ a -ℤ r +ℤ u
add_unreserved a r u h k = omega (int_laws, h, k)

grown : (q x r : ℤ) → pos 0 ≤ℤ x → q +ℤ x ≤ℤ r → q ≤ℤ r
grown q x r h k = omega (int_laws, h, k)

above : (x : ℤ) → not (is_safe_integer x) || leb_ℤ x (pos 0) ≡ false → pos 0 ≤ℤ x
above x h = ground (arith, h)

same_le : (q r : ℤ) → q ≡ r → q ≤ℤ r
same_le q r e = subst (λ x. q ≤ℤ x) e (omega arith)

reserve_from_lem :
    (q : ℤ) (rs : List ℤ) (r : ℤ) → reserve_from q rs ≡ ok r → (r ≡ q +ℤ sum_ℤ rs) × (q ≤ℤ r)
unfolding reserve_from
reserve_from_lem q [] r h = let e : q ≡ r = cc in (sym e ∙ sym (zero_sum q), same_le q r e)
reserve_from_lem q (x ∷ rs) r h = elim (Bool-cases (not (is_safe_integer x) || leb_ℤ x (pos 0))) [
  | inl e ↦ cc (rw e at h)
  | inr e ↦ elim (Bool-cases (is_safe_integer (add_double q x))) [
    | inr f ↦ cc (rw (e, f) at h)
    | inl f ↦
        let step : add_double q x ≡ q +ℤ x = add_double-exact q x f in
        let (r_is, le) = reserve_from_lem (add_double q x) rs r (rw (e, f) at h) in
        (
          r_is ∙ ap (λ y. y +ℤ sum_ℤ rs) step ∙ assoc_sum q x (sum_ℤ rs),
          grown q x r (above x e) (subst (λ y. y ≤ℤ r) step le),
        )
  ]
]

-- What is left of a bucket.
abbrev left_of : Slot → ℤ
left_of i = i.on_hand -ℤ sum_ℤ i.reservations

within-IsSafe :
    (t a : ℤ)
    → pos 0 ≤ℤ t
    → pos 0 ≤ℤ a
    → pos_part t + pos_part a ≤ max_safe_integer
    → IsSafe (t +ℤ a)
within-IsSafe t a ht ha h =
    let z : neg_part (t +ℤ a) ≡ 0 = no_neg (t +ℤ a) (omega (int_laws, ht, ha)) in
    (omega (int_laws, h, z), omega (int_laws, z))

covers_test : (a r : ℤ) → ltb_ℤ a r ≡ false → r ≤ℤ a
covers_test a r h = ground (arith, h)

on_hand_test : (a : ℤ) → not (is_safe_integer a) || ltb_ℤ a (pos 0) ≡ false → pos 0 ≤ℤ a
on_hand_test a h = ground (arith, h)

-- A bucket that is added covers what is reserved of it, and its sums are exact as long as the pieces
-- on hand are few enough.
add_slot_lem :
    (t : ℤ) (i : Slot) (n : ℤ)
    → pos 0 ≤ℤ t
    → pos_part t + pos_part i.on_hand ≤ max_safe_integer
    → add_slot t i ≡ ok n
    → (n ≡ t +ℤ left_of i) × (sum_ℤ i.reservations ≤ℤ i.on_hand) × (pos 0 ≤ℤ sum_ℤ i.reservations)
unfolding add_slot
add_slot_lem t i n ht few h =
    elim (Bool-cases (not (is_safe_integer i.on_hand) || ltb_ℤ i.on_hand (pos 0))) [
      | inl a ↦ cc (rw a at h)
      | inr a ↦ elim (Result-cases (reserve_from (pos 0) i.reservations)) [
        | inr (x, e) ↦ cc (rw (a, e) at h)
        | inl (r, e) ↦
            let (sum_is, positive_sum) = reserve_from_lem (pos 0) i.reservations r e in
            let r_is : r ≡ sum_ℤ i.reservations = sum_is ∙ sum_zero (sum_ℤ i.reservations) in
            let next = sub_double (add_double t i.on_hand) r in
            elim (Bool-cases (ltb_ℤ i.on_hand r)) [
              | inl f ↦ cc (rw (a, e, f) at h)
              | inr f ↦ elim (Bool-cases (is_safe_integer next)) [
                | inr g ↦ cc (rw (a, e, f, g) at h)
                | inl g ↦
                    let q : next ≡ n = cc (rw (a, e, f, g) at h) in
                    let first : add_double t i.on_hand ≡ t +ℤ i.on_hand =
                      add_double-safe t i.on_hand
                        (within-IsSafe t i.on_hand ht (on_hand_test i.on_hand a) few) in
                    (
                      sym q
                          ∙ sub_double-exact (add_double t i.on_hand) r g
                          ∙ ap (λ x. x -ℤ r) first
                          ∙ add_sub t i.on_hand r
                          ∙ ap (λ x. t +ℤ (i.on_hand -ℤ x)) r_is,
                      subst (λ x. x ≤ℤ i.on_hand) r_is (covers_test i.on_hand r f),
                      subst (λ x. pos 0 ≤ℤ x) r_is positive_sum,
                    )
              ]
            ]
      ]
    ]

-- No more is reserved of a bucket than is on hand.
abbrev pub CoversReserved : Slot → Type 0
CoversReserved i = sum_ℤ i.reservations ≤ℤ i.on_hand

stays_few :
    (t a r : ℤ) (others : ℕ)
    → pos 0 ≤ℤ t
    → pos 0 ≤ℤ r
    → r ≤ℤ a
    → pos_part t + (pos_part a + others) ≤ max_safe_integer
    → pos_part (t +ℤ (a -ℤ r)) + others ≤ max_safe_integer
stays_few t a r others ht hr h few =
    let z : neg_part (t +ℤ (a -ℤ r)) ≡ 0 = no_neg (t +ℤ (a -ℤ r)) (omega (int_laws, ht, h)) in
    let y : neg_part a ≡ 0 = no_neg a (omega (arith, hr, h)) in omega (int_laws, ht, hr, few, z, y)

adds_left : (t a r : ℤ) → pos 0 ≤ℤ t → r ≤ℤ a → pos 0 ≤ℤ t +ℤ (a -ℤ r)
adds_left t a r ht h = omega (int_laws, ht, h)

available_from_lem :
    (t : ℤ) (is : List Slot) (n : ℤ)
    → pos 0 ≤ℤ t
    → pos_part t + held is ≤ max_safe_integer
    → available_from t is ≡ ok n
    → (n ≡ t +ℤ unreserved is) × All CoversReserved is
unfolding available_from
available_from_lem t [] n ht few h = let e : t ≡ n = cc in (sym e ∙ sym (zero_sum t), tt)
available_from_lem t (i ∷ is) n ht few h = elim (Result-cases (add_slot t i)) [
  | inr (x, e) ↦ cc (rw e at h)
  | inl (m, e) ↦
      let r = sum_ℤ i.reservations in
      let (m_is, covers, some_reserved) = add_slot_lem t i m ht (omega (arith, few)) e in
      let (n_is, rest) =
        available_from_lem m is n
          (subst (λ x. pos 0 ≤ℤ x) (sym m_is) (adds_left t i.on_hand r ht covers))
          (subst (λ x. pos_part x + held is ≤ max_safe_integer) (sym m_is)
            (stays_few t i.on_hand r (held is) ht some_reserved covers few))
          (rw e at h) in
      (
        n_is ∙ ap (λ x. x +ℤ unreserved is) m_is ∙ assoc_sum t (left_of i) (unreserved is),
        (covers, rest),
      )
]

unreserved_positive : (is : List Slot) → All CoversReserved is → pos 0 ≤ℤ unreserved is
unreserved_positive [] h = ground arith
unreserved_positive (i ∷ is) h =
    add_unreserved i.on_hand (sum_ℤ i.reservations) (unreserved is) h.0 (unreserved_positive is h.1)

-- As long as the pieces on hand over all the buckets are at most 2^53 - 1, no sum of doubles is
-- rounded: an available quantity that a cart computes is what is on hand less what is reserved, over
-- all the buckets; it is never negative, and no bucket had more reserved than on hand.
pub available_cart_quantity_lem :
    (is : List Slot) (n : ℤ)
    → held is ≤ max_safe_integer
    → available_cart_quantity is ≡ ok n
    → (n ≡ unreserved is) × (pos 0 ≤ℤ n) × All CoversReserved is
unfolding available_cart_quantity
available_cart_quantity_lem is n few h =
    let (n_is, covers) = available_from_lem (pos 0) is n (omega arith) (omega (arith, few)) h in
    let same : n ≡ unreserved is = n_is ∙ sum_zero (unreserved is) in
    (same, subst (λ x. pos 0 ≤ℤ x) (sym same) (unreserved_positive is covers), covers)
