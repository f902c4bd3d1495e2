-- ===== src/Money/Sums.antt =====
-- The sums of `addMillimes`, added up double by double, against the exact sums.
use mathlib.Core.Path.{subst}
use tunisia_vape_commerce.Prelude.{
  All, Bool-cases, List, [], ap, arith, false, inl, inr, int_laws, neg_part, negsuc, pos, pos_part,
  refl, sym, ℤ, ◌+ℤ◌, ◌<◌, ◌∙◌, ◌∷◌, ◌≡◌, ◌≤ℤ◌, ◌⊎◌,
}
use tunisia_vape_commerce.Double.{
  IsSafe, IsSafe-add_double, add_double, add_double-beyond, add_double-safe, is_safe_integer,
  max_safe_integer, test→IsSafe,
}
use tunisia_vape_commerce.Money.{add_from}

abbrev pub sum_ℤ : List ℤ → ℤ
sum_ℤ [] = pos 0
sum_ℤ (v ∷ vs) = v +ℤ sum_ℤ vs

-- Zero or more, each.
abbrev pub AllPositive : List ℤ → Type 0
AllPositive = All λ v. pos 0 ≤ℤ v

-- What the code adds up: amounts of zero or more, in any number, or two amounts of any sign.
abbrev pub IsSummand : List ℤ → Type 0
IsSummand vs = AllPositive vs ⊎ ((a : ℤ) × (b : ℤ) × (vs ≡ a ∷ b ∷ []))

sum_positive : (a b : ℤ) → pos 0 ≤ℤ a → pos 0 ≤ℤ b → pos 0 ≤ℤ a +ℤ b
sum_positive a b ha hb = omega (int_laws, ha, hb)

pub no_neg : (v : ℤ) → pos 0 ≤ℤ v → neg_part v ≡ 0
no_neg (pos n) h = refl
no_neg (negsuc n) h = absurd (omega (arith, h))

IsSafe-left :
    (a b c : ℤ) → pos 0 ≤ℤ a → pos 0 ≤ℤ c → IsSafe (a +ℤ b +ℤ c) → pos 0 ≤ℤ b → IsSafe (a +ℤ b)
IsSafe-left a b c ha hc h hb =
    let z : neg_part (a +ℤ b) ≡ 0 = no_neg (a +ℤ b) (sum_positive a b ha hb) in
    let y : neg_part (a +ℤ b +ℤ c) ≡ 0 =
      no_neg (a +ℤ b +ℤ c) (sum_positive (a +ℤ b) c (sum_positive a b ha hb) hc) in
    (omega (int_laws, hc, h.0, z, y), omega (int_laws, z))

sum_ℤ-positive : (vs : List ℤ) → AllPositive vs → pos 0 ≤ℤ sum_ℤ vs
sum_ℤ-positive [] h = omega arith
sum_ℤ-positive (v ∷ vs) h = omega (int_laws, h.0, sum_ℤ-positive vs h.1)

sum_assoc : (a b c : ℤ) → a +ℤ b +ℤ c ≡ a +ℤ (b +ℤ c)
sum_assoc a b c = omega int_laws

sum_zero : (a : ℤ) → a +ℤ pos 0 ≡ a
sum_zero a = omega int_laws

zero_sum : (a : ℤ) → pos 0 +ℤ a ≡ a
zero_sum a = omega int_laws

-- A sum of amounts of zero or more that is safe had no step rounded.
add_from-exact :
    (acc : ℤ) (vs : List ℤ)
    → pos 0 ≤ℤ acc
    → AllPositive vs
    → IsSafe (acc +ℤ sum_ℤ vs)
    → add_from acc vs ≡ acc +ℤ sum_ℤ vs
unfolding add_from
add_from-exact acc [] ha h s = sym (sum_zero acc)
add_from-exact acc (v ∷ vs) ha h s =
    let s' : IsSafe (acc +ℤ v +ℤ sum_ℤ vs) = subst IsSafe (sym (sum_assoc acc v (sum_ℤ vs))) s in
    let step : add_double acc v ≡ acc +ℤ v =
      add_double-safe acc v (IsSafe-left acc v (sum_ℤ vs) ha (sum_ℤ-positive vs h.1) s' h.0) in
    ap (λ x. add_from x vs) step
    ∙ add_from-exact (acc +ℤ v) vs (sum_positive acc v ha h.0) h.1 s'
    ∙ sum_assoc acc v (sum_ℤ vs)

beyond_grows :
    (a v : ℤ)
    → max_safe_integer < pos_part a
    → pos 0 ≤ℤ v
    → neg_part a ≡ 0
    → max_safe_integer < pos_part (a +ℤ v)
beyond_grows a v h hv z = omega (int_laws, h, hv, z)

unsafe_positive : (v : ℤ) → pos 0 ≤ℤ v → is_safe_integer v ≡ false → max_safe_integer < pos_part v
unsafe_positive (pos n) h e = ground (arith, e)
unsafe_positive (negsuc n) h e = absurd (omega (arith, h))

no_neg_part : (v : ℤ) → max_safe_integer < pos_part v → neg_part v ≡ 0
no_neg_part (pos n) h = refl
no_neg_part (negsuc n) h = absurd (omega (arith, h))

-- Once a step passed the safe integers, the sum stays beyond them.
add_from-beyond :
    (acc : ℤ) (vs : List ℤ)
    → max_safe_integer < pos_part acc
    → AllPositive vs
    → max_safe_integer < pos_part (add_from acc vs)
unfolding add_from
add_from-beyond acc [] h p = h
add_from-beyond acc (v ∷ vs) h p =
    add_from-beyond (add_double acc v) vs
      (add_double-beyond acc v (beyond_grows acc v h p.0 (no_neg_part acc h))) p.1

-- A sum of amounts of zero or more that comes out safe is the exact one.
add_from-safe :
    (acc : ℤ) (vs : List ℤ)
    → pos 0 ≤ℤ acc
    → AllPositive vs
    → IsSafe (add_from acc vs)
    → add_from acc vs ≡ acc +ℤ sum_ℤ vs
unfolding add_from
add_from-safe acc [] ha p s = sym (sum_zero acc)
add_from-safe acc (v ∷ vs) ha p s = elim (Bool-cases (is_safe_integer (acc +ℤ v))) [
  | inl e ↦
      let step : add_double acc v ≡ acc +ℤ v = add_double-safe acc v (test→IsSafe (acc +ℤ v) e) in
      ap (λ x. add_from x vs) step
      ∙ add_from-safe (acc +ℤ v) vs (sum_positive acc v ha p.0) p.1
          (subst (λ x. IsSafe (add_from x vs)) step s)
      ∙ sum_assoc acc v (sum_ℤ vs)
  | inr e ↦ absurd (
      omega (
        arith,
        s.0,
        add_from-beyond (add_double acc v) vs
            (add_double-beyond acc v (unsafe_positive (acc +ℤ v) (sum_positive acc v ha p.0) e))
            p.1,
      ))
]

-- What is safe of the sum that the code computes and of the exact one, and that they agree.
abbrev pub AddsUp : List ℤ → ℤ → Type 0
AddsUp vs total = (IsSafe total → total ≡ sum_ℤ vs) × (IsSafe (sum_ℤ vs) → total ≡ sum_ℤ vs)

two_add_up : (a b : ℤ) → IsSafe a → AddsUp (a ∷ b ∷ []) (add_from (pos 0) (a ∷ b ∷ []))
unfolding add_from
two_add_up a b sa =
    let first : add_double (pos 0) a ≡ a =
      add_double-safe (pos 0) a (subst IsSafe (sym (zero_sum a)) sa) ∙ zero_sum a in
    let same : a +ℤ b ≡ sum_ℤ (a ∷ b ∷ []) = ap (λ x. a +ℤ x) (sym (sum_zero b)) in
    rw first (
      (λ s. add_double-safe a b (IsSafe-add_double a b s) ∙ same),
      λ s. add_double-safe a b (subst IsSafe (sym same) s) ∙ same,
    )

pub add_up : (vs : List ℤ) → IsSummand vs → All IsSafe vs → AddsUp vs (add_from (pos 0) vs)
add_up vs (inl p) safe = (
  (λ s. add_from-safe (pos 0) vs (omega arith) p s ∙ zero_sum (sum_ℤ vs)),
  λ s.
      add_from-exact (pos 0) vs (omega arith) p (subst IsSafe (sym (zero_sum (sum_ℤ vs))) s)
      ∙ zero_sum (sum_ℤ vs),
)
add_up vs (inr (a, b, e)) safe =
    subst (λ l. AddsUp l (add_from (pos 0) l)) (sym e)
      (two_add_up a b (subst (All IsSafe) e safe).0)
