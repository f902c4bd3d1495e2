-- ===== src/Allocation/Plan.antt =====
-- What an allocation plan promises: every line is served in full from its variant's buckets, no
-- bucket gives more than it has, and a plan is missing only when the stock is.
use tunisia_vape_commerce.Prelude.{
  All, Bool, Bool-cases, List, [], arith, if◌then◌else◌, inl, inr, leb, pos, pos_part, refl, sum_by,
  ℕ, ◌++◌, ◌+◌, ◌-ℤ◌, ◌-◌, ◌<◌, ◌==◌, ◌∙◌, ◌∷◌, ◌≡◌, ◌≢◌, ◌≤◌,
}
use tunisia_vape_commerce.Allocation.{
  Allocation, Bucket, Line, insert_by, min_ℕ, serve_line, sort_by,
}

-- Stock in the buckets, and quantity in the allocations, that a test on bucket and variant picks.
abbrev pub stock : (ℕ → ℕ → Bool) → List Bucket → ℕ
stock p = sum_by (λ b. if p b.id b.variant_id then pos_part b.available_quantity else 0)

abbrev pub taken : (ℕ → ℕ → Bool) → List Allocation → ℕ
taken p = sum_by (λ a. if p a.inventory_item_id a.variant_id then a.quantity else 0)

abbrev pub of_variant : ℕ → ℕ → ℕ → Bool
of_variant v id variant = variant == v

abbrev pub of_bucket : ℕ → ℕ → ℕ → Bool
of_bucket i id variant = id == i

-- Quantity that the lines request of a variant.
abbrev pub requested_of : ℕ → List Line → ℕ
requested_of v = sum_by (λ l. if l.variant_id == v then l.quantity else 0)

pub sum_by-append {ℓ} :
    {A : Type ℓ} (f : A → ℕ) (xs ys : List A) → sum_by f (xs ++ ys) ≡ sum_by f xs + sum_by f ys
sum_by-append f [] ys = omega arith
sum_by-append f (x ∷ xs) ys = omega (arith, sum_by-append f xs ys)

sum_by-insert {ℓ} :
    {A : Type ℓ} (f key : A → ℕ) (x : A) (ys : List A)
    → sum_by f (insert_by key x ys) ≡ f x + sum_by f ys
unfolding insert_by
sum_by-insert f key x [] = refl
sum_by-insert f key x (y ∷ ys) = elim (Bool-cases (leb (key x) (key y))) [
  | inl e ↦ rw e
  | inr e ↦ rw e (omega (arith, sum_by-insert f key x ys))
]

pub sum_by-sort {ℓ} :
    {A : Type ℓ} (f key : A → ℕ) (xs : List A) → sum_by f (sort_by key xs) ≡ sum_by f xs
unfolding sort_by
sum_by-sort f key [] = refl
sum_by-sort f key (x ∷ xs) =
    sum_by-insert f key x (sort_by key xs) ∙ omega (arith, sum_by-sort f key xs)

taken_quantity :
    (b : Bucket) (q : ℕ)
    → q ≤ pos_part b.available_quantity
    → pos_part (b.available_quantity -ℤ pos q) + q ≡ pos_part b.available_quantity
unfolding ◌-ℤ◌
taken_quantity b q h = ground arith

-- What a line takes leaves the buckets, whatever part of them is looked at.
pub serve_line_keeps :
    (p : ℕ → ℕ → Bool) (v r : ℕ) (bs : List Bucket)
    → let s = serve_line v r bs in taken p s.pushed + stock p s.buckets ≡ stock p bs
unfolding serve_line
serve_line_keeps p v r [] = refl
serve_line_keeps p v r (b ∷ bs) =
    let q = min_ℕ r (pos_part b.available_quantity) in
    ground (arith, serve_line_keeps p v r bs, serve_line_keeps p v (r - q) bs, taken_quantity b q)

pub serve_line_variant :
    (v r : ℕ) (bs : List Bucket)
    → let s = serve_line v r bs in All (λ a. (a.variant_id ≡ v) × (0 < a.quantity)) s.pushed
unfolding serve_line
serve_line_variant v r [] = tt
serve_line_variant v r (b ∷ bs) =
    let q = min_ℕ r (pos_part b.available_quantity) in
    ground (arith, serve_line_variant v r bs, serve_line_variant v (r - q) bs)

-- A line leaves unserved exactly what its variant's stock does not cover.
pub serve_line_remaining :
    (v r : ℕ) (bs : List Bucket) → (serve_line v r bs).remaining ≡ r - stock (of_variant v) bs
unfolding serve_line
serve_line_remaining v r [] = omega arith
serve_line_remaining v r (b ∷ bs) =
    let q = min_ℕ r (pos_part b.available_quantity) in
    ground (arith, serve_line_remaining v r bs, serve_line_remaining v (r - q) bs)

pub taken-pushed :
    (v r : ℕ) (bs : List Bucket)
    → let s = serve_line v r bs in taken (of_variant v) s.pushed + s.remaining ≡ r
unfolding serve_line
taken-pushed v r [] = omega arith
taken-pushed v r (b ∷ bs) =
    let q = min_ℕ r (pos_part b.available_quantity) in
    ground (arith, taken-pushed v r bs, taken-pushed v (r - q) bs)

pub taken_other :
    (v w : ℕ) (as' : List Allocation)
    → All (λ a. (a.variant_id ≡ v) × (0 < a.quantity)) as'
    → w ≢ v
    → taken (of_variant w) as' ≡ 0
taken_other v w [] h n = refl
taken_other v w (a ∷ as') h n = ground (arith, h.0.0, n, taken_other v w as' h.1 n)
