-- ===== src/Allocation/Theorems.antt =====
-- `allocateInventory` as a whole.
use tunisia_vape_commerce.Prelude.{
  ==_iff, All, Bool, Bool-cases, List, Option, [], arith, if◌then◌else◌, inl, inr, ltb, ltb→lt,
  none, pos_part, refl, some, ℕ, ◌++◌, ◌+◌, ◌<◌, ◌==◌, ◌∷◌, ◌≡◌, ◌≤◌,
}
use tunisia_vape_commerce.Allocation.{
  Allocation, Bucket, Line, Served, allocate_inventory, serve_line, serve_lines, sort_by,
}
use tunisia_vape_commerce.Allocation.Plan.{
  of_bucket, of_variant, requested_of, serve_line_keeps, serve_line_remaining, serve_line_variant,
  stock, sum_by-append, sum_by-sort, taken, taken-pushed, taken_other,
}

taken-append :
    (p : ℕ → ℕ → Bool) (xs ys : List Allocation) → taken p (xs ++ ys) ≡ taken p xs + taken p ys
taken-append p xs ys =
    sum_by-append (λ a. if p a.inventory_item_id a.variant_id then a.quantity else 0) xs ys

All-append {ℓ κ} :
    {A : Type ℓ} (P : A → Type κ) (xs ys : List A) → All P xs → All P ys → All P (xs ++ ys)
All-append P [] ys h k = k
All-append P (x ∷ xs) ys h k = (h.0, All-append P xs ys h.1 k)

-- How a run over the lines ends: what the plan and the buckets left over satisfy.
abbrev Plans : List Line → List Bucket → Option (List Allocation × List Bucket) → Type 0
Plans ls bs none = (v : ℕ) × (stock (of_variant v) bs < requested_of v ls)
Plans ls bs (some (pushed, bs')) =
    ((p : ℕ → ℕ → Bool) → taken p pushed + stock p bs' ≡ stock p bs)
    × ((v : ℕ) → taken (of_variant v) pushed ≡ requested_of v ls)
    × All (λ a. 0 < a.quantity) pushed

-- The part of a line in a variant's request.
abbrev part_of : ℕ → Line → ℕ
part_of v l = if l.variant_id == v then l.quantity else 0

positive :
    (v : ℕ) (xs : List Allocation)
    → All (λ a. (a.variant_id ≡ v) × (0 < a.quantity)) xs
    → All (λ a. 0 < a.quantity) xs
positive v [] h = tt
positive v (x ∷ xs) h = (h.0.1, positive v xs h.1)

-- A line that is served in full takes its quantity of its own variant and of no other.
line_taken :
    (l : Line) (bs : List Bucket) (v : ℕ)
    → let s = serve_line l.variant_id l.quantity bs in
      s.remaining ≡ 0 → taken (of_variant v) s.pushed ≡ part_of v l
line_taken l bs v h = elim (Bool-cases (l.variant_id == v)) [
  | inl e ↦ rw e (own v ((==_iff l.variant_id v).0 e))
  | inr e ↦ rw e (
      taken_other l.variant_id v (serve_line l.variant_id l.quantity bs).pushed
        (serve_line_variant l.variant_id l.quantity bs) (λ q. ground (arith, q, e)))
]
  where
    own :
        (w : ℕ)
        → l.variant_id ≡ w
        → taken (of_variant w) (serve_line l.variant_id l.quantity bs).pushed ≡ l.quantity
    own w q = rw (← q) (omega (arith, taken-pushed l.variant_id l.quantity bs))

module _ (l : Line) (ls : List Line) (bs : List Bucket) where
  abbrev served : Served
  served = serve_line l.variant_id l.quantity bs

  shortage : 0 < served.remaining → Plans (l ∷ ls) bs none
  shortage h = (l.variant_id, ground (arith, serve_line_remaining l.variant_id l.quantity bs))

  continue_plan :
      served.remaining ≡ 0
      → (rest : Option (List Allocation × List Bucket)) → Plans ls served.buckets rest
      → Plans
          (l ∷ ls)
          bs
          (elim rest [ none ↦ none | some (pushed, bs') ↦ some (served.pushed ++ pushed, bs') ])
  continue_plan h none (v, short) = (
    v,
    omega (
      arith,
      short,
      line_taken l bs v h,
      serve_line_keeps (of_variant v) l.variant_id l.quantity bs,
    ),
  )
  continue_plan h (some (pushed, bs')) (keeps, full, pos_q) = (
    (λ p. omega (
      arith,
      taken-append p served.pushed pushed,
      keeps p,
      serve_line_keeps p l.variant_id l.quantity bs,
    )),
    (λ v.
        omega
          (arith, taken-append (of_variant v) served.pushed pushed, full v, line_taken l bs v h)),
    All-append (λ a. 0 < a.quantity) served.pushed pushed
        (positive l.variant_id served.pushed (serve_line_variant l.variant_id l.quantity bs)) pos_q,
  )

serve_lines-Plans : (ls : List Line) (bs : List Bucket) → Plans ls bs (serve_lines ls bs)
unfolding serve_lines
serve_lines-Plans [] bs = ((λ p. omega arith), (λ v. refl), tt)
serve_lines-Plans (l ∷ ls) bs =
    elim (Bool-cases (ltb 0 (serve_line l.variant_id l.quantity bs).remaining)) [
      | inl e ↦ rw e (shortage l ls bs (ltb→lt _ _ e))
      | inr e ↦ rw e (
          continue_plan l ls bs (ground arith)
            (serve_lines ls (serve_line l.variant_id l.quantity bs).buckets)
            (serve_lines-Plans ls (serve_line l.variant_id l.quantity bs).buckets))
    ]

-- What the outcome of `allocateInventory` says of the lines and buckets as they were handed over.
abbrev pub Allocated : List Line → List Bucket → Option (List Allocation) → Type 0
Allocated ls bs none = (v : ℕ) × (stock (of_variant v) bs < requested_of v ls)
Allocated ls bs (some plan) =
    ((i : ℕ) → taken (of_bucket i) plan ≤ stock (of_bucket i) bs)
    × ((v : ℕ) → taken (of_variant v) plan ≡ requested_of v ls)
    × ((v : ℕ) → requested_of v ls ≤ stock (of_variant v) bs)
    × All (λ a. 0 < a.quantity) plan

-- `allocateInventory` returns a plan that gives every variant exactly the requested quantity, takes
-- from no bucket more than it has and holds no empty allocation, and there was stock enough; or it
-- returns null, and then some variant's buckets hold less than is requested of it.
pub allocate_inventory_lem :
    (ls : List Line) (bs : List Bucket) → Allocated ls bs (allocate_inventory ls bs)
unfolding allocate_inventory
allocate_inventory_lem ls bs =
    conclude (serve_lines (sort_by (λ l. l.variant_id) ls) (sort_by (λ b. b.id) bs))
      (serve_lines-Plans (sort_by (λ l. l.variant_id) ls) (sort_by (λ b. b.id) bs))
  where
    same_stock : (p : ℕ → ℕ → Bool) → stock p (sort_by (λ b. b.id) bs) ≡ stock p bs
    same_stock p =
        sum_by-sort (λ b. if p b.id b.variant_id then pos_part b.available_quantity else 0)
          (λ b. b.id) bs

    same_request : (v : ℕ) → requested_of v (sort_by (λ l. l.variant_id) ls) ≡ requested_of v ls
    same_request v =
        sum_by-sort (λ l. if l.variant_id == v then l.quantity else 0) (λ l. l.variant_id) ls

    conclude :
        (res : Option (List Allocation × List Bucket))
        → Plans (sort_by (λ l. l.variant_id) ls) (sort_by (λ b. b.id) bs) res
        → Allocated ls bs (elim res [ none ↦ none | some (plan, bs') ↦ some plan ])
    conclude none (v, short) = (v, omega (arith, short, same_stock (of_variant v), same_request v))
    conclude (some (plan, bs')) (keeps, full, pos_q) = (
      (λ i. omega (arith, keeps (of_bucket i), same_stock (of_bucket i))),
      (λ v. omega (arith, full v, same_request v)),
      (λ v. omega (arith, full v, same_request v, keeps (of_variant v), same_stock (of_variant v))),
      pos_q,
    )
