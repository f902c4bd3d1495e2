-- ===== src/Allocation.antt =====
-- apps/api/src/checkout/checkout-order.helpers.ts, `allocateInventory`: which stock buckets serve
-- an order's lines. Identifiers are database keys that are compared only, so they are naturals, in
-- the order of `localeCompare`; quantities are database integers. A bucket's quantity may be
-- negative, a requested one is a validated DTO field of at least 1.
pub mod Plan
pub mod Theorems
use tunisia_vape_commerce.Prelude.{
  Bool, List, Option, [], if◌then◌else◌, leb, ltb, ltb_ℤ, none, not, pos, pos_part, some, ℕ, ℤ,
  ◌&&◌, ◌++◌, ◌-ℤ◌, ◌-◌, ◌==◌, ◌∷◌,
}

-- InventoryAllocationBucket
pub record Bucket : Type 0 where
  pub id : ℕ
  pub variant_id : ℕ
  pub available_quantity : ℤ

-- One of the requested lines.
pub record Line : Type 0 where
  pub variant_id : ℕ
  pub quantity : ℕ

-- InventoryAllocation
pub record Allocation : Type 0 where
  pub inventory_item_id : ℕ
  pub variant_id : ℕ
  pub quantity : ℕ

-- Stable sorting by a key, in the order of `localeCompare`.
unfoldable pub insert_by {ℓ} : {A : Type ℓ} → (A → ℕ) → A → List A → List A
insert_by key x [] = x ∷ []
insert_by key x (y ∷ ys) = if leb (key x) (key y) then x ∷ y ∷ ys else y ∷ insert_by key x ys

unfoldable pub sort_by {ℓ} : {A : Type ℓ} → (A → ℕ) → List A → List A
unfolding insert_by
sort_by key [] = []
sort_by key (x ∷ xs) = insert_by key x (sort_by key xs)

-- What is left to serve of a line, the buckets as the loop leaves them, and the allocations pushed.
pub record Served : Type 0 where
  pub remaining : ℕ
  pub buckets : List Bucket
  pub pushed : List Allocation

-- Whether the bucket is one the inner loop does not skip.
abbrev pub serves : ℕ → Bucket → Bool
serves variant b = (b.variant_id == variant) && ltb_ℤ (pos 0) b.available_quantity

-- Math.min
abbrev pub min_ℕ : ℕ → ℕ → ℕ
min_ℕ a b = if leb a b then a else b

abbrev pub keep_bucket : Bucket → Served → Served
keep_bucket b s = record s { buckets = b ∷ s.buckets }

abbrev pub take_bucket : Bucket → ℕ → Served → Served
take_bucket b quantity s = record s {
  buckets = record b { available_quantity = b.available_quantity -ℤ pos quantity } ∷ s.buckets;
  pushed =
      record { inventory_item_id = b.id; variant_id = b.variant_id; quantity = quantity }
      ∷ s.pushed;
}

-- The inner loop, for the quantity that remains; `break` leaves the later buckets alone. Only with
-- nothing requested can a bucket be reached with nothing remaining: it pushes nothing and breaks.
unfoldable pub serve_line : ℕ → ℕ → List Bucket → Served
serve_line variant remaining [] = record { remaining = remaining; buckets = []; pushed = [] }
serve_line variant remaining (b ∷ bs) =
    let quantity = min_ℕ remaining (pos_part b.available_quantity) in
    let skip = keep_bucket b (serve_line variant remaining bs) in
    let next = take_bucket b quantity (serve_line variant (remaining - quantity) bs) in
    let stop : Served = record { remaining = remaining; buckets = b ∷ bs; pushed = [] } in
    let last = take_bucket b quantity (record { remaining = 0; buckets = bs; pushed = [] }) in
    if not (serves variant b)
    then skip
    else if remaining == 0
    then stop
    else if (remaining - quantity) == 0
    then last
    else next

-- The outer loop over the sorted lines.
unfoldable pub serve_lines : List Line → List Bucket → Option (List Allocation × List Bucket)
serve_lines [] bs = some ([], bs)
serve_lines (l ∷ ls) bs =
    let s = serve_line l.variant_id l.quantity bs in
    let rest = serve_lines ls s.buckets in
    if ltb 0 s.remaining
    then none
    else elim rest [ none ↦ none | some (pushed, bs') ↦ some (s.pushed ++ pushed, bs') ]

unfoldable pub allocate_inventory : List Line → List Bucket → Option (List Allocation)
allocate_inventory requested buckets =
    elim (serve_lines (sort_by (λ l. l.variant_id) requested) (sort_by (λ b. b.id) buckets)) [
      | none ↦ none
      | some (pushed, bs) ↦ some pushed
    ]
