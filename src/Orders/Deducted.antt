-- ===== src/Orders/Deducted.antt =====
-- The loop of `confirm` over the locked buckets takes what the order's reservations hold.
use mathlib.Core.Path.{subst}
use tunisia_vape_commerce.Prelude.{
  ==_iff, All, All-mono, Bool, Bool-cases, List, [], ap, arith, false, filter, if◌then◌else◌,
  includes, inl, inr, int_laws, leb, length, map, ok, pos, refl, sym, true, ℕ, ℤ, ◌&&◌, ◌+ℤ◌, ◌-ℤ◌,
  ◌==◌, ◌∙◌, ◌∷◌, ◌≡◌, ◌≢◌,
}
use tunisia_vape_commerce.Allocation.{insert_by, sort_by}
use tunisia_vape_commerce.Table.{HasKey, rows_in}
use tunisia_vape_commerce.Table.Keys.{All-both}
use tunisia_vape_commerce.Inventory.Store.{Item, Reservation, Stock}
use tunisia_vape_commerce.Orders.Confirm.{quantity_on}
use tunisia_vape_commerce.Orders.Reservations.{Locked, distinct, holds_for, lock_active_inventory}

-- What the active reservations of an order hold of a bucket.
abbrev pub held_of : ℕ → ℕ → List Reservation → ℤ
held_of order_id n [] = pos 0
held_of order_id n (r ∷ rs) =
    if holds_for order_id r && (r.inventory_item_id == n)
    then r.quantity +ℤ held_of order_id n rs
    else held_of order_id n rs

-- A bucket has what the order's reservations held of it less.
abbrev pub IsDeducted : ℕ → List Reservation → Item → Item → Type 0
IsDeducted order_id rs a b = (b.id ≡ a.id) × (b.on_hand ≡ a.on_hand -ℤ held_of order_id a.id rs)

swap_sums : (a b c : ℤ) → a +ℤ (b +ℤ c) ≡ b +ℤ (a +ℤ c)
swap_sums a b c = omega int_laws

-- The order of the reservations does not matter.
quantity_on-insert :
    (by : Reservation → ℕ) (n : ℕ) (r : Reservation) (rs : List Reservation)
    → quantity_on n (insert_by by r rs) ≡ quantity_on n (r ∷ rs)
unfolding insert_by quantity_on
quantity_on-insert by n r [] = refl
quantity_on-insert by n r (q ∷ rs) = elim (Bool-cases (leb (by r) (by q))) [
  | inl e ↦ rw e refl
  | inr e ↦
      let rest = quantity_on-insert by n r rs in
      elim (Bool-cases (q.inventory_item_id == n)) [
        | inr f ↦ rw (e, f) rest
        | inl f ↦ elim (Bool-cases (r.inventory_item_id == n)) [
          | inr g ↦ rw (e, f, rest, g) refl
          | inl g ↦ rw (e, f, rest, g) (swap_sums q.quantity r.quantity (quantity_on n rs))
        ]
      ]
]

quantity_on-cons :
    (n : ℕ) (r : Reservation) (rs qs : List Reservation)
    → quantity_on n rs ≡ quantity_on n qs
    → quantity_on n (r ∷ rs) ≡ quantity_on n (r ∷ qs)
unfolding quantity_on
quantity_on-cons n r rs qs h = elim (Bool-cases (r.inventory_item_id == n)) [
  | inl e ↦ rw (e, h) refl
  | inr e ↦ rw e h
]

quantity_on-sort :
    (by : Reservation → ℕ) (n : ℕ) (rs : List Reservation)
    → quantity_on n (sort_by by rs) ≡ quantity_on n rs
unfolding sort_by
quantity_on-sort by n [] = refl
quantity_on-sort by n (r ∷ rs) =
    quantity_on-insert by n r (sort_by by rs)
    ∙ quantity_on-cons n r (sort_by by rs) rs (quantity_on-sort by n rs)

quantity_on-filter :
    (order_id n : ℕ) (rs : List Reservation)
    → quantity_on n (filter (holds_for order_id) rs) ≡ held_of order_id n rs
unfolding quantity_on
quantity_on-filter order_id n [] = refl
quantity_on-filter order_id n (r ∷ rs) =
    let rest = quantity_on-filter order_id n rs in
    elim (Bool-cases (holds_for order_id r)) [
      | inr e ↦ rw e rest
      | inl e ↦ elim (Bool-cases (r.inventory_item_id == n)) [
        | inl f ↦ rw (e, f, rest) refl
        | inr f ↦ rw (e, f) rest
      ]
    ]

includes-distinct : (n : ℕ) (ns : List ℕ) → includes n (distinct ns) ≡ includes n ns
includes-distinct n [] = refl
includes-distinct n (x ∷ ns) =
    let rest = includes-distinct n ns in
    elim (Bool-cases (includes x ns)) [
      | inr e ↦ rw (e, rest) refl
      | inl e ↦ rw (e, rest) (repeated n x ns e)
    ]
  where
    repeated : (n x : ℕ) (ns : List ℕ) → includes x ns ≡ true → includes n ns ≡ includes n (x ∷ ns)
    repeated n x ns e = elim (Bool-cases (n == x)) [
      | inl f ↦ rw f (ap (λ y. includes y ns) ((==_iff n x).0 f) ∙ e)
      | inr f ↦ rw f refl
    ]

-- A bucket that no reservation is on has nothing taken.
quantity_on-none :
    (n : ℕ) (rs : List Reservation)
    → includes n (map (λ (r : Reservation). r.inventory_item_id) rs) ≡ false
    → quantity_on n rs ≡ pos 0
unfolding quantity_on
quantity_on-none n [] h = refl
quantity_on-none n (r ∷ rs) h = elim (Bool-cases (r.inventory_item_id == n)) [
  | inl e ↦ absurd (ground (arith, h, e))
  | inr e ↦ rw e (quantity_on-none n rs (ground (arith, h, e)))
]

-- What a list of buckets takes from the bucket of an identifier.
abbrev pub drawn : (ℕ → ℤ) → List Item → ℕ → ℤ
drawn amount [] n = pos 0
drawn amount (i ∷ is) n = (if i.id == n then amount n else pos 0) +ℤ drawn amount is n

drawn-insert :
    (amount : ℕ → ℤ) (n : ℕ) (i : Item) (is : List Item)
    → drawn amount (insert_by (λ (i : Item). i.id) i is) n ≡ drawn amount (i ∷ is) n
unfolding insert_by
drawn-insert amount n i [] = refl
drawn-insert amount n i (j ∷ is) = elim (Bool-cases (leb i.id j.id)) [
  | inl e ↦ rw e refl
  | inr e ↦
      rw (e, drawn-insert amount n i is)
        (swap_sums (if j.id == n then amount n else pos 0) (if i.id == n then amount n else pos 0)
          (drawn amount is n))
]

drawn-sort :
    (amount : ℕ → ℤ) (n : ℕ) (is : List Item)
    → drawn amount (sort_by (λ (i : Item). i.id) is) n ≡ drawn amount is n
unfolding sort_by
drawn-sort amount n [] = refl
drawn-sort amount n (i ∷ is) =
    drawn-insert amount n i (sort_by (λ (i : Item). i.id) is)
    ∙ ap (λ x. (if i.id == n then amount n else pos 0) +ℤ x) (drawn-sort amount n is)

zero_sum : (a : ℤ) → pos 0 +ℤ a ≡ a
zero_sum a = omega int_laws

sum_zero : (a : ℤ) → a +ℤ pos 0 ≡ a
sum_zero a = omega int_laws

drawn_absent :
    (amount : ℕ → ℤ) (n : ℕ) (p : Item → Bool) (is : List Item)
    → All (λ i. i.id ≢ n) is
    → drawn amount (filter p is) n ≡ pos 0
drawn_absent amount n p [] h = refl
drawn_absent amount n p (i ∷ is) h = elim (Bool-cases (p i)) [
  | inr e ↦ rw e (drawn_absent amount n p is h.1)
  | inl e ↦
      let miss : (i.id == n) ≡ false = ground (arith, h.0) in
      rw (e, miss) (zero_sum (drawn amount (filter p is) n) ∙ drawn_absent amount n p is h.1)
]

same_number : (n : ℕ) → (n == n) ≡ true
same_number n = ground arith

other_id : (m n : ℕ) → n ≢ m → (m == n) ≡ false
other_id m n h = ground (arith, h)

-- Under distinct identifiers, each chosen bucket is drawn from once.
drawn-filter :
    (amount : ℕ → ℤ) (p : Item → Bool) (is : List Item)
    → HasKey (λ (i : Item). i.id) is
    → All (λ a. drawn amount (filter p is) a.id ≡ (if p a then amount a.id else pos 0)) is
drawn-filter amount p [] k = tt
drawn-filter amount p (i ∷ is) k =
    let rest = drawn-filter amount p is k.1 in
    elim (Bool-cases (p i)) [
      | inr e ↦
          subst (λ xs. All (λ a. drawn amount xs a.id ≡ chosen a) (i ∷ is)) (sym (missed e))
            (drawn_absent amount i.id p is k.0 ∙ sym (unpaid e), rest)
      | inl e ↦
          subst (λ xs. All (λ a. drawn amount xs a.id ≡ chosen a) (i ∷ is)) (sym (hit e))
            (own ∙ sym (paid e), others rest)
    ]
  where
    chosen : Item → ℤ
    chosen a = if p a then amount a.id else pos 0

    hit : p i ≡ true → filter p (i ∷ is) ≡ i ∷ filter p is
    hit e = rw e refl

    missed : p i ≡ false → filter p (i ∷ is) ≡ filter p is
    missed e = rw e refl

    paid : p i ≡ true → (if p i then amount i.id else pos 0) ≡ amount i.id
    paid e = rw e refl

    unpaid : p i ≡ false → (if p i then amount i.id else pos 0) ≡ pos 0
    unpaid e = rw e refl

    own :
        (if i.id == i.id then amount i.id else pos 0) +ℤ drawn amount (filter p is) i.id
        ≡ amount i.id
    own = rw (same_number i.id, drawn_absent amount i.id p is k.0) (sum_zero (amount i.id))

    others :
        All (λ a. drawn amount (filter p is) a.id ≡ (if p a then amount a.id else pos 0)) is
        → All
            (λ a.
              (if i.id == a.id then amount a.id else pos 0) +ℤ drawn amount (filter p is) a.id
              ≡ (if p a then amount a.id else pos 0))
            is
    others rest =
        All-mono
          (λ a.
            (a.id ≢ i.id)
            × (drawn amount (filter p is) a.id ≡ (if p a then amount a.id else pos 0)))
          (λ a.
            (if i.id == a.id then amount a.id else pos 0) +ℤ drawn amount (filter p is) a.id
            ≡ (if p a then amount a.id else pos 0))
          is (λ a h. rw (other_id i.id a.id h.0) (zero_sum (drawn amount (filter p is) a.id) ∙ h.1))
          (All-both (λ a. a.id ≢ i.id)
            (λ a. drawn amount (filter p is) a.id ≡ (if p a then amount a.id else pos 0)) is k.0
            rest)

-- What the locked buckets take from each bucket is what the order's reservations hold of it.
pub locked_draws :
    (order_id : ℕ) (s : Stock) (l : Locked)
    → HasKey (λ (i : Item). i.id) s.items
    → lock_active_inventory order_id s ≡ ok l
    → All
        (λ a.
          drawn (λ n. quantity_on n l.reservations) l.items a.id
          ≡ held_of order_id a.id s.reservations)
        s.items
unfolding lock_active_inventory
locked_draws order_id s l k h = elim (Bool-cases (length found == length ids)) [
  | inr e ↦ cc (rw e at h)
  | inl e ↦
      let same : record { reservations = rows; items = found } ≡ l = cc (rw e at h) in
      subst
        (λ (l : Locked).
          All
            (λ a.
              drawn (λ n. quantity_on n l.reservations) l.items a.id
              ≡ held_of order_id a.id s.reservations)
            s.items)
        same each
]
  where
    rows : List Reservation
    rows =
        sort_by (λ (r : Reservation). r.inventory_item_id)
          (sort_by (λ (r : Reservation). r.id) (filter (holds_for order_id) s.reservations))

    ids : List ℕ
    ids = distinct (map (λ (r : Reservation). r.inventory_item_id) rows)

    found : List Item
    found = sort_by (λ (i : Item). i.id) (rows_in (λ (i : Item). i.id) ids s.items)

    amount : ℕ → ℤ
    amount n = quantity_on n rows

    held : (n : ℕ) → amount n ≡ held_of order_id n s.reservations
    held n =
        quantity_on-sort (λ r. r.inventory_item_id) n _
        ∙ quantity_on-sort (λ r. r.id) n _
        ∙ quantity_on-filter order_id n s.reservations

    chosen : (n : ℕ) → (if includes n ids then amount n else pos 0) ≡ amount n
    chosen n = elim (Bool-cases (includes n ids)) [
      | inl e ↦ rw e refl
      | inr e ↦ rw e (sym (quantity_on-none n rows (sym (includes-distinct n _) ∙ e)))
    ]

    each : All (λ a. drawn amount found a.id ≡ held_of order_id a.id s.reservations) s.items
    each =
        All-mono
          (λ a.
            drawn amount (rows_in (λ (i : Item). i.id) ids s.items) a.id
            ≡ (if includes a.id ids then amount a.id else pos 0))
          (λ a. drawn amount found a.id ≡ held_of order_id a.id s.reservations) s.items
          (λ a e. drawn-sort amount a.id _ ∙ e ∙ chosen a.id ∙ held a.id)
          (drawn-filter amount (λ r. includes r.id ids) s.items k)
