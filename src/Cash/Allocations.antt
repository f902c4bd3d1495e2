-- ===== src/Cash/Allocations.antt =====
-- A remittance never allocates more of a collection than the cash that it accounts for.
use mathlib.Core.Path.{subst}
use tunisia_vape_commerce.Prelude.{
  +ℤ_comm, ==_iff, All, All-mono, Bool-cases, List, Option-cases, Result-cases, [], any, arith,
  false, includes, inl, inr, is_some, length, ltb_ℤ, map, not, ok, same_id, some, sym, ℕ, ℤ, ◌++◌,
  ◌+ℤ◌, ◌==◌, ◌||◌, ◌∙◌, ◌∷◌, ◌≡◌, ◌≤ℤ◌,
}
use tunisia_vape_commerce.Table.Keys.{All-both, find_row-key}
use tunisia_vape_commerce.Orders.Reservations.{distinct}
use tunisia_vape_commerce.Cash.{
  Collection, Desk, Remittance, RemittanceItem, accountable, discrepancy_of, find_collection,
  is_remittable,
}
use tunisia_vape_commerce.Cash.Remit.{
  Allocated, RemittanceInput, allocated_to, check_allocation, check_allocations, check_input,
  create_remittance, item_of, new_remittance,
}
use tunisia_vape_commerce.Cash.Sums.{Unrepeated, allocated_now, distinct-Unrepeated}

-- What createRemittance leaves allocated to the collection of an allocation.
pub record IsCovered (s s' : Desk) (a : Allocated) : Type 0 where
  pub collection : Collection
  pub limit : ℤ
  pub found : find_collection a.collection_id s ≡ some collection
  pub accounted : accountable (discrepancy_of collection.id s) collection ≡ ok limit
  pub covered : allocated_to a.collection_id s'.items ≤ℤ limit

-- What the check of one allocation leaves room for.
record HasRoom (s : Desk) (a : Allocated) : Type 0 where
  collection : Collection
  limit : ℤ
  found : find_collection a.collection_id s ≡ some collection
  accounted : accountable (discrepancy_of collection.id s) collection ≡ ok limit
  room : allocated_to a.collection_id s.items +ℤ a.amount ≤ℤ limit

check_allocation-HasRoom :
    (from_courier : ℕ) (s : Desk) (a : Allocated) (u : Unit {0})
    → check_allocation from_courier s a ≡ ok u
    → HasRoom s a
unfolding check_allocation
check_allocation-HasRoom from_courier s a u h =
    elim (Option-cases (find_collection a.collection_id s)) [
      | inl e ↦ cc (rw e at h)
      | inr (c, e) ↦ elim (Result-cases (accountable (discrepancy_of c.id s) c)) [
        | inr (x, f) ↦ cc (rw (e, f) at h)
        | inl (limit, f) ↦
            elim (Bool-cases
              (not (same_id c.courier_id (some from_courier)) || not (is_remittable c.status))) [
                | inl g ↦ cc (rw (e, f, g) at h)
                | inr g ↦ elim (Bool-cases (ltb_ℤ limit (allocated_to c.id s.items +ℤ a.amount))) [
                  | inl k ↦ cc (rw (e, f, g, k) at h)
                  | inr k ↦
                      let own : c.id ≡ a.collection_id =
                        find_row-key (λ r. r.id) a.collection_id s.collections e in
                      record {
                        collection = c;
                        limit = limit;
                        found = e;
                        accounted = f;
                        room =
                            subst (λ i. allocated_to i s.items +ℤ a.amount ≤ℤ limit) own
                              (not_beyond limit (allocated_to c.id s.items +ℤ a.amount) k);
                      }
                ]
              ]
      ]
    ]
  where
    not_beyond : (x y : ℤ) → ltb_ℤ x y ≡ false → y ≤ℤ x
    not_beyond x y h = ground (arith, h)

check_allocations-HasRoom :
    (from_courier : ℕ) (rows : List Allocated) (s : Desk) (u : Unit {0})
    → check_allocations from_courier rows s ≡ ok u
    → All (HasRoom s) rows
unfolding check_allocations
check_allocations-HasRoom from_courier [] s u h = tt
check_allocations-HasRoom from_courier (a ∷ rows) s u h =
    elim (Result-cases (check_allocation from_courier s a)) [
      | inr (x, e) ↦ cc (rw e at h)
      | inl (v, e) ↦ (
        check_allocation-HasRoom from_courier s a v e,
        check_allocations-HasRoom from_courier rows s u (rw e at h),
      )
    ]

check_input-Unrepeated :
    (input : RemittanceInput) (u : Unit {0})
    → check_input input ≡ ok u
    → Unrepeated input.allocations
unfolding check_input
check_input-Unrepeated input u h =
    let ids = map (λ (a : Allocated). a.collection_id) input.allocations in
    elim (Bool-cases (length (distinct ids) == length ids)) [
      | inr e ↦ cc (rw e at h)
      | inl e ↦
          distinct-Unrepeated input.allocations ((==_iff (length (distinct ids)) (length ids)).0 e)
    ]

-- After a remittance is created, each collection that it takes from has no more allocated to it, over
-- all remittances, than the cash that it accounts for.
pub create_remittance-IsCovered :
    (fresh : ℕ) (input : RemittanceInput) (s s' : Desk)
    → create_remittance fresh input s ≡ ok s'
    → All (IsCovered s s') input.allocations
unfolding create_remittance
create_remittance-IsCovered fresh input s s' h = elim (Result-cases (check_input input)) [
  | inr (x, e) ↦ cc (rw e at h)
  | inl (u, e) ↦
      let absent =
        any (λ (a : Allocated). not (is_some (find_collection a.collection_id s)))
          input.allocations in
      elim (Bool-cases absent) [
        | inl f ↦ cc (rw (e, f) at h)
        | inr f ↦ elim (Bool-cases (includes input.from_courier s.active_couriers)) [
          | inr g ↦ cc (rw (e, f, g) at h)
          | inl g ↦ elim (Result-cases (check_allocations input.from_courier input.allocations s)) [
            | inr (x, k) ↦ cc (rw (e, f, g, k) at h)
            | inl (v, k) ↦
                let taken =
                  any (λ (r : Remittance). r.remittance_number == input.number) s.remittances in
                elim (Bool-cases taken) [
                  | inl m ↦ cc (rw (e, f, g, k, m) at h)
                  | inr m ↦
                      let items = map (item_of fresh) input.allocations ++ s.items in
                      let q : record s {
                        remittances = new_remittance fresh input ∷ s.remittances;
                        items = items;
                      }
                          ≡ s' =
                        cc (rw (e, f, g, k, m) at h) in
                      subst (λ t. All (IsCovered s t) input.allocations) q
                        (covers items
                          (allocated_now fresh input.allocations s.items
                            (check_input-Unrepeated input u e))
                          (check_allocations-HasRoom input.from_courier input.allocations s v k))
                ]
          ]
        ]
      ]
]
  where
    covers :
        (items : List RemittanceItem)
        → All
            (λ a.
              allocated_to a.collection_id items ≡ a.amount +ℤ allocated_to a.collection_id s.items)
            input.allocations
        → All (HasRoom s) input.allocations
        → All
            (IsCovered s (record s {
              remittances = new_remittance fresh input ∷ s.remittances;
              items = items;
            }))
            input.allocations
    covers items sums rooms =
        All-mono
          (λ a.
            (allocated_to a.collection_id items ≡ a.amount +ℤ allocated_to a.collection_id s.items)
            × HasRoom s a)
          (IsCovered s
            (record s { remittances = new_remittance fresh input ∷ s.remittances; items = items }))
          input.allocations
          (λ a h. record {
            collection = h.1.collection;
            limit = h.1.limit;
            found = h.1.found;
            accounted = h.1.accounted;
            covered =
                subst (λ n. n ≤ℤ h.1.limit)
                  (+ℤ_comm (allocated_to a.collection_id s.items) a.amount ∙ sym h.0) h.1.room;
          })
          (All-both
            (λ a.
              allocated_to a.collection_id items ≡ a.amount +ℤ allocated_to a.collection_id s.items)
            (HasRoom s) input.allocations sums rooms)
