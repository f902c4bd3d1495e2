-- ===== src/Inventory/Control.antt =====
-- What `adjust` and `decideAdjustment` promise: dual control, one decision, sound stock.
use tunisia_vape_commerce.Prelude.{
  Bool-cases, Option-cases, Result-cases, arith, false, find, inl, inr, ok, some, ℕ, ◌+ℤ◌, ◌+◌,
  ◌==◌, ◌∷◌, ◌≡◌, ◌≢◌, ◌≤ℤ◌, ◌⊎◌,
}
use tunisia_vape_commerce.Inventory.{adjustment_approval_ttl_ms, calculate_adjustment}
use tunisia_vape_commerce.Inventory.Calculations.{calculate_adjustment_sum}
use tunisia_vape_commerce.Inventory.Store.{
  Adjustment, AdjustmentStatus, Stock, applied, find_item, pending_approval, reserved,
}
use tunisia_vape_commerce.Inventory.Adjustments.{
  AdjustInput, Decided, Decision, adjust, approve, decide_transaction, decided, dispatch_decision,
  is_past, reject,
}

-- A request for an adjustment adds its row and changes nothing else. The row is pending, names the
-- requester and expires 24 hours on, and its delta leaves at least what is reserved of the bucket.
pub adjust_proposes :
    (now actor i : ℕ) (input : AdjustInput) (fresh : ℕ) (s s' : Stock) (row : Adjustment)
    → adjust now actor i input fresh s ≡ ok (s', row)
    → (s' ≡ record s { adjustments = row ∷ s.adjustments })
      × (row.status ≡ pending_approval)
      × (row.requested_by ≡ actor)
      × (row.expires_at ≡ some (now + adjustment_approval_ttl_ms))
      × (reserved now i s ≤ℤ row.on_hand_before +ℤ row.quantity_delta)
unfolding adjust
adjust_proposes now actor i input fresh s s' row h = elim (Option-cases (find_item i s)) [
  | inl e ↦ ground (arith, h, e)
  | inr (cur, e) ↦
      elim (Result-cases
        (calculate_adjustment cur.on_hand input.operation input.quantity input.target)) [
          | inl (a, q) ↦ ground (
            arith,
            h,
            e,
            q,
            calculate_adjustment_sum cur.on_hand input.operation input.quantity input.target a q,
          )
          | inr (x, q) ↦ ground (arith, h, e, q)
        ]
]

-- Nobody decides their own request: a decision that commits is of an adjustment that someone else
-- requested.
pub decide_transaction_dual :
    (now actor id : ℕ) (decision : Decision) (s : Stock) (r : Stock × Decided)
    → decide_transaction now actor id decision s ≡ ok r
    → (p : Adjustment) × (find (λ q. q.id == id) s.adjustments ≡ some p) × (p.requested_by ≢ actor)
unfolding decide_transaction
decide_transaction_dual now actor id decision s r h =
    elim (Option-cases (find (λ q. q.id == id) s.adjustments)) [
      | inl e ↦ cc (rw e at h)
      | inr (p, e) ↦ elim (Bool-cases (p.requested_by == actor)) [
        | inl own ↦ cc (rw (e, own) at h)
        | inr others ↦ (p, e, λ q. ground (arith, others, q))
      ]
    ]

-- Of the decisions that commit, any but an approval, applied, of a pending, unexpired request keeps
-- the buckets and the movements as they are.
pub decide_pending_moves :
    (status : AdjustmentStatus) (now actor : ℕ) (decision : Decision) (p : Adjustment)
    (s s' : Stock) (d : Decided)
    → dispatch_decision status now actor decision p s ≡ ok (s', d)
    → ((status ≡ pending_approval)
        × (decision ≡ approve)
        × (is_past p.expires_at now ≡ false)
        × (d ≡ decided applied))
      ⊎ ((s'.items ≡ s.items) × (s'.movements ≡ s.movements))
unfolding dispatch_decision
decide_pending_moves pending_approval now actor approve p s s' d h = ground (arith, h)
decide_pending_moves pending_approval now actor reject p s s' d h = ground (arith, h)
decide_pending_moves _ now actor approve p s s' d h = ground (arith, h)
decide_pending_moves _ now actor reject p s s' d h = ground (arith, h)
