-- ===== src/CashStatus/Runs.antt =====
-- Sequences of transitions of a cash collection and of a remittance.
use tunisia_vape_commerce.Prelude.{Bool, arith, false, suc, true, ℕ, ◌+◌, ◌<◌, ◌≡◌, ◌≤◌}
use tunisia_vape_commerce.CashStatus.{
  CollectionStatus, RemittanceStatus, can_transition_collection, can_transition_remittance,
  collected, collection_remitted, collection_transitions, discrepancy, draft, partially_collected,
  remittance_transitions, submitted,
}

-- The states that a table leads to.
pub data Run (A : Type 0) (allowed : A → A → Bool) : A → A → Type 0 where
  start : {s : A} → Run A allowed s s
  next : {s t u : A} → Run A allowed s t → allowed t u ≡ true → Run A allowed s u

abbrev pub steps : {A : Type 0} {allowed : A → A → Bool} {s t : A} → Run A allowed s t → ℕ
steps start = 0
steps (next run e) = suc (steps run)

-- The states in which the courier's cash was taken.
abbrev pub has_cash : CollectionStatus → Bool
has_cash collected = true
has_cash partially_collected = true
has_cash collection_remitted = true
has_cash _ = false

keeps_cash :
    (s t : CollectionStatus)
    → has_cash s ≡ true
    → can_transition_collection s t ≡ true
    → has_cash t ≡ true
unfolding can_transition_collection collection_transitions
keeps_cash s t h e = ground (arith, h, e)

-- A collection whose cash was taken is never again expected, and never voided, by transitions.
pub collection_keeps_cash :
    {s t : CollectionStatus}
    → has_cash s ≡ true
    → Run CollectionStatus can_transition_collection s t
    → has_cash t ≡ true
collection_keeps_cash h start = h
collection_keeps_cash h (next {t = t} {u = u} run e) =
    keeps_cash t u (collection_keeps_cash h run) e

-- The transitions that a remittance may have left.
abbrev pub left : RemittanceStatus → ℕ
left draft = 3
left submitted = 2
left discrepancy = 1
left _ = 0

goes_on : (s t : RemittanceStatus) → can_transition_remittance s t ≡ true → left t < left s
unfolding can_transition_remittance remittance_transitions
goes_on s t e = ground (arith, e)

-- A remittance ends: from a state with n transitions left at most n happen, and n is 3 for a draft,
-- 2 for one that is submitted, 1 for a discrepancy and 0 for one that is closed.
pub remittance_ends :
    {s t : RemittanceStatus}
    → (run : Run RemittanceStatus can_transition_remittance s t) → steps run + left t ≤ left s
remittance_ends start = omega arith
remittance_ends (next {t = t} {u = u} run e) = omega (arith, remittance_ends run, goes_on t u e)
