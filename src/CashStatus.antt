-- ===== src/CashStatus.antt =====
-- apps/api/src/cash/cash-state-policy.ts: the states of a cash collection, of a courier's
-- remittance and of a discrepancy, with their allowed transitions.
pub mod Runs
use tunisia_vape_commerce.Prelude.{Bool, List, [], any, false, true, ◌∷◌}

pub data CollectionStatus : Type 0 where
  expected collected partially_collected collection_voided collection_remitted : CollectionStatus

pub data RemittanceStatus : Type 0 where
  draft submitted verified discrepancy remittance_rejected remittance_cancelled : RemittanceStatus

pub data DiscrepancyStatus : Type 0 where
  open_case investigating resolved written_off : DiscrepancyStatus

abbrev pub same_collection : CollectionStatus → CollectionStatus → Bool
same_collection expected expected = true
same_collection collected collected = true
same_collection partially_collected partially_collected = true
same_collection collection_voided collection_voided = true
same_collection collection_remitted collection_remitted = true
same_collection _ _ = false

abbrev pub same_remittance : RemittanceStatus → RemittanceStatus → Bool
same_remittance draft draft = true
same_remittance submitted submitted = true
same_remittance verified verified = true
same_remittance discrepancy discrepancy = true
same_remittance remittance_rejected remittance_rejected = true
same_remittance remittance_cancelled remittance_cancelled = true
same_remittance _ _ = false

abbrev pub same_discrepancy : DiscrepancyStatus → DiscrepancyStatus → Bool
same_discrepancy open_case open_case = true
same_discrepancy investigating investigating = true
same_discrepancy resolved resolved = true
same_discrepancy written_off written_off = true
same_discrepancy _ _ = false

-- CASH_COLLECTION_TRANSITIONS
unfoldable pub collection_transitions : CollectionStatus → List CollectionStatus
collection_transitions expected = collected ∷ partially_collected ∷ []
collection_transitions collected = collection_remitted ∷ []
collection_transitions partially_collected = collection_remitted ∷ []
collection_transitions collection_voided = []
collection_transitions collection_remitted = []

-- CASH_REMITTANCE_TRANSITIONS
unfoldable pub remittance_transitions : RemittanceStatus → List RemittanceStatus
remittance_transitions draft = submitted ∷ []
remittance_transitions submitted = verified ∷ discrepancy ∷ []
remittance_transitions verified = []
remittance_transitions discrepancy = verified ∷ []
remittance_transitions remittance_rejected = []
remittance_transitions remittance_cancelled = []

-- CASH_DISCREPANCY_TRANSITIONS
unfoldable pub discrepancy_transitions : DiscrepancyStatus → List DiscrepancyStatus
discrepancy_transitions open_case = investigating ∷ resolved ∷ written_off ∷ []
discrepancy_transitions investigating = resolved ∷ written_off ∷ []
discrepancy_transitions resolved = []
discrepancy_transitions written_off = []

unfoldable pub can_transition_collection : CollectionStatus → CollectionStatus → Bool
unfolding collection_transitions
can_transition_collection from to = any (same_collection to) (collection_transitions from)

unfoldable pub can_transition_remittance : RemittanceStatus → RemittanceStatus → Bool
unfolding remittance_transitions
can_transition_remittance from to = any (same_remittance to) (remittance_transitions from)

unfoldable pub can_transition_discrepancy : DiscrepancyStatus → DiscrepancyStatus → Bool
unfolding discrepancy_transitions
can_transition_discrepancy from to = any (same_discrepancy to) (discrepancy_transitions from)
