-- ===== src/Examples/Cash.antt =====
-- A collection that is remitted, and a remittance that is verified after a discrepancy.
use tunisia_vape_commerce.Prelude.{refl}
use tunisia_vape_commerce.CashStatus.{
  CollectionStatus, RemittanceStatus, can_transition_collection, can_transition_remittance,
  collected, collection_remitted, collection_transitions, discrepancy, draft,
  remittance_transitions, submitted, verified,
}
use tunisia_vape_commerce.CashStatus.Runs.{Run, next, start}

remitted_run : Run CollectionStatus can_transition_collection collected collection_remitted
unfolding can_transition_collection collection_transitions
remitted_run = next {t = collected} start refl

abbrev verified_run : Run RemittanceStatus can_transition_remittance draft verified
unfolding can_transition_remittance remittance_transitions
verified_run = next {t = discrepancy} (next {t = submitted} (next {t = draft} start refl) refl) refl
