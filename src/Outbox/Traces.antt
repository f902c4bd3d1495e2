-- ===== src/Outbox/Traces.antt =====
-- What every interleaving of the workers' transactions keeps.
use tunisia_vape_commerce.Prelude.{All, List, Result-cases, [], inl, inr, ℕ, ◌∷◌, ◌≤◌}
use tunisia_vape_commerce.Outbox.{Tables}
use tunisia_vape_commerce.Outbox.Repository.{claim_available, mark_published, schedule_retry}
use tunisia_vape_commerce.Outbox.Expiry.{process_transaction}
use tunisia_vape_commerce.Outbox.Notifications.{claim_notification, finalize_success}
use tunisia_vape_commerce.Outbox.Deliveries.{
  claim_media_deletion, complete_media_deletion, finalize_failure,
}
use tunisia_vape_commerce.Outbox.Claims.{
  claim_available-AllAdvance, mark_published-AllAdvance, schedule_retry-AllAdvance,
}
use tunisia_vape_commerce.Outbox.Serves.{
  HasKeys, Serves, Serves-HasKeys, Serves-refl, Serves-trans, events-Serves,
}
use tunisia_vape_commerce.Outbox.Served.{claim_notification-Serves}
use tunisia_vape_commerce.Outbox.Finalized.{finalize_success-Serves}
use tunisia_vape_commerce.Outbox.Handled.{
  claim_media_deletion-AllAdvance, complete_media_deletion-AllAdvance, process_transaction-Serves,
}
use tunisia_vape_commerce.Outbox.Actions.{
  Action, claim, claim_media, claim_notice, clock_of, complete_media, defer, fail, handle, mark,
  perform, run, succeed,
}
use tunisia_vape_commerce.Outbox.Failed.{finalize_failure-Serves}

pub perform-Serves :
    {clock : ℕ} (a : Action) (s : Tables)
    → clock_of a ≤ clock
    → HasKeys s
    → Serves clock s (perform a s)
unfolding perform
perform-Serves (claim now owner batch_size lease_ms) s before k =
    events-Serves s (claim_available now owner batch_size lease_ms s.events).0
      (claim_available-AllAdvance now owner batch_size lease_ms s.events k.keyed_events)
perform-Serves (mark now owner published_lease_ms id) s before k =
    events-Serves s (mark_published now owner published_lease_ms id s.events).0
      (mark_published-AllAdvance now owner published_lease_ms id s.events)
perform-Serves (defer now base maximum id) s before k =
    events-Serves s (schedule_retry now base maximum id s.events).0
      (schedule_retry-AllAdvance now base maximum id s.events k.keyed_events)
perform-Serves (handle now owner lease_ms job) s before k =
    elim (Result-cases (process_transaction now owner lease_ms job s)) [
      | inl ((s', r), e) ↦
          rw e (process_transaction-Serves now owner lease_ms job s s' r before k e)
      | inr (x, e) ↦ rw e (Serves-refl s)
    ]
perform-Serves (claim_notice now owner lease_ms provider_for fresh job) s before k =
    elim (Result-cases (claim_notification now owner lease_ms provider_for fresh job s)) [
      | inl ((s', c), e) ↦
          rw e (claim_notification-Serves now owner lease_ms provider_for fresh job s s' c k e)
      | inr (x, e) ↦ rw e (Serves-refl s)
    ]
perform-Serves (succeed work d) s before k = elim (Result-cases (finalize_success work d s)) [
  | inl (s', e) ↦ rw (e, perform) (finalize_success-Serves work d s s' k e)
  | inr (x, e) ↦ rw (e, perform) (Serves-refl s)
]
perform-Serves (fail now base maximum work) s before k =
    elim (Result-cases (finalize_failure now base maximum work s)) [
      | inl ((s', r), e) ↦ rw e (finalize_failure-Serves now base maximum work s s' r k e)
      | inr (x, e) ↦ rw e (Serves-refl s)
    ]
perform-Serves (claim_media now owner lease_ms job) s before k =
    elim (Result-cases (claim_media_deletion now owner lease_ms job s.events)) [
      | inl ((es, c), e) ↦ rw e (
          events-Serves s es
            (claim_media_deletion-AllAdvance now owner lease_ms job s.events es c k.keyed_events e))
      | inr (x, e) ↦ rw e (Serves-refl s)
    ]
perform-Serves (complete_media job) s before k =
    elim (Result-cases (complete_media_deletion job s.events)) [
      | inl (es, e) ↦
          rw (e, perform)
            (events-Serves s es (complete_media_deletion-AllAdvance job s.events es e))
      | inr (x, e) ↦ rw (e, perform) (Serves-refl s)
    ]

-- From tables whose keys are distinct, any sequence of the workers' transactions by a clock, with
-- any arguments: the attempts of an event never fall and never pass its limit, and a processed event
-- stays processed with no further attempt; a notification that is delivered or cancelled stays so;
-- no notification gets a second delivery attempt under way beside another; and the stock stays sound
-- at any time from five seconds after that clock on.
pub run-Serves :
    (clock : ℕ) (actions : List Action) (s : Tables)
    → All (λ a. clock_of a ≤ clock) actions
    → HasKeys s
    → Serves clock s (run actions s)
unfolding run
run-Serves clock [] s before k = Serves-refl s
run-Serves clock (a ∷ actions) s before k =
    let first : Serves clock s (perform a s) = perform-Serves a s before.0 k in
    Serves-trans s (perform a s) (run actions (perform a s)) first
      (run-Serves clock actions (perform a s) before.1 (Serves-HasKeys s (perform a s) first k))
