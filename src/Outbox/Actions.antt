-- ===== src/Outbox/Actions.antt =====
-- The worker as a sequence of transactions: several instances, and the poll and the handlers of one,
-- interleave in any order, each transaction at a time of its own.
use tunisia_vape_commerce.Prelude.{List, Result, [], err, ok, ℕ, ◌∷◌}
use tunisia_vape_commerce.Outbox.{Channel, Job, OutboxEvent, Provider, Tables, WorkerError}
use tunisia_vape_commerce.Outbox.Repository.{claim_available, mark_published, schedule_retry}
use tunisia_vape_commerce.Outbox.Expiry.{defer_job, process_transaction}
use tunisia_vape_commerce.Outbox.Notifications.{
  DeliveryResult, Work, claim_notification, finalize_success,
}
use tunisia_vape_commerce.Outbox.Deliveries.{
  claim_media_deletion, complete_media_deletion, finalize_failure,
}

pub data Action : Type 0 where
  claim : ℕ → ℕ → ℕ → ℕ → Action
  mark : ℕ → ℕ → ℕ → ℕ → Action
  defer : ℕ → ℕ → ℕ → ℕ → Action
  handle : ℕ → ℕ → ℕ → Job → Action
  claim_notice : ℕ → ℕ → ℕ → (Channel → Provider) → ℕ → Job → Action
  succeed : Work → DeliveryResult → Action
  fail : ℕ → ℕ → ℕ → Work → Action
  claim_media : ℕ → ℕ → ℕ → Job → Action
  complete_media : Job → Action

-- The clock that a transaction reads, where the stock depends on it.
abbrev pub clock_of : Action → ℕ
clock_of (handle now owner lease_ms job) = now
clock_of _ = 0

-- A transaction that throws rolls back.
abbrev pub after : {A : Type 0} → Result WorkerError (Tables × A) → Tables → Tables
after (ok (s', a)) s = s'
after (err e) s = s

abbrev pub after_events : {A : Type 0} → Result WorkerError (List OutboxEvent × A) → Tables → Tables
after_events (ok (es, a)) s = record s { events = es }
after_events (err e) s = s

unfoldable pub perform : Action → Tables → Tables
unfolding claim_available mark_published schedule_retry process_transaction claim_notification
perform (claim now owner batch_size lease_ms) s = record s {
  events = (claim_available now owner batch_size lease_ms s.events).0;
}
perform (mark now owner published_lease_ms id) s = record s {
  events = (mark_published now owner published_lease_ms id s.events).0;
}
perform (defer now base maximum id) s = defer_job now base maximum id s
perform (handle now owner lease_ms job) s = after (process_transaction now owner lease_ms job s) s
perform (claim_notice now owner lease_ms provider_for fresh job) s =
    after (claim_notification now owner lease_ms provider_for fresh job s) s
perform (succeed work d) s = elim (finalize_success work d s) [ ok s' ↦ s' | err e ↦ s ]
perform (fail now base maximum work) s = after (finalize_failure now base maximum work s) s
perform (claim_media now owner lease_ms job) s =
    after_events (claim_media_deletion now owner lease_ms job s.events) s
perform (complete_media job) s = elim (complete_media_deletion job s.events) [
  | ok es ↦ record s { events = es }
  | err e ↦ s
]

unfoldable pub run : List Action → Tables → Tables
unfolding perform
run [] s = s
run (a ∷ actions) s = run actions (perform a s)
