-- ===== src/Outbox/Publisher.antt =====
-- `pollOnce` of apps/worker/src/outbox-publisher.ts: the claimed events go to the queue. The queue's
-- answer to a job is an argument, and the jobs that it took are listed.
use tunisia_vape_commerce.Prelude.{Bool, List, [], err, if◌then◌else◌, ok, ℕ, ◌++◌, ◌∷◌}
use tunisia_vape_commerce.Outbox.{Job, OutboxEvent}
use tunisia_vape_commerce.Outbox.Contracts.{parse_event_payload}
use tunisia_vape_commerce.Outbox.Repository.{claim_available, mark_published, schedule_retry}

abbrev pub job_of : OutboxEvent → Job
job_of e = record { event_id = e.id; type = e.type; version = e.version }

-- The body of the loop, for one event.
unfoldable pub publish_event :
    ℕ → ℕ → ℕ → ℕ → ℕ → (Job → Bool) → OutboxEvent → List OutboxEvent → List OutboxEvent × List Job
unfolding parse_event_payload mark_published schedule_retry
publish_event now owner published_lease_ms base maximum accepts e es =
    elim (parse_event_payload e.type e.version e.payload) [
      | err x ↦ ((schedule_retry now base maximum e.id es).0, [])
      | ok p ↦
          if accepts (job_of e)
          then ((mark_published now owner published_lease_ms e.id es).0, job_of e ∷ [])
          else ((schedule_retry now base maximum e.id es).0, [])
    ]

unfoldable pub publish_all :
    ℕ
    → ℕ
    → ℕ
    → ℕ
    → ℕ
    → (Job → Bool)
    → List OutboxEvent
    → List OutboxEvent
    → List OutboxEvent × List Job
unfolding publish_event
publish_all now owner published_lease_ms base maximum accepts [] es = (es, [])
publish_all now owner published_lease_ms base maximum accepts (e ∷ batch) es =
    let first = publish_event now owner published_lease_ms base maximum accepts e es in
    let rest = publish_all now owner published_lease_ms base maximum accepts batch first.0 in
    (rest.0, first.1 ++ rest.1)

unfoldable pub poll_once :
    ℕ → ℕ → ℕ → ℕ → ℕ → ℕ → ℕ → (Job → Bool) → List OutboxEvent → List OutboxEvent × List Job
unfolding claim_available publish_all
poll_once now owner batch_size lease_ms published_lease_ms base maximum accepts es =
    let claimed = claim_available now owner batch_size lease_ms es in
    publish_all now owner published_lease_ms base maximum accepts claimed.1 claimed.0
