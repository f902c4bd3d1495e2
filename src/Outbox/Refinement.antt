-- ===== src/Outbox/Refinement.antt =====
-- The worker's methods, each as a run of transactions.
use tunisia_vape_commerce.Prelude.{
  All, Bool, Bool-cases, List, Result, Result-cases, [], ap, arith, inl, inr, ok, refl, ℕ, ◌>>=◌,
  ◌∙◌, ◌∷◌, ◌≡◌, ◌≤◌,
}
use tunisia_vape_commerce.Outbox.{Channel, Job, OutboxEvent, Provider, Tables, WorkerError}
use tunisia_vape_commerce.Outbox.Contracts.{parse_event_payload}
use tunisia_vape_commerce.Outbox.Repository.{claim_available, schedule_retry}
use tunisia_vape_commerce.Outbox.Expiry.{process_job, process_transaction}
use tunisia_vape_commerce.Outbox.Notifications.{
  Claim, DeliveryResult, Work, claim_disabled, claim_ended, claim_notification, claim_processed,
  finalize_success, send,
}
use tunisia_vape_commerce.Outbox.Deliveries.{
  MediaClaim, claim_media_deletion, complete_media_deletion, delete_all, delete_objects,
  finalize_failure, finish_claim, finish_media, finish_notification, media_ended, media_processed,
  process_media_deletion, process_notification,
}
use tunisia_vape_commerce.Outbox.Publisher.{job_of, poll_once, publish_all, publish_event}
use tunisia_vape_commerce.Outbox.Actions.{
  Action, claim, claim_media, claim_notice, clock_of, complete_media, defer, fail, handle, mark,
  perform, run, succeed,
}

-- A change of the tables that some transactions make, at times up to a clock.
pub record IsRun (clock : ℕ) (s s' : Tables) : Type 0 where
  pub actions : List Action
  pub timely : All (λ a. clock_of a ≤ clock) actions
  pub reaches : run actions s ≡ s'

no_action : (clock : ℕ) (s : Tables) → IsRun clock s s
unfolding run
no_action clock s = record { actions = []; timely = tt; reaches = refl }

first_action :
    (clock : ℕ) (a : Action) (s m s' : Tables)
    → clock_of a ≤ clock
    → perform a s ≡ m
    → IsRun clock m s'
    → IsRun clock s s'
unfolding run
first_action clock a s m s' before e r = record {
  actions = a ∷ r.actions;
  timely = (before, r.timely);
  reaches = ap (run r.actions) e ∙ r.reaches;
}

one_action :
    (clock : ℕ) (a : Action) (s s' : Tables)
    → clock_of a ≤ clock
    → perform a s ≡ s'
    → IsRun clock s s'
one_action clock a s s' before e = first_action clock a s s' s' before e (no_action clock s')

-- `process` of a job that is neither a notification nor a deletion is a run of transactions at its
-- time.
pub process_job-IsRun :
    (now owner lease_ms base maximum : ℕ) (job : Job) (s : Tables)
    → IsRun now s (process_job now owner lease_ms base maximum job s)
unfolding process_job perform
process_job-IsRun now owner lease_ms base maximum job s =
    elim (Result-cases (process_transaction now owner lease_ms job s)) [
      | inl ((s', r), e) ↦
          one_action now (handle now owner lease_ms job) s
            (process_job now owner lease_ms base maximum job s) (omega arith)
            (rw (e, process_job) refl)
      | inr (x, e) ↦
          one_action now (defer now base maximum job.event_id) s
            (process_job now owner lease_ms base maximum job s) (omega arith)
            (rw (e, process_job) refl)
    ]

finish_notification-IsRun :
    (now base maximum : ℕ) (deliver : Work → Result WorkerError DeliveryResult) (work : Work)
    → (s : Tables) → IsRun 0 s (finish_notification now base maximum deliver work s)
unfolding finish_notification perform
finish_notification-IsRun now base maximum deliver work s =
    elim (Result-cases (deliver work >>= λ d. finalize_success work d s)) [
      | inl (s', e) ↦ elim (Result-cases (deliver work)) [
        | inr (x, f) ↦ cc (rw f at e)
        | inl (d, f) ↦
            let g : finalize_success work d s ≡ ok s' = rw f at e in
            one_action 0 (succeed work d) s (finish_notification now base maximum deliver work s)
              (omega arith) (rw (e, finish_notification) (rw (g, perform) refl))
      ]
      | inr (x, e) ↦ elim (Result-cases (finalize_failure now base maximum work s)) [
        | inl ((s', r), f) ↦
            one_action 0 (fail now base maximum work) s
              (finish_notification now base maximum deliver work s) (omega arith)
              (rw (e, finish_notification) (rw (f, finish_notification) refl))
        | inr (y, f) ↦
            one_action 0 (defer now base maximum work.event_id) s
              (finish_notification now base maximum deliver work s) (omega arith)
              (rw (e, finish_notification) (rw (f, finish_notification) refl))
      ]
    ]

-- `processNotification` is a run of transactions, whatever the adapter answers.
pub process_notification-IsRun :
    (now owner lease_ms : ℕ) (provider_for : Channel → Provider) (fresh later base maximum : ℕ)
    → (deliver : Work → Result WorkerError DeliveryResult) (job : Job) (s : Tables)
    → IsRun 0 s (
        process_notification now owner lease_ms provider_for fresh later base maximum deliver job s)
unfolding process_notification perform
process_notification-IsRun now owner lease_ms provider_for fresh later base maximum deliver job s =
    let a = claim_notice now owner lease_ms provider_for fresh job in
    elim (Result-cases (claim_notification now owner lease_ms provider_for fresh job s)) [
      | inr (x, e) ↦
          one_action 0 (defer now base maximum job.event_id) s
            (process_notification now owner lease_ms provider_for fresh later base maximum deliver
              job s)
            (omega arith) (rw (e, process_notification) refl)
      | inl ((s', c), e) ↦
          rw (e, process_notification)
            (first_action 0 a s s' (finish_claim later base maximum deliver c s') (omega arith)
              (rw e refl) (finish c s'))
    ]
  where
    finish : (c : Claim) (m : Tables) → IsRun 0 m (finish_claim later base maximum deliver c m)
    finish (send work) m = finish_notification-IsRun later base maximum deliver work m
    finish claim_processed m = no_action 0 m
    finish claim_disabled m = no_action 0 m
    finish claim_ended m = no_action 0 m

abbrev with_events : Tables → List OutboxEvent → Tables
with_events s es = record s { events = es }

finish_media-IsRun :
    (now base maximum : ℕ) (delete : ℕ → ℕ → Bool) (job : Job) (c : MediaClaim) (s : Tables)
    → IsRun 0 s (with_events s (finish_media now base maximum delete job c s.events))
unfolding finish_media perform
finish_media-IsRun now base maximum delete job (delete_objects bucket keys) s =
    elim (Result-cases
      (delete_all delete bucket keys >>= λ x. complete_media_deletion job s.events)) [
        | inl (es, e) ↦ elim (Result-cases (delete_all delete bucket keys)) [
          | inr (x, f) ↦ cc (rw f at e)
          | inl (d, f) ↦
              let g : complete_media_deletion job s.events ≡ ok es = rw f at e in
              rw (e, finish_media)
                (one_action 0 (complete_media job) s (with_events s es) (omega arith)
                  (rw (g, perform) refl))
        ]
        | inr (x, e) ↦
            rw (e, finish_media)
              (one_action 0 (defer now base maximum job.event_id) s
                (with_events s (schedule_retry now base maximum job.event_id s.events).0)
                (omega arith) refl)
      ]
finish_media-IsRun now base maximum delete job media_processed s = no_action 0 s
finish_media-IsRun now base maximum delete job media_ended s = no_action 0 s

-- `processMediaDeletion` is a run of transactions, whatever the bucket answers.
pub process_media_deletion-IsRun :
    (now owner lease_ms later base maximum : ℕ) (delete : ℕ → ℕ → Bool) (job : Job) (s : Tables)
    → IsRun 0 s (
        with_events s
          (process_media_deletion now owner lease_ms later base maximum delete job s.events))
unfolding process_media_deletion perform
process_media_deletion-IsRun now owner lease_ms later base maximum delete job s =
    elim (Result-cases (claim_media_deletion now owner lease_ms job s.events)) [
      | inr (x, e) ↦
          rw (e, process_media_deletion)
            (one_action 0 (defer now base maximum job.event_id) s
              (with_events s (schedule_retry now base maximum job.event_id s.events).0)
              (omega arith) refl)
      | inl ((es, c), e) ↦
          rw (e, process_media_deletion)
            (first_action 0 (claim_media now owner lease_ms job) s (with_events s es)
              (with_events s (finish_media later base maximum delete job c es)) (omega arith)
              (rw e refl) (finish_media-IsRun later base maximum delete job c (with_events s es)))
    ]

publish_all-IsRun :
    (now owner published_lease_ms base maximum : ℕ) (accepts : Job → Bool)
    (batch : List OutboxEvent)
    → (s : Tables)
    → IsRun 0 s (
        with_events s
          (publish_all now owner published_lease_ms base maximum accepts batch s.events).0)
unfolding publish_all publish_event perform
publish_all-IsRun now owner lease_ms base maximum accepts [] s = no_action 0 s
publish_all-IsRun now owner lease_ms base maximum accepts (e ∷ batch) s =
    let after_one = publish_event now owner lease_ms base maximum accepts e s.events in
    let rest =
      publish_all-IsRun now owner lease_ms base maximum accepts batch (with_events s after_one.0) in
    let whole =
      with_events s (publish_all now owner lease_ms base maximum accepts batch after_one.0).0 in
    elim (Result-cases (parse_event_payload e.type e.version e.payload)) [
      | inr (x, p) ↦
          first_action 0 (defer now base maximum e.id) s (with_events s after_one.0) whole
            (omega arith) (rw (p, publish_event) refl) rest
      | inl (x, p) ↦ elim (Bool-cases (accepts (job_of e))) [
        | inl q ↦
            first_action 0 (mark now owner lease_ms e.id) s (with_events s after_one.0) whole
              (omega arith) (rw (p, publish_event) (rw q refl)) rest
        | inr q ↦
            first_action 0 (defer now base maximum e.id) s (with_events s after_one.0) whole
              (omega arith) (rw (p, publish_event) (rw q refl)) rest
      ]
    ]

-- `pollOnce` is a run of transactions, whatever the queue answers.
pub poll_once-IsRun :
    (now owner batch_size lease_ms published_lease_ms base maximum : ℕ) (accepts : Job → Bool)
    → (s : Tables)
    → IsRun 0 s (
        with_events s
          (poll_once now owner batch_size lease_ms published_lease_ms base maximum accepts
            s.events).0)
unfolding poll_once perform
poll_once-IsRun now owner batch_size lease_ms published_lease_ms base maximum accepts s =
    let claimed = claim_available now owner batch_size lease_ms s.events in
    first_action 0 (claim now owner batch_size lease_ms) s (with_events s claimed.0)
      (with_events s
        (publish_all now owner published_lease_ms base maximum accepts claimed.1 claimed.0).0)
      (omega arith) refl
      (publish_all-IsRun now owner published_lease_ms base maximum accepts claimed.1
        (with_events s claimed.0))
