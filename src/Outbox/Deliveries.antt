-- ===== src/Outbox/Deliveries.antt =====
-- The failed deliveries, the whole of `processNotification`, and the deletion of media of
-- apps/worker/src/outbox-processor.ts. What a provider or a bucket answers is an argument.
use tunisia_vape_commerce.Prelude.{
  Bool, List, Result, [], count_by, err, if◌then◌else◌, leb, none, not, ok, or_throw, same_id,
  throw_if, true, ℕ, ◌&&◌, ◌+◌, ◌==◌, ◌>>=◌, ◌>>◌, ◌||◌, ◌∷◌,
}
use tunisia_vape_commerce.Table.{update_many}
use tunisia_vape_commerce.Outbox.{
  Attempt, Channel, Job, Notification, OutboxEvent, Payload, Provider, Tables, WorkerError,
  attempt_state_conflict, dead, failed, is_processed, object_of, objects_of,
  outbox_aggregate_mismatch, outbox_event_missing, outbox_handler_route_mismatch,
  outbox_job_mismatch, provider_failed,
}
use tunisia_vape_commerce.Outbox.Contracts.{exponential_retry_delay, parse_event_payload}
use tunisia_vape_commerce.Outbox.Repository.{
  RetryState, bury, find_event, is_terminal, put_off, schedule_retry, terminal, to_dead_letter,
  to_retry, update_event,
}
use tunisia_vape_commerce.Outbox.Expiry.{defer_job, finish_event, matches_job, start_event}
use tunisia_vape_commerce.Outbox.Notifications.{
  Claim, DeliveryResult, Work, claim_notification, fail_attempt, finalize_success, is_attempt,
  is_delivered, is_in_progress, is_settled, lock_result_rows, send, update_notification,
}

-- The attempt that is recorded as failed, with the state that it and the notification get.
unfoldable pub record_failure :
    ℕ → ℕ → ℕ → Work → OutboxEvent → Tables → Result WorkerError (Tables × RetryState)
unfolding exponential_retry_delay
record_failure now base maximum work e s =
    let is_last = leb e.max_attempts e.attempt_count in
    let status = if is_last then dead else failed in
    let later = now + exponential_retry_delay e.attempt_count base maximum in
    let running = λ (a : Attempt). is_attempt work a && is_in_progress a.status in
    let change = if is_last then bury else put_off later in
    if not (count_by running s.attempts == 1)
    then err attempt_state_conflict
    else ok (
      record s {
        events = update_event e.id change s.events;
        notifications = update_notification work.notification_id status s.notifications;
        attempts = update_many running (λ a. record a { status = status }) s.attempts;
      },
      if is_last then to_dead_letter else to_retry,
    )

-- A failure that comes when the event or the notification is at its end.
unfoldable pub close_attempt : Work → OutboxEvent → Notification → Tables → Tables
close_attempt work e n s =
    let failed_one = record s {
      attempts = update_many (is_attempt work) fail_attempt s.attempts;
    } in
    if is_delivered n.status && not (is_processed e.status)
    then record failed_one { events = update_event e.id finish_event s.events }
    else failed_one

unfoldable pub finalize_failure :
    ℕ → ℕ → ℕ → Work → Tables → Result WorkerError (Tables × RetryState)
unfolding record_failure close_attempt lock_result_rows
finalize_failure now base maximum work s = do
  (e, n) ← lock_result_rows work s
  if is_terminal e.status || is_settled n.status
      then ok (close_attempt work e n s, terminal)
      else record_failure now base maximum work e s

-- processNotification, the claim committed: the message is prepared and sent, and what comes of it
-- is recorded.
unfoldable pub finish_notification :
    ℕ → ℕ → ℕ → (Work → Result WorkerError DeliveryResult) → Work → Tables → Tables
unfolding finalize_success finalize_failure
finish_notification now base maximum deliver work s =
    elim (deliver work >>= λ d. finalize_success work d s) [
      | ok s' ↦ s'
      | err e ↦ elim (finalize_failure now base maximum work s) [
        | ok (s', state) ↦ s'
        | err x ↦ defer_job now base maximum work.event_id s
      ]
    ]

abbrev pub finish_claim :
    ℕ → ℕ → ℕ → (Work → Result WorkerError DeliveryResult) → Claim → Tables → Tables
finish_claim now base maximum deliver (send work) s =
    finish_notification now base maximum deliver work s
finish_claim now base maximum deliver _ s = s

unfoldable pub process_notification :
    ℕ
    → ℕ
    → ℕ
    → (Channel → Provider)
    → ℕ
    → ℕ
    → ℕ
    → ℕ
    → (Work → Result WorkerError DeliveryResult)
    → Job
    → Tables
    → Tables
unfolding claim_notification finish_notification
process_notification now owner lease_ms provider_for fresh later base maximum deliver job s =
    elim (claim_notification now owner lease_ms provider_for fresh job s) [
      | ok (s', claim) ↦ finish_claim later base maximum deliver claim s'
      | err e ↦ defer_job now base maximum job.event_id s
    ]

-- MediaDeletionClaimResult
pub data MediaClaim : Type 0 where
  delete_objects : ℕ → List ℕ → MediaClaim
  media_processed media_ended : MediaClaim

abbrev pub objects_of_payload : Payload → Result WorkerError (ℕ × List ℕ)
objects_of_payload (object_of bucket key) = ok (bucket, key ∷ [])
objects_of_payload (objects_of bucket keys) = ok (bucket, keys)
objects_of_payload _ = err outbox_handler_route_mismatch

-- The checks of claimMediaDeletion.
unfoldable pub route_media : Job → OutboxEvent → Result WorkerError (ℕ × List ℕ)
unfolding parse_event_payload
route_media job e = do
  throw_if (not (matches_job job e)) outbox_job_mismatch
  payload ← parse_event_payload e.type e.version e.payload
  objects ← objects_of_payload payload
  throw_if (same_id e.for_aggregate none) outbox_aggregate_mismatch
  ok objects

unfoldable pub claim_media_deletion :
    ℕ → ℕ → ℕ → Job → List OutboxEvent → Result WorkerError (List OutboxEvent × MediaClaim)
unfolding route_media
claim_media_deletion now owner lease_ms job es = do
  e ← or_throw (find_event job.event_id es) outbox_event_missing
  if is_processed e.status
      then ok (es, media_processed)
      else if is_terminal e.status
      then ok (es, media_ended)
      else do
        (bucket, keys) ← route_media job e
        ok (update_event e.id (start_event owner (now + lease_ms)) es, delete_objects bucket keys)

unfoldable pub complete_media_deletion :
    Job → List OutboxEvent → Result WorkerError (List OutboxEvent)
complete_media_deletion job es = do
  e ← or_throw (find_event job.event_id es) outbox_event_missing
  if is_processed e.status
      then ok es
      else (throw_if (not (matches_job job e)) outbox_job_mismatch
          >> ok (update_event job.event_id finish_event es))

-- The loop over the objects stops at the first that cannot be deleted.
unfoldable pub delete_all : (ℕ → ℕ → Bool) → ℕ → List ℕ → Result WorkerError Bool
delete_all delete bucket [] = ok true
delete_all delete bucket (key ∷ keys) =
    let rest = delete_all delete bucket keys in
    if delete bucket key then rest else err provider_failed

-- processMediaDeletion, the claim committed.
unfoldable pub finish_media :
    ℕ → ℕ → ℕ → (ℕ → ℕ → Bool) → Job → MediaClaim → List OutboxEvent → List OutboxEvent
unfolding delete_all complete_media_deletion
finish_media now base maximum delete job (delete_objects bucket keys) es =
    elim (delete_all delete bucket keys >>= λ x. complete_media_deletion job es) [
      | ok es' ↦ es'
      | err e ↦ (schedule_retry now base maximum job.event_id es).0
    ]
finish_media now base maximum delete job _ es = es

unfoldable pub process_media_deletion :
    ℕ → ℕ → ℕ → ℕ → ℕ → ℕ → (ℕ → ℕ → Bool) → Job → List OutboxEvent → List OutboxEvent
unfolding claim_media_deletion finish_media
process_media_deletion now owner lease_ms later base maximum delete job es =
    elim (claim_media_deletion now owner lease_ms job es) [
      | ok (es', claim) ↦ finish_media later base maximum delete job claim es'
      | err e ↦ (schedule_retry now base maximum job.event_id es).0
    ]
