-- ===== src/Outbox/Notifications.antt =====
-- `processNotification` of apps/worker/src/outbox-processor.ts and its three transactions. The
-- adapter's `providerFor`, and the rendering and sending of a message, are arguments.
use tunisia_vape_commerce.Prelude.{
  Bool, List, Option, Result, [], count_by, err, false, find, if◌then◌else◌, leb, length, none, not,
  ok, or_throw, same_id, some, throw_if, true, ℕ, ◌&&◌, ◌+◌, ◌==◌, ◌>>=◌, ◌>>◌, ◌∷◌,
}
use tunisia_vape_commerce.Table.{update_many}
use tunisia_vape_commerce.Outbox.{
  Attempt, Channel, Job, Notification, NotificationStatus, OutboxEvent, Payload, Provider, Tables,
  WorkerError, attempt_state_conflict, cancelled_notification, dead, delivered, disabled, failed,
  in_progress, is_processed, named, notification_missing, notification_of,
  outbox_aggregate_mismatch, outbox_event_missing, outbox_handler_route_mismatch,
  outbox_job_mismatch, provider_mismatch, provider_response_invalid,
}
use tunisia_vape_commerce.Outbox.Contracts.{parse_event_payload}
use tunisia_vape_commerce.Outbox.Repository.{bury, find_event, is_terminal, update_event}
use tunisia_vape_commerce.Outbox.Expiry.{finish_event, matches_job, start_event}

-- Where a notification is not sent any more.
abbrev pub is_settled : NotificationStatus → Bool
is_settled delivered = true
is_settled cancelled_notification = true
is_settled _ = false

abbrev pub is_delivered : NotificationStatus → Bool
is_delivered delivered = true
is_delivered _ = false

abbrev pub is_dead : NotificationStatus → Bool
is_dead dead = true
is_dead _ = false

abbrev pub is_in_progress : NotificationStatus → Bool
is_in_progress in_progress = true
is_in_progress _ = false

abbrev pub same_provider : Provider → Provider → Bool
same_provider disabled disabled = true
same_provider (named a) (named b) = a == b
same_provider _ _ = false

-- NotificationWork, with what the transactions read of it
pub record Work : Type 0 where
  pub event_id : ℕ
  pub notification_id : ℕ
  pub attempt_id : ℕ
  pub attempt_number : ℕ
  pub provider : Provider
  pub channel : Channel

-- NotificationClaimResult
pub data Claim : Type 0 where
  send : Work → Claim
  claim_processed claim_disabled claim_ended : Claim

abbrev pub find_notification : ℕ → List Notification → Option Notification
find_notification id ns = find (λ n. n.id == id) ns

abbrev pub update_notification : ℕ → NotificationStatus → List Notification → List Notification
update_notification id status ns =
    update_many (λ n. n.id == id) (λ n. record n { status = status }) ns

-- `_max.attemptNumber ?? 0` over the attempts of a notification
unfoldable pub max_number : ℕ → List Attempt → ℕ
max_number id [] = 0
max_number id (a ∷ attempts) =
    let rest = max_number id attempts in
    if a.notification_id == id
    then (if leb rest a.attempt_number then a.attempt_number else rest)
    else rest

-- An attempt of the notification that is under way.
abbrev pub in_flight : ℕ → Attempt → Bool
in_flight id a = (a.notification_id == id) && is_in_progress a.status

abbrev pub fail_attempt : Attempt → Attempt
fail_attempt a = record a { status = failed }

abbrev pub notification_id_of : Payload → Result WorkerError ℕ
notification_id_of (notification_of id) = ok id
notification_id_of _ = err outbox_handler_route_mismatch

-- The parse of the payload of the event, and the checks of its route.
unfoldable pub route_notification : Job → OutboxEvent → Result WorkerError ℕ
unfolding parse_event_payload
route_notification job e = do
  throw_if (not (matches_job job e)) outbox_job_mismatch
  payload ← parse_event_payload e.type e.version e.payload
  id ← notification_id_of payload
  throw_if (not (same_id e.for_aggregate (some id))) outbox_aggregate_mismatch
  ok id

abbrev pub new_attempt : ℕ → ℕ → Provider → Notification → NotificationStatus → Attempt
new_attempt fresh number provider n status = record {
  id = fresh;
  notification_id = n.id;
  attempt_number = number;
  provider = provider;
  provider_message_id = none;
  status = status;
}

module _ (now owner lease_ms : ℕ) (provider_for : Channel → Provider) (fresh : ℕ) where
  -- The end of claimNotification: an attempt is opened, or closed where the channel is disabled.
  unfoldable pub open_attempt : OutboxEvent → Notification → Tables → Tables × Claim
  unfolding max_number
  open_attempt e n s =
      let number = max_number n.id s.attempts + 1 in
      let provider = provider_for n.channel in
      let attempts = update_many (in_flight n.id) fail_attempt s.attempts in
      let attempt = new_attempt fresh number provider n in
      if same_provider provider disabled
      then (
        record s {
          events = update_event e.id finish_event s.events;
          notifications = update_notification n.id cancelled_notification s.notifications;
          attempts = attempt cancelled_notification ∷ attempts;
        },
        claim_disabled,
      )
      else (
        record s {
          events = update_event e.id (start_event owner (now + lease_ms)) s.events;
          notifications = update_notification n.id in_progress s.notifications;
          attempts = attempt in_progress ∷ attempts;
        },
        send (record {
          event_id = e.id;
          notification_id = n.id;
          attempt_id = fresh;
          attempt_number = number;
          provider = provider;
          channel = n.channel;
        }),
      )

  -- claimNotification from the notification on.
  unfoldable pub claim_for : OutboxEvent → Notification → Tables → Tables × Claim
  unfolding open_attempt
  claim_for e n s =
      if is_settled n.status
      then (record s { events = update_event e.id finish_event s.events }, claim_processed)
      else if is_dead n.status
      then (record s { events = update_event e.id bury s.events }, claim_ended)
      else open_attempt e n s

  -- claimNotification for the event that it locked.
  unfoldable pub claim_event : Job → OutboxEvent → Tables → Result WorkerError (Tables × Claim)
  unfolding claim_for route_notification
  claim_event job e s =
      if is_processed e.status
      then ok (s, claim_processed)
      else if is_terminal e.status
      then ok (s, claim_ended)
      else do
        id ← route_notification job e
        n ← or_throw (find_notification id s.notifications) notification_missing
        ok (claim_for e n s)

  unfoldable pub claim_notification : Job → Tables → Result WorkerError (Tables × Claim)
  unfolding claim_event
  claim_notification job s = do
    e ← or_throw (find_event job.event_id s.events) outbox_event_missing
    claim_event job e s

-- NotificationDeliveryResult
pub record DeliveryResult : Type 0 where
  pub provider : Provider
  pub provider_message_id : List ℕ

abbrev pub all_printable : List ℕ → Bool
all_printable [] = true
all_printable (c ∷ cs) = leb 32 c && leb c 126 && all_printable cs

-- providerMessageId: one to 255 printable characters.
abbrev pub is_message_id : List ℕ → Bool
is_message_id cs = not (length cs == 0) && leb (length cs) 255 && all_printable cs

-- `where: { id: attemptId, notificationId }`
abbrev pub is_attempt : Work → Attempt → Bool
is_attempt work a = (a.id == work.attempt_id) && (a.notification_id == work.notification_id)

abbrev pub deliver_attempt : List ℕ → Attempt → Attempt
deliver_attempt cs a = record a { status = delivered; provider_message_id = some cs }

-- The part of finalizeNotificationSuccess on the notification and its attempt.
unfoldable pub record_success : Work → List ℕ → Notification → Tables → Result WorkerError Tables
record_success work cs n s =
    if is_settled n.status
    then ok (record s { attempts = update_many (is_attempt work) (deliver_attempt cs) s.attempts })
    else do
      let running = λ (a : Attempt). is_attempt work a && is_in_progress a.status
      throw_if (not (count_by running s.attempts == 1)) attempt_state_conflict
      ok (record s {
        notifications = update_notification work.notification_id delivered s.notifications;
        attempts = update_many running (deliver_attempt cs) s.attempts;
      })

-- lockNotificationResultRows, with the notification that is read next.
unfoldable pub lock_result_rows : Work → Tables → Result WorkerError (OutboxEvent × Notification)
lock_result_rows work s = do
  e ← or_throw (find_event work.event_id s.events) outbox_event_missing
  n ← or_throw (find_notification work.notification_id s.notifications) notification_missing
  ok (e, n)

unfoldable pub finalize_success : Work → DeliveryResult → Tables → Result WorkerError Tables
unfolding record_success lock_result_rows
finalize_success work d s = do
  throw_if (not (same_provider d.provider work.provider)) provider_mismatch
  throw_if (not (is_message_id d.provider_message_id)) provider_response_invalid
  (e, n) ← lock_result_rows work s
  s' ← record_success work d.provider_message_id n s
  ok (record s' { events = update_event work.event_id finish_event s'.events })
