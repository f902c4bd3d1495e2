-- ===== src/Examples/Worker.antt =====
-- The worker at concrete events, notifications and jobs.
use tunisia_vape_commerce.Prelude.{
  All, List, [], arith, false, filter, includes, map, none, ok, refl, some, true, ℕ, ◌+◌, ◌==◌, ◌∷◌,
  ◌≡◌, ◌≤◌,
}
use tunisia_vape_commerce.Outbox.{
  Channel, EventType, Job, Notification, OutboxEvent, Payload, Provider, Tables, email,
  is_processed, named, notification_dispatch, notification_of, pending, queued, reservation_expiry,
  reservations_until,
}
use tunisia_vape_commerce.Outbox.Contracts.{
  exponential_retry_delay, exponential_retry_delay_bounds, min,
}
use tunisia_vape_commerce.Outbox.Repository.{claim_available, claim_ids, find_event, is_claimable}
use tunisia_vape_commerce.Outbox.Leases.{claim_available_excludes, event_ids}
use tunisia_vape_commerce.Outbox.Notifications.{
  DeliveryResult, Work, finalize_success, find_notification, is_settled,
}
use tunisia_vape_commerce.Outbox.Actions.{
  Action, claim, claim_notice, defer, handle, mark, perform, run, succeed,
}
use tunisia_vape_commerce.Outbox.Serves.{HasKeys, Serves}
use tunisia_vape_commerce.Outbox.Traces.{run-Serves}
use tunisia_vape_commerce.Outbox.Attempts.{claims_of, claims_of_bounded}
use tunisia_vape_commerce.Outbox.Publisher.{job_of, poll_once}
use tunisia_vape_commerce.Outbox.Worker.{Worker}
use tunisia_vape_commerce.Outbox.Delivered.{finalize_success_lem}
use tunisia_vape_commerce.Allocation.{insert_by, sort_by}
use tunisia_vape_commerce.Outbox.Progress.{claim_available_takes}
use tunisia_vape_commerce.Outbox.Polled.{Publishes, is_sent, poll_once_lem}
use tunisia_vape_commerce.Table.Rowwise.{Rowwise}

abbrev waiting : ℕ → EventType → Payload → OutboxEvent
waiting id type payload = record {
  id = id;
  type = type;
  version = 1;
  payload = payload;
  for_aggregate = some 70;
  status = pending;
  available_at = 100;
  lease_owner = none;
  lease_expires_at = none;
  attempt_count = 0;
  max_attempts = 3;
}

abbrev notice_event : OutboxEvent
notice_event = waiting 1 notification_dispatch (notification_of 70)

abbrev expiry_event : OutboxEvent
expiry_event = waiting 2 reservation_expiry (reservations_until 900 10)

abbrev notice : Notification
notice = record { id = 70; channel = email; status = queued }

abbrev some_tables : Tables
some_tables = record {
  events = notice_event ∷ expiry_event ∷ [];
  stock = record {
    items = [];
    reservations = [];
    adjustments = [];
    movements = [];
    active_locations = [];
  };
  notifications = notice ∷ [];
  attempts = [];
}

abbrev notice_job : Job
notice_job = record { event_id = 1; type = notification_dispatch; version = 1 }

abbrev expiry_job : Job
expiry_job = record { event_id = 2; type = reservation_expiry; version = 1 }

abbrev mail : Channel → Provider
mail _ = named 5

abbrev work : Work
work = record {
  event_id = 1;
  notification_id = 70;
  attempt_id = 900;
  attempt_number = 1;
  provider = named 5;
  channel = email;
}

abbrev receipt : DeliveryResult
receipt = record { provider = named 5; provider_message_id = 65 ∷ 66 ∷ [] }

abbrev two_workers : List Action
two_workers =
    claim 1000 8 10 500
    ∷ mark 1001 8 300 1
    ∷ handle 1002 8 500 expiry_job
    ∷ claim_notice 1003 8 500 mail 900 notice_job
    ∷ claim 1004 9 10 500
    ∷ succeed work receipt
    ∷ []

some_tables-HasKeys : HasKeys some_tables
some_tables-HasKeys = record {
  keyed_events = (((λ e. ground (arith, e)), tt), (tt, tt));
  keyed_notifications = (tt, tt);
}

exponential_retry_delay_bounds_example :
    (exponential_retry_delay 2 1000 60000 ≤ 60000)
    × (exponential_retry_delay 2 1000 60000 ≤ exponential_retry_delay 5 1000 60000)
    × (min 60000 1000 ≤ exponential_retry_delay 2 1000 60000)
exponential_retry_delay_bounds_example = exponential_retry_delay_bounds 2 5 1000 60000 (omega arith)

-- Event 1 is published while event 2 is put off, and a third worker claims.
abbrev between : List Action
between = mark 1001 8 300 1 ∷ defer 1002 1000 60000 2 ∷ claim 1100 10 10 500 ∷ []

claim_available_excludes_example :
    includes 1 (
      event_ids
        (claim_available 1200 9 10 500
          (run between (perform (claim 1000 8 10 500) some_tables)).events).1)
    ≡ false
unfolding claim_available claim_ids sort_by insert_by
claim_available_excludes_example =
    claim_available_excludes 1000 1200 8 9 10 10 500 500 1 between some_tables
      some_tables-HasKeys.keyed_events (omega arith) refl (omega arith, (refl, (omega arith, tt)))

times :
    (n : ℕ)
    → n ≤ 2000
    → (0 ≤ 2000)
      × ((0 ≤ 2000) × ((n ≤ 2000) × ((0 ≤ 2000) × ((0 ≤ 2000) × ((0 ≤ 2000) × Unit {0})))))
times n h = (omega arith, (omega arith, (h, (omega arith, (omega arith, (omega arith, tt))))))

run-Serves_example : Serves 2000 some_tables (run two_workers some_tables)
run-Serves_example =
    run-Serves 2000 two_workers some_tables (times 1002 (omega arith)) some_tables-HasKeys

claims_of_bounded_example : claims_of 1 two_workers some_tables + 0 ≤ 3
claims_of_bounded_example =
    claims_of_bounded 1 notice_event two_workers some_tables some_tables-HasKeys refl (omega arith)

abbrev worker : Worker
worker = record {
  owner = 8;
  lease_ms = 500;
  retry_base_ms = 1000;
  retry_max_ms = 60000;
  provider_for = mail;
  deliver = λ w. ok receipt;
  delete = λ b k. true;
}

abbrev claimed_tables : Tables
claimed_tables = run (claim_notice 1003 8 500 mail 900 notice_job ∷ []) some_tables

abbrev delivered_tables : Tables
delivered_tables = run (succeed work receipt ∷ []) claimed_tables

finalize_success_lem_example :
    ((e : OutboxEvent) × (find_event 1 delivered_tables.events ≡ some e)
      × (is_processed e.status ≡ true))
    × ((n : Notification) × (find_notification 70 delivered_tables.notifications ≡ some n)
        × (is_settled n.status ≡ true))
unfolding run perform finalize_success
finalize_success_lem_example =
    finalize_success_lem work receipt claimed_tables delivered_tables refl

claim_available_takes_example :
    All
      (λ e.
        is_claimable 1000 e ≡ true
        → includes e.id (event_ids (claim_available 1000 8 10 500 some_tables.events).1) ≡ true)
      some_tables.events
claim_available_takes_example = claim_available_takes 1000 8 10 500 some_tables.events (omega arith)

-- The queue takes the job of event 1 only.
poll_once_lem_example :
    ((poll_once 1000 8 10 500 300 1000 60000 (λ j. j.event_id == 1) some_tables.events).1
      ≡ map job_of (
          filter
            (is_sent (λ j. j.event_id == 1))
            (claim_available 1000 8 10 500 some_tables.events).1))
    × Rowwise
        (Publishes
          (poll_once 1000 8 10 500 300 1000 60000 (λ j. j.event_id == 1) some_tables.events).1)
        some_tables.events
        (poll_once 1000 8 10 500 300 1000 60000 (λ j. j.event_id == 1) some_tables.events).0
poll_once_lem_example =
    poll_once_lem 1000 8 10 500 300 1000 60000 (λ j. j.event_id == 1) some_tables.events
