-- ===== src/Outbox.antt =====
-- apps/worker/src: the outbox that the API fills and the worker empties. These are the tables, with
-- the columns that the worker's decisions rest on; the transactions are in the child modules.
pub mod Contracts
pub mod Repository
pub mod Advances
pub mod Claims
pub mod Holds
pub mod Leases
pub mod Expiry
pub mod Expired
pub mod Notifications
pub mod Deliveries
pub mod Serves
pub mod Served
pub mod Finalized
pub mod Failed
pub mod Handled
pub mod Publisher
pub mod Polled
pub mod Actions
pub mod Traces
pub mod Attempts
pub mod Progress
pub mod Refinement
pub mod Delivered
pub mod Worker
pub mod Routes
use tunisia_vape_commerce.Prelude.{Bool, List, Option, false, true, ℕ}
use tunisia_vape_commerce.Inventory.Store.{Stock}

-- OutboxEventStatus
pub data EventStatus : Type 0 where
  pending leased published processing retry processed dead_letter event_cancelled : EventStatus

abbrev pub is_processed : EventStatus → Bool
is_processed processed = true
is_processed _ = false

-- OUTBOX_EVENT_TYPES, and a type that the worker does not know
pub data EventType : Type 0 where
  reservation_expiry notification_dispatch media_object_delete unsupported : EventType

abbrev pub same_event_type : EventType → EventType → Bool
same_event_type reservation_expiry reservation_expiry = true
same_event_type notification_dispatch notification_dispatch = true
same_event_type media_object_delete media_object_delete = true
same_event_type unsupported unsupported = true
same_event_type _ _ = false

-- A stored payload, as the schema that it satisfies reads it.
pub data Payload : Type 0 where
  reservations_until : ℕ → ℕ → Payload
  notification_of : ℕ → Payload
  object_of : ℕ → ℕ → Payload
  objects_of : ℕ → List ℕ → Payload
  malformed : Payload

-- OutboxEvent; `for_aggregate` is the identifier of the aggregate where the type of the aggregate
-- and the deterministic key are the ones that belong to the event's type.
pub record OutboxEvent : Type 0 where
  pub id : ℕ
  pub type : EventType
  pub version : ℕ
  pub payload : Payload
  pub for_aggregate : Option ℕ
  pub status : EventStatus
  pub available_at : ℕ
  pub lease_owner : Option ℕ
  pub lease_expires_at : Option ℕ
  pub attempt_count : ℕ
  pub max_attempts : ℕ

-- What the worker throws, with the code that it keeps of it.
pub data WorkerError : Type 0 where
  event_version_unsupported event_payload_invalid event_type_unsupported : WorkerError
  outbox_event_missing outbox_job_mismatch outbox_handler_route_mismatch : WorkerError
  outbox_aggregate_mismatch reservation_cutoff_invalid inventory_item_missing : WorkerError
  reservation_invariant_breach notification_missing attempt_state_conflict : WorkerError
  provider_mismatch provider_response_invalid : WorkerError
  provider_failed : WorkerError

-- OutboxJobData, the message of the queue
pub record Job : Type 0 where
  pub event_id : ℕ
  pub type : EventType
  pub version : ℕ

-- NotificationChannel
pub data Channel : Type 0 where
  email sms console : Channel

-- NotificationStatus, which an attempt has as well
pub data NotificationStatus : Type 0 where
  queued in_progress delivered failed dead cancelled_notification : NotificationStatus

-- The name of a provider; `disabled` is the name of none.
pub data Provider : Type 0 where
  disabled : Provider
  named : ℕ → Provider

pub record Notification : Type 0 where
  pub id : ℕ
  pub channel : Channel
  pub status : NotificationStatus

-- NotificationDeliveryAttempt
pub record Attempt : Type 0 where
  pub id : ℕ
  pub notification_id : ℕ
  pub attempt_number : ℕ
  pub provider : Provider
  pub provider_message_id : Option (List ℕ)
  pub status : NotificationStatus

-- The tables that the worker writes.
pub record Tables : Type 0 where
  pub events : List OutboxEvent
  pub stock : Stock
  pub notifications : List Notification
  pub attempts : List Attempt
