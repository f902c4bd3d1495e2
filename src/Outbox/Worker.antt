-- ===== src/Outbox/Worker.antt =====
-- `OutboxProcessor.process`: which handler a job goes to.
use tunisia_vape_commerce.Prelude.{Bool, Result, ℕ}
use tunisia_vape_commerce.Outbox.{
  Channel, EventType, Job, Provider, Tables, WorkerError, media_object_delete,
  notification_dispatch,
}
use tunisia_vape_commerce.Outbox.Expiry.{process_job}
use tunisia_vape_commerce.Outbox.Notifications.{DeliveryResult, Work}
use tunisia_vape_commerce.Outbox.Deliveries.{process_media_deletion, process_notification}

-- WorkerEnvironment, as far as the handlers read it, and the two adapters.
pub record Worker : Type 0 where
  pub owner : ℕ
  pub lease_ms : ℕ
  pub retry_base_ms : ℕ
  pub retry_max_ms : ℕ
  pub provider_for : Channel → Provider
  pub deliver : Work → Result WorkerError DeliveryResult
  pub delete : ℕ → ℕ → Bool

unfoldable pub route : EventType → Worker → ℕ → ℕ → ℕ → Job → Tables → Tables
unfolding process_job process_notification process_media_deletion
route notification_dispatch w now later fresh job s =
    process_notification now w.owner w.lease_ms w.provider_for fresh later w.retry_base_ms
      w.retry_max_ms w.deliver job s
route media_object_delete w now later fresh job s = record s {
  events =
      process_media_deletion now w.owner w.lease_ms later w.retry_base_ms w.retry_max_ms w.delete
        job s.events;
}
route _ w now later fresh job s =
    process_job now w.owner w.lease_ms w.retry_base_ms w.retry_max_ms job s

-- The handler's transactions read the clock at `now`, and after the adapter's answer at `later`;
-- `fresh` is the identifier of an attempt that it opens.
unfoldable pub process : Worker → ℕ → ℕ → ℕ → Job → Tables → Tables
unfolding route
process w now later fresh job s = route job.type w now later fresh job s
