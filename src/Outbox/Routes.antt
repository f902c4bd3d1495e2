-- ===== src/Outbox/Routes.antt =====
-- Every job of the worker is a run of transactions.
use tunisia_vape_commerce.Prelude.{All-mono, arith, ℕ, ◌≤◌}
use tunisia_vape_commerce.Outbox.{
  EventType, Job, Tables, media_object_delete, notification_dispatch, reservation_expiry,
  unsupported,
}
use tunisia_vape_commerce.Outbox.Actions.{clock_of}
use tunisia_vape_commerce.Outbox.Refinement.{
  IsRun, process_job-IsRun, process_media_deletion-IsRun, process_notification-IsRun,
}
use tunisia_vape_commerce.Outbox.Worker.{Worker, process, route}

later_clock : (clock : ℕ) (s s' : Tables) → IsRun 0 s s' → IsRun clock s s'
later_clock clock s s' r = record {
  actions = r.actions;
  timely =
      All-mono (λ a. clock_of a ≤ 0) (λ a. clock_of a ≤ clock) r.actions (λ a h. omega (arith, h))
        r.timely;
  reaches = r.reaches;
}

route-IsRun :
    (type : EventType) (w : Worker) (now later fresh : ℕ) (job : Job) (s : Tables)
    → IsRun now s (route type w now later fresh job s)
unfolding route
route-IsRun notification_dispatch w now later fresh job s =
    later_clock now s (route notification_dispatch w now later fresh job s) (
      process_notification-IsRun now w.owner w.lease_ms w.provider_for fresh later w.retry_base_ms
        w.retry_max_ms w.deliver job s)
route-IsRun media_object_delete w now later fresh job s =
    later_clock now s (route media_object_delete w now later fresh job s) (
      process_media_deletion-IsRun now w.owner w.lease_ms later w.retry_base_ms w.retry_max_ms
        w.delete job s)
route-IsRun reservation_expiry w now later fresh job s =
    process_job-IsRun now w.owner w.lease_ms w.retry_base_ms w.retry_max_ms job s
route-IsRun unsupported w now later fresh job s =
    process_job-IsRun now w.owner w.lease_ms w.retry_base_ms w.retry_max_ms job s

-- Whatever the job is, and whatever the providers and the buckets answer: what the worker makes of it
-- is a run of the transactions that every interleaving is made of, and those that read the clock for
-- the stock do so at the job's time.
pub process-IsRun :
    (w : Worker) (now later fresh : ℕ) (job : Job) (s : Tables)
    → IsRun now s (process w now later fresh job s)
unfolding process
process-IsRun w now later fresh job s = route-IsRun job.type w now later fresh job s
