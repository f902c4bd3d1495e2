-- ===== src/Outbox/Failed.antt =====
-- Deliveries that failed do to the tables what a transaction of the worker may do.
use mathlib.Core.Path.{subst}
use tunisia_vape_commerce.Prelude.{
  Bool, Bool-cases, Result-cases, arith, count_by, false, if◌then◌else◌, inl, inr, leb, not, ok,
  refl, true, ℕ, ◌&&◌, ◌+◌, ◌==◌, ◌≡◌,
}
use tunisia_vape_commerce.Table.{update_many}
use tunisia_vape_commerce.Table.Rowwise.{Rowwise, Rowwise-refl}
use tunisia_vape_commerce.Outbox.{
  Attempt, Notification, OutboxEvent, Tables, dead, failed, is_processed,
}
use tunisia_vape_commerce.Outbox.Contracts.{exponential_retry_delay}
use tunisia_vape_commerce.Outbox.Repository.{RetryState, bury, is_terminal, put_off, update_event}
use tunisia_vape_commerce.Outbox.Notifications.{
  Work, fail_attempt, is_attempt, is_delivered, is_in_progress, is_settled, lock_result_rows,
  update_notification,
}
use tunisia_vape_commerce.Outbox.Deliveries.{close_attempt, finalize_failure, record_failure}
use tunisia_vape_commerce.Outbox.Advances.{Advances, AllAdvance-refl, update_event-AllAdvance}
use tunisia_vape_commerce.Outbox.Claims.{Advances-keep}
use tunisia_vape_commerce.Outbox.Serves.{
  HasKeys, Serves, Settles, Settles-refl, fewer_in_flight, finish-AllAdvance, found-Settles,
}
use tunisia_vape_commerce.Outbox.Finalized.{IsLocked, lock_result_rows_lem}

close_attempt-Serves :
    {clock : ℕ} (work : Work) (e : OutboxEvent) (n : Notification) (s : Tables)
    → Serves clock s (close_attempt work e n s)
unfolding close_attempt
close_attempt-Serves work e n s =
    elim (Bool-cases (is_delivered n.status && not (is_processed e.status))) [
      | inl a ↦ rw a (record {
        advanced = finish-AllAdvance e.id s.events;
        settled = Rowwise-refl Settles Settles-refl s.notifications;
        single = λ id p.
            omega
              (arith, p, fewer_in_flight id (is_attempt work) fail_attempt s.attempts (λ a. refl));
        sound = λ t before p. p;
      })
      | inr a ↦ rw a (record {
        advanced = AllAdvance-refl s.events;
        settled = Rowwise-refl Settles Settles-refl s.notifications;
        single = λ id p.
            omega
              (arith, p, fewer_in_flight id (is_attempt work) fail_attempt s.attempts (λ a. refl));
        sound = λ t before p. p;
      })
    ]

record_failure-Serves :
    {clock : ℕ} (now base maximum : ℕ) (work : Work) (e : OutboxEvent) (n : Notification)
    (s s' : Tables)
    → (r : RetryState) → HasKeys s
    → IsLocked work e n s
    → is_terminal e.status ≡ false
    → is_settled n.status ≡ false
    → record_failure now base maximum work e s ≡ ok (s', r)
    → Serves clock s s'
unfolding record_failure
record_failure-Serves now base maximum work e n s s' r k l active not_yet h =
    let is_last = leb e.max_attempts e.attempt_count in
    let status = if is_last then dead else failed in
    let later = now + exponential_retry_delay e.attempt_count base maximum in
    let running = λ (x : Attempt). is_attempt work x && is_in_progress x.status in
    let change = if is_last then bury else put_off later in
    let close = λ (x : Attempt). record x { status = status } in
    elim (Bool-cases (count_by running s.attempts == 1)) [
      | inr b ↦ cc (rw b at h)
      | inl b ↦
          let q : record s {
            events = update_event e.id change s.events;
            notifications = update_notification work.notification_id status s.notifications;
            attempts = update_many running close s.attempts;
          }
              ≡ s' =
            cc (rw b at h) in
          subst (Serves _ s) q (record {
            advanced =
                update_event-AllAdvance e change s.events k.keyed_events l.event_here
                  (closes is_last later e active);
            settled =
                subst
                  (λ i.
                    Rowwise Settles s.notifications (update_notification i status s.notifications))
                  l.notification_id
                  (found-Settles n status s.notifications k.keyed_notifications l.notification_here
                    not_yet);
            single = λ id p.
                omega (arith, p, fewer_in_flight id running close s.attempts (λ a. ended is_last));
            sound = λ t before p. p;
          })
    ]
  where
    closes :
        (is_last : Bool) (later : ℕ) (e : OutboxEvent)
        → is_terminal e.status ≡ false
        → Advances e ((if is_last then bury else put_off later) e)
    closes true later e a = Advances-keep e (bury e) refl refl refl (λ p. ground (arith, a, p))
    closes false later e a =
        Advances-keep e (put_off later e) refl refl refl (λ p. ground (arith, a, p))

    ended : (is_last : Bool) → is_in_progress (if is_last then dead else failed) ≡ false
    ended true = refl
    ended false = refl

pub finalize_failure-Serves :
    {clock : ℕ} (now base maximum : ℕ) (work : Work) (s s' : Tables) (r : RetryState)
    → HasKeys s
    → finalize_failure now base maximum work s ≡ ok (s', r)
    → Serves clock s s'
unfolding finalize_failure
finalize_failure-Serves now base maximum work s s' r k h =
    elim (Result-cases (lock_result_rows work s)) [
      | inr (x, c) ↦ cc (rw c at h)
      | inl ((e, n), c) ↦ elim (Bool-cases (is_terminal e.status)) [
        | inl a ↦
            let q : close_attempt work e n s ≡ s' = cc (rw (c, a) at h) in
            subst (Serves _ s) q (close_attempt-Serves work e n s)
        | inr a ↦ elim (Bool-cases (is_settled n.status)) [
          | inl b ↦
              let q : close_attempt work e n s ≡ s' = cc (rw (c, a, b) at h) in
              subst (Serves _ s) q (close_attempt-Serves work e n s)
          | inr b ↦
              record_failure-Serves now base maximum work e n s s' r k
                (lock_result_rows_lem work e n s c) a b (rw (c, a, b) at h)
        ]
      ]
    ]
