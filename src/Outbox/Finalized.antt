-- ===== src/Outbox/Finalized.antt =====
-- The results of deliveries do to the tables what a transaction of the worker may do.
use mathlib.Core.Path.{subst}
use tunisia_vape_commerce.Prelude.{
  Bool-cases, List, Option-cases, Result-cases, arith, count_by, inl, inr, ok, refl, some, sym, ℕ,
  ◌&&◌, ◌==◌, ◌≡◌,
}
use tunisia_vape_commerce.Table.{update_many}
use tunisia_vape_commerce.Table.Keys.{find_row-key}
use tunisia_vape_commerce.Table.Rowwise.{Rowwise, Rowwise-refl}
use tunisia_vape_commerce.Outbox.{Attempt, Notification, OutboxEvent, Tables, delivered}
use tunisia_vape_commerce.Outbox.Repository.{find_event, update_event}
use tunisia_vape_commerce.Outbox.Expiry.{finish_event}
use tunisia_vape_commerce.Outbox.Notifications.{
  DeliveryResult, Work, deliver_attempt, finalize_success, find_notification, is_attempt,
  is_in_progress, is_message_id, is_settled, lock_result_rows, record_success, same_provider,
  update_notification,
}
use tunisia_vape_commerce.Outbox.Advances.{AllAdvance-refl}
use tunisia_vape_commerce.Outbox.Serves.{
  HasKeys, Serves, Serves-trans, Settles, Settles-refl, events-Serves, fewer_in_flight,
  finish-AllAdvance, found-Settles,
}

-- The rows that were locked for the result of a delivery.
pub record IsLocked (work : Work) (e : OutboxEvent) (n : Notification) (s : Tables) : Type 0 where
  pub event_here : find_event e.id s.events ≡ some e
  pub event_id : e.id ≡ work.event_id
  pub notification_here : find_notification n.id s.notifications ≡ some n
  pub notification_id : n.id ≡ work.notification_id

pub lock_result_rows_lem :
    (work : Work) (e : OutboxEvent) (n : Notification) (s : Tables)
    → lock_result_rows work s ≡ ok (e, n)
    → IsLocked work e n s
unfolding lock_result_rows
lock_result_rows_lem work e n s h = elim (Option-cases (find_event work.event_id s.events)) [
  | inl a ↦ cc (rw a at h)
  | inr (x, a) ↦ elim (Option-cases (find_notification work.notification_id s.notifications)) [
    | inl b ↦ cc (rw (a, b) at h)
    | inr (y, b) ↦
        let p : x ≡ e = cc (rw (a, b) at h) in
        let q : y ≡ n = cc (rw (a, b) at h) in
        let i = find_row-key (λ r. r.id) work.event_id s.events a in
        let j = find_row-key (λ r. r.id) work.notification_id s.notifications b in
        subst (λ x. IsLocked work x n s) p
          (subst (λ y. IsLocked work x y s) q
            (record {
              event_here = subst (λ c. find_event c s.events ≡ some x) (sym i) a;
              event_id = i;
              notification_here =
                  subst (λ c. find_notification c s.notifications ≡ some y) (sym j) b;
              notification_id = j;
            }))
  ]
]

record_success-Serves :
    {clock : ℕ} (work : Work) (cs : List ℕ) (n : Notification) (s s' : Tables)
    → HasKeys s
    → find_notification n.id s.notifications ≡ some n
    → n.id ≡ work.notification_id
    → record_success work cs n s ≡ ok s'
    → Serves clock s s'
unfolding record_success
record_success-Serves work cs n s s' k there same h = elim (Bool-cases (is_settled n.status)) [
  | inl a ↦
      let q : record s { attempts = update_many (is_attempt work) (deliver_attempt cs) s.attempts }
          ≡ s' =
        cc (rw a at h) in
      subst (Serves _ s) q (record {
        advanced = AllAdvance-refl s.events;
        settled = Rowwise-refl Settles Settles-refl s.notifications;
        single = λ id p. omega (
          arith,
          p,
          fewer_in_flight id (is_attempt work) (deliver_attempt cs) s.attempts (λ a. refl),
        );
        sound = λ t before p. p;
      })
  | inr a ↦
      let running = λ (x : Attempt). is_attempt work x && is_in_progress x.status in
      elim (Bool-cases (count_by running s.attempts == 1)) [
        | inr b ↦ cc (rw (a, b) at h)
        | inl b ↦
            let q : record s {
              notifications = update_notification work.notification_id delivered s.notifications;
              attempts = update_many running (deliver_attempt cs) s.attempts;
            }
                ≡ s' =
              cc (rw (a, b) at h) in
            subst (Serves _ s) q (record {
              advanced = AllAdvance-refl s.events;
              settled =
                  subst
                    (λ i.
                      Rowwise Settles s.notifications
                        (update_notification i delivered s.notifications))
                    same (found-Settles n delivered s.notifications k.keyed_notifications there a);
              single = λ id p. omega (
                arith,
                p,
                fewer_in_flight id running (deliver_attempt cs) s.attempts (λ a. refl),
              );
              sound = λ t before p. p;
            })
      ]
]

pub finalize_success-Serves :
    {clock : ℕ} (work : Work) (d : DeliveryResult) (s s' : Tables)
    → HasKeys s
    → finalize_success work d s ≡ ok s'
    → Serves clock s s'
unfolding finalize_success
finalize_success-Serves work d s s' k h =
    elim (Bool-cases (same_provider d.provider work.provider)) [
      | inr a ↦ cc (rw a at h)
      | inl a ↦ elim (Bool-cases (is_message_id d.provider_message_id)) [
        | inr b ↦ cc (rw (a, b) at h)
        | inl b ↦ elim (Result-cases (lock_result_rows work s)) [
          | inr (x, c) ↦ cc (rw (a, b, c) at h)
          | inl ((e, n), c) ↦ elim (Result-cases (record_success work d.provider_message_id n s)) [
            | inr (x, f) ↦ cc (rw (a, b, c, f) at h)
            | inl (m, f) ↦
                let locked = lock_result_rows_lem work e n s c in
                let es = update_event work.event_id finish_event m.events in
                let q : record m { events = es } ≡ s' = cc (rw (a, b, c, f) at h) in
                subst (Serves _ s) q (
                  Serves-trans s m (record m { events = es })
                    (record_success-Serves work d.provider_message_id n s m k
                      locked.notification_here locked.notification_id f)
                    (events-Serves m es (finish-AllAdvance work.event_id m.events)))
          ]
        ]
      ]
    ]
