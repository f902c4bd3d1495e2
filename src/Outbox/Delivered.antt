-- ===== src/Outbox/Delivered.antt =====
-- What a delivery that succeeded leaves in the tables.
use mathlib.Core.Path.{subst}
use tunisia_vape_commerce.Prelude.{
  ==_iff, Bool-cases, List, Result-cases, ap, count_by, inl, inr, ok, refl, some, true, ℕ, ◌&&◌,
  ◌==◌, ◌∙◌, ◌≡◌,
}
use tunisia_vape_commerce.Table.{update_many}
use tunisia_vape_commerce.Table.Keys.{find_row-key, find_row-update}
use tunisia_vape_commerce.Outbox.{
  Attempt, Notification, OutboxEvent, Tables, delivered, is_processed,
}
use tunisia_vape_commerce.Outbox.Repository.{find_event, update_event}
use tunisia_vape_commerce.Outbox.Expiry.{finish_event}
use tunisia_vape_commerce.Outbox.Notifications.{
  DeliveryResult, Work, deliver_attempt, finalize_success, find_notification, is_attempt,
  is_in_progress, is_message_id, is_settled, lock_result_rows, record_success, same_provider,
  update_notification,
}
use tunisia_vape_commerce.Outbox.Finalized.{lock_result_rows_lem}

success_settles :
    (work : Work) (cs : List ℕ) (n : Notification) (s s' : Tables)
    → find_notification work.notification_id s.notifications ≡ some n
    → record_success work cs n s ≡ ok s'
    → (s'.events ≡ s.events)
      × ((n' : Notification) × (find_notification work.notification_id s'.notifications ≡ some n')
          × (is_settled n'.status ≡ true))
unfolding record_success
success_settles work cs n s s' there h = elim (Bool-cases (is_settled n.status)) [
  | inl a ↦
      let q : record s { attempts = update_many (is_attempt work) (deliver_attempt cs) s.attempts }
          ≡ s' =
        cc (rw a at h) in
      rw (← q) (refl, (n, there, a))
  | inr a ↦
      let running = λ (x : Attempt). is_attempt work x && is_in_progress x.status in
      elim (Bool-cases (count_by running s.attempts == 1)) [
        | inr b ↦ cc (rw (a, b) at h)
        | inl b ↦
            let q : record s {
              notifications = update_notification work.notification_id delivered s.notifications;
              attempts = update_many running (deliver_attempt cs) s.attempts;
            }
                ≡ s' =
              cc (rw (a, b) at h) in
            let id = work.notification_id in
            let change = λ (x : Notification). record x { status = delivered } in
            let hit : (n.id == id) ≡ true =
              (==_iff n.id id).1 (find_row-key (λ r. r.id) id s.notifications there) in
            rw (← q) (
              refl,
              (
                change n,
                find_row-update (λ r. r.id) id n (λ r. r.id == id) change s.notifications
                    (λ r. refl) there hit,
                refl,
              ),
            )
      ]
]

-- A delivery that is recorded as a success leaves its event processed, and its notification delivered
-- or cancelled.
pub finalize_success_lem :
    (work : Work) (d : DeliveryResult) (s s' : Tables)
    → finalize_success work d s ≡ ok s'
    → ((e : OutboxEvent) × (find_event work.event_id s'.events ≡ some e)
        × (is_processed e.status ≡ true))
      × ((n : Notification) × (find_notification work.notification_id s'.notifications ≡ some n)
          × (is_settled n.status ≡ true))
unfolding finalize_success
finalize_success_lem work d s s' h = elim (Bool-cases (same_provider d.provider work.provider)) [
  | inr a ↦ cc (rw a at h)
  | inl a ↦ elim (Bool-cases (is_message_id d.provider_message_id)) [
    | inr b ↦ cc (rw (a, b) at h)
    | inl b ↦ elim (Result-cases (lock_result_rows work s)) [
      | inr (x, c) ↦ cc (rw (a, b, c) at h)
      | inl ((e, n), c) ↦ elim (Result-cases (record_success work d.provider_message_id n s)) [
        | inr (x, f) ↦ cc (rw (a, b, c, f) at h)
        | inl (m, f) ↦
            let id = work.event_id in
            let locked = lock_result_rows_lem work e n s c in
            let here : find_event id s.events ≡ some e =
              subst (λ i. find_event i s.events ≡ some e) locked.event_id locked.event_here in
            let there : find_notification work.notification_id s.notifications ≡ some n =
              subst (λ i. find_notification i s.notifications ≡ some n) locked.notification_id
                locked.notification_here in
            let (same, settled) = success_settles work d.provider_message_id n s m there f in
            let es = update_event id finish_event m.events in
            let q : record m { events = es } ≡ s' = cc (rw (a, b, c, f) at h) in
            let hit : (e.id == id) ≡ true = (==_iff e.id id).1 locked.event_id in
            rw (← q) (
              (
                finish_event e,
                find_row-update (λ r. r.id) id e (λ r. r.id == id) finish_event m.events (λ r. refl)
                    (ap (find_event id) same ∙ here) hit,
                refl,
              ),
              settled,
            )
      ]
    ]
  ]
]
