-- ===== src/Outbox/Served.antt =====
-- The transactions on notifications do to the tables what a transaction of the worker may do.
use mathlib.Core.Path.{subst}
use tunisia_vape_commerce.Prelude.{
  Bool-cases, Option-cases, Result-cases, false, inl, inr, ok, refl, some, sym, ℕ, ◌+◌, ◌≡◌,
}
use tunisia_vape_commerce.Table.Keys.{find_row-key}
use tunisia_vape_commerce.Outbox.{
  Channel, Job, Notification, OutboxEvent, Provider, Tables, cancelled_notification, disabled,
  in_progress, is_processed,
}
use tunisia_vape_commerce.Outbox.Repository.{bury, find_event, is_terminal, update_event}
use tunisia_vape_commerce.Outbox.Expiry.{finish_event, start_event}
use tunisia_vape_commerce.Outbox.Notifications.{
  Claim, claim_event, claim_for, claim_notification, find_notification, is_dead, is_settled,
  max_number, new_attempt, open_attempt, route_notification, same_provider,
}
use tunisia_vape_commerce.Outbox.Advances.{update_event-AllAdvance}
use tunisia_vape_commerce.Outbox.Claims.{Advances-keep}
use tunisia_vape_commerce.Outbox.Serves.{
  HasKeys, Serves, Serves-refl, events-Serves, finish-AllAdvance, found-Settles, one_in_flight,
}

module _ (now owner lease_ms : ℕ) (provider_for : Channel → Provider) (fresh : ℕ) where
  open_attempt-Serves :
      {clock : ℕ} (e : OutboxEvent) (n : Notification) (s : Tables)
      → HasKeys s
      → find_event e.id s.events ≡ some e
      → find_notification n.id s.notifications ≡ some n
      → is_processed e.status ≡ false
      → is_settled n.status ≡ false
      → Serves clock s (open_attempt now owner lease_ms provider_for fresh e n s).0
  unfolding open_attempt
  open_attempt-Serves e n s k here there active not_yet =
      let number = max_number n.id s.attempts + 1 in
      let opened = new_attempt fresh number (provider_for n.channel) n in
      elim (Bool-cases (same_provider (provider_for n.channel) disabled)) [
        | inl d ↦ rw d (record {
          advanced = finish-AllAdvance e.id s.events;
          settled =
              found-Settles n cancelled_notification s.notifications k.keyed_notifications there
                not_yet;
          single = λ id h. one_in_flight id (opened cancelled_notification) s.attempts h;
          sound = λ t before p. p;
        })
        | inr d ↦
            let start = start_event owner (now + lease_ms) in
            rw d (record {
              advanced =
                  update_event-AllAdvance e start s.events k.keyed_events here
                    (Advances-keep e (start e) refl refl refl (λ p. cc (p, active)));
              settled =
                  found-Settles n in_progress s.notifications k.keyed_notifications there not_yet;
              single = λ id h. one_in_flight id (opened in_progress) s.attempts h;
              sound = λ t before p. p;
            })
      ]

  claim_for-Serves :
      {clock : ℕ} (e : OutboxEvent) (n : Notification) (s : Tables)
      → HasKeys s
      → find_event e.id s.events ≡ some e
      → find_notification n.id s.notifications ≡ some n
      → is_processed e.status ≡ false
      → Serves clock s (claim_for now owner lease_ms provider_for fresh e n s).0
  unfolding claim_for
  claim_for-Serves e n s k here there active = elim (Bool-cases (is_settled n.status)) [
    | inl a ↦ rw a (
        events-Serves s (update_event e.id finish_event s.events) (finish-AllAdvance e.id s.events))
    | inr a ↦ elim (Bool-cases (is_dead n.status)) [
      | inl b ↦
          rw (a, b)
            (events-Serves s (update_event e.id bury s.events) (
              update_event-AllAdvance e bury s.events k.keyed_events here
                (Advances-keep e (bury e) refl refl refl (λ p. cc (p, active)))))
      | inr b ↦ rw (a, b) (open_attempt-Serves e n s k here there active a)
    ]
  ]

  claim_event-Serves :
      {clock : ℕ} (job : Job) (e : OutboxEvent) (s s' : Tables) (c : Claim)
      → HasKeys s
      → find_event e.id s.events ≡ some e
      → claim_event now owner lease_ms provider_for fresh job e s ≡ ok (s', c)
      → Serves clock s s'
  unfolding claim_event
  claim_event-Serves {clock} job e s s' c k here h = elim (Bool-cases (is_processed e.status)) [
    | inl a ↦ let q : s ≡ s' = cc (rw a at h) in subst (Serves _ s) q (Serves-refl s)
    | inr a ↦ elim (Bool-cases (is_terminal e.status)) [
      | inl b ↦ let q : s ≡ s' = cc (rw (a, b) at h) in subst (Serves _ s) q (Serves-refl s)
      | inr b ↦ elim (Result-cases (route_notification job e)) [
        | inr (x, d) ↦ cc (rw (a, b, d) at h)
        | inl (id, d) ↦ elim (Option-cases (find_notification id s.notifications)) [
          | inl f ↦ cc (rw (a, b, d, f) at h)
          | inr (n, f) ↦
              let q : claim_for now owner lease_ms provider_for fresh e n s ≡ (s', c) =
                cc (rw (a, b, d, f) at h) in
              let key : n.id ≡ id = find_row-key (λ r. r.id) id s.notifications f in
              subst (λ p. Serves clock s p.0) q
                (claim_for-Serves e n s k here
                  (subst (λ i. find_notification i s.notifications ≡ some n) (sym key) f) a)
        ]
      ]
    ]
  ]

  pub claim_notification-Serves :
      {clock : ℕ} (job : Job) (s s' : Tables) (c : Claim)
      → HasKeys s
      → claim_notification now owner lease_ms provider_for fresh job s ≡ ok (s', c)
      → Serves clock s s'
  unfolding claim_notification
  claim_notification-Serves job s s' c k h =
      elim (Option-cases (find_event job.event_id s.events)) [
        | inl e ↦ cc (rw e at h)
        | inr (x, e) ↦
            claim_event-Serves job x s s' c k
              (subst (λ i. find_event i s.events ≡ some x)
                (sym (find_row-key (λ r. r.id) job.event_id s.events e)) e)
              (rw e at h)
      ]
