-- ===== src/Outbox/Handled.antt =====
-- The other transactions of the processor do to the tables what a transaction of the worker may do.
use mathlib.Core.Path.{subst}
use tunisia_vape_commerce.Prelude.{
  Bool-cases, List, Option-cases, Result-cases, arith, false, inl, inr, ok, refl, some, sym, ℕ, ◌+◌,
  ◌≡◌, ◌≤◌,
}
use tunisia_vape_commerce.Table.Keys.{find_row-key}
use tunisia_vape_commerce.Table.Rowwise.{Rowwise-refl}
use tunisia_vape_commerce.Outbox.{Job, OutboxEvent, Tables, is_processed}
use tunisia_vape_commerce.Outbox.Contracts.{parse_event_payload}
use tunisia_vape_commerce.Outbox.Repository.{find_event, is_terminal, update_event}
use tunisia_vape_commerce.Outbox.Expiry.{
  Outcome, finish_event, handle_payload, matches_job, process_event, process_transaction,
  start_event,
}
use tunisia_vape_commerce.Outbox.Deliveries.{
  MediaClaim, claim_media_deletion, complete_media_deletion, route_media,
}
use tunisia_vape_commerce.Outbox.Advances.{
  AllAdvance, AllAdvance-refl, AllAdvance-trans, update_event-AllAdvance,
}
use tunisia_vape_commerce.Outbox.Claims.{Advances-keep, IsKeyed}
use tunisia_vape_commerce.Outbox.Serves.{
  HasKeys, Serves, Serves-refl, Settles, Settles-refl, finish-AllAdvance,
}
use tunisia_vape_commerce.Outbox.Expired.{handle_payload-IsSound}

start-AllAdvance :
    (owner until : ℕ) (e : OutboxEvent) (es : List OutboxEvent)
    → IsKeyed es
    → find_event e.id es ≡ some e
    → is_processed e.status ≡ false
    → AllAdvance es (update_event e.id (start_event owner until) es)
start-AllAdvance owner until e es k here active =
    update_event-AllAdvance e (start_event owner until) es k here
      (Advances-keep e (start_event owner until e) refl refl refl (λ p. cc (p, active)))

process_event-Serves :
    {clock : ℕ} (now owner lease_ms : ℕ) (job : Job) (e : OutboxEvent) (s s' : Tables) (r : Outcome)
    → now ≤ clock
    → HasKeys s
    → find_event e.id s.events ≡ some e
    → process_event now owner lease_ms job e s ≡ ok (s', r)
    → Serves clock s s'
unfolding process_event
process_event-Serves now owner lease_ms job e s s' r before k here h =
    elim (Bool-cases (is_processed e.status)) [
      | inl a ↦ let q : s ≡ s' = cc (rw a at h) in subst (Serves _ s) q (Serves-refl s)
      | inr a ↦ elim (Bool-cases (is_terminal e.status)) [
        | inl b ↦ let q : s ≡ s' = cc (rw (a, b) at h) in subst (Serves _ s) q (Serves-refl s)
        | inr b ↦ elim (Bool-cases (matches_job job e)) [
          | inr c ↦ cc (rw (a, b, c) at h)
          | inl c ↦ elim (Result-cases (parse_event_payload e.type e.version e.payload)) [
            | inr (x, d) ↦ cc (rw (a, b, c, d) at h)
            | inl (p, d) ↦ elim (Result-cases (handle_payload now p s.stock)) [
              | inr (x, f) ↦ cc (rw (a, b, c, d, f) at h)
              | inl ((stock, n), f) ↦
                  let started = update_event e.id (start_event owner (now + lease_ms)) s.events in
                  let rows = update_event e.id finish_event started in
                  let q : record s { events = rows; stock = stock } ≡ s' =
                    cc (rw (a, b, c, d, f) at h) in
                  subst (Serves _ s) q (record {
                    advanced =
                        AllAdvance-trans s.events started rows
                          (start-AllAdvance owner (now + lease_ms) e s.events k.keyed_events here a)
                          (finish-AllAdvance e.id started);
                    settled = Rowwise-refl Settles Settles-refl s.notifications;
                    single = λ id p. p;
                    sound = λ t late p0.
                        handle_payload-IsSound now t (omega (arith, before, late)) p s.stock stock n
                          f p0;
                  })
            ]
          ]
        ]
      ]
    ]

-- The event that a job names is the row under its own identifier.
found_itself :
    (id : ℕ) (e : OutboxEvent) (es : List OutboxEvent)
    → find_event id es ≡ some e
    → find_event e.id es ≡ some e
found_itself id e es h =
    subst (λ i. find_event i es ≡ some e) (sym (find_row-key (λ r. r.id) id es h)) h

pub process_transaction-Serves :
    {clock : ℕ} (now owner lease_ms : ℕ) (job : Job) (s s' : Tables) (r : Outcome)
    → now ≤ clock
    → HasKeys s
    → process_transaction now owner lease_ms job s ≡ ok (s', r)
    → Serves clock s s'
unfolding process_transaction
process_transaction-Serves now owner lease_ms job s s' r before k h =
    elim (Option-cases (find_event job.event_id s.events)) [
      | inl e ↦ cc (rw e at h)
      | inr (x, e) ↦
          process_event-Serves now owner lease_ms job x s s' r before k
            (found_itself job.event_id x s.events e) (rw e at h)
    ]

pub claim_media_deletion-AllAdvance :
    (now owner lease_ms : ℕ) (job : Job) (es es' : List OutboxEvent) (c : MediaClaim)
    → IsKeyed es
    → claim_media_deletion now owner lease_ms job es ≡ ok (es', c)
    → AllAdvance es es'
unfolding claim_media_deletion
claim_media_deletion-AllAdvance now owner lease_ms job es es' r k h =
    elim (Option-cases (find_event job.event_id es)) [
      | inl e ↦ cc (rw e at h)
      | inr (x, e) ↦ elim (Bool-cases (is_processed x.status)) [
        | inl a ↦
            let q : es ≡ es' = cc (rw (e, a) at h) in subst (AllAdvance es) q (AllAdvance-refl es)
        | inr a ↦ elim (Bool-cases (is_terminal x.status)) [
          | inl b ↦
              let q : es ≡ es' = cc (rw (e, a, b) at h) in
              subst (AllAdvance es) q (AllAdvance-refl es)
          | inr b ↦ elim (Result-cases (route_media job x)) [
            | inr (y, c) ↦ cc (rw (e, a, b, c) at h)
            | inl ((bucket, keys), c) ↦
                let q : update_event x.id (start_event owner (now + lease_ms)) es ≡ es' =
                  cc (rw (e, a, b, c) at h) in
                subst (AllAdvance es) q (
                  start-AllAdvance owner (now + lease_ms) x es k (found_itself job.event_id x es e)
                    a)
          ]
        ]
      ]
    ]

pub complete_media_deletion-AllAdvance :
    (job : Job) (es es' : List OutboxEvent)
    → complete_media_deletion job es ≡ ok es'
    → AllAdvance es es'
unfolding complete_media_deletion
complete_media_deletion-AllAdvance job es es' h = elim (Option-cases (find_event job.event_id es)) [
  | inl e ↦ cc (rw e at h)
  | inr (x, e) ↦ elim (Bool-cases (is_processed x.status)) [
    | inl a ↦ let q : es ≡ es' = cc (rw (e, a) at h) in subst (AllAdvance es) q (AllAdvance-refl es)
    | inr a ↦ elim (Bool-cases (matches_job job x)) [
      | inr c ↦ cc (rw (e, a, c) at h)
      | inl c ↦
          let q : update_event job.event_id finish_event es ≡ es' = cc (rw (e, a, c) at h) in
          subst (AllAdvance es) q (finish-AllAdvance job.event_id es)
    ]
  ]
]
