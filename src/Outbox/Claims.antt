-- ===== src/Outbox/Claims.antt =====
-- The transactions of the repository advance the events.
use mathlib.Core.Path.{subst}
use tunisia_vape_commerce.Prelude.{
  All, All-mono, Bool-cases, List, Option-cases, arith, false, filter, includes, inl, inr, leb, map,
  refl, some, sym, true, ℕ, ◌&&◌, ◌+◌, ◌==◌, ◌||◌, ◌∙◌, ◌≡◌,
}
use tunisia_vape_commerce.Table.{HasKey, update_many}
use tunisia_vape_commerce.Table.Keys.{find_row-key, includes-sort, includes-take, selected_pass}
use tunisia_vape_commerce.Outbox.{EventStatus, OutboxEvent, is_processed}
use tunisia_vape_commerce.Outbox.Advances.{
  Advances, All-always, AllAdvance, AllAdvance-refl, AllAdvance-trans, advanced-HasKey,
  update_event-AllAdvance, update_many-AllAdvance,
}
use tunisia_vape_commerce.Outbox.Contracts.{exponential_retry_delay}
use tunisia_vape_commerce.Outbox.Repository.{
  bury, by_availability, claim_available, claim_ids, find_event, has_id, is_claimable, is_exhausted,
  is_held, is_leased_by, is_terminal, is_waiting, lease, mark_published, publish, put_off,
  retry_event, schedule_retry,
}
use tunisia_vape_commerce.Allocation.{sort_by}

abbrev pub IsKeyed : List OutboxEvent → Type 0
IsKeyed = HasKey (λ e. e.id)

-- A change that leaves the attempts alone, of an event that is not processed.
pub Advances-keep :
    (e e' : OutboxEvent)
    → e'.id ≡ e.id
    → e'.max_attempts ≡ e.max_attempts
    → e'.attempt_count ≡ e.attempt_count
    → (is_processed e.status ≡ true → is_processed e'.status ≡ true)
    → Advances e e'
Advances-keep e e' i m c h = record {
  same_id = i;
  same_limit = m;
  grows = omega (arith, c);
  bounded = λ p. omega (arith, c, p);
  stays = λ p. (h p, c);
}

-- A state in which the worker may change an event is not that of a processed one.
pub open_state : (s : EventStatus) → is_processed s ≡ true → is_waiting s || is_held s ≡ false
open_state s h = ground (arith, h)

lease-Advances :
    (now owner until : ℕ) (e : OutboxEvent)
    → is_claimable now e ≡ true
    → Advances e (lease owner until e)
lease-Advances now owner until e h = record {
  same_id = refl;
  same_limit = refl;
  grows = omega arith;
  bounded = λ p. ground (arith, h);
  stays = λ p. absurd (ground (arith, h, p));
}

pub sweep-AllAdvance : (es : List OutboxEvent) → AllAdvance es (update_many is_exhausted bury es)
sweep-AllAdvance es = update_many-AllAdvance is_exhausted bury es (
    All-always (λ e. is_exhausted e ≡ true → Advances e (bury e)) es
      λ e h. Advances-keep e (bury e) refl refl refl (λ p. ground (arith, h, p)))

-- The identifiers that are claimed belong to claimable rows.
pub claimed_rows :
    (now batch_size : ℕ) (es : List OutboxEvent)
    → IsKeyed es
    → All (λ e. has_id (claim_ids now batch_size es) e ≡ true → is_claimable now e ≡ true) es
unfolding claim_ids
claimed_rows now batch_size es k =
    let rows = filter (is_claimable now) es in
    let by_id = sort_by (λ (e : OutboxEvent). e.id) rows in
    All-mono
      (λ e. includes e.id (map (λ (r : OutboxEvent). r.id) rows) ≡ true → is_claimable now e ≡ true)
      (λ e. has_id (claim_ids now batch_size es) e ≡ true → is_claimable now e ≡ true) es
      (λ e p h. p (
        sym (includes-sort (λ r. r.id) e.id (λ r. r.id) rows)
        ∙ sym (includes-sort (λ r. r.id) e.id (λ r. r.available_at) by_id)
        ∙ includes-take (λ r. r.id) e.id batch_size (by_availability rows) h))
      (selected_pass (λ e. e.id) (is_claimable now) es k)

pub claim_available-AllAdvance :
    (now owner batch_size lease_ms : ℕ) (es : List OutboxEvent)
    → IsKeyed es
    → AllAdvance es (claim_available now owner batch_size lease_ms es).0
unfolding claim_available
claim_available-AllAdvance now owner batch_size lease_ms es k =
    let swept = update_many is_exhausted bury es in
    let first = sweep-AllAdvance es in
    let ids = claim_ids now batch_size swept in
    AllAdvance-trans es swept (update_many (has_id ids) (lease owner (now + lease_ms)) swept) first
      (update_many-AllAdvance (has_id ids) (lease owner (now + lease_ms)) swept (
        All-mono (λ e. has_id ids e ≡ true → is_claimable now e ≡ true)
          (λ e. has_id ids e ≡ true → Advances e (lease owner (now + lease_ms) e)) swept
          (λ e p h. lease-Advances now owner (now + lease_ms) e (p h))
          (claimed_rows now batch_size swept (advanced-HasKey es swept first k))))

pub mark_published-AllAdvance :
    (now owner lease_ms id : ℕ) (es : List OutboxEvent)
    → AllAdvance es (mark_published now owner lease_ms id es).0
unfolding mark_published
mark_published-AllAdvance now owner lease_ms id es =
    let fits = λ (e : OutboxEvent). (e.id == id) && is_leased_by owner e in
    update_many-AllAdvance fits (publish (now + lease_ms)) es (
      All-always (λ e. fits e ≡ true → Advances e (publish (now + lease_ms) e)) es
        λ e h.
          Advances-keep e (publish (now + lease_ms) e) refl refl refl (λ p. ground (arith, h, p)))

retry_event-AllAdvance :
    (now base maximum : ℕ) (e : OutboxEvent) (es : List OutboxEvent)
    → IsKeyed es
    → find_event e.id es ≡ some e
    → AllAdvance es (retry_event now base maximum e es).0
unfolding retry_event
retry_event-AllAdvance now base maximum e es k found = elim (Bool-cases (is_terminal e.status)) [
  | inl t ↦ rw t (AllAdvance-refl es)
  | inr t ↦ elim (Bool-cases (leb e.max_attempts e.attempt_count)) [
    | inl full ↦
        rw (t, full)
          (update_event-AllAdvance e bury es k found
            (Advances-keep e (bury e) refl refl refl (λ p. ground (arith, t, p))))
    | inr more ↦
        let later = put_off (now + exponential_retry_delay e.attempt_count base maximum) in
        rw (t, more)
          (update_event-AllAdvance e later es k found
            (Advances-keep e (later e) refl refl refl (λ p. ground (arith, t, p))))
  ]
]

pub schedule_retry-AllAdvance :
    (now base maximum id : ℕ) (es : List OutboxEvent)
    → IsKeyed es
    → AllAdvance es (schedule_retry now base maximum id es).0
unfolding schedule_retry
schedule_retry-AllAdvance now base maximum id es k = elim (Option-cases (find_event id es)) [
  | inl e ↦ rw (e, schedule_retry) (AllAdvance-refl es)
  | inr (x, e) ↦
      rw (e, schedule_retry)
        (retry_event-AllAdvance now base maximum x es k
          (subst (λ i. find_event i es ≡ some x) (sym (find_row-key (λ r. r.id) id es e)) e))
]
