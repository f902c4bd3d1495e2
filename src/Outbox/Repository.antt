-- ===== src/Outbox/Repository.antt =====
-- apps/worker/src/outbox-repository.ts: the claims, the publication and the retry of events. Each
-- function is one transaction on the table of events.
use tunisia_vape_commerce.Prelude.{
  Bool, List, Option, count_by, false, filter, find, if◌then◌else◌, includes, leb, ltb, map, none,
  same_id, some, take, true, ℕ, ◌&&◌, ◌+◌, ◌==◌, ◌||◌,
}
use tunisia_vape_commerce.Table.{update_many}
use tunisia_vape_commerce.Allocation.{sort_by}
use tunisia_vape_commerce.Outbox.{
  EventStatus, OutboxEvent, dead_letter, event_cancelled, leased, pending, processed, processing,
  published, retry,
}
use tunisia_vape_commerce.Outbox.Contracts.{exponential_retry_delay}

-- The states that wait for their time, and those that hold a lease.
abbrev pub is_waiting : EventStatus → Bool
is_waiting pending = true
is_waiting retry = true
is_waiting _ = false

abbrev pub is_held : EventStatus → Bool
is_held leased = true
is_held published = true
is_held processing = true
is_held _ = false

-- The first UPDATE of claimAvailable: the attempts are used up.
abbrev pub is_exhausted : OutboxEvent → Bool
is_exhausted e = (is_waiting e.status || is_held e.status) && leb e.max_attempts e.attempt_count

abbrev pub bury : OutboxEvent → OutboxEvent
bury e = record e { status = dead_letter; lease_owner = none; lease_expires_at = none }

-- `leaseExpiresAt IS NOT NULL AND leaseExpiresAt <= now`
abbrev pub has_lapsed : ℕ → Option ℕ → Bool
has_lapsed now none = false
has_lapsed now (some t) = leb t now

-- The WHERE of the SELECT.
abbrev pub is_claimable : ℕ → OutboxEvent → Bool
is_claimable now e =
    ltb e.attempt_count e.max_attempts
    && ((is_waiting e.status && leb e.available_at now)
        || (is_held e.status && has_lapsed now e.lease_expires_at))

abbrev pub by_availability : List OutboxEvent → List OutboxEvent
by_availability es = sort_by (λ e. e.available_at) (sort_by (λ (e : OutboxEvent). e.id) es)

unfoldable pub claim_ids : ℕ → ℕ → List OutboxEvent → List ℕ
claim_ids now batch_size es =
    map (λ (e : OutboxEvent). e.id)
      (take batch_size (by_availability (filter (is_claimable now) es)))

abbrev pub has_id : List ℕ → OutboxEvent → Bool
has_id ids e = includes e.id ids

abbrev pub lease : ℕ → ℕ → OutboxEvent → OutboxEvent
lease owner until e = record e {
  status = leased;
  lease_owner = some owner;
  lease_expires_at = some until;
  attempt_count = e.attempt_count + 1;
}

abbrev pub is_leased : EventStatus → Bool
is_leased leased = true
is_leased _ = false

-- `status: 'LEASED', leaseOwner: this.instanceId`
abbrev pub is_leased_by : ℕ → OutboxEvent → Bool
is_leased_by owner e = is_leased e.status && same_id e.lease_owner (some owner)

-- claimAvailable, with the events claimed.
unfoldable pub claim_available :
    ℕ → ℕ → ℕ → ℕ → List OutboxEvent → List OutboxEvent × List OutboxEvent
claim_available now owner batch_size lease_ms es =
    let swept = update_many is_exhausted bury es in
    let ids = claim_ids now batch_size swept in
    let claimed = update_many (has_id ids) (lease owner (now + lease_ms)) swept in
    (claimed, by_availability (filter (λ e. has_id ids e && is_leased_by owner e) claimed))

-- markPublished
abbrev pub publish : ℕ → OutboxEvent → OutboxEvent
publish until e = record e { status = published; lease_expires_at = some until }

unfoldable pub mark_published : ℕ → ℕ → ℕ → ℕ → List OutboxEvent → List OutboxEvent × Bool
mark_published now owner published_lease_ms id es =
    let fits = λ (e : OutboxEvent). (e.id == id) && is_leased_by owner e in
    (update_many fits (publish (now + published_lease_ms)) es, count_by fits es == 1)

pub data RetryState : Type 0 where
  to_retry to_dead_letter terminal missing : RetryState

-- `['PROCESSED', 'DEAD_LETTER', 'CANCELLED'].includes(status)`
abbrev pub is_terminal : EventStatus → Bool
is_terminal processed = true
is_terminal dead_letter = true
is_terminal event_cancelled = true
is_terminal _ = false

abbrev pub put_off : ℕ → OutboxEvent → OutboxEvent
put_off until e = record e {
  status = retry;
  available_at = until;
  lease_owner = none;
  lease_expires_at = none;
}

-- `outboxEvent.update({ where: { id } })`
abbrev pub update_event : ℕ → (OutboxEvent → OutboxEvent) → List OutboxEvent → List OutboxEvent
update_event id change es = update_many (λ e. e.id == id) change es

abbrev pub find_event : ℕ → List OutboxEvent → Option OutboxEvent
find_event id es = find (λ e. e.id == id) es

-- The update of scheduleRetry for the event that it locked.
unfoldable pub retry_event :
    ℕ → ℕ → ℕ → OutboxEvent → List OutboxEvent → List OutboxEvent × RetryState
unfolding exponential_retry_delay
retry_event now base maximum e es =
    if is_terminal e.status
    then (es, terminal)
    else if leb e.max_attempts e.attempt_count
    then (update_event e.id bury es, to_dead_letter)
    else (
      update_event e.id (put_off (now + exponential_retry_delay e.attempt_count base maximum)) es,
      to_retry,
    )

-- scheduleRetry
unfoldable pub schedule_retry : ℕ → ℕ → ℕ → ℕ → List OutboxEvent → List OutboxEvent × RetryState
unfolding retry_event
schedule_retry now base maximum id es = elim (find_event id es) [
  | none ↦ (es, missing)
  | some e ↦ retry_event now base maximum e es
]
