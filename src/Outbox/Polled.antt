-- ===== src/Outbox/Polled.antt =====
-- What one `pollOnce` hands to the queue, and what it marks as published.
use tunisia_vape_commerce.Prelude.{
  Bool, Bool-cases, List, Option-cases, Result, Result-cases, [], ap, arith, err, false, filter,
  inl, inr, leb, map, ok, refl, sym, true, ℕ, ◌&&◌, ◌++◌, ◌+◌, ◌==◌, ◌||◌, ◌∙◌, ◌∷◌, ◌≡◌,
}
use tunisia_vape_commerce.Table.{update_many}
use tunisia_vape_commerce.Table.Rowwise.{Rowwise, Rowwise-refl, update_many-Rowwise}
use tunisia_vape_commerce.Outbox.{EventStatus, Job, OutboxEvent, WorkerError, published}
use tunisia_vape_commerce.Outbox.Contracts.{exponential_retry_delay, parse_event_payload}
use tunisia_vape_commerce.Outbox.Repository.{
  bury, claim_available, claim_ids, find_event, has_id, is_exhausted, is_leased_by, is_terminal,
  lease, mark_published, publish, put_off, retry_event, schedule_retry,
}
use tunisia_vape_commerce.Outbox.Publisher.{job_of, poll_once, publish_all, publish_event}
use tunisia_vape_commerce.Outbox.Advances.{All-always}

abbrev pub is_published : EventStatus → Bool
is_published published = true
is_published _ = false

abbrev pub is_parsed : {A : Type 0} → Result WorkerError A → Bool
is_parsed (ok a) = true
is_parsed (err e) = false

-- An event that the queue gets and takes: its payload is one of its schema, and its job is accepted.
abbrev pub is_sent : (Job → Bool) → OutboxEvent → Bool
is_sent accepts e = is_parsed (parse_event_payload e.type e.version e.payload) && accepts (job_of e)

abbrev pub has_job : ℕ → List Job → Bool
has_job n [] = false
has_job n (j ∷ jobs) = (j.event_id == n) || has_job n jobs

-- The same event, which is newly published only if a job of it was queued.
abbrev pub Publishes : List Job → OutboxEvent → OutboxEvent → Type 0
Publishes jobs a b =
    (b.id ≡ a.id)
    × (is_published b.status ≡ true → is_published a.status || has_job a.id jobs ≡ true)

or_assoc : (a b c : Bool) → a || (b || c) ≡ a || b || c
or_assoc a b c = ground arith

has_job-append : (n : ℕ) (xs ys : List Job) → has_job n (xs ++ ys) ≡ has_job n xs || has_job n ys
has_job-append n [] ys = refl
has_job-append n (x ∷ xs) ys =
    rw (has_job-append n xs ys) (or_assoc (x.event_id == n) (has_job n xs) (has_job n ys))

Publishes-refl : (jobs : List Job) (a : OutboxEvent) → Publishes jobs a a
Publishes-refl jobs a = (refl, λ h. rw h refl)

either : (a b c d : Bool) → (b ≡ true → a || c ≡ true) → b || d ≡ true → a || (c || d) ≡ true
either a b c d h k = ground (arith, h, k)

Publishes-trans :
    (xs ys : List Job) (a b c : OutboxEvent)
    → Publishes xs a b
    → Publishes ys b c
    → Publishes (xs ++ ys) a c
Publishes-trans xs ys a b c h k = (
  k.0 ∙ h.0,
  λ p.
      ap (λ x. is_published a.status || x) (has_job-append a.id xs ys)
      ∙ either (is_published a.status) (is_published b.status) (has_job a.id xs) (has_job a.id ys)
          h.1 (ap (λ n. is_published b.status || has_job n ys) (sym h.0) ∙ k.1 p),
)

abbrev Published : List Job → List OutboxEvent → List OutboxEvent → Type 0
Published jobs = Rowwise (Publishes jobs)

join :
    (xs ys : List Job) (as_before middle after : List OutboxEvent)
    → Published xs as_before middle
    → Published ys middle after
    → Published (xs ++ ys) as_before after
join xs ys [] [] [] h k = tt
join xs ys [] [] (c ∷ cs) h k = absurd k
join xs ys [] (b ∷ bs) cs h k = absurd h
join xs ys (a ∷ rs) [] cs h k = absurd h
join xs ys (a ∷ rs) (b ∷ bs) [] h k = absurd k
join xs ys (a ∷ rs) (b ∷ bs) (c ∷ cs) h k =
    (Publishes-trans xs ys a b c h.0 k.0, join xs ys rs bs cs h.1 k.1)

-- An update that publishes nothing.
quiet :
    (fits : OutboxEvent → Bool) (change : OutboxEvent → OutboxEvent) (es : List OutboxEvent)
    → ((e : OutboxEvent) → (change e).id ≡ e.id)
    → ((e : OutboxEvent) → is_published (change e).status ≡ false)
    → Published [] es (update_many fits change es)
quiet fits change es kept off =
    update_many-Rowwise (Publishes []) (Publishes-refl []) fits change es (
      All-always (λ e. fits e ≡ true → Publishes [] e (change e)) es
        λ e h. (kept e, λ p. cc (p, off e)))

claim_available-Published :
    (now owner batch lease_ms : ℕ) (es : List OutboxEvent)
    → Published [] es (claim_available now owner batch lease_ms es).0
unfolding claim_available
claim_available-Published now owner batch lease_ms es =
    let swept = update_many is_exhausted bury es in
    join [] [] es swept (claim_available now owner batch lease_ms es).0
      (quiet is_exhausted bury es (λ e. refl) (λ e. refl))
      (quiet (has_id (claim_ids now batch swept)) (lease owner (now + lease_ms)) swept (λ e. refl)
        (λ e. refl))

schedule_retry-Published :
    (now base maximum id : ℕ) (es : List OutboxEvent)
    → Published [] es (schedule_retry now base maximum id es).0
unfolding schedule_retry retry_event
schedule_retry-Published now base maximum id es = elim (Option-cases (find_event id es)) [
  | inl e ↦ rw (e, schedule_retry) (Rowwise-refl (Publishes []) (Publishes-refl []) es)
  | inr (x, e) ↦ elim (Bool-cases (is_terminal x.status)) [
    | inl t ↦ rw (e, schedule_retry, t) (Rowwise-refl (Publishes []) (Publishes-refl []) es)
    | inr t ↦ elim (Bool-cases (leb x.max_attempts x.attempt_count)) [
      | inl f ↦
          rw (e, schedule_retry, t, f) (quiet (λ r. r.id == x.id) bury es (λ r. refl) (λ r. refl))
      | inr f ↦
          let until = now + exponential_retry_delay x.attempt_count base maximum in
          rw (e, schedule_retry, t, f)
            (quiet (λ r. r.id == x.id) (put_off until) es (λ r. refl) (λ r. refl))
    ]
  ]
]

marked : (n m : ℕ) (p q : Bool) → (n == m) && p ≡ true → q || ((m == n) || false) ≡ true
marked n m p q h = ground (arith, h)

mark_published-Published :
    (now owner lease_ms : ℕ) (e : OutboxEvent) (es : List OutboxEvent)
    → Published (job_of e ∷ []) es (mark_published now owner lease_ms e.id es).0
unfolding mark_published
mark_published-Published now owner lease_ms e es =
    let fits = λ (r : OutboxEvent). (r.id == e.id) && is_leased_by owner r in
    let jobs = job_of e ∷ [] in
    update_many-Rowwise (Publishes jobs) (Publishes-refl jobs) fits (publish (now + lease_ms)) es (
      All-always (λ r. fits r ≡ true → Publishes jobs r (publish (now + lease_ms) r)) es
        λ r h. (refl, λ p. marked r.id e.id (is_leased_by owner r) (is_published r.status) h))

-- What a step or a whole poll of some events comes to.
abbrev Polled :
    (Job → Bool) → List OutboxEvent → List OutboxEvent → List OutboxEvent × List Job → Type 0
Polled accepts batch es r =
    (r.1 ≡ map job_of (filter (is_sent accepts) batch)) × Published r.1 es r.0

publish_event-Polled :
    (now owner lease_ms base maximum : ℕ) (accepts : Job → Bool) (e : OutboxEvent)
    (es : List OutboxEvent)
    → Polled accepts (e ∷ []) es (publish_event now owner lease_ms base maximum accepts e es)
unfolding publish_event
publish_event-Polled now owner lease_ms base maximum accepts e es =
    elim (Result-cases (parse_event_payload e.type e.version e.payload)) [
      | inr (x, p) ↦ rw (p, publish_event) (refl, schedule_retry-Published now base maximum e.id es)
      | inl (x, p) ↦ elim (Bool-cases (accepts (job_of e))) [
        | inl a ↦ rw (p, publish_event, a) (refl, mark_published-Published now owner lease_ms e es)
        | inr a ↦ rw (p, publish_event, a) (refl, schedule_retry-Published now base maximum e.id es)
      ]
    ]

sent-cons :
    (accepts : Job → Bool) (e : OutboxEvent) (batch : List OutboxEvent)
    → map job_of (filter (is_sent accepts) (e ∷ [])) ++ map job_of (filter (is_sent accepts) batch)
      ≡ map job_of (filter (is_sent accepts) (e ∷ batch))
sent-cons accepts e batch = elim (Bool-cases (is_sent accepts e)) [
  | inl s ↦ rw s refl
  | inr s ↦ rw s refl
]

publish_all-Polled :
    (now owner lease_ms base maximum : ℕ) (accepts : Job → Bool) (batch es : List OutboxEvent)
    → Polled accepts batch es (publish_all now owner lease_ms base maximum accepts batch es)
unfolding publish_all
publish_all-Polled now owner lease_ms base maximum accepts [] es =
    (refl, Rowwise-refl (Publishes []) (Publishes-refl []) es)
publish_all-Polled now owner lease_ms base maximum accepts (e ∷ batch) es =
    let first = publish_event now owner lease_ms base maximum accepts e es in
    let rest = publish_all now owner lease_ms base maximum accepts batch first.0 in
    let h = publish_event-Polled now owner lease_ms base maximum accepts e es in
    let k = publish_all-Polled now owner lease_ms base maximum accepts batch first.0 in
    (
      ap (λ x. x ++ rest.1) h.0
          ∙ ap (λ x. map job_of (filter (is_sent accepts) (e ∷ [])) ++ x) k.0
          ∙ sent-cons accepts e batch,
      join first.1 rest.1 es first.0 rest.0 h.1 k.1,
    )

-- One poll of the publisher hands to the queue exactly the claimed events whose payload is one of their
-- schema and whose job the queue takes, in the order of the claim; and the table keeps its events, of
-- which only those of a queued job become published.
pub poll_once_lem :
    (now owner batch lease_ms published_ms base maximum : ℕ) (accepts : Job → Bool)
    (es : List OutboxEvent)
    → ((poll_once now owner batch lease_ms published_ms base maximum accepts es).1
        ≡ map job_of (filter (is_sent accepts) (claim_available now owner batch lease_ms es).1))
      × Rowwise
          (Publishes (poll_once now owner batch lease_ms published_ms base maximum accepts es).1)
          es
          (poll_once now owner batch lease_ms published_ms base maximum accepts es).0
unfolding poll_once
poll_once_lem now owner batch lease_ms published_ms base maximum accepts es =
    let claimed = claim_available now owner batch lease_ms es in
    let r = publish_all-Polled now owner published_ms base maximum accepts claimed.1 claimed.0 in
    (
      r.0,
      join [] (publish_all now owner published_ms base maximum accepts claimed.1 claimed.0).1 es
          claimed.0 (publish_all now owner published_ms base maximum accepts claimed.1 claimed.0).0
          (claim_available-Published now owner batch lease_ms es) r.1,
    )
