-- ===== src/Outbox/Holds.antt =====
-- What keeps a leased event from the workers: the lease, and the transactions that let it hold.
use mathlib.Core.Path.{subst}
use tunisia_vape_commerce.Prelude.{
  ==_iff, All, All-mono, Bool, Bool-cases, List, Option-cases, [], arith, false, if◌then◌else◌,
  includes, inl, inr, leb, refl, some, sym, true, ℕ, ◌&&◌, ◌+◌, ◌<◌, ◌==◌, ◌∷◌, ◌≡◌,
}
use tunisia_vape_commerce.Table.{update_many}
use tunisia_vape_commerce.Table.Keys.{All-update, find_row-key}
use tunisia_vape_commerce.Outbox.{OutboxEvent, Tables}
use tunisia_vape_commerce.Outbox.Advances.{All-always, advanced-HasKey}
use tunisia_vape_commerce.Outbox.Claims.{
  IsKeyed, claim_available-AllAdvance, mark_published-AllAdvance, schedule_retry-AllAdvance,
}
use tunisia_vape_commerce.Outbox.Repository.{
  bury, claim_available, claim_ids, find_event, has_id, is_claimable, is_exhausted, is_leased,
  is_leased_by, is_terminal, lease, mark_published, publish, put_off, retry_event, schedule_retry,
  update_event,
}
use tunisia_vape_commerce.Outbox.Actions.{
  Action, claim, claim_media, claim_notice, complete_media, defer, fail, handle, mark, perform, run,
  succeed,
}
use tunisia_vape_commerce.Outbox.Contracts.{exponential_retry_delay}

-- A claimed row: under its lease until a time.
abbrev pub IsLeasedUntil : ℕ → OutboxEvent → Type 0
IsLeasedUntil until e = (is_leased e.status ≡ true) × (e.lease_expires_at ≡ some until)

pub leased_rows :
    (ids : List ℕ) (owner until : ℕ) (es : List OutboxEvent)
    → All
        (λ e. has_id ids e ≡ true → IsLeasedUntil until e)
        (update_many (has_id ids) (lease owner until) es)
leased_rows ids owner until es =
    All-update (λ e. Unit {0}) (λ e. has_id ids e ≡ true → IsLeasedUntil until e) (has_id ids)
      (lease owner until) row es (All-always (λ e. Unit {0}) es λ e. tt)
  where
    row :
        (e : OutboxEvent)
        → Unit {0}
        → has_id ids (if has_id ids e then lease owner until e else e) ≡ true
        → IsLeasedUntil until (if has_id ids e then lease owner until e else e)
    row e u = elim (Bool-cases (has_id ids e)) [
      | inl h ↦ rw h (λ _. (refl, refl))
      | inr h ↦ rw h (λ k. cc (h, k))
    ]

-- A row that a worker cannot claim at a time, if it is the event of that identifier.
abbrev pub IsBlocked : ℕ → ℕ → OutboxEvent → Type 0
IsBlocked later i e = (e.id == i) ≡ true → is_claimable later e ≡ false

leased_blocks :
    (until later : ℕ) (e : OutboxEvent)
    → later < until
    → IsLeasedUntil until e
    → is_claimable later e ≡ false
leased_blocks until later e before (l, u) = rw u (ground (arith, before, l))

included_same :
    (i : ℕ) (ids : List ℕ) (e : OutboxEvent)
    → includes i ids ≡ true
    → (e.id == i) ≡ true
    → has_id ids e ≡ true
included_same i ids e h same = subst (λ x. includes x ids ≡ true) (sym ((==_iff e.id i).0 same)) h

-- The rows that a claim took are blocked until their leases lapse.
pub taken-IsBlocked :
    (ids : List ℕ) (until later i : ℕ) (es : List OutboxEvent)
    → later < until
    → includes i ids ≡ true
    → All (λ e. has_id ids e ≡ true → IsLeasedUntil until e) es
    → All (IsBlocked later i) es
taken-IsBlocked ids until later i es before h =
    All-mono (λ e. has_id ids e ≡ true → IsLeasedUntil until e) (IsBlocked later i) es
      λ e leased same. leased_blocks until later e before (leased (included_same i ids e h same))

-- An update keeps the rows blocked if it blocks what it changes.
update-IsBlocked :
    (later i : ℕ) (fits : OutboxEvent → Bool) (change : OutboxEvent → OutboxEvent)
    → ((e : OutboxEvent) → fits e ≡ true → IsBlocked later i e → IsBlocked later i (change e))
    → (es : List OutboxEvent) → All (IsBlocked later i) es
    → All (IsBlocked later i) (update_many fits change es)
update-IsBlocked later i fits change step =
    All-update (IsBlocked later i) (IsBlocked later i) fits change row
  where
    row :
        (e : OutboxEvent) → IsBlocked later i e → IsBlocked later i (if fits e then change e else e)
    row e b = elim (Bool-cases (fits e)) [
      | inl f ↦ subst (λ x. IsBlocked later i (if x then change e else e)) (sym f) (step e f b)
      | inr f ↦ subst (λ x. IsBlocked later i (if x then change e else e)) (sym f) b
    ]

pub sweep-IsBlocked :
    (later i : ℕ) (es : List OutboxEvent)
    → All (IsBlocked later i) es
    → All (IsBlocked later i) (update_many is_exhausted bury es)
sweep-IsBlocked later i =
    update-IsBlocked later i is_exhausted bury λ e f b same. bury_blocks later e
  where
    bury_blocks : (later : ℕ) (e : OutboxEvent) → is_claimable later (bury e) ≡ false
    bury_blocks later e = ground arith

claim-IsBlocked :
    (later i now owner batch lease_ms : ℕ) (es : List OutboxEvent)
    → later < now + lease_ms
    → All (IsBlocked later i) es
    → All (IsBlocked later i) (claim_available now owner batch lease_ms es).0
unfolding claim_available
claim-IsBlocked later i now owner batch lease_ms es before h =
    let swept = update_many is_exhausted bury es in
    update-IsBlocked later i (has_id (claim_ids now batch swept)) (lease owner (now + lease_ms))
      (λ e f b same.
        leased_blocks (now + lease_ms) later (lease owner (now + lease_ms) e) before (refl, refl))
      swept (sweep-IsBlocked later i es h)

mark-IsBlocked :
    (later i now owner lease_ms id : ℕ) (es : List OutboxEvent)
    → later < now + lease_ms
    → All (IsBlocked later i) es
    → All (IsBlocked later i) (mark_published now owner lease_ms id es).0
unfolding mark_published
mark-IsBlocked later i now owner lease_ms id es before =
    update-IsBlocked later i (λ e. (e.id == id) && is_leased_by owner e) (publish (now + lease_ms))
      (λ e f b same. published_blocks (now + lease_ms) later e before) es
  where
    published_blocks :
        (until later : ℕ) (e : OutboxEvent)
        → later < until
        → is_claimable later (publish until e) ≡ false
    published_blocks until later e before = ground (arith, before)

-- An event that is put off is another one.
other-IsBlocked :
    (later i id : ℕ) (change : OutboxEvent → OutboxEvent) (es : List OutboxEvent)
    → ((e : OutboxEvent) → (change e).id ≡ e.id)
    → (id == i) ≡ false
    → All (IsBlocked later i) es
    → All (IsBlocked later i) (update_event id change es)
other-IsBlocked later i id change es kept other =
    update-IsBlocked later i (λ e. e.id == id) change
      (λ e f b same. absurd (differ e.id id i f other (subst (λ x. (x == i) ≡ true) (kept e) same)))
      es
  where
    differ : (a b c : ℕ) → (a == b) ≡ true → (b == c) ≡ false → (a == c) ≡ true → ⊥
    differ a b c h k l = ground (arith, h, k, l)

retry-IsBlocked :
    (later i now base maximum id : ℕ) (es : List OutboxEvent)
    → (id == i) ≡ false
    → All (IsBlocked later i) es
    → All (IsBlocked later i) (schedule_retry now base maximum id es).0
unfolding schedule_retry retry_event
retry-IsBlocked later i now base maximum id es other h = elim (Option-cases (find_event id es)) [
  | inl e ↦ rw (e, schedule_retry) h
  | inr (x, e) ↦
      let own : x.id ≡ id = find_row-key (λ r. r.id) id es e in
      let other' : (x.id == i) ≡ false = subst (λ y. (y == i) ≡ false) (sym own) other in
      let until = now + exponential_retry_delay x.attempt_count base maximum in
      elim (Bool-cases (is_terminal x.status)) [
        | inl t ↦ rw (e, schedule_retry, t) h
        | inr t ↦ elim (Bool-cases (leb x.max_attempts x.attempt_count)) [
          | inl f ↦
              rw (e, schedule_retry, t, f)
                (other-IsBlocked later i x.id bury es (λ r. refl) other' h)
          | inr f ↦
              rw (e, schedule_retry, t, f)
                (other-IsBlocked later i x.id (put_off until) es (λ r. refl) other' h)
        ]
      ]
]

-- What may come between: a claim or a publication mark whose lease lasts beyond a time, and a retry of
-- another event.
abbrev pub LetsHold : ℕ → ℕ → Action → Type 0
LetsHold later i (claim now owner batch lease_ms) = later < now + lease_ms
LetsHold later i (mark now owner lease_ms id) = later < now + lease_ms
LetsHold later i (defer now base maximum id) = (id == i) ≡ false
LetsHold later i _ = ⊥

-- The event stays blocked, and the identifiers distinct.
abbrev pub Holds : ℕ → ℕ → List OutboxEvent → Type 0
Holds later i es = IsKeyed es × All (IsBlocked later i) es

perform-Holds :
    (later i : ℕ) (a : Action) (s : Tables)
    → LetsHold later i a
    → Holds later i s.events
    → Holds later i (perform a s).events
unfolding perform
perform-Holds later i (claim now owner batch lease_ms) s l (k, h) = (
  advanced-HasKey s.events (claim_available now owner batch lease_ms s.events).0
      (claim_available-AllAdvance now owner batch lease_ms s.events k) k,
  claim-IsBlocked later i now owner batch lease_ms s.events l h,
)
perform-Holds later i (mark now owner lease_ms id) s l (k, h) = (
  advanced-HasKey s.events (mark_published now owner lease_ms id s.events).0
      (mark_published-AllAdvance now owner lease_ms id s.events) k,
  mark-IsBlocked later i now owner lease_ms id s.events l h,
)
perform-Holds later i (defer now base maximum id) s l (k, h) = (
  advanced-HasKey s.events (schedule_retry now base maximum id s.events).0
      (schedule_retry-AllAdvance now base maximum id s.events k) k,
  retry-IsBlocked later i now base maximum id s.events l h,
)
perform-Holds later i (handle now owner lease_ms job) s l h = absurd l
perform-Holds later i (claim_notice now owner lease_ms p f job) s l h = absurd l
perform-Holds later i (succeed w d) s l h = absurd l
perform-Holds later i (fail now base maximum w) s l h = absurd l
perform-Holds later i (claim_media now owner lease_ms job) s l h = absurd l
perform-Holds later i (complete_media job) s l h = absurd l

pub run-Holds :
    (later i : ℕ) (actions : List Action) (s : Tables)
    → All (LetsHold later i) actions
    → Holds later i s.events
    → Holds later i (run actions s).events
unfolding run
run-Holds later i [] s l h = h
run-Holds later i (a ∷ actions) s l h =
    run-Holds later i actions (perform a s) l.1 (perform-Holds later i a s l.0 h)
