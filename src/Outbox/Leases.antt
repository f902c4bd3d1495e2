-- ===== src/Outbox/Leases.antt =====
-- A lease excludes the other workers until it lapses.
use mathlib.Core.Path.{subst}
use tunisia_vape_commerce.Prelude.{
  ==_iff, All, All-mono, Bool, Bool-cases, List, [], arith, false, filter, if◌then◌else◌, includes,
  inl, inr, map, refl, sym, true, ℕ, ◌&&◌, ◌+◌, ◌<◌, ◌==◌, ◌∙◌, ◌∷◌, ◌≡◌,
}
use tunisia_vape_commerce.Table.{update_many}
use tunisia_vape_commerce.Table.Keys.{All-both, All-update, includes-sort}
use tunisia_vape_commerce.Allocation.{sort_by}
use tunisia_vape_commerce.Outbox.{OutboxEvent, Tables}
use tunisia_vape_commerce.Outbox.Advances.{advanced-HasKey}
use tunisia_vape_commerce.Outbox.Claims.{
  IsKeyed, claim_available-AllAdvance, claimed_rows, sweep-AllAdvance,
}
use tunisia_vape_commerce.Outbox.Repository.{
  bury, by_availability, claim_available, claim_ids, has_id, is_claimable, is_exhausted,
  is_leased_by, lease,
}
use tunisia_vape_commerce.Outbox.Actions.{Action, claim, perform, run}
use tunisia_vape_commerce.Outbox.Holds.{
  Holds, IsBlocked, LetsHold, leased_rows, run-Holds, sweep-IsBlocked, taken-IsBlocked,
}

abbrev pub event_ids : List OutboxEvent → List ℕ
event_ids = map (λ e. e.id)

pub included_passes :
    (i : ℕ) (ids : List ℕ) (q : OutboxEvent → Bool) (es : List OutboxEvent)
    → includes i (event_ids (filter (λ e. has_id ids e && q e) es)) ≡ true
    → includes i ids ≡ true
included_passes i ids q [] h = cc
included_passes i ids q (e ∷ es) h = elim (Bool-cases (has_id ids e && q e)) [
  | inl p ↦ elim (Bool-cases (i == e.id)) [
    | inl same ↦
        subst (λ x. includes x ids ≡ true) (sym ((==_iff i e.id).0 same)) (ground (arith, p))
    | inr other ↦ included_passes i ids q es (ground (arith, rw p at h, other))
  ]
  | inr p ↦ included_passes i ids q es (rw p at h)
]

pub unordered :
    (i : ℕ) (es : List OutboxEvent)
    → includes i (event_ids (by_availability es)) ≡ includes i (event_ids es)
unordered i es =
    includes-sort (λ e. e.id) i (λ e. e.available_at) (sort_by (λ (e : OutboxEvent). e.id) es)
    ∙ includes-sort (λ e. e.id) i (λ e. e.id) es

-- A row that a claim does not take, if it is the event of that identifier.
abbrev IsPassed : List ℕ → ℕ → OutboxEvent → Type 0
IsPassed ids i e = (e.id == i) ≡ true → has_id ids e ≡ false

flip : (a b : ℕ) → (a == b) ≡ true → (b == a) ≡ true
flip a b h = ground (arith, h)

both_of : (p q : Bool) → p && q ≡ true → p ≡ true
both_of p q h = ground (arith, h)

included_none :
    (i : ℕ) (ids : List ℕ) (q : OutboxEvent → Bool) (es : List OutboxEvent)
    → All (IsPassed ids i) es
    → includes i (event_ids (filter (λ e. has_id ids e && q e) es)) ≡ false
included_none i ids q [] a = refl
included_none i ids q (e ∷ es) a = elim (Bool-cases (has_id ids e && q e)) [
  | inl p ↦ elim (Bool-cases (i == e.id)) [
    | inl same ↦ cc (both_of (has_id ids e) (q e) p, a.0 (flip i e.id same))
    | inr other ↦ rw (p, other) (included_none i ids q es a.1)
  ]
  | inr p ↦ rw p (included_none i ids q es a.1)
]

rows-IsPassed :
    (later i : ℕ) (ids : List ℕ) (es : List OutboxEvent)
    → All (λ e. IsBlocked later i e × (has_id ids e ≡ true → is_claimable later e ≡ true)) es
    → All (IsPassed ids i) es
rows-IsPassed later i ids es =
    All-mono (λ e. IsBlocked later i e × (has_id ids e ≡ true → is_claimable later e ≡ true))
      (IsPassed ids i) es
      λ e p same. elim (Bool-cases (has_id ids e)) [
        | inr out ↦ out
        | inl old ↦ cc (p.0 same, p.1 old)
      ]

leased-IsPassed :
    (ids : List ℕ) (i owner until : ℕ) (es : List OutboxEvent)
    → All (IsPassed ids i) es
    → All (IsPassed ids i) (update_many (has_id ids) (lease owner until) es)
leased-IsPassed ids i owner until es =
    All-update (IsPassed ids i) (IsPassed ids i) (has_id ids) (lease owner until) row es
  where
    row :
        (e : OutboxEvent)
        → IsPassed ids i e
        → IsPassed ids i (if has_id ids e then lease owner until e else e)
    row e h = elim (Bool-cases (has_id ids e)) [ inl x ↦ rw x h | inr x ↦ rw x h ]

-- A blocked event is in no batch that is claimed at that time.
blocked_out :
    (later i owner batch lease_ms : ℕ) (es : List OutboxEvent)
    → Holds later i es
    → includes i (event_ids (claim_available later owner batch lease_ms es).1) ≡ false
unfolding claim_available
blocked_out later i owner batch lease_ms es (k, h) =
    unordered i _ ∙ included_none i ids (is_leased_by owner) _ passed
  where
    swept : List OutboxEvent
    swept = update_many is_exhausted bury es

    ids : List ℕ
    ids = claim_ids later batch swept

    rows :
        All (λ e. IsBlocked later i e × (has_id ids e ≡ true → is_claimable later e ≡ true)) swept
    rows =
        All-both (IsBlocked later i) (λ e. has_id ids e ≡ true → is_claimable later e ≡ true) swept
          (sweep-IsBlocked later i es h)
          (claimed_rows later batch swept (advanced-HasKey es swept (sweep-AllAdvance es) k))

    passed : All (IsPassed ids i) (update_many (has_id ids) (lease owner (later + lease_ms)) swept)
    passed =
        leased-IsPassed ids i owner (later + lease_ms) swept (rows-IsPassed later i ids swept rows)

-- Over events with distinct identifiers: an event that a worker's claim returned is in no batch that
-- the same or another worker claims before the lease of the first claim lapses, whatever claims,
-- publication marks and retries of other events come in between, provided that the leases which those
-- claims and marks set last beyond the later claim.
pub claim_available_excludes :
    (now later a b batch batch' lease_ms lease_ms' i : ℕ) (actions : List Action) (s : Tables)
    → IsKeyed s.events
    → later < now + lease_ms
    → includes i (event_ids (claim_available now a batch lease_ms s.events).1) ≡ true
    → All (LetsHold later i) actions
    → includes i (
        event_ids
          (claim_available later b batch' lease_ms'
            (run actions (perform (claim now a batch lease_ms) s)).events).1)
      ≡ false
unfolding claim_available perform
claim_available_excludes now later a b batch batch' lease_ms lease_ms' i actions s k before h l =
    blocked_out later i b batch' lease_ms' (run actions first).events (
      run-Holds later i actions first l (
        advanced-HasKey s.events first.events
            (claim_available-AllAdvance now a batch lease_ms s.events k) k,
        taken-IsBlocked ids (now + lease_ms) later i first.events before included
            (leased_rows ids a (now + lease_ms) swept),
      ))
  where
    first : Tables
    first = perform (claim now a batch lease_ms) s

    swept : List OutboxEvent
    swept = update_many is_exhausted bury s.events

    ids : List ℕ
    ids = claim_ids now batch swept

    included : includes i ids ≡ true
    included = included_passes i ids (is_leased_by a) _ (sym (unordered i _) ∙ h)
