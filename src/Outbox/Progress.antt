-- ===== src/Outbox/Progress.antt =====
-- No event that waits is forgotten: a claim with room takes every event that is due.
use mathlib.Core.Path.{subst}
use tunisia_vape_commerce.Prelude.{
  All, All-mono, Bool, Bool-cases, List, [], ap, arith, false, filter, if◌then◌else◌, includes, inl,
  inr, leb, length, refl, suc, take, true, zero, ℕ, ◌&&◌, ◌+◌, ◌∙◌, ◌∷◌, ◌≡◌, ◌≤◌,
}
use tunisia_vape_commerce.Table.{update_many}
use tunisia_vape_commerce.Table.Keys.{All-both, passed_included}
use tunisia_vape_commerce.Allocation.{insert_by, sort_by}
use tunisia_vape_commerce.Outbox.{OutboxEvent}
use tunisia_vape_commerce.Outbox.Repository.{
  bury, by_availability, claim_available, claim_ids, has_id, is_claimable, is_exhausted,
  is_leased_by, lease,
}
use tunisia_vape_commerce.Outbox.Leases.{event_ids, unordered}

module _ {A : Type 0} where
  take_all : (n : ℕ) (rs : List A) → length rs ≤ n → take n rs ≡ rs
  take_all zero [] h = refl
  take_all zero (r ∷ rs) h = absurd (omega (arith, h))
  take_all (suc n) [] h = refl
  take_all (suc n) (r ∷ rs) h = ap (λ qs. r ∷ qs) (take_all n rs (omega (arith, h)))

  length-insert : (by : A → ℕ) (r : A) (rs : List A) → length (insert_by by r rs) ≡ length rs + 1
  unfolding insert_by
  length-insert by r [] = refl
  length-insert by r (q ∷ rs) = elim (Bool-cases (leb (by r) (by q))) [
    | inl e ↦ rw e (omega arith)
    | inr e ↦ rw e (omega (arith, length-insert by r rs))
  ]

  length-sort : (by : A → ℕ) (rs : List A) → length (sort_by by rs) ≡ length rs
  unfolding sort_by
  length-sort by [] = refl
  length-sort by (r ∷ rs) = omega (arith, length-insert by r (sort_by by rs), length-sort by rs)

  -- What holds after an update, of the rows before it.
  All-before :
      (Q : A → Type 0) (fits : A → Bool) (change : A → A) (rs : List A)
      → All Q (update_many fits change rs)
      → All (λ r. Q (if fits r then change r else r)) rs
  All-before Q fits change [] h = tt
  All-before Q fits change (r ∷ rs) h = (h.0, All-before Q fits change rs h.1)

-- Where a batch has room for every event that is claimable once the exhausted ones are dead letters: a
-- claim hands out each claimable event.
pub claim_available_takes :
    (now owner batch_size lease_ms : ℕ) (es : List OutboxEvent)
    → length (filter (is_claimable now) (update_many is_exhausted bury es)) ≤ batch_size
    → All
        (λ e.
          is_claimable now e ≡ true
          → includes e.id (event_ids (claim_available now owner batch_size lease_ms es).1) ≡ true)
        es
unfolding claim_available claim_ids
claim_available_takes now owner batch_size lease_ms es room =
    All-mono (λ e. Due (swept_row e) × Leased (taken_row (swept_row e)))
      (λ e. is_claimable now e ≡ true → includes e.id (event_ids (by_availability batch)) ≡ true) es
      (λ e h c. taken_one e h c)
      (All-both (λ e. Due (swept_row e)) (λ e. Leased (taken_row (swept_row e))) es
        (All-before Due is_exhausted bury es due)
        (All-before (λ r. Leased (taken_row r)) is_exhausted bury es
          (All-before Leased (has_id ids) change swept (
            passed_included (λ (e : OutboxEvent). e.id) (λ e. has_id ids e && is_leased_by owner e)
              taken))))
  where
    swept : List OutboxEvent
    swept = update_many is_exhausted bury es

    claimable : List OutboxEvent
    claimable = filter (is_claimable now) swept

    ids : List ℕ
    ids = claim_ids now batch_size swept

    change : OutboxEvent → OutboxEvent
    change = lease owner (now + lease_ms)

    taken : List OutboxEvent
    taken = update_many (has_id ids) change swept

    batch : List OutboxEvent
    batch = filter (λ e. has_id ids e && is_leased_by owner e) taken

    swept_row : OutboxEvent → OutboxEvent
    swept_row e = if is_exhausted e then bury e else e

    taken_row : OutboxEvent → OutboxEvent
    taken_row r = if has_id ids r then change r else r

    Due : OutboxEvent → Type 0
    Due r = is_claimable now r ≡ true → includes r.id ids ≡ true

    Leased : OutboxEvent → Type 0
    Leased r = has_id ids r && is_leased_by owner r ≡ true → includes r.id (event_ids batch) ≡ true

    all_ids : ids ≡ event_ids (by_availability claimable)
    all_ids = ap event_ids (
        take_all batch_size (by_availability claimable) (
          omega (
            arith,
            room,
            length-sort (λ (e : OutboxEvent). e.available_at)
                (sort_by (λ (e : OutboxEvent). e.id) claimable),
            length-sort (λ (e : OutboxEvent). e.id) claimable,
          )))

    due : All Due swept
    due =
        All-mono (λ r. is_claimable now r ≡ true → includes r.id (event_ids claimable) ≡ true) Due
          swept (λ r h c. ap (includes r.id) all_ids ∙ unordered r.id claimable ∙ h c)
          (passed_included (λ (e : OutboxEvent). e.id) (is_claimable now) swept)

    taken_one :
        (e : OutboxEvent)
        → Due (swept_row e) × Leased (taken_row (swept_row e))
        → is_claimable now e ≡ true
        → includes e.id (event_ids (by_availability batch)) ≡ true
    taken_one e h c =
        let open_row : is_exhausted e ≡ false = ground (arith, c) in
        let same : swept_row e ≡ e = rw open_row refl in
        let chosen : includes e.id ids ≡ true = subst Due same h.0 c in
        let moved : taken_row e ≡ change e = rw chosen refl in
        let leased_one : Leased (change e) =
          subst Leased moved (subst (λ r. Leased (taken_row r)) same h.1) in
        unordered e.id batch ∙ leased_one (ground (arith, chosen))
