-- ===== src/Outbox/Attempts.antt =====
-- How often an event is handed out over any interleaving of the workers' transactions.
use mathlib.Core.Path.{subst}
use tunisia_vape_commerce.Prelude.{
  All, All-mono, Bool, Bool-cases, List, [], ap, arith, false, if◌then◌else◌, includes, inl, inr,
  refl, some, sym, true, ℕ, ◌+◌, ◌==◌, ◌∙◌, ◌∷◌, ◌≡◌, ◌≤◌,
}
use tunisia_vape_commerce.Table.{update_many}
use tunisia_vape_commerce.Table.Keys.{find_row-key, find_row-update}
use tunisia_vape_commerce.Outbox.{OutboxEvent, Tables}
use tunisia_vape_commerce.Outbox.Repository.{
  bury, claim_available, claim_ids, find_event, has_id, is_exhausted, is_leased_by, lease,
}
use tunisia_vape_commerce.Outbox.Advances.{Advances, AllAdvance}
use tunisia_vape_commerce.Outbox.Claims.{sweep-AllAdvance}
use tunisia_vape_commerce.Outbox.Leases.{event_ids, included_passes, unordered}
use tunisia_vape_commerce.Outbox.Serves.{HasKeys, Serves, Serves-HasKeys}
use tunisia_vape_commerce.Outbox.Actions.{
  Action, claim, claim_media, claim_notice, clock_of, complete_media, defer, fail, handle, mark,
  perform, run, succeed,
}
use tunisia_vape_commerce.Outbox.Traces.{perform-Serves, run-Serves}

-- Whether a transaction is a claim whose batch holds the event.
abbrev pub takes : ℕ → Action → Tables → Bool
takes id (claim now owner batch_size lease_ms) s =
    includes id (event_ids (claim_available now owner batch_size lease_ms s.events).1)
takes id _ s = false

unfoldable pub claims_of : ℕ → List Action → Tables → ℕ
claims_of id [] s = 0
claims_of id (a ∷ actions) s = (if takes id a s then 1 else 0) + claims_of id actions (perform a s)

-- The row of an event, after the events advance.
advanced_row :
    (id : ℕ) (e : OutboxEvent) (es fs : List OutboxEvent)
    → AllAdvance es fs
    → find_event id es ≡ some e
    → (e' : OutboxEvent) × (find_event id fs ≡ some e') × Advances e e'
advanced_row id e [] [] h found = cc
advanced_row id e [] (f ∷ fs) h found = absurd h
advanced_row id e (r ∷ es) [] h found = absurd h
advanced_row id e (r ∷ es) (f ∷ fs) h found = elim (Bool-cases (r.id == id)) [
  | inl a ↦
      let same : r ≡ e = cc (rw a at found) in
      let hit : (f.id == id) ≡ true = ap (λ i. i == id) h.0.same_id ∙ a in
      (f, rw hit refl, subst (λ x. Advances x f) same h.0)
  | inr a ↦
      let miss : (f.id == id) ≡ false = ap (λ i. i == id) h.0.same_id ∙ a in
      let (e', there, step) = advanced_row id e es fs h.1 (rw a at found) in
      (e', rw miss there, step)
]

-- A claim that hands out an event counts an attempt.
claimed_row :
    (now owner batch_size lease_ms id : ℕ) (e : OutboxEvent) (es : List OutboxEvent)
    → find_event id es ≡ some e
    → includes id (event_ids (claim_available now owner batch_size lease_ms es).1) ≡ true
    → (e' : OutboxEvent) × (find_event id (claim_available now owner batch_size lease_ms es).0
        ≡ some e')
      × (e.attempt_count + 1 ≤ e'.attempt_count)
unfolding claim_available
claimed_row now owner batch_size lease_ms id e es found h =
    let swept = update_many is_exhausted bury es in
    let ids = claim_ids now batch_size swept in
    let change = lease owner (now + lease_ms) in
    let taken = update_many (has_id ids) change swept in
    let (m, there, step) = advanced_row id e es swept (sweep-AllAdvance es) found in
    let included : includes id ids ≡ true =
      included_passes id ids (is_leased_by owner) taken (sym (unordered id _) ∙ h) in
    let fits : has_id ids m ≡ true =
      ap (λ i. includes i ids) (find_row-key (λ r. r.id) id swept there) ∙ included in
    (
      change m,
      find_row-update (λ r. r.id) id m (has_id ids) change swept (λ r. refl) there fits,
      omega (arith, step.grows),
    )

-- A transaction that does not hand the event out.
other_row :
    (id : ℕ) (e : OutboxEvent) (a : Action) (s : Tables)
    → HasKeys s
    → find_event id s.events ≡ some e
    → takes id a s ≡ false
    → (e' : OutboxEvent) × (find_event id (perform a s).events ≡ some e')
      × ((if takes id a s then 1 else 0) + e.attempt_count ≤ e'.attempt_count)
other_row id e a s k found not_taken =
    let served : Serves (clock_of a) s (perform a s) = perform-Serves a s (omega arith) k in
    let (e', there, step) = advanced_row id e s.events (perform a s).events served.advanced found in
    (e', there, rw not_taken (omega (arith, step.grows)))

step_row :
    (id : ℕ) (e : OutboxEvent) (a : Action) (s : Tables)
    → HasKeys s
    → find_event id s.events ≡ some e
    → (e' : OutboxEvent) × (find_event id (perform a s).events ≡ some e')
      × ((if takes id a s then 1 else 0) + e.attempt_count ≤ e'.attempt_count)
unfolding perform
step_row id e (claim now owner batch_size lease_ms) s k found =
    elim (Bool-cases (takes id (claim now owner batch_size lease_ms) s)) [
      | inr h ↦ other_row id e (claim now owner batch_size lease_ms) s k found h
      | inl h ↦
          let (e', there, more) = claimed_row now owner batch_size lease_ms id e s.events found h in
          (e', there, rw h (omega (arith, more)))
    ]
step_row id e (mark a b c d) s k found = other_row id e (mark a b c d) s k found refl
step_row id e (defer a b c d) s k found = other_row id e (defer a b c d) s k found refl
step_row id e (handle a b c d) s k found = other_row id e (handle a b c d) s k found refl
step_row id e (claim_notice a b c d f g) s k found =
    other_row id e (claim_notice a b c d f g) s k found refl
step_row id e (succeed a b) s k found = other_row id e (succeed a b) s k found refl
step_row id e (fail a b c d) s k found = other_row id e (fail a b c d) s k found refl
step_row id e (claim_media a b c d) s k found = other_row id e (claim_media a b c d) s k found refl
step_row id e (complete_media a) s k found = other_row id e (complete_media a) s k found refl

counted :
    (id : ℕ) (e : OutboxEvent) (actions : List Action) (s : Tables)
    → HasKeys s
    → find_event id s.events ≡ some e
    → (e' : OutboxEvent) × (find_event id (run actions s).events ≡ some e')
      × (claims_of id actions s + e.attempt_count ≤ e'.attempt_count)
unfolding claims_of run
counted id e [] s k found = (e, found, omega arith)
counted id e (a ∷ actions) s k found =
    let (m, here, first) = step_row id e a s k found in
    let served : Serves (clock_of a) s (perform a s) = perform-Serves a s (omega arith) k in
    let keys = Serves-HasKeys s (perform a s) served k in
    let (e', there, rest) = counted id m actions (perform a s) keys here in
    (e', there, omega (arith, first, rest))

times_upto : (actions : List Action) → (clock : ℕ) × All (λ a. clock_of a ≤ clock) actions
times_upto [] = (0, tt)
times_upto (a ∷ actions) =
    let (clock, before) = times_upto actions in
    (
      clock_of a + clock,
      (
        omega arith,
        All-mono (λ b. clock_of b ≤ clock) (λ b. clock_of b ≤ clock_of a + clock) actions
            (λ b h. omega (arith, h)) before,
      ),
    )

-- From tables whose keys are distinct, over any sequence of the workers' transactions: an event whose
-- attempts are within its limit is handed out at most as often as the limit leaves attempts to it.
pub claims_of_bounded :
    (id : ℕ) (e : OutboxEvent) (actions : List Action) (s : Tables)
    → HasKeys s
    → find_event id s.events ≡ some e
    → e.attempt_count ≤ e.max_attempts
    → claims_of id actions s + e.attempt_count ≤ e.max_attempts
claims_of_bounded id e actions s k found within =
    let (clock, before) = times_upto actions in
    let served = run-Serves clock actions s before k in
    let (e', there, more) = counted id e actions s k found in
    let (e2, there2, step) =
      advanced_row id e s.events (run actions s).events served.advanced found in
    let same : e' ≡ e2 = cc in
    omega (arith, more, step.bounded within, ap (λ (x : OutboxEvent). x.attempt_count) same)
