-- ===== src/Outbox/Advances.antt =====
-- What any transaction of the worker may do to an event, and what follows over the table.
use tunisia_vape_commerce.Prelude.{All, Bool, List, [], arith, refl, some, true, ◌∙◌, ◌∷◌, ◌≡◌, ◌≤◌}
use tunisia_vape_commerce.Table.{HasKey, update_many}
use tunisia_vape_commerce.Outbox.{OutboxEvent, is_processed}
use tunisia_vape_commerce.Outbox.Repository.{find_event, update_event}
use tunisia_vape_commerce.Table.Rowwise.{
  Rowwise, Rowwise-HasKey, Rowwise-refl, Rowwise-trans, update_found-Rowwise, update_many-Rowwise,
}

-- The event keeps its identity and limit; its attempts never fall, nor pass the limit that they
-- kept; and an event that is processed stays so, with no further attempt.
pub record Advances (e e' : OutboxEvent) : Type 0 where
  pub same_id : e'.id ≡ e.id
  pub same_limit : e'.max_attempts ≡ e.max_attempts
  pub grows : e.attempt_count ≤ e'.attempt_count
  pub bounded : e.attempt_count ≤ e.max_attempts → e'.attempt_count ≤ e.max_attempts
  pub stays :
      is_processed e.status ≡ true
      → (is_processed e'.status ≡ true) × (e'.attempt_count ≡ e.attempt_count)

pub Advances-refl : (e : OutboxEvent) → Advances e e
Advances-refl e = record {
  same_id = refl;
  same_limit = refl;
  grows = omega arith;
  bounded = λ h. h;
  stays = λ h. (h, refl);
}

pub Advances-trans : (a b c : OutboxEvent) → Advances a b → Advances b c → Advances a c
Advances-trans a b c h k = record {
  same_id = k.same_id ∙ h.same_id;
  same_limit = k.same_limit ∙ h.same_limit;
  grows = omega (arith, h.grows, k.grows);
  bounded = λ p. omega (arith, h.same_limit, k.bounded (omega (arith, h.bounded p, h.same_limit)));
  stays = λ p. ((k.stays (h.stays p).0).0, (k.stays (h.stays p).0).1 ∙ (h.stays p).1);
}

-- Row by row.
abbrev pub AllAdvance : List OutboxEvent → List OutboxEvent → Type 0
AllAdvance = Rowwise Advances

pub AllAdvance-refl : (es : List OutboxEvent) → AllAdvance es es
AllAdvance-refl = Rowwise-refl Advances Advances-refl

pub AllAdvance-trans :
    (es fs gs : List OutboxEvent) → AllAdvance es fs → AllAdvance fs gs → AllAdvance es gs
AllAdvance-trans = Rowwise-trans Advances Advances-trans

pub update_many-AllAdvance :
    (fits : OutboxEvent → Bool) (change : OutboxEvent → OutboxEvent) (es : List OutboxEvent)
    → All (λ e. fits e ≡ true → Advances e (change e)) es
    → AllAdvance es (update_many fits change es)
update_many-AllAdvance = update_many-Rowwise Advances Advances-refl

pub advanced-HasKey :
    (es fs : List OutboxEvent)
    → AllAdvance es fs
    → HasKey (λ (e : OutboxEvent). e.id) es
    → HasKey (λ (e : OutboxEvent). e.id) fs
advanced-HasKey = Rowwise-HasKey Advances (λ e. e.id) (λ a b h. h.same_id)

-- A test that every row meets.
pub All-always :
    (P : OutboxEvent → Type 0) (es : List OutboxEvent) → ((e : OutboxEvent) → P e) → All P es
All-always P [] h = tt
All-always P (e ∷ es) h = (h e, All-always P es h)

-- An update of the row that was found, by its identifier.
pub update_event-AllAdvance :
    (e : OutboxEvent) (change : OutboxEvent → OutboxEvent) (es : List OutboxEvent)
    → HasKey (λ (r : OutboxEvent). r.id) es
    → find_event e.id es ≡ some e
    → Advances e (change e)
    → AllAdvance es (update_event e.id change es)
update_event-AllAdvance = update_found-Rowwise Advances Advances-refl (λ e. e.id)
