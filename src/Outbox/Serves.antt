-- ===== src/Outbox/Serves.antt =====
-- What any transaction of the worker may do to the tables of events, notifications and attempts.
use tunisia_vape_commerce.Prelude.{
  ==_iff, Bool, Bool-cases, List, [], ap, arith, count_by, false, inl, inr, refl, some, true, ℕ,
  ◌+◌, ◌==◌, ◌∙◌, ◌∷◌, ◌≡◌, ◌≤◌,
}
use tunisia_vape_commerce.Table.{HasKey, update_many}
use tunisia_vape_commerce.Table.Rowwise.{
  Rowwise, Rowwise-HasKey, Rowwise-refl, Rowwise-trans, update_found-Rowwise,
}
use tunisia_vape_commerce.Outbox.{Attempt, Notification, NotificationStatus, OutboxEvent, Tables}
use tunisia_vape_commerce.Outbox.Repository.{update_event}
use tunisia_vape_commerce.Outbox.Expiry.{finish_event}
use tunisia_vape_commerce.Outbox.Notifications.{
  fail_attempt, find_notification, in_flight, is_in_progress, is_settled, update_notification,
}
use tunisia_vape_commerce.Outbox.Advances.{
  Advances, All-always, AllAdvance, AllAdvance-refl, AllAdvance-trans, advanced-HasKey,
  update_many-AllAdvance,
}
use tunisia_vape_commerce.Outbox.Claims.{Advances-keep, IsKeyed}
use tunisia_vape_commerce.Inventory.Ledger.{IsSound}

-- A notification keeps its identity, and its state once it is delivered or cancelled.
pub record Settles (n n' : Notification) : Type 0 where
  pub same_id : n'.id ≡ n.id
  pub stays : is_settled n.status ≡ true → n'.status ≡ n.status

pub Settles-refl : (n : Notification) → Settles n n
Settles-refl n = record { same_id = refl; stays = λ h. refl }

pub Settles-trans : (a b c : Notification) → Settles a b → Settles b c → Settles a c
Settles-trans a b c h k = record {
  same_id = k.same_id ∙ h.same_id;
  stays = λ p. k.stays (ap is_settled (h.stays p) ∙ p) ∙ h.stays p;
}

-- The events advance, the notifications settle, no notification gets a second attempt under way,
-- and from five seconds after the clock on the stock stays sound.
pub record Serves (clock : ℕ) (s s' : Tables) : Type 0 where
  pub advanced : AllAdvance s.events s'.events
  pub settled : Rowwise Settles s.notifications s'.notifications
  pub single :
      (id : ℕ) → count_by (in_flight id) s.attempts ≤ 1 → count_by (in_flight id) s'.attempts ≤ 1
  pub sound : (t : ℕ) → clock + 5000 ≤ t → IsSound t s.stock → IsSound t s'.stock

-- The primary keys of the events and of the notifications.
pub record HasKeys (s : Tables) : Type 0 where
  pub keyed_events : IsKeyed s.events
  pub keyed_notifications : HasKey (λ n. n.id) s.notifications

pub Serves-refl : {clock : ℕ} (s : Tables) → Serves clock s s
Serves-refl s = record {
  advanced = AllAdvance-refl s.events;
  settled = Rowwise-refl Settles Settles-refl s.notifications;
  single = λ id h. h;
  sound = λ t before p. p;
}

pub Serves-trans :
    {clock : ℕ} (a b c : Tables) → Serves clock a b → Serves clock b c → Serves clock a c
Serves-trans a b c h k = record {
  advanced = AllAdvance-trans a.events b.events c.events h.advanced k.advanced;
  settled =
      Rowwise-trans Settles Settles-trans a.notifications b.notifications c.notifications h.settled
        k.settled;
  single = λ id p. k.single id (h.single id p);
  sound = λ t before p. k.sound t before (h.sound t before p);
}

pub Serves-HasKeys : {clock : ℕ} (s s' : Tables) → Serves clock s s' → HasKeys s → HasKeys s'
Serves-HasKeys s s' h k = record {
  keyed_events = advanced-HasKey s.events s'.events h.advanced k.keyed_events;
  keyed_notifications =
      Rowwise-HasKey Settles (λ n. n.id) (λ a b r. r.same_id) s.notifications s'.notifications
        h.settled k.keyed_notifications;
}

-- A change of the events alone.
pub events-Serves :
    {clock : ℕ} (s : Tables) (es : List OutboxEvent)
    → AllAdvance s.events es
    → Serves clock s (record s { events = es })
events-Serves s es h = record {
  advanced = h;
  settled = Rowwise-refl Settles Settles-refl s.notifications;
  single = λ id p. p;
  sound = λ t before p. p;
}

-- Attempts that are closed.
pub fewer_in_flight :
    (id : ℕ) (fits : Attempt → Bool) (change : Attempt → Attempt) (rows : List Attempt)
    → ((a : Attempt) → is_in_progress (change a).status ≡ false)
    → count_by (in_flight id) (update_many fits change rows) ≤ count_by (in_flight id) rows
fewer_in_flight id fits change [] h = omega arith
fewer_in_flight id fits change (a ∷ rows) h = elim (Bool-cases (fits a)) [
  | inl f ↦ rw (f, h a) (ground (arith, fewer_in_flight id fits change rows h))
  | inr f ↦ rw f (ground (arith, fewer_in_flight id fits change rows h))
]

none_in_flight :
    (id : ℕ) (rows : List Attempt)
    → count_by (in_flight id) (update_many (in_flight id) fail_attempt rows) ≡ 0
none_in_flight id [] = refl
none_in_flight id (a ∷ rows) = elim (Bool-cases (in_flight id a)) [
  | inl f ↦ rw f (ground (arith, none_in_flight id rows))
  | inr f ↦ rw (f, f) (ground (arith, none_in_flight id rows))
]

-- The attempts of a notification are closed before one is opened.
pub one_in_flight :
    (id : ℕ) (fresh : Attempt) (rows : List Attempt)
    → count_by (in_flight id) rows ≤ 1
    → count_by
        (in_flight id)
        (fresh ∷ update_many (in_flight fresh.notification_id) fail_attempt rows)
      ≤ 1
one_in_flight id fresh rows h = elim (Bool-cases (fresh.notification_id == id)) [
  | inl e ↦
      let same = (==_iff fresh.notification_id id).0 e in
      let closed : count_by (in_flight id)
            (update_many (in_flight fresh.notification_id) fail_attempt rows)
          ≡ 0 =
        rw same (none_in_flight id rows) in
      ground (arith, closed)
  | inr e ↦ rw e (
      ground (
        arith,
        h,
        fewer_in_flight id (in_flight fresh.notification_id) fail_attempt rows (λ a. refl),
      ))
]

-- A notification that was found is not settled, so it may change its state.
pub found-Settles :
    (n : Notification) (status : NotificationStatus) (ns : List Notification)
    → HasKey (λ (q : Notification). q.id) ns
    → find_notification n.id ns ≡ some n
    → is_settled n.status ≡ false
    → Rowwise Settles ns (update_notification n.id status ns)
found-Settles n status ns k found not_yet =
    update_found-Rowwise Settles Settles-refl (λ q. q.id) n (λ q. record q { status = status }) ns k
      found (record { same_id = refl; stays = λ h. cc (h, not_yet) })

-- The update that ends an event.
pub finish-AllAdvance :
    (id : ℕ) (es : List OutboxEvent) → AllAdvance es (update_event id finish_event es)
finish-AllAdvance id es =
    update_many-AllAdvance (λ e. e.id == id) finish_event es
      (All-always (λ e. (e.id == id) ≡ true → Advances e (finish_event e)) es
        λ e h. Advances-keep e (finish_event e) refl refl refl (λ p. refl))
