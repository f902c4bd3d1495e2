-- ===== src/Outbox/Contracts.antt =====
-- apps/worker/src/outbox-contracts.ts: what a payload must be, and how long a retry waits.
use native.Mathlib.Nat.{pow-le-pow_right}
use tunisia_vape_commerce.Prelude.{
  Result, arith, err, if◌then◌else◌, leb, not, ok, throw_if, ℕ, ◌&&◌, ◌*◌, ◌-◌, ◌==◌, ◌>>◌, ◌^◌,
  ◌≤◌,
}
use tunisia_vape_commerce.Outbox.{
  EventType, Payload, WorkerError, event_payload_invalid, event_type_unsupported,
  event_version_unsupported, media_object_delete, notification_dispatch, notification_of, object_of,
  objects_of, reservation_expiry, reservations_until, unsupported,
}

-- parseEventPayload
unfoldable pub parse_event_payload : EventType → ℕ → Payload → Result WorkerError Payload
parse_event_payload reservation_expiry version (reservations_until cutoff batch_size) = do
  throw_if (not (version == 1)) event_version_unsupported
  ok (reservations_until cutoff batch_size)
parse_event_payload reservation_expiry version _ = do
  throw_if (not (version == 1)) event_version_unsupported
  err event_payload_invalid
parse_event_payload notification_dispatch version (notification_of id) = do
  throw_if (not (version == 1)) event_version_unsupported
  ok (notification_of id)
parse_event_payload notification_dispatch version _ = do
  throw_if (not (version == 1)) event_version_unsupported
  err event_payload_invalid
parse_event_payload media_object_delete version (object_of bucket key) = do
  throw_if (not (version == 1) && not (version == 2)) event_version_unsupported
  if version == 1 then ok (object_of bucket key) else err event_payload_invalid
parse_event_payload media_object_delete version (objects_of bucket keys) = do
  throw_if (not (version == 1) && not (version == 2)) event_version_unsupported
  if version == 1 then err event_payload_invalid else ok (objects_of bucket keys)
parse_event_payload media_object_delete version _ = do
  throw_if (not (version == 1) && not (version == 2)) event_version_unsupported
  err event_payload_invalid
parse_event_payload unsupported version _ = err event_type_unsupported

-- Math.min
abbrev pub min : ℕ → ℕ → ℕ
min a b = if leb a b then a else b

-- exponentialRetryDelay; the exponent is kept between 0 and 20.
unfoldable pub exponential_retry_delay : ℕ → ℕ → ℕ → ℕ
exponential_retry_delay attempt_count base maximum =
    min maximum (base * 2 ^ min 20 (attempt_count - 1))

pow_mono : (base i j : ℕ) → i ≤ j → base * 2 ^ i ≤ base * 2 ^ j
pow_mono base i j h = grind (arith, pow-le-pow_right {n = 2} (omega arith) {i = i} {j = j} h)

min_mono : (m a b : ℕ) → a ≤ b → min m a ≤ min m b
min_mono m a b h = ground arith

-- A retry never waits longer than the maximum, nor shorter after more attempts, and at least the
-- base where the maximum allows that.
pub exponential_retry_delay_bounds :
    (n k base maximum : ℕ)
    → n ≤ k
    → (exponential_retry_delay n base maximum ≤ maximum)
      × (exponential_retry_delay n base maximum ≤ exponential_retry_delay k base maximum)
      × (min maximum base ≤ exponential_retry_delay n base maximum)
unfolding exponential_retry_delay
exponential_retry_delay_bounds n k base maximum h = (
  ground arith,
  min_mono maximum _ _ (pow_mono base (min 20 (n - 1)) (min 20 (k - 1)) (ground arith)),
  min_mono maximum _ _ (omega (arith, pow_mono base 0 (min 20 (n - 1)) (omega arith))),
)
