-- ===== src/Orders/Alerts.antt =====
-- `createLowStockAlerts` of admin-orders.service.ts, with the coalescing of
-- apps/api/src/common/outbox/operational-alerts.ts and notification-outbox.ts.
use tunisia_vape_commerce.Prelude.{
  Bool, List, Option, [], any, false, find, if◌then◌else◌, ltb, ltb_ℤ, none, not, pos, some, true,
  ℕ, ℤ, ◌&&◌, ◌+ℤ◌, ◌-ℤ◌, ◌/◌, ◌==◌, ◌∷◌,
}
use tunisia_vape_commerce.Table.{rows_in}
use tunisia_vape_commerce.Inventory.Store.{Item, reserved_in}
use tunisia_vape_commerce.Orders.{Alert, Batch, Location, Shop, Variant}

-- `location: { active: true, fulfillsOrders: true }`
abbrev pub is_open : Option Location → Bool
is_open none = false
is_open (some l) = l.active && l.fulfills_orders

-- `{ archivedAt: null, OR: [{ expiryDate: null }, { expiryDate: { gt: now } }] }`
abbrev pub is_fresh : ℕ → Option Batch → Bool
is_fresh now none = false
is_fresh now (some b) = not b.archived && elim b.expiry [ none ↦ true | some t ↦ ltb now t ]

abbrev pub is_unbatched_or_fresh : ℕ → Shop → Option ℕ → Bool
is_unbatched_or_fresh now s none = true
is_unbatched_or_fresh now s (some b) = is_fresh now (find (λ r. r.id == b) s.batches)

abbrev pub counts_for : ℕ → ℕ → Shop → Item → Bool
counts_for now variant s i =
    (i.variant_id == variant)
    && is_open (find (λ l. l.id == i.location_id) s.locations)
    && is_unbatched_or_fresh now s i.batch_id

-- The sum of on-hand less reserved over the buckets that count for a variant.
unfoldable pub remaining_in : ℕ → ℕ → Shop → List Item → ℤ
remaining_in now variant s [] = pos 0
remaining_in now variant s (i ∷ is) =
    if counts_for now variant s i
    then i.on_hand -ℤ reserved_in now i.id s.stock.reservations +ℤ remaining_in now variant s is
    else remaining_in now variant s is

-- `now.toISOString().slice(0, 13)`, the hour
abbrev pub hour_of : ℕ → ℕ
hour_of now = now / 3600000

-- ensureNotificationWithOutbox: an alert of the same key is left as it is.
abbrev pub ensure_alert : Alert → List Alert → List Alert
ensure_alert a alerts =
    if any (λ b. (b.variant_id == a.variant_id) && (b.hour == a.hour)) alerts
    then alerts
    else a ∷ alerts

unfoldable pub alert_variant : ℕ → Variant → Shop → Shop
unfolding remaining_in
alert_variant now v s =
    let left = remaining_in now v.id s s.stock.items in
    let alert : Alert = record { variant_id = v.id; hour = hour_of now; remaining = left } in
    if ltb_ℤ v.low_stock_threshold left
    then s
    else record s { alerts = ensure_alert alert s.alerts }

unfoldable pub alert_all : ℕ → List Variant → Shop → Shop
unfolding alert_variant
alert_all now [] s = s
alert_all now (v ∷ vs) s = alert_all now vs (alert_variant now v s)

unfoldable pub create_low_stock_alerts : ℕ → List ℕ → Shop → Shop
unfolding alert_all
create_low_stock_alerts now ids s =
    if s.low_stock_recipient
    then alert_all now (rows_in (λ (v : Variant). v.id) ids s.variants) s
    else s
