-- ===== src/Orders/Freed.antt =====
-- `terminate` and the reservations: the order holds nothing afterwards.
use mathlib.Core.Path.{subst}
use tunisia_vape_commerce.Prelude.{
  All, Bool-cases, List, [], ap, arith, false, filter, if◌then◌else◌, includes, inl, inr, map, ok,
  refl, sym, true, ℕ, ◌∙◌, ◌∷◌, ◌≡◌,
}
use tunisia_vape_commerce.Table.{update_many}
use tunisia_vape_commerce.Allocation.{sort_by}
use tunisia_vape_commerce.Inventory.Store.{Reservation, Stock, released}
use tunisia_vape_commerce.Orders.Confirm.{is_locked, set_state}
use tunisia_vape_commerce.Orders.Reservations.{Locked, holds_for, lock_active_inventory}
use tunisia_vape_commerce.Table.Keys.{includes-sort}

abbrev ids : List Reservation → List ℕ
ids = map (λ (r : Reservation). r.id)

locked_if_held :
    (o : ℕ) (xs rs : List Reservation)
    → ((x : ℕ) → includes x (ids (filter (holds_for o) rs)) ≡ true → includes x (ids xs) ≡ true)
    → All (λ r. holds_for o r ≡ true → includes r.id (ids xs) ≡ true) rs
locked_if_held o xs [] h = tt
locked_if_held o xs (r ∷ rs) h =
    ((λ e. h r.id (ground (arith, e))), locked_if_held o xs rs (λ x e. h x (ground (arith, e))))

-- Every reservation that the order holds is among the locked ones.
abbrev pub HeldAreLocked : ℕ → Locked → List Reservation → Type 0
HeldAreLocked o l = All (λ r. holds_for o r ≡ true → includes r.id (ids l.reservations) ≡ true)

abbrev pub HoldsNothing : ℕ → List Reservation → Type 0
HoldsNothing o = All (λ r. holds_for o r ≡ false)

settled_row : Locked → Reservation → Reservation
settled_row l r = if is_locked l r then set_state released r else r

freed_row :
    (o : ℕ) (l : Locked) (r : Reservation)
    → (holds_for o r ≡ true → includes r.id (ids l.reservations) ≡ true)
    → holds_for o (settled_row l r) ≡ false
unfolding settled_row
freed_row o l r h = elim (Bool-cases (is_locked l r)) [
  | inl e ↦
      let q : settled_row l r ≡ set_state released r = rw e refl in
      subst (λ x. holds_for o x ≡ false) (sym q) (ground arith)
  | inr e ↦
      let q : settled_row l r ≡ r = rw e refl in
      subst (λ x. holds_for o x ≡ false) (sym q)
        (elim (Bool-cases (holds_for o r)) [
          | inr g ↦ g
          | inl g ↦ let k = h g in absurd (ground (arith, e, g, k))
        ])
]

pub freed_rows :
    (o : ℕ) (l : Locked) (rs : List Reservation)
    → HeldAreLocked o l rs
    → HoldsNothing o (update_many (is_locked l) (set_state released) rs)
unfolding settled_row
freed_rows o l [] h = tt
freed_rows o l (r ∷ rs) h = (freed_row o l r h.0, freed_rows o l rs h.1)

-- With nothing locked the order held nothing.
pub nothing_held :
    (o : ℕ) (l : Locked) (rs : List Reservation)
    → l.reservations ≡ []
    → HeldAreLocked o l rs
    → HoldsNothing o rs
nothing_held o l [] e h = tt
nothing_held o l (r ∷ rs) e h = (
  elim (Bool-cases (holds_for o r)) [ inr g ↦ g | inl g ↦ cc (rw e at (h.0 g)) ],
  nothing_held o l rs e h.1,
)

pub lock_active_inventory-HeldAreLocked :
    (o : ℕ) (s : Stock) (l : Locked)
    → lock_active_inventory o s ≡ ok l
    → HeldAreLocked o l s.reservations
unfolding lock_active_inventory
lock_active_inventory-HeldAreLocked o s l h =
    let rows =
      sort_by (λ r. r.inventory_item_id)
        (sort_by (λ (r : Reservation). r.id) (filter (holds_for o) s.reservations)) in
    let same : l.reservations ≡ rows = ground (arith, h) in
    locked_if_held o l.reservations s.reservations (λ x e.
      ap (λ xs. includes x (ids xs)) same
      ∙ includes-sort (λ (r : Reservation). r.id) x (λ r. r.inventory_item_id)
          (sort_by (λ (r : Reservation). r.id) (filter (holds_for o) s.reservations))
      ∙ includes-sort (λ (r : Reservation). r.id) x (λ (r : Reservation). r.id)
          (filter (holds_for o) s.reservations)
      ∙ e)
