-- ===== src/Pricing/Rates/Sorting.antt =====
-- The sorted candidates: the same entries, none before one that beats it.
use mathlib.Core.List.{Memᴰ}
use tunisia_vape_commerce.Prelude.{
  All, Bool, Bool-cases, List, [], arith, count_by, false, inl, inr, ltb, ltb_ℤ, refl, true, ◌&&◌,
  ◌==◌, ◌||◌, ◌∙◌, ◌∷◌, ◌≡◌, ◌≢◌, ◌⊎◌,
}
use tunisia_vape_commerce.Pricing.Rates.{Ranked, before, insert_ranked, same_key, sort_ranked}

-- Strictly higher rank, or the same rank and strictly higher priority.
abbrev pub beats : Ranked → Ranked → Bool
beats a b = ltb b.rank a.rank || ((a.rank == b.rank) && ltb_ℤ b.rate.priority a.rate.priority)

pub before-beats : (l r : Ranked) → before l r ≡ true → beats r l ≡ false
unfolding before
before-beats l r h = ground arith

pub not_before-beats : (l r : Ranked) → before l r ≡ false → beats l r ≡ false
unfolding before
not_before-beats l r h = ground arith

pub beats_tail : (a b z : Ranked) → beats b a ≡ false → beats z b ≡ false → beats z a ≡ false
beats_tail a b z h k = ground arith

-- Two entries that do not beat one another have the same key, and then they beat the same ones.
pub beats_of_untied : (a b : Ranked) → beats b a ≡ false → same_key b a ≡ false → beats a b ≡ true
beats_of_untied a b h k = ground arith

pub beats_trans_le : (a b z : Ranked) → beats a b ≡ true → beats z b ≡ false → beats a z ≡ true
beats_trans_le a b z h k = ground arith

pub not_beats_self : (a : Ranked) → beats a a ≡ false
not_beats_self a = ground arith

pub tied-not_beats : (a b : Ranked) → same_key b a ≡ true → beats a b ≡ false
tied-not_beats a b h = ground arith

-- No entry beats one that stands before it.
abbrev pub IsSorted : List Ranked → Type 0
IsSorted [] = Unit {0}
IsSorted (x ∷ xs) = All (λ y. beats y x ≡ false) xs × IsSorted xs

All-insert :
    (P : Ranked → Type 0) (x : Ranked) (ys : List Ranked)
    → P x
    → All P ys
    → All P (insert_ranked x ys)
unfolding insert_ranked
All-insert P x [] px ps = (px, tt)
All-insert P x (y ∷ ys) px ps = elim (Bool-cases (before x y)) [
  | inl e ↦ rw e (px, ps)
  | inr e ↦ rw e (ps.0, All-insert P x ys px ps.1)
]

All-beaten :
    (x y : Ranked) (ys : List Ranked)
    → beats y x ≡ false
    → All (λ z. beats z y ≡ false) ys
    → All (λ z. beats z x ≡ false) ys
All-beaten x y [] h k = tt
All-beaten x y (z ∷ ys) h k = (beats_tail x y z h k.0, All-beaten x y ys h k.1)

insert-IsSorted : (x : Ranked) (ys : List Ranked) → IsSorted ys → IsSorted (insert_ranked x ys)
unfolding insert_ranked
insert-IsSorted x [] s = (tt, tt)
insert-IsSorted x (y ∷ ys) s = elim (Bool-cases (before x y)) [
  | inl e ↦ rw e ((before-beats x y e, All-beaten x y ys (before-beats x y e) s.0), s)
  | inr e ↦ rw e (
    All-insert (λ z. beats z y ≡ false) x ys (not_before-beats x y e) s.0,
    insert-IsSorted x ys s.1,
  )
]

pub sort-IsSorted : (xs : List Ranked) → IsSorted (sort_ranked xs)
unfolding sort_ranked
sort-IsSorted [] = tt
sort-IsSorted (x ∷ xs) = insert-IsSorted x (sort_ranked xs) (sort-IsSorted xs)

count_by-insert :
    (p : Ranked → Bool) (x : Ranked) (ys : List Ranked)
    → count_by p (insert_ranked x ys) ≡ count_by p (x ∷ ys)
unfolding insert_ranked
count_by-insert p x [] = refl
count_by-insert p x (y ∷ ys) = elim (Bool-cases (before x y)) [
  | inl e ↦ rw e
  | inr e ↦ rw e (omega (arith, count_by-insert p x ys))
]

pub count_by-sort :
    (p : Ranked → Bool) (xs : List Ranked) → count_by p (sort_ranked xs) ≡ count_by p xs
unfolding sort_ranked
count_by-sort p [] = refl
count_by-sort p (x ∷ xs) = count_by-insert p x (sort_ranked xs) ∙ omega (arith, count_by-sort p xs)

pub Memᴰ-cons : {m y : Ranked} {ys : List Ranked} → Memᴰ m (y ∷ ys) → (m ≡ y) ⊎ Memᴰ m ys
Memᴰ-cons (Memᴰ.head e) = inl e
Memᴰ-cons (Memᴰ.tail t) = inr t

Memᴰ-insert :
    {m : Ranked} (x : Ranked) (ys : List Ranked) → Memᴰ m (insert_ranked x ys) → (m ≡ x) ⊎ Memᴰ m ys
unfolding insert_ranked
Memᴰ-insert x [] h = Memᴰ-cons h
Memᴰ-insert x (y ∷ ys) h = elim (Bool-cases (before x y)) [
  | inl e ↦ Memᴰ-cons (rw e at h)
  | inr e ↦ elim (Memᴰ-cons (rw e at h)) [
    | inl p ↦ inr (Memᴰ.head p)
    | inr t ↦ elim (Memᴰ-insert x ys t) [ inl q ↦ inl q | inr u ↦ inr (Memᴰ.tail u) ]
  ]
]

pub Memᴰ-sort : {m : Ranked} (xs : List Ranked) → Memᴰ m (sort_ranked xs) → Memᴰ m xs
unfolding sort_ranked
Memᴰ-sort [] h = h
Memᴰ-sort (x ∷ xs) h = elim (Memᴰ-insert x (sort_ranked xs) h) [
  | inl e ↦ Memᴰ.head e
  | inr t ↦ Memᴰ.tail (Memᴰ-sort xs t)
]

insert-ne-nil : (x : Ranked) (ys : List Ranked) → insert_ranked x ys ≢ []
unfolding insert_ranked
insert-ne-nil x [] h = cc
insert-ne-nil x (y ∷ ys) h = ground (arith, h)

pub sort-nil : (xs : List Ranked) → sort_ranked xs ≡ [] → xs ≡ []
unfolding sort_ranked
sort-nil [] h = refl
sort-nil (x ∷ xs) h = absurd (insert-ne-nil x (sort_ranked xs) h)

All-insert_of :
    (P : Ranked → Type 0) (x : Ranked) (ys : List Ranked)
    → All P (insert_ranked x ys)
    → P x × All P ys
unfolding insert_ranked
All-insert_of P x [] h = h
All-insert_of P x (y ∷ ys) h = elim (Bool-cases (before x y)) [
  | inl e ↦ rw e at h
  | inr e ↦
      let (py, rest) : All P (y ∷ insert_ranked x ys) = rw e at h in
      let (px, ps) = All-insert_of P x ys rest in (px, (py, ps))
]

pub All-sort : (P : Ranked → Type 0) (xs : List Ranked) → All P (sort_ranked xs) → All P xs
unfolding sort_ranked
All-sort P [] h = h
All-sort P (x ∷ xs) h =
    let (px, ps) = All-insert_of P x (sort_ranked xs) h in (px, All-sort P xs ps)
