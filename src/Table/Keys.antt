-- ===== src/Table/Keys.antt =====
-- Rows found by their key, and rows selected by a list of keys.
use mathlib.Core.Path.{subst}
use tunisia_vape_commerce.Prelude.{
  ==_iff, All, All-mono, Bool, Bool-cases, List, [], ap, arith, count_by, false, filter, find,
  if◌then◌else◌, includes, inl, inr, leb, map, refl, some, suc, sym, take, true, zero, ℕ, ◌==◌, ◌∙◌,
  ◌∷◌, ◌≡◌, ◌≢◌,
}
use tunisia_vape_commerce.Table.{HasKey, update_many}
use tunisia_vape_commerce.Allocation.{insert_by, sort_by}

module _ {A : Type 0} where
  filter-hit :
      (p : A → Bool) (r : A) (rs : List A) → p r ≡ true → filter p (r ∷ rs) ≡ r ∷ filter p rs
  filter-hit p r rs e = rw e refl

  filter-miss : (p : A → Bool) (r : A) (rs : List A) → p r ≡ false → filter p (r ∷ rs) ≡ filter p rs
  filter-miss p r rs e = rw e refl

module _ {A : Type 0} (key : A → ℕ) where
  absent_rows :
      (i : ℕ) (cur : A) (rs : List A) → All (λ q. key q ≢ i) rs → All (λ r. key r ≡ i → r ≡ cur) rs
  absent_rows i cur [] h = tt
  absent_rows i cur (r ∷ rs) h = ((λ e. absurd (h.0 e)), absent_rows i cur rs h.1)

  moved_key : (i j : ℕ) (rs : List A) → j ≡ i → All (λ q. key q ≢ j) rs → All (λ q. key q ≢ i) rs
  moved_key i j rs e h = rw (← e) h

  -- A row found under a key is the only one with it.
  pub find_row_unique :
      (i : ℕ) {cur : A} (rs : List A)
      → HasKey key rs
      → find (λ r. key r == i) rs ≡ some cur
      → All (λ r. key r ≡ i → r ≡ cur) rs
  find_row_unique i [] k h = tt
  find_row_unique i {cur} (r ∷ rs) k h = elim (Bool-cases (key r == i)) [
    | inl e ↦
        let same : r ≡ cur = cc (rw e at h) in
        ((λ _. same), absent_rows i cur rs (moved_key i (key r) rs ((==_iff (key r) i).0 e) k.0))
    | inr e ↦ ((λ q. ground (arith, e, q)), find_row_unique i rs k.1 (rw e at h))
  ]

  pub find_row-key :
      (i : ℕ) {cur : A} (rs : List A) → find (λ r. key r == i) rs ≡ some cur → key cur ≡ i
  find_row-key i [] h = cc
  find_row-key i {cur} (r ∷ rs) h = elim (Bool-cases (key r == i)) [
    | inl e ↦ let same : r ≡ cur = cc (rw e at h) in ap key (sym same) ∙ (==_iff (key r) i).0 e
    | inr e ↦ find_row-key i rs (rw e at h)
  ]

  -- A row found under a key, after an update that keeps the keys.
  pub find_row-image :
      (i : ℕ) (m : A) (fits : A → Bool) (change : A → A) (rs : List A)
      → ((r : A) → key (change r) ≡ key r)
      → find (λ r. key r == i) rs ≡ some m
      → find (λ r. key r == i) (update_many fits change rs) ≡ some (if fits m then change m else m)
  find_row-image i m fits change [] keeps found = cc
  find_row-image i m fits change (r ∷ rs) keeps found = elim (Bool-cases (key r == i)) [
    | inl a ↦
        let same : r ≡ m = cc (rw a at found) in
        elim (Bool-cases (fits r)) [
          | inl b ↦
              let hit : (key (change r) == i) ≡ true = ap (λ k. k == i) (keeps r) ∙ a in
              let fit : fits m ≡ true = sym (ap fits same) ∙ b in
              rw (b, hit, fit) (ap (λ q. some (change q)) same)
          | inr b ↦
              let fit : fits m ≡ false = sym (ap fits same) ∙ b in rw (b, a, fit) (ap some same)
        ]
    | inr a ↦
        let rest = find_row-image i m fits change rs keeps (rw a at found) in
        elim (Bool-cases (fits r)) [
          | inl b ↦
              let miss : (key (change r) == i) ≡ false = ap (λ k. k == i) (keeps r) ∙ a in
              rw (b, miss) rest
          | inr b ↦ rw (b, a) rest
        ]
  ]

  pub find_row-update :
      (i : ℕ) (m : A) (fits : A → Bool) (change : A → A) (rs : List A)
      → ((r : A) → key (change r) ≡ key r)
      → find (λ r. key r == i) rs ≡ some m
      → fits m ≡ true
      → find (λ r. key r == i) (update_many fits change rs) ≡ some (change m)
  find_row-update i m fits change rs keeps found f =
      find_row-image i m fits change rs keeps found ∙ rw f refl

  counts_none :
      (i : ℕ) (m : A) (fits : A → Bool) (rs : List A)
      → All (λ r. key r ≡ i → r ≡ m) rs
      → ((r : A) → fits r ≡ true → key r ≡ i)
      → fits m ≡ false
      → count_by fits rs ≡ 0
  counts_none i m fits [] only keyed f = refl
  counts_none i m fits (r ∷ rs) only keyed f = elim (Bool-cases (fits r)) [
    | inl b ↦ absurd (cc (ap fits (only.0 (keyed r b)), b, f))
    | inr b ↦ rw b (ground (arith, counts_none i m fits rs only.1 keyed f))
  ]

  -- Where one row of a key fits, it is the one that is found under the key.
  pub counted_row :
      (i : ℕ) (m : A) (fits : A → Bool) (rs : List A)
      → HasKey key rs
      → find (λ r. key r == i) rs ≡ some m
      → ((r : A) → fits r ≡ true → key r ≡ i)
      → (count_by fits rs == 1) ≡ true
      → fits m ≡ true
  counted_row i m fits rs k found keyed one = elim (Bool-cases (fits m)) [
    | inl f ↦ f
    | inr f ↦
        let none_fit = counts_none i m fits rs (find_row_unique i rs k found) keyed f in
        absurd (ground (arith, one, none_fit))
  ]

  -- The keys of rows in any order, or of the first of them.
  pub includes-insert :
      (x : ℕ) (by : A → ℕ) (r : A) (rs : List A)
      → includes x (map key (insert_by by r rs)) ≡ includes x (map key (r ∷ rs))
  unfolding insert_by
  includes-insert x by r [] = refl
  includes-insert x by r (q ∷ rs) = elim (Bool-cases (leb (by r) (by q))) [
    | inl e ↦ rw e refl
    | inr e ↦ rw e (ground (arith, includes-insert x by r rs))
  ]

  pub includes-sort :
      (x : ℕ) (by : A → ℕ) (rs : List A)
      → includes x (map key (sort_by by rs)) ≡ includes x (map key rs)
  unfolding sort_by
  includes-sort x by [] = refl
  includes-sort x by (r ∷ rs) =
      includes-insert x by r (sort_by by rs) ∙ ground (arith, includes-sort x by rs)

  pub includes-take :
      (x n : ℕ) (rs : List A)
      → includes x (map key (take n rs)) ≡ true
      → includes x (map key rs) ≡ true
  includes-take x zero rs h = cc
  includes-take x (suc n) [] h = h
  includes-take x (suc n) (r ∷ rs) h = ground (arith, h, includes-take x n rs)

  not_included :
      (x : ℕ) (p : A → Bool) (rs : List A)
      → All (λ q. key q ≢ x) rs
      → includes x (map key (filter p rs)) ≡ false
  not_included x p [] h = refl
  not_included x p (r ∷ rs) h = elim (Bool-cases (p r)) [
    | inl e ↦ rw e (ground (arith, h.0, not_included x p rs h.1))
    | inr e ↦ rw e (not_included x p rs h.1)
  ]

  widen_selection :
      (p : A → Bool) (c : ℕ) (ks : List ℕ) (rs : List A)
      → All (λ q. key q ≢ c) rs
      → All (λ q. includes (key q) ks ≡ true → p q ≡ true) rs
      → All (λ q. includes (key q) (c ∷ ks) ≡ true → p q ≡ true) rs
  widen_selection p c ks [] n h = tt
  widen_selection p c ks (r ∷ rs) n h =
      ((λ e. h.0 (ground (arith, e, n.0))), widen_selection p c ks rs n.1 h.1)

  -- Under distinct keys, a row whose key is that of a row that passes a test passes it.
  pub selected_pass :
      (p : A → Bool) (rs : List A)
      → HasKey key rs
      → All (λ r. includes (key r) (map key (filter p rs)) ≡ true → p r ≡ true) rs
  selected_pass p [] k = tt
  selected_pass p (r ∷ rs) k = elim (Bool-cases (p r)) [
    | inl e ↦ (
      (λ _. e),
      subst (λ ks. All (λ q. includes (key q) ks ≡ true → p q ≡ true) rs)
          (ap (map key) (sym (filter-hit p r rs e)))
          (widen_selection p (key r) (map key (filter p rs)) rs k.0 (selected_pass p rs k.1)),
    )
    | inr e ↦
        let same = ap (map key) (sym (filter-miss p r rs e)) in
        (
          (λ h.
              let out : includes (key r) (map key (filter p rs)) ≡ true =
                ap (includes (key r)) same ∙ h in
              cc (out, not_included (key r) p rs k.0)),
          subst (λ ks. All (λ q. includes (key q) ks ≡ true → p q ≡ true) rs) same
              (selected_pass p rs k.1),
        )
  ]

  -- The keys of the rows that pass a test.
  pub passed_included :
      (p : A → Bool) (rs : List A)
      → All (λ r. p r ≡ true → includes (key r) (map key (filter p rs)) ≡ true) rs
  passed_included p [] = tt
  passed_included p (r ∷ rs) = elim (Bool-cases (p r)) [
    | inl e ↦
        let same = ap (map key) (sym (filter-hit p r rs e)) in
        subst (λ ks. All (λ q. p q ≡ true → includes (key q) ks ≡ true) (r ∷ rs)) same
          (
            (λ h. ground arith),
            All-mono (λ q. p q ≡ true → includes (key q) (map key (filter p rs)) ≡ true)
                (λ q. p q ≡ true → includes (key q) (map key (r ∷ filter p rs)) ≡ true) rs
                (λ q h k. ground (arith, h k)) (passed_included p rs),
          )
    | inr e ↦
        let same = ap (map key) (sym (filter-miss p r rs e)) in
        subst (λ ks. All (λ q. p q ≡ true → includes (key q) ks ≡ true) (r ∷ rs)) same
          ((λ h. cc (e, h)), passed_included p rs)
  ]

-- A row-wise update, and two facts of one table.
pub All-update {ℓ} :
    {A : Type ℓ} (P Q : A → Type 0) (fits : A → Bool) (change : A → A)
    → ((r : A) → P r → Q (if fits r then change r else r))
    → (rs : List A) → All P rs
    → All Q (update_many fits change rs)
All-update P Q fits change step [] h = tt
All-update P Q fits change step (r ∷ rs) h = (step r h.0, All-update P Q fits change step rs h.1)

pub All-both {ℓ} :
    {A : Type ℓ} (P Q : A → Type 0) (rs : List A) → All P rs → All Q rs → All (λ r. P r × Q r) rs
All-both P Q [] h k = tt
All-both P Q (r ∷ rs) h k = ((h.0, k.0), All-both P Q rs h.1 k.1)
