-- ===== src/Pricing/Rates/Choice.antt =====
-- Which candidate `chooseUnique` returns, and what a selected rate satisfies.
use mathlib.Core.List.{Memᴰ}
use tunisia_vape_commerce.Prelude.{
  All, Bool, Bool-cases, List, Option, Result, [], arith, count_by, err, false, inl, inr, none, not,
  ok, refl, some, sym, true, ℕ, ◌∙◌, ◌∷◌, ◌≡◌, ◌≤◌,
}
use tunisia_vape_commerce.Pricing.Rates.{
  Ranked, Rate, RateError, choose_unique, pick, rate_ambiguous, rate_missing, same_key, sort_ranked,
}
use tunisia_vape_commerce.Pricing.Rates.Sorting.{
  All-sort, IsSorted, Memᴰ-sort, beats, beats_of_untied, beats_trans_le, count_by-sort,
  not_beats_self, sort-IsSorted, sort-nil, tied-not_beats,
}

-- The entries that an entry does not beat; itself is one of them.
abbrev pub unbeaten_by : Ranked → List Ranked → ℕ
unbeaten_by m xs = count_by (λ y. not (beats m y)) xs

-- What each outcome says of the candidates.
abbrev pub Chosen : List Ranked → Bool → Result RateError (Option Rate) → Type 0
Chosen xs required (ok (some r)) = (m : Ranked) × (m.rate ≡ r) × Memᴰ m xs × (unbeaten_by m xs ≡ 1)
Chosen xs required (ok none) = (xs ≡ []) × (required ≡ false)
Chosen xs required (err rate_missing) = (xs ≡ []) × (required ≡ true)
Chosen xs required (err rate_ambiguous) =
    (m : Ranked) × Memᴰ m xs × All (λ y. beats y m ≡ false) xs × (2 ≤ unbeaten_by m xs)

unbeaten_by_none :
    (m : Ranked) (ys : List Ranked) → All (λ y. beats m y ≡ true) ys → unbeaten_by m ys ≡ 0
unbeaten_by_none m [] h = refl
unbeaten_by_none m (y ∷ ys) h = rw h.0 (omega (arith, unbeaten_by_none m ys h.1))

All-beats :
    (a b : Ranked) (ys : List Ranked)
    → beats a b ≡ true
    → All (λ z. beats z b ≡ false) ys
    → All (λ z. beats a z ≡ true) ys
All-beats a b [] h k = tt
All-beats a b (z ∷ ys) h k = (beats_trans_le a b z h k.0, All-beats a b ys h k.1)

pick-Chosen :
    (ys : List Ranked) (required : Bool) → IsSorted ys → Chosen ys required (pick ys required)
unfolding pick
pick-Chosen [] true s = (refl, refl)
pick-Chosen [] false s = (refl, refl)
pick-Chosen (a ∷ []) required s = (a, refl, Memᴰ.head refl, rw (not_beats_self a) refl)
pick-Chosen (a ∷ b ∷ rest) required s = elim (Bool-cases (same_key b a)) [
  | inl tie ↦ rw tie (
    a,
    Memᴰ.head refl,
    (not_beats_self a, s.0),
    rw (not_beats_self a, tied-not_beats a b tie) (omega arith),
  )
  | inr no_tie ↦ rw no_tie (
    a,
    refl,
    Memᴰ.head refl,
    rw
        (
          not_beats_self a,
          beats_of_untied a b s.0.0 no_tie,
          unbeaten_by_none a rest (All-beats a b rest (beats_of_untied a b s.0.0 no_tie) s.1.0),
        )
        refl,
  )
]

Chosen-sort :
    (xs : List Ranked) (required : Bool) (r : Result RateError (Option Rate))
    → Chosen (sort_ranked xs) required r
    → Chosen xs required r
Chosen-sort xs required (ok (some r)) (m, e, mem, n) =
    (m, e, Memᴰ-sort xs mem, sym (count_by-sort (λ y. not (beats m y)) xs) ∙ n)
Chosen-sort xs required (ok none) (e, q) = (sort-nil xs e, q)
Chosen-sort xs required (err rate_missing) (e, q) = (sort-nil xs e, q)
Chosen-sort xs required (err rate_ambiguous) (m, mem, top, n) = (
  m,
  Memᴰ-sort xs mem,
  All-sort (λ y. beats y m ≡ false) xs top,
  rw (count_by-sort (λ y. not (beats m y)) xs) at n,
)

-- `chooseUnique` returns a rate exactly when one candidate beats every other by rank, or by
-- priority at equal rank, and returns that one; it reports an ambiguity when two or more are
-- unbeaten, and a missing rate, or none if none is required, when there is no candidate.
pub choose_unique_lem :
    (xs : List Ranked) (required : Bool) → Chosen xs required (choose_unique xs required)
unfolding choose_unique
choose_unique_lem xs required =
    Chosen-sort xs required (pick (sort_ranked xs) required)
      (pick-Chosen (sort_ranked xs) required (sort-IsSorted xs))
