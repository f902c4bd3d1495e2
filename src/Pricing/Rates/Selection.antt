-- ===== src/Pricing/Rates/Selection.antt =====
-- `selectBaseRate` and `selectSurchargeRate`: a selected rate is one of the given ones, applies to
-- the order and beats every other that does.
use mathlib.Core.List.{Memᴰ}
use tunisia_vape_commerce.Prelude.{
  Bool, Bool-cases, List, Option, Option-cases, Result, [], arith, count_by, err, false, inl, inr,
  none, not, ok, or_throw, refl, some, sym, true, ℕ, ◌&&◌, ◌>>=◌, ◌∙◌, ◌∷◌, ◌≡◌,
}
use tunisia_vape_commerce.Pricing.Rates.{
  Context, Ranked, Rate, RateError, choose_unique, geographic_rank, is_base_candidate, rank_all,
  rate_missing, select_base_rate,
}
use tunisia_vape_commerce.Pricing.Rates.Sorting.{Memᴰ-cons, beats}
use tunisia_vape_commerce.Pricing.Rates.Choice.{Chosen, choose_unique_lem, unbeaten_by}

-- The entry is one of the rates, carries its own rank and passes the test.
abbrev pub IsCandidate : (Rate → ℕ → Bool) → Context → List Rate → Ranked → Type 0
IsCandidate test c rates m =
    Memᴰ m.rate rates × (geographic_rank m.rate c ≡ some m.rank) × (test m.rate m.rank ≡ true)

Memᴰ-nil {ℓ κ} : {A : Type ℓ} {x : A} {P : Type κ} → Memᴰ x [] → P
Memᴰ-nil h = elim h [ ]

module _ (test : Rate → ℕ → Bool) (c : Context) where
  keep_rest :
      (r : Rate) (rates : List Rate) (m : Ranked)
      → IsCandidate test c rates m
      → IsCandidate test c (r ∷ rates) m
  keep_rest r rates m h = (Memᴰ.tail h.0, h.1, h.2)

  keep_head :
      (r : Rate) (rates : List Rate) (m : Ranked) (k : ℕ)
      → geographic_rank r c ≡ some k
      → test r k ≡ true
      → m ≡ record { rate = r; rank = k }
      → IsCandidate test c (r ∷ rates) m
  keep_head r rates m k e t p = rw p (Memᴰ.head refl, e, t)

  rank_all_mem :
      {m : Ranked} (rates : List Rate) → Memᴰ m (rank_all test c rates) → IsCandidate test c rates m
  unfolding rank_all
  rank_all_mem {m} [] h = Memᴰ-nil h
  rank_all_mem {m} (r ∷ rates) h = elim (Option-cases (geographic_rank r c)) [
    | inl e ↦ keep_rest r rates m (rank_all_mem rates (rw (e, rank_all) at h))
    | inr (k, e) ↦ elim (Bool-cases (test r k)) [
      | inl t ↦ elim (Memᴰ-cons (rw (e, rank_all, t) at h)) [
        | inl p ↦ keep_head r rates m k e t p
        | inr q ↦ keep_rest r rates m (rank_all_mem rates q)
      ]
      | inr f ↦ keep_rest r rates m (rank_all_mem rates (rw (e, rank_all, f) at h))
    ]
  ]

-- A rate that matches the order at a rank and passes the test there, and that an entry does not beat.
abbrev pub is_rival_at : (Rate → ℕ → Bool) → Ranked → Rate → Option ℕ → Bool
is_rival_at test m r none = false
is_rival_at test m r (some k) = test r k && not (beats m (record { rate = r; rank = k }))

abbrev pub is_rival : (Rate → ℕ → Bool) → Context → Ranked → Rate → Bool
is_rival test c m r = is_rival_at test m r (geographic_rank r c)

-- No applicable rate is lost on the way to the sort.
rank_all_complete :
    (test : Rate → ℕ → Bool) (c : Context) (m : Ranked) (rates : List Rate)
    → unbeaten_by m (rank_all test c rates) ≡ count_by (is_rival test c m) rates
unfolding rank_all
rank_all_complete test c m [] = refl
rank_all_complete test c m (r ∷ rates) =
    let rest = rank_all_complete test c m rates in
    elim (Option-cases (geographic_rank r c)) [
      | inl e ↦ rw (e, rank_all) (omega (arith, rest))
      | inr (k, e) ↦ elim (Bool-cases (test r k)) [
        | inl t ↦ rw (e, rank_all, t) (omega (arith, rest))
        | inr f ↦ rw (e, rank_all, f) (omega (arith, rest))
      ]
    ]

-- A base rate that `selectBaseRate` returns is one of the rates, its geographic scope matches the
-- order at the rank that its type names and the order lies within its bounds; of all the given rates of
-- which that holds it is the only one that it does not beat, so every other one has a lower rank, or
-- the same rank and a lower priority.
pub select_base_rate_best :
    (rates : List Rate) (c : Context) (r : Rate)
    → select_base_rate rates c ≡ ok r
    → (m : Ranked) × (m.rate ≡ r)
      × IsCandidate (is_base_candidate c) c rates m
      × (count_by (is_rival (is_base_candidate c) c m) rates ≡ 1)
unfolding select_base_rate
select_base_rate_best rates c r h =
    chosen_best (choose_unique candidates true) (choose_unique_lem candidates true) h
  where
    candidates : List Ranked
    candidates = rank_all (is_base_candidate c) c rates

    chosen_best :
        (res : Result RateError (Option Rate))
        → Chosen candidates true res
        → (res >>= λ selected. or_throw selected rate_missing) ≡ ok r
        → (m : Ranked) × (m.rate ≡ r)
          × IsCandidate (is_base_candidate c) c rates m
          × (count_by (is_rival (is_base_candidate c) c m) rates ≡ 1)
    chosen_best (ok (some x)) (m, e, mem, n) p = (
      m,
      e ∙ cc,
      rank_all_mem (is_base_candidate c) c rates mem,
      sym (rank_all_complete (is_base_candidate c) c m rates) ∙ n,
    )
    chosen_best (ok none) q p = cc
    chosen_best (err x) q p = cc
