-- ===== src/Pricing/Rates.antt =====
-- apps/api/src/checkout/checkout-pricing.ts: which delivery rate applies to an order. Identifiers
-- are database keys that the code compares only, so they are naturals, in the order of
-- `localeCompare`; amounts and weights are database integers of zero or more, priorities are
-- signed.
use tunisia_vape_commerce.Prelude.{
  Bool, List, Option, Result, [], eq_ℤ, err, false, if◌then◌else◌, is_some, leb, ltb, ltb_ℤ, none,
  not, ok, or_throw, same_id, some, true, ℕ, ℤ, ◌&&◌, ◌==◌, ◌>>=◌, ◌||◌, ◌∷◌,
}
pub mod Sorting
pub mod Choice
pub mod Selection

-- QuoteRateType
pub data RateType : Type 0 where
  base governorate delegation locality : RateType
  remote_surcharge weight_surcharge oversize_surcharge express_surcharge : RateType

pub RateType-discrete : Discrete RateType
RateType-discrete = hlevel

abbrev pub same_type : RateType → RateType → Bool
same_type base base = true
same_type governorate governorate = true
same_type delegation delegation = true
same_type locality locality = true
same_type remote_surcharge remote_surcharge = true
same_type weight_surcharge weight_surcharge = true
same_type oversize_surcharge oversize_surcharge = true
same_type express_surcharge express_surcharge = true
same_type _ _ = false

-- QuoteRateCandidate
pub record Rate : Type 0 where
  pub id : ℕ
  pub type : RateType
  pub priority : ℤ
  pub fee_millimes : ℕ
  pub delivery_zone_id : Option ℕ
  pub governorate_id : Option ℕ
  pub delegation_id : Option ℕ
  pub locality_id : Option ℕ
  pub min_weight_grams : Option ℕ
  pub max_weight_grams : Option ℕ
  pub min_order_millimes : Option ℕ
  pub max_order_millimes : Option ℕ
  pub max_cod_millimes : Option ℕ
  pub express : Bool

-- RateContext
pub record Context : Type 0 where
  pub delivery_zone_id : ℕ
  pub governorate_id : ℕ
  pub delegation_id : ℕ
  pub locality_id : ℕ
  pub order_millimes : ℕ
  pub weight_grams : ℕ
  pub express : Bool

pub data RateError : Type 0 where
  rate_missing rate_ambiguous : RateError

-- `bound === null || value >= bound`, and with `<=`
abbrev pub at_least : ℕ → Option ℕ → Bool
at_least v none = true
at_least v (some b) = leb b v

abbrev pub at_most : ℕ → Option ℕ → Bool
at_most v none = true
at_most v (some b) = leb v b

unfoldable pub within_bounds : Rate → Context → Bool
within_bounds r c =
    at_least c.order_millimes r.min_order_millimes
    && at_most c.order_millimes r.max_order_millimes
    && at_most c.order_millimes r.max_cod_millimes
    && at_least c.weight_grams r.min_weight_grams
    && at_most c.weight_grams r.max_weight_grams

-- `geographicRank`; the -1 of no match is `none`.
unfoldable pub geographic_rank : Rate → Context → Option ℕ
geographic_rank r c =
    if same_id r.locality_id (some c.locality_id)
    then some 5
    else if same_id r.delegation_id (some c.delegation_id) && not (is_some r.locality_id)
    then some 4
    else if same_id r.governorate_id (some c.governorate_id)
        && not (is_some r.delegation_id)
        && not (is_some r.locality_id)
    then some 3
    else if same_id r.delivery_zone_id (some c.delivery_zone_id)
        && not (is_some r.governorate_id)
        && not (is_some r.delegation_id)
        && not (is_some r.locality_id)
    then some 2
    else if not (is_some r.delivery_zone_id)
        && not (is_some r.governorate_id)
        && not (is_some r.delegation_id)
        && not (is_some r.locality_id)
    then some 1
    else none

unfoldable pub base_type_matches_rank : Rate → ℕ → Bool
base_type_matches_rank r rank =
    ((rank == 5) && same_type r.type locality)
    || ((rank == 4) && same_type r.type delegation)
    || ((rank == 3) && same_type r.type governorate)
    || (((rank == 2) || (rank == 1)) && same_type r.type base)

-- A candidate with its rank.
pub record Ranked : Type 0 where
  pub rate : Rate
  pub rank : ℕ

-- The comparator of `chooseUnique`, as "left stands before right or is equal to it": higher rank
-- first, then higher priority, then the identifier.
unfoldable pub before : Ranked → Ranked → Bool
before l r =
    if ltb r.rank l.rank
    then true
    else if ltb l.rank r.rank
    then false
    else if ltb_ℤ r.rate.priority l.rate.priority
    then true
    else if ltb_ℤ l.rate.priority r.rate.priority
    then false
    else leb l.rate.id r.rate.id

-- `Array.prototype.sort`, which is stable: the insertion of an entry before its first successor.
unfoldable pub insert_ranked : Ranked → List Ranked → List Ranked
insert_ranked x [] = x ∷ []
insert_ranked x (y ∷ ys) = if before x y then x ∷ y ∷ ys else y ∷ insert_ranked x ys

unfoldable pub sort_ranked : List Ranked → List Ranked
sort_ranked [] = []
sort_ranked (x ∷ xs) = insert_ranked x (sort_ranked xs)

-- Rank and priority of two entries agree.
abbrev pub same_key : Ranked → Ranked → Bool
same_key a b = (a.rank == b.rank) && eq_ℤ a.rate.priority b.rate.priority

-- What `chooseUnique` does with the sorted entries.
unfoldable pub pick : List Ranked → Bool → Result RateError (Option Rate)
pick [] required = if required then err rate_missing else ok none
pick (first ∷ []) required = ok (some first.rate)
pick (first ∷ second ∷ rest) required =
    if same_key second first then err rate_ambiguous else ok (some first.rate)

unfoldable pub choose_unique : List Ranked → Bool → Result RateError (Option Rate)
unfolding pick
choose_unique ranked required = pick (sort_ranked ranked) required

-- The two `flatMap`s keep a rate with its rank under a test.
unfoldable pub rank_all : (Rate → ℕ → Bool) → Context → List Rate → List Ranked
rank_all test c [] = []
rank_all test c (r ∷ rs) = elim (geographic_rank r c) [
  | none ↦ rank_all test c rs
  | some rank ↦
      if test r rank
      then record { rate = r; rank = rank } ∷ rank_all test c rs
      else rank_all test c rs
]

abbrev pub is_base_candidate : Context → Rate → ℕ → Bool
is_base_candidate c r rank = base_type_matches_rank r rank && within_bounds r c

unfoldable pub select_base_rate : List Rate → Context → Result RateError Rate
select_base_rate rates c = do
  selected ← choose_unique (rank_all (is_base_candidate c) c rates) true
  or_throw selected rate_missing

-- `type !== 'EXPRESS_SURCHARGE' || context.express`
abbrev pub express_allowed : RateType → Context → Bool
express_allowed express_surcharge c = c.express
express_allowed _ c = true

abbrev pub is_surcharge_candidate : Context → RateType → Rate → ℕ → Bool
is_surcharge_candidate c t r rank = same_type r.type t && express_allowed t c && within_bounds r c

unfoldable pub select_surcharge_rate :
    List Rate → Context → RateType → Result RateError (Option Rate)
select_surcharge_rate rates c t =
    choose_unique (rank_all (is_surcharge_candidate c t) c rates) false
