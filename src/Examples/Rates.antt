-- ===== src/Examples/Rates.antt =====
-- The choice among three delivery rates.
use tunisia_vape_commerce.Prelude.{
  List, [], count_by, false, none, ok, pos, refl, some, true, ◌∷◌, ◌≡◌,
}
use tunisia_vape_commerce.Pricing.Rates.{
  Context, Ranked, Rate, base, base_type_matches_rank, before, choose_unique, geographic_rank,
  insert_ranked, is_base_candidate, pick, rank_all, select_base_rate, sort_ranked, within_bounds,
}
use tunisia_vape_commerce.Pricing.Rates.Choice.{Chosen, choose_unique_lem}
use tunisia_vape_commerce.Pricing.Rates.Selection.{IsCandidate, is_rival, select_base_rate_best}

abbrev anywhere : Rate
anywhere = record {
  id = 3;
  type = base;
  priority = pos 0;
  fee_millimes = 8000;
  delivery_zone_id = none;
  governorate_id = none;
  delegation_id = none;
  locality_id = none;
  min_weight_grams = none;
  max_weight_grams = none;
  min_order_millimes = none;
  max_order_millimes = none;
  max_cod_millimes = none;
  express = false;
}

abbrev zonal : Rate
zonal = record anywhere { id = 1; fee_millimes = 7000; delivery_zone_id = some 4 }

abbrev urgent_zonal : Rate
urgent_zonal = record zonal { id = 2; fee_millimes = 6000; priority = pos 5 }

abbrev rates : List Rate
rates = anywhere ∷ zonal ∷ urgent_zonal ∷ []

abbrev address : Context
address = record {
  delivery_zone_id = 4;
  governorate_id = 1;
  delegation_id = 1;
  locality_id = 1;
  order_millimes = 90000;
  weight_grams = 500;
  express = false;
}

abbrev ranked_rates : List Ranked
ranked_rates =
    record { rate = anywhere; rank = 1 }
    ∷ record { rate = zonal; rank = 2 }
    ∷ record { rate = urgent_zonal; rank = 2 }
    ∷ []

selection : select_base_rate rates address ≡ ok urgent_zonal
unfolding select_base_rate choose_unique pick sort_ranked insert_ranked before rank_all
    geographic_rank base_type_matches_rank within_bounds
selection = refl

choose_unique_lem_example : Chosen ranked_rates true (choose_unique ranked_rates true)
choose_unique_lem_example = choose_unique_lem ranked_rates true

select_base_rate_best_example :
    (m : Ranked) × (m.rate ≡ urgent_zonal)
    × IsCandidate (is_base_candidate address) address rates m
    × (count_by (is_rival (is_base_candidate address) address m) rates ≡ 1)
select_base_rate_best_example = select_base_rate_best rates address urgent_zonal selection
