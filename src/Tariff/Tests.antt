-- ===== src/Tariff/Tests.antt =====
-- A tariff with a peak and an off-peak band, at concrete inputs.
use chart_solar.Prelude.{
  ℕ, ◌≤◌, ◌<◌, ◌≡◌, refl, Bool, true, false, Option, none, some, List, [], ◌∷◌, ok, ltb, leb, ◌&&◌,
  map,
}
use chart_solar.Tariff.{
  TouPeriod, Cell, range, first_matching_tou_period, Rates, rate_at, build_tou_rate_cache,
}
use chart_solar.Tariff.Cache.{rate_of, build_tou_rate_cache_lem}

-- from 16 to 20 o'clock
abbrev evening : List Bool
evening = map (λ h. leb 16 h && ltb h 21) (range 0 24)

-- in tenths of a cent
abbrev peak : TouPeriod ℕ
peak = record {
  name = "peak";
  rate_per_kwh = 520;
  months = 6 ∷ 7 ∷ 8 ∷ 9 ∷ [];
  hour_mask = evening;
  is_weekday = true;
}

abbrev off_peak : TouPeriod ℕ
off_peak = record {
  name = "off-peak";
  rate_per_kwh = 310;
  months = range 1 12;
  hour_mask = map (λ h. true) (range 0 24);
  is_weekday = true;
}

abbrev bands : List (TouPeriod ℕ)
bands = peak ∷ off_peak ∷ []

build_tou_rate_cache_lem_example :
    (rates : Rates ℕ) × (build_tou_rate_cache bands ≡ ok rates)
    × ((c : Cell)
        → 1 ≤ c.month
        → c.month ≤ 12
        → c.hour < 24
        → (found : Option (TouPeriod ℕ)) × (first_matching_tou_period bands c ≡ ok found)
          × (rate_at rates c ≡ rate_of bands found))
build_tou_rate_cache_lem_example = build_tou_rate_cache_lem bands (refl, (refl, tt))

-- a summer evening on a weekday, and a weekend, for which no band was written
summer_peak :
    first_matching_tou_period bands (record { month = 7; weekday = true; hour = 18 })
    ≡ ok (some peak)
unfolding first_matching_tou_period
summer_peak = refl

no_weekend :
    first_matching_tou_period bands (record { month = 7; weekday = false; hour = 18 }) ≡ ok none
unfolding first_matching_tou_period
no_weekend = refl
