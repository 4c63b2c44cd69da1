-- ===== src/Battery/Tests.antt =====
-- A battery of 10 kWh over a year, in units of 1 kWh.
use chart_solar.Prelude.{◌≡◌, refl, Bool, true, ◌&&◌, none, some, List, [], ◌∷◌, map, ok}
use chart_solar.Number.Whole.{ℤ, pos, negsuc, whole, whole-IsExact}
use chart_solar.Number.Monthly.{repeated, length-repeated}
use chart_solar.Calendar.{hours_per_tmy, tmy_hour_calendar}
use chart_solar.Calendar.Year.{year_2023, year_2023-IsDatetime}
use chart_solar.Tariff.{TouPeriod, range}
use chart_solar.Tariff.Schedule.{TariffSchedule, usd, tou}
use chart_solar.Battery.{
  BatteryInputs, Hour, tou_arbitrage, resolve_strategy, limits_of, series_of, dispatch_battery,
  build_peak_mask,
}
use chart_solar.Battery.Hours.{IsDispatch}
use chart_solar.Battery.Mask.{mask_of, build_peak_mask_lem}
use chart_solar.Battery.Dispatch.{IsBattery, dispatch_battery_lem}

abbrev battery : BatteryInputs ℤ
battery = record {
  capacity_kwh = pos 10;
  usable_pct = pos 1;
  round_trip_efficiency = pos 1;
  max_charge_kw = pos 5;
  max_discharge_kw = pos 5;
  reserve_pct = pos 0;
  strategy = tou_arbitrage;
}

battery-IsBattery : IsBattery battery
battery-IsBattery = record {
  capacity = refl;
  usable = refl;
  efficiency = refl;
  charge = refl;
  discharge = refl;
  reserve = refl;
}

abbrev weekdays : TouPeriod ℤ
weekdays = record {
  name = "weekdays";
  rate_per_kwh = pos 35;
  months = range 1 12;
  hour_mask = map (λ h. true) (range 0 24);
  is_weekday = true;
}

abbrev by_time : TariffSchedule ℤ
by_time = record {
  name = "TOU-C";
  utility = "PG&E";
  country = "US";
  currency = usd;
  structure = tou;
  fixed_monthly_charge = pos 0;
  flat_rate_per_kwh = none;
  tiered_blocks = none;
  tou_periods = some (weekdays ∷ []);
}

abbrev is_same : ℤ → ℤ → Bool
is_same a b = whole.le a b && whole.le b a

-- two kWh exported in each hour
abbrev sunny : List ℤ
sunny = repeated hours_per_tmy (negsuc 1)

dispatch_battery_lem_example :
    (hours : List (Hour ℤ)) × (dispatch_battery is_same year_2023 battery sunny (some by_time)
      ≡ ok (series_of (resolve_strategy tou_arbitrage (some by_time)) hours))
    × IsDispatch whole-IsExact (limits_of battery) sunny hours
dispatch_battery_lem_example =
    dispatch_battery_lem whole-IsExact is_same year_2023 battery sunny (some by_time)
      year_2023-IsDatetime battery-IsBattery (length-repeated hours_per_tmy (negsuc 1)) (refl, tt)

build_peak_mask_lem_test :
    build_peak_mask is_same year_2023 (weekdays ∷ [])
    ≡ mask_of is_same (pos 35) (weekdays ∷ []) (tmy_hour_calendar year_2023)
build_peak_mask_lem_test = build_peak_mask_lem is_same year_2023 weekdays [] refl
