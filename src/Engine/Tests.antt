-- ===== src/Engine/Tests.antt =====
-- A forecast of one hour with a battery, and one without its production.
use chart_solar.Prelude.{◌≡◌, refl, Bool, none, some, List, [], ◌∷◌, ok, err}
use chart_solar.Number.{sum}
use chart_solar.Number.Whole.{ℤ, pos, whole}
use chart_solar.Tariff.Schedule.{TariffSchedule, usd, flat}
use chart_solar.Tariff.Billing.{AnnualBill}
use chart_solar.Battery.{BatteryInputs, BatteryDispatchResult, self_consumption}
use chart_solar.Engine.{
  StepKey, dc_production, battery_dispatch, tariff, key_eq, key_error, StepRegistration, Calls,
  ForecastInputs, Artifacts, run_forecast, run_steps, adapter, net_load, production_kw, differences,
  initial, resolve_consumption,
}
use chart_solar.Engine.Billed.{IsBilledOn, billed_after_battery}
use chart_solar.Engine.Missing.{bill_needs_production}

-- the battery turns an import of three into two
abbrev streams : BatteryDispatchResult ℤ
streams = record {
  strategy = self_consumption;
  hourly_charge_kwh = pos 0 ∷ [];
  hourly_discharge_kwh = pos 1 ∷ [];
  hourly_soc_kwh = pos 4 ∷ [];
  hourly_grid_import_kwh = pos 2 ∷ [];
  hourly_grid_export_kwh = pos 0 ∷ [];
}

abbrev billed_for : ℤ → AnnualBill ℤ
billed_for kwh = record {
  currency = usd;
  monthly = [];
  annual_kwh_imported = kwh;
  annual_energy_charge = kwh;
  annual_fixed_charge = pos 0;
  annual_total = kwh;
}

abbrev calls : Calls ℤ Unit Unit Unit Unit Unit Unit Unit
calls = record {
  call_dc_production = λ fn s t. ok (record { hourly_ac_kw = pos 2 ∷ []; annual_ac_kwh = pos 2 });
  call_snow = λ fn t s dc. ok none;
  call_degradation = λ fn years. ok tt;
  call_battery = λ fn b loads t. ok streams;
  call_tariff = λ fn loads t. ok (billed_for (sum loads));
  call_export_credit = λ fn config exports t loads. err tt;
  call_finance = λ fn m c dc d t x. ok tt;
}

abbrev schedule : TariffSchedule ℤ
schedule = record {
  name = "flat";
  utility = "PG&E";
  country = "US";
  currency = usd;
  structure = flat;
  fixed_monthly_charge = pos 0;
  flat_rate_per_kwh = some (pos 1);
  tiered_blocks = none;
  tou_periods = none;
}

abbrev battery : BatteryInputs ℤ
battery = record {
  capacity_kwh = pos 10;
  usable_pct = pos 1;
  round_trip_efficiency = pos 1;
  max_charge_kw = pos 5;
  max_discharge_kw = pos 5;
  reserve_pct = pos 0;
  strategy = self_consumption;
}

abbrev inputs : ForecastInputs ℤ Unit Unit
inputs = record {
  system = tt;
  financial = tt;
  hold_years = 15;
  system_cost = none;
  schedule = some schedule;
  export_config = none;
  consumption_inputs = some (record { hourly_kwh = some (pos 5 ∷ []); annual_kwh = none });
  battery = some battery;
}

-- the tariff is registered before the battery
abbrev steps : List (StepRegistration Unit)
steps =
    record { feature_key = tariff; fn = tt }
    ∷ record { feature_key = battery_dispatch; fn = tt }
    ∷ record { feature_key = dc_production; fn = tt }
    ∷ []

abbrev outcome : Artifacts ℤ Unit Unit Unit
outcome = record {
  tmy = tt;
  hourly_consumption = pos 5 ∷ [];
  dc = some (record { hourly_ac_kw = pos 2 ∷ []; annual_ac_kwh = pos 2 });
  snow_loss = none;
  degraded = none;
  dispatch = some streams;
  bill = some (billed_for (sum (pos 2 ∷ [])));
  credit = none;
  finances = none;
}

forecast_runs : run_forecast calls steps inputs tt none ≡ ok outcome
unfolding run_forecast run_steps adapter net_load production_kw differences initial
    resolve_consumption
forecast_runs = refl

billed_after_battery_example : IsBilledOn calls inputs streams (billed_for (sum (pos 2 ∷ [])))
billed_after_battery_example =
    billed_after_battery calls inputs steps tt none outcome streams (billed_for (sum (pos 2 ∷ [])))
      forecast_runs refl refl

abbrev only_tariff : StepKey → Bool
only_tariff key = key_eq key tariff

bill_needs_production_example :
    run_forecast calls steps inputs tt (some only_tariff) ≡ err (key_error dc_production)
bill_needs_production_example =
    bill_needs_production calls inputs steps tt only_tariff schedule tt refl refl refl refl refl
