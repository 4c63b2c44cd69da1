-- ===== src/Tariff/Billing/Tests.antt =====
-- Bills of a year of 8760 hours, in cents.
use chart_solar.Prelude.{ℕ, ◌≡◌, ◌⊎◌, refl, true, none, some, List, [], ◌∷◌, map, ok, err}
use chart_solar.Number.Whole.{ℤ, pos, whole, whole-IsExact}
use chart_solar.Number.Monthly.{repeated, length-repeated}
use chart_solar.Calendar.{hours_per_tmy, tmy_hour_calendar}
use chart_solar.Calendar.Year.{year_2023, year_2023-IsDatetime}
use chart_solar.Tariff.{TouPeriod, Cell, range, no_period}
use chart_solar.Tariff.Schedule.{
  TariffSchedule, TieredBlock, usd, tiered, tou, structure_is_consistent,
}
use chart_solar.Tariff.Tiers.{walk_tier_charge, walk_blocks, charge_above}
use chart_solar.Tariff.Walk.{walk_tier_charge_lem}
use chart_solar.Tariff.Billing.{AnnualBill, bill_tou, compute_annual_bill}
use chart_solar.Tariff.Billing.Periods.{charged, summed, hour_charges, bill_tou_lem}
use chart_solar.Tariff.Billing.Charges.{IsBill, IsMissed}
use chart_solar.Tariff.Billing.Annual.{compute_annual_bill_lem}

-- 30 to 500 kWh, 40 above
abbrev blocks : List (TieredBlock ℤ)
blocks =
    record { rate_per_kwh = pos 30; up_to_kwh_per_month = some (pos 500) }
    ∷ record { rate_per_kwh = pos 40; up_to_kwh_per_month = none }
    ∷ []

abbrev stepped : TariffSchedule ℤ
stepped = record {
  name = "E-1";
  utility = "PG&E";
  country = "US";
  currency = usd;
  structure = tiered;
  fixed_monthly_charge = pos 1200;
  flat_rate_per_kwh = none;
  tiered_blocks = some blocks;
  tou_periods = none;
}

abbrev weekdays : TouPeriod ℤ
weekdays = record {
  name = "weekdays";
  rate_per_kwh = pos 35;
  months = range 1 12;
  hour_mask = map (λ h. true) (range 0 24);
  is_weekday = true;
}

abbrev by_time : TariffSchedule ℤ
by_time = record stepped {
  structure = tou;
  tiered_blocks = none;
  tou_periods = some (weekdays ∷ []);
}

-- one kWh in each hour of the year
abbrev steady : List ℤ
steady = repeated hours_per_tmy (pos 1)

walk_tier_charge_lem_example :
    walk_tier_charge (pos 700) blocks ≡ charge_above (pos 700) (pos 0) blocks
walk_tier_charge_lem_example = walk_tier_charge_lem whole-IsExact (pos 700) blocks

seven_hundred : walk_tier_charge (pos 700) blocks ≡ pos 23000
unfolding walk_tier_charge walk_blocks
seven_hundred = refl

bill_tou_lem_example :
    charged (bill_tou year_2023 steady by_time)
    ≡ summed (pos 0) (hour_charges (weekdays ∷ []) 0 steady (tmy_hour_calendar year_2023))
bill_tou_lem_example =
    bill_tou_lem whole-IsExact year_2023 steady by_time weekdays [] year_2023-IsDatetime refl
      (refl, tt)

stepped_consistent : structure_is_consistent stepped ≡ true
unfolding structure_is_consistent
stepped_consistent = refl

compute_annual_bill_lem_example :
    ((b : AnnualBill ℤ) × (compute_annual_bill year_2023 steady stepped ≡ ok b)
      × IsBill whole-IsExact year_2023 steady stepped b)
    ⊎ ((i : ℕ) × (c : Cell) × IsMissed year_2023 steady stepped i c
        × (compute_annual_bill year_2023 steady stepped ≡ err (no_period i c)))
compute_annual_bill_lem_example =
    compute_annual_bill_lem whole-IsExact year_2023 year_2023-IsDatetime steady
      (length-repeated hours_per_tmy (pos 1)) stepped stepped_consistent tt
