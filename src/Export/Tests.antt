-- ===== src/Export/Tests.antt =====
-- Credits and settlements of a year, in cents.
use chart_solar.Prelude.{◌≡◌, refl, none, some, List, [], ◌∷◌, map, length, ok}
use chart_solar.Number.{sum, ◌⊕◌, ◌≼◌, max_of}
use chart_solar.Number.Whole.{ℤ, pos, negsuc, whole, whole-IsExact}
use chart_solar.Number.Monthly.{repeated, length-repeated}
use chart_solar.Calendar.{hours_per_tmy}
use chart_solar.Calendar.Year.{year_2023, year_2023-IsDatetime}
use chart_solar.Tariff.Schedule.{TariffSchedule, TieredBlock, usd, tiered}
use chart_solar.Tariff.Billing.{AnnualBill, MonthlyBill}
use chart_solar.Export.{ExportCreditResult, seg_flat, apply_nem_three_nbt}
use chart_solar.Export.Nem.{apply_nem_one_for_one_tiered}
use chart_solar.Export.Settlement.{
  Settled, run_monthly_rollover, compute_nbt_net_bill, seg_flat_settlement,
}
use chart_solar.Export.Rollover.{
  IsSettled, IsCharged, energies, run_monthly_rollover_lem, seg_flat_settlement_lem,
}
use chart_solar.Export.Netting.{IsNonneg, tiered_credits_nonneg}
use chart_solar.Export.Credits.{hour_credits, nbt_year}

abbrev month_of : ℤ → MonthlyBill ℤ
month_of charge = record {
  month = 1;
  kwh_imported = pos 100;
  energy_charge = charge;
  fixed_charge = pos 10;
  total = charge ⊕ pos 10;
}

-- 30 in each of the twelve months
abbrev months : List (MonthlyBill ℤ)
months =
    month_of (pos 30)
    ∷ month_of (pos 30)
    ∷ month_of (pos 30)
    ∷ month_of (pos 30)
    ∷ month_of (pos 30)
    ∷ month_of (pos 30)
    ∷ month_of (pos 30)
    ∷ month_of (pos 30)
    ∷ month_of (pos 30)
    ∷ month_of (pos 30)
    ∷ month_of (pos 30)
    ∷ month_of (pos 30)
    ∷ []

abbrev bill : AnnualBill ℤ
bill = record {
  currency = usd;
  monthly = months;
  annual_kwh_imported = pos 1200;
  annual_energy_charge = pos 360;
  annual_fixed_charge = pos 120;
  annual_total = pos 480;
}

-- a surplus in the first month, a deficit in the second
abbrev credits : List ℤ
credits =
    pos 45
    ∷ negsuc 19
    ∷ pos 0
    ∷ pos 0
    ∷ pos 0
    ∷ pos 0
    ∷ pos 0
    ∷ pos 0
    ∷ pos 0
    ∷ pos 0
    ∷ pos 40
    ∷ pos 50
    ∷ []

months-IsCharged : IsCharged months
months-IsCharged = (
  refl,
  (refl, (refl, (refl, (refl, (refl, (refl, (refl, (refl, (refl, (refl, (refl, tt))))))))))),
)

run_monthly_rollover_lem_example :
    (s : Settled ℤ) × (run_monthly_rollover bill credits ≡ ok s)
    × IsSettled whole-IsExact months s.bill.monthly
        (sum credits)
        s.annual_credit_applied
        s.annual_credit_unused
run_monthly_rollover_lem_example =
    run_monthly_rollover_lem whole-IsExact bill credits refl months-IsCharged

-- a flat credit above the year's energy
abbrev flat_credit : ExportCreditResult ℤ
flat_credit = record {
  regime = seg_flat;
  monthly_credit = credits;
  annual_credit = pos 720;
  annual_kwh_exported = pos 48;
}

seg_flat_settlement_lem_test :
    (sum (energies (seg_flat_settlement bill flat_credit).bill.monthly)
        ⊕ (seg_flat_settlement bill flat_credit).annual_credit_applied
      ≡ sum (energies months))
    × IsCharged (seg_flat_settlement bill flat_credit).bill.monthly
    × (pos 0 ≼ (seg_flat_settlement bill flat_credit).annual_credit_unused)
seg_flat_settlement_lem_test =
    seg_flat_settlement_lem whole-IsExact bill flat_credit months-IsCharged

-- two kWh exported in each hour, at a rate below zero
abbrev exports : List ℤ
exports = repeated hours_per_tmy (pos 2)

abbrev rates : List ℤ
rates = repeated hours_per_tmy (negsuc 2)

nbt_year_example :
    (c : ExportCreditResult ℤ) × (s : Settled ℤ) × (apply_nem_three_nbt year_2023 exports rates
      ≡ ok c)
    × (c.annual_kwh_exported ≡ sum (map (λ x. max_of (pos 0) x) exports))
    × (compute_nbt_net_bill bill c ≡ ok s)
    × IsSettled whole-IsExact months s.bill.monthly
        (sum (hour_credits exports rates))
        s.annual_credit_applied
        s.annual_credit_unused
nbt_year_example =
    nbt_year whole-IsExact year_2023 exports rates bill year_2023-IsDatetime
      (length-repeated hours_per_tmy (pos 2)) (length-repeated hours_per_tmy (negsuc 2)) refl
      months-IsCharged

abbrev lower : TieredBlock ℤ
lower = record { rate_per_kwh = pos 30; up_to_kwh_per_month = some (pos 500) }

abbrev upper : TieredBlock ℤ
upper = record { rate_per_kwh = pos 40; up_to_kwh_per_month = none }

-- the blocks are not in order
abbrev stepped : TariffSchedule ℤ
stepped = record {
  name = "E-1";
  utility = "PG&E";
  country = "US";
  currency = usd;
  structure = tiered;
  fixed_monthly_charge = pos 1200;
  flat_rate_per_kwh = none;
  tiered_blocks = some (upper ∷ lower ∷ []);
  tou_periods = none;
}

tiered_credits_nonneg_example :
    (c : ExportCreditResult ℤ) × (apply_nem_one_for_one_tiered year_2023 rates stepped ≡ ok c)
    × (length c.monthly_credit ≡ 12)
    × IsNonneg c.monthly_credit
tiered_credits_nonneg_example =
    tiered_credits_nonneg whole-IsExact year_2023 rates stepped upper (lower ∷ [])
      (length-repeated hours_per_tmy (negsuc 2)) refl refl (refl, (refl, tt))
