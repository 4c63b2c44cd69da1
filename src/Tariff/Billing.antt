-- ===== src/Tariff/Billing.antt =====
-- backend/engine/steps/tariff.py: the bill of a year of net load against a tariff.
pub mod Totals
pub mod Periods
pub mod Uncovered
pub mod Months
pub mod Charges
pub mod Annual
mod Tests
use chart_solar.Prelude.{
  ℕ, zero, suc, ◌+◌, ◌-◌, Bool, true, false, not, Option, none, some, List, [], ◌∷◌, map, length,
  Result, ok, err, ◌>>=◌, ◌==◌, if◌then◌else◌,
}
use chart_solar.Number.{Float, ◌⊕◌, ◌⊗◌, max_of, sum}
use chart_solar.Number.Monthly.{repeated, add_at}
use chart_solar.Calendar.{Datetime, tmy_hour_calendar, hours_per_tmy}
use chart_solar.Tariff.{
  TariffError, index_error, bad_length, rate_required, periods_required, no_period, Cell, TouPeriod,
  Rates, rate_at, build_tou_rate_cache,
}
use chart_solar.Tariff.Schedule.{Currency, flat, tiered, tou, TieredBlock, TariffSchedule}
use chart_solar.Tariff.Tiers.{sort_tiered_blocks, walk_tier_charge}

pub record MonthlyBill (W : Type 0) : Type 0 where
  pub month : ℕ
  pub kwh_imported : W
  pub energy_charge : W
  pub fixed_charge : W
  pub total : W

pub record AnnualBill (W : Type 0) : Type 0 where
  pub currency : Currency
  pub monthly : List (MonthlyBill W)
  pub annual_kwh_imported : W
  pub annual_energy_charge : W
  pub annual_fixed_charge : W
  pub annual_total : W

-- the two lists that a billing loop fills
pub record Monthly (W : Type 0) : Type 0 where
  pub energy : List W
  pub kwh : List W

abbrev pub month_idx : Cell → ℕ
month_idx c = c.month - 1

module _ {W : Type 0} ⦃f : Float W⦄ where
  unfoldable pub no_months : Monthly W
  no_months = record { energy = repeated 12 f.nought; kwh = repeated 12 f.nought }

  abbrev pub put : Cell → W → W → Monthly W → Monthly W
  put c kwh charge m = record {
    energy = add_at (month_idx c) charge m.energy;
    kwh = add_at (month_idx c) kwh m.kwh;
  }

  -- the loop of `_bill_flat`, with what is left of the calendar
  unfoldable pub flat_hours : W → List W → List Cell → Monthly W → Result TariffError (Monthly W)
  flat_hours rate [] cells m = ok m
  flat_hours rate (kwh ∷ hours) [] m = err index_error
  flat_hours rate (kwh ∷ hours) (c ∷ cells) m =
      flat_hours rate hours cells (put c kwh (kwh ⊗ rate) m)

  unfoldable pub bill_flat : Datetime → List W → W → Result TariffError (Monthly W)
  unfolding flat_hours no_months
  bill_flat dt hourly_import_kwh rate_per_kwh =
      flat_hours rate_per_kwh hourly_import_kwh (tmy_hour_calendar dt) no_months

  -- the loop of `_bill_tiered`
  unfoldable pub tiered_hours : List W → List Cell → List W → Result TariffError (List W)
  tiered_hours [] cells monthly_kwh = ok monthly_kwh
  tiered_hours (kwh ∷ hours) [] monthly_kwh =
      if f.lt f.nought kwh then err index_error else tiered_hours hours [] monthly_kwh
  tiered_hours (kwh ∷ hours) (c ∷ cells) monthly_kwh =
      tiered_hours hours cells
        (if f.lt f.nought kwh then add_at (month_idx c) kwh monthly_kwh else monthly_kwh)

  unfoldable pub bill_tiered : Datetime → List W → TariffSchedule W → Result TariffError (Monthly W)
  unfolding tiered_hours sort_tiered_blocks walk_tier_charge
  bill_tiered dt hourly_import_kwh tariff = do
    sorted_blocks ← sort_tiered_blocks tariff
    monthly_kwh ← tiered_hours hourly_import_kwh (tmy_hour_calendar dt) (repeated 12 f.nought)
    ok (record {
      energy = map (λ m. walk_tier_charge m sorted_blocks) monthly_kwh;
      kwh = monthly_kwh;
    })

  -- the loop of `_bill_tou`, with the index of the hour
  unfoldable pub tou_hours :
      Rates W → ℕ → List W → List Cell → Monthly W → Result TariffError (Monthly W)
  tou_hours cache i [] cells m = ok m
  tou_hours cache i (kwh ∷ hours) [] m =
      let rest = tou_hours cache (i + 1) hours [] m in
      if f.le kwh f.nought then rest else err index_error
  tou_hours cache i (kwh ∷ hours) (c ∷ cells) m = elim (f.le kwh f.nought) [
    | true ↦ tou_hours cache (i + 1) hours cells m
    | false ↦ elim (rate_at cache c) [
      | none ↦ err (no_period i c)
      | some rate ↦ tou_hours cache (i + 1) hours cells (put c kwh (kwh ⊗ rate) m)
    ]
  ]

  unfoldable pub bill_tou : Datetime → List W → TariffSchedule W → Result TariffError (Monthly W)
  unfolding tou_hours no_months build_tou_rate_cache
  bill_tou dt hourly_import_kwh tariff = elim tariff.tou_periods [
    | none ↦ err periods_required
    | some [] ↦ err periods_required
    | some (p ∷ periods) ↦ do
      rate_cache ← build_tou_rate_cache (p ∷ periods)
      tou_hours rate_cache 0 hourly_import_kwh (tmy_hour_calendar dt) no_months
  ]

  -- the twelve bills, from month `m`
  unfoldable pub monthly_bills : W → ℕ → List W → List W → List (MonthlyBill W)
  monthly_bills fixed m (kwh ∷ kwhs) (energy ∷ energies) =
      record {
        month = m;
        kwh_imported = kwh;
        energy_charge = energy;
        fixed_charge = fixed;
        total = energy ⊕ fixed;
      }
      ∷ monthly_bills fixed (m + 1) kwhs energies
  monthly_bills fixed m [] energies = []
  monthly_bills fixed m (kwh ∷ kwhs) [] = []

  unfoldable pub annual_bill : TariffSchedule W → Monthly W → AnnualBill W
  unfolding monthly_bills
  annual_bill tariff m =
      let fixed_per_month = tariff.fixed_monthly_charge in
      let bills = monthly_bills fixed_per_month 1 m.kwh m.energy in
      record {
        currency = tariff.currency;
        monthly = bills;
        annual_kwh_imported = sum m.kwh;
        annual_energy_charge = sum m.energy;
        annual_fixed_charge = fixed_per_month ⊗ f.of_nat 12;
        annual_total = sum (map (λ b. b.total) bills);
      }

  -- what `compute_annual_bill` bills the hours with
  unfoldable pub bill_by_structure :
      Datetime → List W → TariffSchedule W → Result TariffError (Monthly W)
  unfolding bill_flat bill_tiered bill_tou
  bill_by_structure dt hourly_import tariff = elim tariff.structure [
    | flat ↦ elim tariff.flat_rate_per_kwh [
      | none ↦ err rate_required
      | some rate ↦ bill_flat dt hourly_import rate
    ]
    | tiered ↦ bill_tiered dt hourly_import tariff
    | tou ↦ bill_tou dt hourly_import tariff
  ]

  unfoldable pub compute_annual_bill :
      Datetime → List W → TariffSchedule W → Result TariffError (AnnualBill W)
  unfolding bill_by_structure annual_bill
  compute_annual_bill dt hourly_net_load_kwh tariff =
      if not (length hourly_net_load_kwh == hours_per_tmy) then err bad_length else do
        m ← bill_by_structure dt (map (λ kwh. max_of f.nought kwh) hourly_net_load_kwh) tariff
        ok (annual_bill tariff m)
