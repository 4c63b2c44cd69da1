-- ===== src/Export.antt =====
-- backend/engine/steps/export_credit.py: what the exported kWh of a year are worth under each of
-- the four regimes, and the regimes' configurations of backend/engine/inputs.py.
pub mod Nem
pub mod Settlement
pub mod Rollover
pub mod Netting
pub mod Credits
mod Tests
use chart_solar.Prelude.{
  ℕ, zero, suc, ◌+◌, ◌-◌, Bool, true, false, not, ◌&&◌, Option, none, some, List, [], ◌∷◌, map,
  length, Result, ok, err, ◌>>=◌, ◌==◌, or_else, if◌then◌else◌,
}
use chart_solar.Number.{Float, ◌⊕◌, ◌⊖◌, ◌⊗◌, min_of, max_of, sum}
use chart_solar.Number.Monthly.{repeated, add_at}
use chart_solar.Calendar.{Datetime, tmy_hour_calendar, hours_per_tmy}
use chart_solar.Tariff.{
  TariffError, TouPeriod, Cell, Rates, rate_at, periods_required, no_period, build_tou_rate_cache,
  first_matching_tou_period,
}
use chart_solar.Tariff.Schedule.{
  Structure, flat, tiered, tou, TieredBlock, TariffSchedule, is_missing,
}
use chart_solar.Tariff.Tiers.{sort_tiered_blocks, walk_tier_charge}
use chart_solar.Tariff.Billing.{month_idx}

pub data ExportRegime : Type 0 where
  nem_one_for_one nem_three_nbt seg_flat seg_tou : ExportRegime

-- an index out of range, a `ValueError` of the tariff, or one of this step
pub data ExportError : Type 0 where
  out_of_range wrong_length negative_rate tariff_required net_load_required : ExportError
  tiered_needs_netting not_tiered wrong_regime unequal_lengths : ExportError
  tariff_error : TariffError → ExportError

abbrev pub of_tariff : {A : Type 0} → Result TariffError A → Result ExportError A
of_tariff (ok a) = ok a
of_tariff (err e) = err (tariff_error e)

pub record ExportCreditResult (W : Type 0) : Type 0 where
  pub regime : ExportRegime
  pub monthly_credit : List W
  pub annual_credit : W
  pub annual_kwh_exported : W

-- the two variables of the crediting loops
pub record Credited (W : Type 0) : Type 0 where
  pub monthly : List W
  pub total_kwh : W

abbrev pub tail {ℓ} : {A : Type ℓ} → List A → List A
tail [] = []
tail (x ∷ xs) = xs

module _ {W : Type 0} ⦃f : Float W⦄ where
  -- `x == 0.0`
  abbrev pub is_zero : W → Bool
  is_zero x = f.le x f.nought && f.le f.nought x

  unfoldable pub nothing_credited : Credited W
  nothing_credited = record { monthly = repeated 12 f.nought; total_kwh = f.nought }

  abbrev pub credit_hour : Cell → W → W → Credited W → Credited W
  credit_hour c kwh rate m = record {
    monthly = add_at (month_idx c) (kwh ⊗ rate) m.monthly;
    total_kwh = m.total_kwh ⊕ kwh;
  }

  abbrev pub validate_hourly : List W → Result ExportError Unit
  validate_hourly hourly = if length hourly == hours_per_tmy then ok tt else err wrong_length

  abbrev pub result_of : ExportRegime → Credited W → ExportCreditResult W
  result_of regime m = record {
    regime = regime;
    monthly_credit = m.monthly;
    annual_credit = sum m.monthly;
    annual_kwh_exported = m.total_kwh;
  }

  -- the loop of `_accumulate_monthly_credits`, with what is left of the rates and of the calendar
  unfoldable pub accumulate_hours :
      List W → List W → List Cell → Credited W → Result ExportError (Credited W)
  accumulate_hours [] rates cells m = ok m
  accumulate_hours (x ∷ exports) (rate ∷ rates) (c ∷ cells) m =
      let kwh = max_of f.nought x in
      accumulate_hours exports rates cells (if is_zero kwh then m else credit_hour c kwh rate m)
  accumulate_hours (x ∷ exports) [] cells m =
      let rest = accumulate_hours exports [] (tail cells) m in
      if is_zero (max_of f.nought x) then rest else err out_of_range
  accumulate_hours (x ∷ exports) (rate ∷ rates) [] m =
      let rest = accumulate_hours exports rates [] m in
      if is_zero (max_of f.nought x) then rest else err out_of_range

  unfoldable pub accumulate_monthly_credits :
      Datetime → List W → List W → Result ExportError (Credited W)
  unfolding accumulate_hours nothing_credited
  accumulate_monthly_credits dt hourly_export_kwh rate_for_hour =
      accumulate_hours hourly_export_kwh rate_for_hour (tmy_hour_calendar dt) nothing_credited

  unfoldable pub apply_nem_three_nbt :
      Datetime → List W → List W → Result ExportError (ExportCreditResult W)
  unfolding accumulate_monthly_credits
  apply_nem_three_nbt dt hourly_export_kwh hourly_avoided_cost_per_kwh = do
    _ ← validate_hourly hourly_export_kwh
    _ ← validate_hourly hourly_avoided_cost_per_kwh
    m ← accumulate_monthly_credits dt hourly_export_kwh hourly_avoided_cost_per_kwh
    ok (result_of nem_three_nbt m)

  unfoldable pub apply_seg_flat : Datetime → List W → W → Result ExportError (ExportCreditResult W)
  unfolding accumulate_monthly_credits
  apply_seg_flat dt hourly_export_kwh rate_per_kwh = do
    _ ← validate_hourly hourly_export_kwh
    elim (f.lt rate_per_kwh f.nought) [
      | true ↦ err negative_rate
      | false ↦ do
        m ← accumulate_monthly_credits dt hourly_export_kwh (repeated hours_per_tmy rate_per_kwh)
        ok (result_of seg_flat m)
    ]

  unfoldable pub apply_seg_tou :
      Datetime → List W → List W → Result ExportError (ExportCreditResult W)
  unfolding accumulate_monthly_credits
  apply_seg_tou dt hourly_export_kwh hourly_rate_per_kwh = do
    _ ← validate_hourly hourly_export_kwh
    _ ← validate_hourly hourly_rate_per_kwh
    m ← accumulate_monthly_credits dt hourly_export_kwh hourly_rate_per_kwh
    ok (result_of seg_tou m)

  unfoldable pub resolve_nem_one_rate : TariffSchedule W → ℕ → Cell → Result ExportError W
  unfolding first_matching_tou_period
  resolve_nem_one_rate tariff hour_index c = elim tariff.structure [
    | flat ↦ ok (or_else tariff.flat_rate_per_kwh f.nought)
    | tou ↦ elim tariff.tou_periods [
      | none ↦ err (tariff_error periods_required)
      | some [] ↦ err (tariff_error periods_required)
      | some (p ∷ periods) ↦ do
        matched ← of_tariff (first_matching_tou_period (p ∷ periods) c)
        elim matched [
          | none ↦ err (tariff_error (no_period hour_index c))
          | some q ↦ ok q.rate_per_kwh
        ]
    ]
    | tiered ↦ err tiered_needs_netting
  ]

  -- an hour's rate: from the cache, where there is one
  unfoldable pub nem_rate : TariffSchedule W → Option (Rates W) → ℕ → Cell → Result ExportError W
  unfolding resolve_nem_one_rate
  nem_rate tariff none i c = resolve_nem_one_rate tariff i c
  nem_rate tariff (some cache) i c = elim (rate_at cache c) [
    | none ↦ err (tariff_error (no_period i c))
    | some rate ↦ ok rate
  ]

  -- the loop of `apply_nem_one_for_one`
  unfoldable pub nem_hours :
      (ℕ → Cell → Result ExportError W)
      → ℕ
      → List W
      → List Cell
      → Credited W
      → Result ExportError (Credited W)
  nem_hours rate_for i [] cells m = ok m
  nem_hours rate_for i (x ∷ exports) [] m =
      let rest = nem_hours rate_for (i + 1) exports [] m in
      if is_zero (max_of f.nought x) then rest else err out_of_range
  nem_hours rate_for i (x ∷ exports) (c ∷ cells) m =
      let kwh = max_of f.nought x in
      elim (is_zero kwh) [
        | true ↦ nem_hours rate_for (i + 1) exports cells m
        | false ↦ elim (rate_for i c) [
          | err e ↦ err e
          | ok rate ↦ nem_hours rate_for (i + 1) exports cells (credit_hour c kwh rate m)
        ]
      ]
