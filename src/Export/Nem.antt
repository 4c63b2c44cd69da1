-- ===== src/Export/Nem.antt =====
-- backend/engine/steps/export_credit.py: net metering at the retail rate, by the hour or by tiers,
-- and the dispatch of the regimes.
use chart_solar.Prelude.{Option, none, some, List, [], ◌∷◌, Result, ok, err, ◌>>=◌, if◌then◌else◌}
use chart_solar.Number.{Float, ◌⊖◌, min_of, max_of, sum}
use chart_solar.Number.Monthly.{repeated, add_at}
use chart_solar.Calendar.{Datetime, tmy_hour_calendar}
use chart_solar.Tariff.{Cell, Rates, build_tou_rate_cache, periods_required}
use chart_solar.Tariff.Schedule.{flat, tiered, tou, TieredBlock, TariffSchedule}
use chart_solar.Tariff.Tiers.{sort_tiered_blocks, walk_tier_charge}
use chart_solar.Tariff.Billing.{month_idx}
use chart_solar.Export.{
  ExportError, ExportCreditResult, of_tariff, out_of_range, not_tiered, tariff_error,
  tariff_required, net_load_required, nem_one_for_one, validate_hourly, result_of, nothing_credited,
  nem_rate, nem_hours, apply_nem_three_nbt, apply_seg_flat, apply_seg_tou,
}

-- the lists that the netting loop fills
pub record Flows (W : Type 0) : Type 0 where
  pub imports : List W
  pub exports : List W

-- The union of the regimes' configurations.
pub data ExportCreditConfig (W : Type 0) : Type 0 where
  nem_config : ExportCreditConfig W
  nbt_config : List W → ExportCreditConfig W
  seg_flat_config : W → ExportCreditConfig W
  seg_tou_config : List W → ExportCreditConfig W

module _ {W : Type 0} ⦃f : Float W⦄ where
  abbrev pub flow : Cell → W → Flows W → Flows W
  flow c net m =
      if f.lt f.nought net
      then record m { imports = add_at (month_idx c) net m.imports }
      else if f.lt net f.nought
      then record m { exports = add_at (month_idx c) (f.neg net) m.exports }
      else m

  unfoldable pub flow_hours : List W → List Cell → Flows W → Result ExportError (Flows W)
  flow_hours [] cells m = ok m
  flow_hours (net ∷ nets) [] m = err out_of_range
  flow_hours (net ∷ nets) (c ∷ cells) m = flow_hours nets cells (flow c net m)

  -- the charge that a month's exports save
  unfoldable pub month_credit : List (TieredBlock W) → W → W → W
  unfolding walk_tier_charge
  month_credit sorted_blocks imports exports =
      let netted = max_of f.nought (imports ⊖ exports) in
      walk_tier_charge imports sorted_blocks ⊖ walk_tier_charge netted sorted_blocks

  unfoldable pub month_credits : List (TieredBlock W) → List W → List W → List W
  unfolding month_credit
  month_credits sorted_blocks (imports ∷ is) (exports ∷ es) =
      month_credit sorted_blocks imports exports ∷ month_credits sorted_blocks is es
  month_credits sorted_blocks [] es = []
  month_credits sorted_blocks (imports ∷ is) [] = []

  unfoldable pub kwh_credited : List W → List W → List W
  kwh_credited (imports ∷ is) (exports ∷ es) = min_of exports imports ∷ kwh_credited is es
  kwh_credited [] es = []
  kwh_credited (imports ∷ is) [] = []

  unfoldable pub apply_nem_one_for_one_tiered :
      Datetime → List W → TariffSchedule W → Result ExportError (ExportCreditResult W)
  unfolding flow_hours month_credits kwh_credited sort_tiered_blocks
  apply_nem_one_for_one_tiered dt hourly_net_load_kwh tariff = do
    _ ← validate_hourly hourly_net_load_kwh
    elim tariff.structure [
      | flat ↦ err not_tiered
      | tou ↦ err not_tiered
      | tiered ↦ do
        sorted_blocks ← of_tariff (sort_tiered_blocks tariff)
        m ←
            flow_hours hourly_net_load_kwh (tmy_hour_calendar dt)
              (record { imports = repeated 12 f.nought; exports = repeated 12 f.nought })
        ok (record {
          regime = nem_one_for_one;
          monthly_credit = month_credits sorted_blocks m.imports m.exports;
          annual_credit = sum (month_credits sorted_blocks m.imports m.exports);
          annual_kwh_exported = sum (kwh_credited m.imports m.exports);
        })
    ]

  -- the cache that the loop reads, under a tariff by time of use
  unfoldable pub nem_cache : TariffSchedule W → Result ExportError (Option (Rates W))
  unfolding build_tou_rate_cache
  nem_cache tariff = elim tariff.structure [
    | flat ↦ ok none
    | tiered ↦ ok none
    | tou ↦ elim tariff.tou_periods [
      | none ↦ err (tariff_error periods_required)
      | some [] ↦ err (tariff_error periods_required)
      | some (p ∷ periods) ↦ do
        cache ← of_tariff (build_tou_rate_cache (p ∷ periods))
        ok (some cache)
    ]
  ]

  unfoldable pub apply_nem_by_hour :
      Datetime → List W → TariffSchedule W → Result ExportError (ExportCreditResult W)
  unfolding nem_cache nem_hours nothing_credited nem_rate
  apply_nem_by_hour dt hourly_export_kwh tariff = do
    rate_cache ← nem_cache tariff
    m ←
        nem_hours (nem_rate tariff rate_cache) 0 hourly_export_kwh (tmy_hour_calendar dt)
          nothing_credited
    ok (result_of nem_one_for_one m)

  unfoldable pub apply_nem_one_for_one :
      Datetime
      → List W
      → TariffSchedule W
      → Option (List W)
      → Result ExportError (ExportCreditResult W)
  unfolding apply_nem_by_hour apply_nem_one_for_one_tiered
  apply_nem_one_for_one dt hourly_export_kwh tariff hourly_net_load_kwh = do
    _ ← validate_hourly hourly_export_kwh
    elim tariff.structure [
      | flat ↦ apply_nem_by_hour dt hourly_export_kwh tariff
      | tou ↦ apply_nem_by_hour dt hourly_export_kwh tariff
      | tiered ↦ elim hourly_net_load_kwh [
        | none ↦ err net_load_required
        | some loads ↦ apply_nem_one_for_one_tiered dt loads tariff
      ]
    ]

  -- `config.apply`, by regime
  unfoldable pub apply_export_credit :
      Datetime
      → ExportCreditConfig W
      → List W
      → Option (TariffSchedule W)
      → Option (List W)
      → Result ExportError (ExportCreditResult W)
  unfolding apply_nem_one_for_one apply_nem_three_nbt apply_seg_flat apply_seg_tou
  apply_export_credit dt nem_config exports none loads = err tariff_required
  apply_export_credit dt nem_config exports (some tariff) loads =
      apply_nem_one_for_one dt exports tariff loads
  apply_export_credit dt (nbt_config avoided_cost) exports tariff loads =
      apply_nem_three_nbt dt exports avoided_cost
  apply_export_credit dt (seg_flat_config rate) exports tariff loads =
      apply_seg_flat dt exports rate
  apply_export_credit dt (seg_tou_config rates) exports tariff loads =
      apply_seg_tou dt exports rates
