-- ===== src/Battery.antt =====
-- backend/engine/steps/battery_dispatch.py: the battery, hour by hour, and `BatteryInputs` of
-- backend/engine/inputs.py. `math.isclose` is a parameter.
pub mod Mask
pub mod Hours
pub mod Dispatch
mod Tests
use chart_solar.Prelude.{
  ℕ, Bool, true, false, not, Option, none, some, List, [], ◌∷◌, map, length, Result, ok, err, ◌>>=◌,
  ◌==◌, if◌then◌else◌,
}
use chart_solar.Number.{Float, ◌⊕◌, ◌⊖◌, ◌⊗◌, ◌⊘◌, min_of, max_of}
use chart_solar.Number.Monthly.{repeated}
use chart_solar.Calendar.{Datetime, hours_per_tmy, tmy_hour_calendar}
use chart_solar.Tariff.{
  TariffError, assertion_error, index_error, bad_length, TouPeriod, Cell, cell_eq,
  first_matching_tou_period,
}
use chart_solar.Tariff.Schedule.{TariffSchedule, is_missing}

pub data DispatchStrategy : Type 0 where
  self_consumption tou_arbitrage : DispatchStrategy

pub record BatteryInputs (W : Type 0) : Type 0 where
  pub capacity_kwh : W
  pub usable_pct : W
  pub round_trip_efficiency : W
  pub max_charge_kw : W
  pub max_discharge_kw : W
  pub reserve_pct : W
  pub strategy : DispatchStrategy

-- what the loop reads of the battery
pub record Limits (W : Type 0) : Type 0 where
  pub usable_capacity : W
  pub floor_kwh : W
  pub discharge_efficiency : W
  pub max_charge : W
  pub max_discharge : W

-- what an hour charges and discharges, and the part of the charge from the grid
pub record Flow (W : Type 0) : Type 0 where
  pub charge : W
  pub discharge : W
  pub grid_charge : W

-- one entry of each of the five series
pub record Hour (W : Type 0) : Type 0 where
  pub charge : W
  pub discharge : W
  pub soc : W
  pub grid_import : W
  pub grid_export : W

pub record BatteryDispatchResult (W : Type 0) : Type 0 where
  pub strategy : DispatchStrategy
  pub hourly_charge_kwh : List W
  pub hourly_discharge_kwh : List W
  pub hourly_soc_kwh : List W
  pub hourly_grid_import_kwh : List W
  pub hourly_grid_export_kwh : List W

unfoldable pub resolve_strategy :
    {W : Type 0} → DispatchStrategy → Option (TariffSchedule W) → DispatchStrategy
resolve_strategy self_consumption tariff = self_consumption
resolve_strategy tou_arbitrage none = self_consumption
resolve_strategy tou_arbitrage (some t) =
    if is_missing t.tou_periods then self_consumption else tou_arbitrage

-- a cell's entry of the dict
abbrev pub cached : List (Cell × Bool) → Cell → Option Bool
cached [] c = none
cached ((d, b) ∷ rest) c = let later = cached rest c in if cell_eq d c then some b else later

module _ {W : Type 0} ⦃f : Float W⦄ where
  abbrev pub net_import : W → W
  net_import net_load = max_of f.nought net_load

  abbrev pub net_export : W → W
  net_export net_load = max_of f.nought (f.neg net_load)

  abbrev pub solar_charge : Limits W → W → W → W
  solar_charge l soc exported = min_of (min_of exported l.max_charge) (l.usable_capacity ⊖ soc)

  abbrev pub load_discharge : Limits W → W → W → W
  load_discharge l soc imported =
      min_of (min_of imported l.max_discharge)
        (max_of f.nought (soc ⊖ l.floor_kwh) ⊗ l.discharge_efficiency)

  unfoldable pub self_flow : Limits W → W → W → Flow W
  self_flow l soc net_load = record {
    charge =
        if f.lt f.nought (net_export net_load)
        then solar_charge l soc (net_export net_load)
        else f.nought;
    discharge =
        if f.lt f.nought (net_import net_load)
        then load_discharge l soc (net_import net_load)
        else f.nought;
    grid_charge = f.nought;
  }

  unfoldable pub tou_flow : Limits W → Bool → W → W → Flow W
  tou_flow l on_peak soc net_load =
      let from_grid = min_of l.max_charge (l.usable_capacity ⊖ soc) in
      if not on_peak
      then if f.lt f.nought (net_export net_load)
        then record {
          charge = solar_charge l soc (net_export net_load);
          discharge = f.nought;
          grid_charge = f.nought;
        }
        else record { charge = from_grid; discharge = f.nought; grid_charge = from_grid }
      else if f.lt f.nought (net_import net_load)
      then record {
        charge = f.nought;
        discharge = load_discharge l soc (net_import net_load);
        grid_charge = f.nought;
      }
      else record { charge = f.nought; discharge = f.nought; grid_charge = f.nought }

  unfoldable pub next_soc : Limits W → W → Flow W → W
  next_soc l soc y =
      let charged = soc ⊕ y.charge in
      let moved =
        if f.lt f.nought y.discharge
        then charged ⊖ y.discharge ⊘ l.discharge_efficiency
        else charged in
      if f.lt moved l.floor_kwh
      then l.floor_kwh
      else if f.lt l.usable_capacity moved
      then l.usable_capacity
      else moved

  unfoldable pub settle : Limits W → W → W → Flow W → Hour W
  unfolding next_soc
  settle l soc net_load y = record {
    charge = y.charge;
    discharge = y.discharge;
    soc = next_soc l soc y;
    grid_import = max_of f.nought (net_import net_load ⊖ y.discharge ⊕ y.grid_charge);
    grid_export =
        max_of f.nought
          (net_export net_load ⊖ min_of (y.charge ⊖ y.grid_charge) (net_export net_load));
  }

  -- the loop, with what is left of the peak mask
  unfoldable pub dispatch_hours :
      Limits W → DispatchStrategy → List Bool → W → List W → Result TariffError (List (Hour W))
  unfolding self_flow tou_flow settle
  dispatch_hours l strategy peaks soc [] = ok []
  dispatch_hours l self_consumption peaks soc (net_load ∷ loads) = do
    let hour = settle l soc net_load (self_flow l soc net_load)
    rest ← dispatch_hours l self_consumption peaks hour.soc loads
    ok (hour ∷ rest)
  dispatch_hours l tou_arbitrage [] soc (net_load ∷ loads) = err index_error
  dispatch_hours l tou_arbitrage (on_peak ∷ peaks) soc (net_load ∷ loads) = do
    let hour = settle l soc net_load (tou_flow l on_peak soc net_load)
    rest ← dispatch_hours l tou_arbitrage peaks hour.soc loads
    ok (hour ∷ rest)

  -- `max` of the rates, which keeps the first of equal ones
  abbrev pub peak_rate : W → List (TouPeriod W) → W
  peak_rate highest [] = highest
  peak_rate highest (p ∷ periods) = peak_rate (max_of highest p.rate_per_kwh) periods

  -- whether an hour of the cell is at the peak rate
  unfoldable pub on_peak_at :
      (W → W → Bool) → W → List (TouPeriod W) → Cell → Result TariffError Bool
  on_peak_at is_close peak periods c = do
    match ← first_matching_tou_period periods c
    ok (elim match [ none ↦ false | some p ↦ is_close p.rate_per_kwh peak ])

  -- the loop of `_build_peak_mask`
  unfoldable pub mask_cells :
      (W → W → Bool)
      → W
      → List (TouPeriod W)
      → List (Cell × Bool)
      → List Cell
      → Result TariffError (List Bool)
  unfolding on_peak_at
  mask_cells is_close peak periods cell_cache [] = ok []
  mask_cells is_close peak periods cell_cache (c ∷ cells) = elim (cached cell_cache c) [
    | some b ↦ do rest ← mask_cells is_close peak periods cell_cache cells; ok (b ∷ rest)
    | none ↦ do
      b ← on_peak_at is_close peak periods c
      rest ← mask_cells is_close peak periods ((c, b) ∷ cell_cache) cells
      ok (b ∷ rest)
  ]

  unfoldable pub build_peak_mask :
      (W → W → Bool) → Datetime → List (TouPeriod W) → Result TariffError (List Bool)
  unfolding mask_cells
  build_peak_mask is_close dt [] = ok (repeated hours_per_tmy false)
  build_peak_mask is_close dt (p ∷ periods) =
      let peak = peak_rate p.rate_per_kwh periods in
      if is_close peak f.nought
      then ok (repeated hours_per_tmy false)
      else mask_cells is_close peak (p ∷ periods) [] (tmy_hour_calendar dt)

  -- the mask that the loop reads, which self-consumption does not
  unfoldable pub peak_mask :
      (W → W → Bool)
      → Datetime
      → DispatchStrategy
      → Option (TariffSchedule W)
      → Result TariffError (List Bool)
  unfolding build_peak_mask
  peak_mask is_close dt self_consumption tariff = ok []
  peak_mask is_close dt tou_arbitrage none = err assertion_error
  peak_mask is_close dt tou_arbitrage (some t) = elim t.tou_periods [
    | none ↦ err assertion_error
    | some periods ↦ build_peak_mask is_close dt periods
  ]

  abbrev pub limits_of : BatteryInputs W → Limits W
  limits_of b = record {
    usable_capacity = b.capacity_kwh ⊗ b.usable_pct;
    floor_kwh = b.capacity_kwh ⊗ b.usable_pct ⊗ b.reserve_pct;
    discharge_efficiency = b.round_trip_efficiency;
    max_charge = b.max_charge_kw;
    max_discharge = b.max_discharge_kw;
  }

  abbrev pub series_of : DispatchStrategy → List (Hour W) → BatteryDispatchResult W
  series_of strategy hours = record {
    strategy = strategy;
    hourly_charge_kwh = map (λ h. h.charge) hours;
    hourly_discharge_kwh = map (λ h. h.discharge) hours;
    hourly_soc_kwh = map (λ h. h.soc) hours;
    hourly_grid_import_kwh = map (λ h. h.grid_import) hours;
    hourly_grid_export_kwh = map (λ h. h.grid_export) hours;
  }

  unfoldable pub dispatch_battery :
      (W → W → Bool)
      → Datetime
      → BatteryInputs W
      → List W
      → Option (TariffSchedule W)
      → Result TariffError (BatteryDispatchResult W)
  unfolding resolve_strategy peak_mask dispatch_hours
  dispatch_battery is_close dt battery hourly_net_load_kwh tariff =
      if not (length hourly_net_load_kwh == hours_per_tmy) then err bad_length else do
        let strategy = resolve_strategy battery.strategy tariff
        let l = limits_of battery
        is_peak_per_hour ← peak_mask is_close dt strategy tariff
        hours ← dispatch_hours l strategy is_peak_per_hour l.floor_kwh hourly_net_load_kwh
        ok (series_of strategy hours)
