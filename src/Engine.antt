-- ===== src/Engine.antt =====
-- backend/engine/pipeline.py and backend/engine/registry.py: the steps of a forecast, in their
-- order, over the artifacts. A step's function is of any type `F`; how an adapter calls it, and what
-- a step without a model here returns, are parameters.
pub mod Order
pub mod Billed
pub mod Missing
mod Tests
use chart_solar.Prelude.{
  ℕ, Bool, true, false, not, Option, none, some, List, [], ◌∷◌, map, filter, Result, ok, err, ◌>>=◌,
  ◌==◌, if◌then◌else◌,
}
use chart_solar.Number.{Float, ◌⊖◌, ◌⊘◌, max_of}
use chart_solar.Number.Monthly.{repeated}
use chart_solar.Calendar.{hours_per_tmy}
use chart_solar.Tariff.Schedule.{TariffSchedule}
use chart_solar.Tariff.Billing.{AnnualBill}
use chart_solar.Export.{ExportCreditResult}
use chart_solar.Export.Nem.{ExportCreditConfig}
use chart_solar.Battery.{BatteryInputs, BatteryDispatchResult}

pub data StepKey : Type 0 where
  irradiance consumption dc_production snow degradation battery_dispatch tariff export_credit
        finance :
      StepKey

-- the place of a key in the order
abbrev pub key_index : StepKey → ℕ
key_index irradiance = 0
key_index consumption = 1
key_index dc_production = 2
key_index snow = 3
key_index degradation = 4
key_index battery_dispatch = 5
key_index tariff = 6
key_index export_credit = 7
key_index finance = 8

abbrev pub key_eq : StepKey → StepKey → Bool
key_eq a b = key_index a == key_index b

abbrev pub engine_step_order : List StepKey
engine_step_order =
    irradiance ∷ consumption ∷ dc_production ∷ snow ∷ degradation ∷ battery_dispatch ∷ tariff
    ∷ export_credit ∷ finance ∷ []

-- a missing artifact, series of two lengths, or what a step raised
pub data PipelineError (E : Type 0) : Type 0 where
  key_error : StepKey → PipelineError E
  unequal_lengths : PipelineError E
  raised : E → PipelineError E

pub record StepRegistration (F : Type 0) : Type 0 where
  pub feature_key : StepKey
  pub fn : F

abbrev pub register {ℓ} : {A : Type ℓ} → A → List A → List A
register new [] = new ∷ []
register new (s ∷ steps) = s ∷ register new steps

-- `feature_keys` as the test of a key
abbrev pub steps_for :
    {F : Type 0} → (StepKey → Bool) → List (StepRegistration F) → List (StepRegistration F)
steps_for requested steps = filter (λ s. requested s.feature_key) steps

-- the dict of the registered steps, in which the last registration of a key counts
abbrev pub registered : {F : Type 0} → List (StepRegistration F) → StepKey → Option F
registered [] key = none
registered (s ∷ steps) key = elim (registered steps key) [
  | some fn ↦ some fn
  | none ↦ if key_eq s.feature_key key then some s.fn else none
]

pub record DcProductionResult (W : Type 0) : Type 0 where
  pub hourly_ac_kw : List W
  pub annual_ac_kwh : W

pub record SnowLossResult (W : Type 0) : Type 0 where
  pub adjusted_hourly_ac_kw : List W
  pub adjusted_annual_ac_kwh : W

pub record ConsumptionInputs (W : Type 0) : Type 0 where
  pub hourly_kwh : Option (List W)
  pub annual_kwh : Option W

-- what the pipeline reads of `ForecastInputs`; `S` is the system, `M` the money
pub record ForecastInputs (W S M : Type 0) : Type 0 where
  pub system : S
  pub financial : M
  pub hold_years : ℕ
  pub system_cost : Option W
  pub schedule : Option (TariffSchedule W)
  pub export_config : Option (ExportCreditConfig W)
  pub consumption_inputs : Option (ConsumptionInputs W)
  pub battery : Option (BatteryInputs W)

-- the artifacts by key; `T` is the weather, `D` the degradation, `R` the finance
pub record Artifacts (W T D R : Type 0) : Type 0 where
  pub tmy : T
  pub hourly_consumption : List W
  pub dc : Option (DcProductionResult W)
  pub snow_loss : Option (SnowLossResult W)
  pub degraded : Option D
  pub dispatch : Option (BatteryDispatchResult W)
  pub bill : Option (AnnualBill W)
  pub credit : Option (ExportCreditResult W)
  pub finances : Option R

-- the calls of the steps' functions, with the arguments that the adapters pass
pub record Calls (W F S M T D R E : Type 0) : Type 0 where
  pub call_dc_production : F → S → T → Result E (DcProductionResult W)
  pub call_snow : F → T → S → DcProductionResult W → Result E (Option (SnowLossResult W))
  pub call_degradation : F → ℕ → Result E D
  pub call_battery :
      F → BatteryInputs W → List W → Option (TariffSchedule W) → Result E (BatteryDispatchResult W)
  pub call_tariff : F → List W → TariffSchedule W → Result E (AnnualBill W)
  pub call_export_credit :
      F
      → ExportCreditConfig W
      → List W
      → Option (TariffSchedule W)
      → List W
      → Result E (ExportCreditResult W)
  pub call_finance :
      F
      → M
      → List W
      → DcProductionResult W
      → D
      → TariffSchedule W
      → Option (ExportCreditConfig W)
      → Result E R

abbrev pub called : {E A : Type 0} → Result E A → Result (PipelineError E) A
called (ok a) = ok a
called (err e) = err (raised e)

abbrev pub artifact : {E A : Type 0} → StepKey → Option A → Result (PipelineError E) A
artifact key none = err (key_error key)
artifact key (some a) = ok a

module _ {W : Type 0} ⦃f : Float W⦄ where
  unfoldable pub resolve_consumption : Option (ConsumptionInputs W) → List W
  resolve_consumption none = repeated hours_per_tmy f.nought
  resolve_consumption (some c) = elim c.hourly_kwh [
    | some hourly ↦ hourly
    | none ↦ elim c.annual_kwh [
      | some annual ↦ repeated hours_per_tmy (annual ⊘ f.of_nat hours_per_tmy)
      | none ↦ repeated hours_per_tmy f.nought
    ]
  ]

  -- `[x - y for x, y in zip(xs, ys, strict=True)]`
  unfoldable pub differences : {E : Type 0} → List W → List W → Result (PipelineError E) (List W)
  differences [] [] = ok []
  differences [] (y ∷ ys) = err unequal_lengths
  differences (x ∷ xs) [] = err unequal_lengths
  differences (x ∷ xs) (y ∷ ys) = do rest ← differences xs ys; ok ((x ⊖ y) ∷ rest)

-- the production that finance bills, after the snow
abbrev pub derated :
    {W : Type 0} → DcProductionResult W → Option (SnowLossResult W) → DcProductionResult W
derated dc none = dc
derated dc (some loss) = record dc {
  hourly_ac_kw = loss.adjusted_hourly_ac_kw;
  annual_ac_kwh = loss.adjusted_annual_ac_kwh;
}

abbrev pub note_snow :
    {W T D R : Type 0} → Artifacts W T D R → Option (SnowLossResult W) → Artifacts W T D R
note_snow st none = st
note_snow st (some loss) = record st { snow_loss = some loss }

module _ {W F S M T D R E : Type 0} ⦃f : Float W⦄ (calls : Calls W F S M T D R E) where
  unfoldable pub production_kw : Artifacts W T D R → Result (PipelineError E) (List W)
  production_kw st = elim st.snow_loss [
    | some loss ↦ ok loss.adjusted_hourly_ac_kw
    | none ↦ do dc ← artifact dc_production st.dc; ok dc.hourly_ac_kw
  ]

  unfoldable pub net_load : Artifacts W T D R → Result (PipelineError E) (List W)
  unfolding production_kw differences
  net_load st = elim st.dispatch [
    | some b ↦ differences b.hourly_grid_import_kwh b.hourly_grid_export_kwh
    | none ↦ do production ← production_kw st; differences st.hourly_consumption production
  ]

  -- The adapters, by key; the first two keys have none.
  unfoldable pub adapter :
      StepKey
      → ForecastInputs W S M
      → F
      → Artifacts W T D R
      → Result (PipelineError E) (Artifacts W T D R)
  unfolding net_load
  adapter irradiance q fn st = ok st
  adapter consumption q fn st = ok st
  adapter dc_production q fn st = do
    dc ← called (calls.call_dc_production fn q.system st.tmy)
    ok (record st { dc = some dc })
  adapter snow q fn st = do
    dc ← artifact dc_production st.dc
    result ← called (calls.call_snow fn st.tmy q.system dc)
    ok (note_snow st result)
  adapter degradation q fn st = do
    d ← called (calls.call_degradation fn q.hold_years)
    ok (record st { degraded = some d })
  adapter battery_dispatch q fn st = elim q.battery [
    | none ↦ ok st
    | some battery ↦ do
      loads ← net_load st
      b ← called (calls.call_battery fn battery loads q.schedule)
      ok (record st { dispatch = some b })
  ]
  adapter tariff q fn st = elim q.schedule [
    | none ↦ ok st
    | some schedule ↦ do
      loads ← net_load st
      bill ← called (calls.call_tariff fn loads schedule)
      ok (record st { bill = some bill })
  ]
  adapter export_credit q fn st = elim q.export_config [
    | none ↦ ok st
    | some config ↦ do
      loads ← net_load st
      let exports = map (λ nl. max_of f.nought (f.neg nl)) loads
      credit ← called (calls.call_export_credit fn config exports q.schedule loads)
      ok (record st { credit = some credit })
  ]
  adapter finance q fn st = elim q.system_cost [
    | none ↦ ok st
    | some cost ↦ elim q.schedule [
      | none ↦ ok st
      | some schedule ↦ elim st.dc [
        | none ↦ ok st
        | some dc ↦ elim st.degraded [
          | none ↦ ok st
          | some d ↦ do
            r ← called (
                calls.call_finance fn q.financial st.hourly_consumption (derated dc st.snow_loss) d
                  schedule q.export_config)
            ok (record st { finances = some r })
        ]
      ]
    ]
  ]

  -- the loop over the order
  unfoldable pub run_steps :
      ForecastInputs W S M
      → (StepKey → Bool)
      → (StepKey → Option F)
      → List StepKey
      → Artifacts W T D R
      → Result (PipelineError E) (Artifacts W T D R)
  unfolding adapter
  run_steps q requested fns [] st = ok st
  run_steps q requested fns (key ∷ keys) st = elim (requested key) [
    | false ↦ run_steps q requested fns keys st
    | true ↦ elim (fns key) [
      | none ↦ run_steps q requested fns keys st
      | some fn ↦ elim (adapter key q fn st) [
        | err e ↦ err e
        | ok st' ↦ run_steps q requested fns keys st'
      ]
    ]
  ]

  -- the artifacts before the steps
  unfoldable pub initial : ForecastInputs W S M → T → Artifacts W T D R
  unfolding resolve_consumption
  initial q weather = record {
    tmy = weather;
    hourly_consumption = resolve_consumption q.consumption_inputs;
    dc = none;
    snow_loss = none;
    degraded = none;
    dispatch = none;
    bill = none;
    credit = none;
    finances = none;
  }

  unfoldable pub run_forecast :
      List (StepRegistration F)
      → ForecastInputs W S M
      → T
      → Option (StepKey → Bool)
      → Result (PipelineError E) (Artifacts W T D R)
  unfolding run_steps initial
  run_forecast steps q weather feature_keys =
      let requested : StepKey → Bool = elim feature_keys [ none ↦ λ _. true | some keys ↦ keys ] in
      run_steps q requested (registered (steps_for requested steps)) engine_step_order
        (initial q weather)
