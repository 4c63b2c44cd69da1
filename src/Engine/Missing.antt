-- ===== src/Engine/Missing.antt =====
-- A forecast without its production step.
use chart_solar.Prelude.{
  ◌≡◌, refl, ◌∙◌, ◌⊎◌, inl, inr, Bool, true, false, Option, none, some, List, [], ◌∷◌, ok, err,
  Bool-cases, Option-cases,
}
use chart_solar.Number.{Float}
use chart_solar.Tariff.Schedule.{TariffSchedule}
use chart_solar.Engine.{
  StepKey, irradiance, consumption, dc_production, snow, degradation, battery_dispatch, tariff,
  export_credit, finance, StepRegistration, steps_for, registered, PipelineError, key_error,
  ForecastInputs, Artifacts, Calls, net_load, production_kw, adapter, run_steps, initial,
  run_forecast, engine_step_order,
}

module _ {W F S M T D R E : Type 0} ⦃f : Float W⦄ (calls : Calls W F S M T D R E)
    (q : ForecastInputs W S M) (keys : StepKey → Bool) (fns : StepKey → Option F) where
  -- nothing that the net load could be read from
  record IsDark (st : Artifacts W T D R) : Type 0 where
    no_dc : st.dc ≡ none
    no_snow : st.snow_loss ≡ none
    no_battery : st.dispatch ≡ none

  step_off :
      (key : StepKey) (rest : List StepKey) (st : Artifacts W T D R)
      → keys key ≡ false
      → run_steps calls q keys fns (key ∷ rest) st ≡ run_steps calls q keys fns rest st
  unfolding run_steps
  step_off key rest st h = rw (run_steps, h) refl

  step_missing :
      (key : StepKey) (rest : List StepKey) (st : Artifacts W T D R)
      → keys key ≡ true
      → fns key ≡ none
      → run_steps calls q keys fns (key ∷ rest) st ≡ run_steps calls q keys fns rest st
  unfolding run_steps
  step_missing key rest st h e = rw (run_steps, h, e) refl

  step_fails :
      (key : StepKey) (rest : List StepKey) (st : Artifacts W T D R) (fn : F) (e : PipelineError E)
      → keys key ≡ true
      → fns key ≡ some fn
      → adapter calls key q fn st ≡ err e
      → run_steps calls q keys fns (key ∷ rest) st ≡ err e
  unfolding run_steps
  step_fails key rest st fn e h k failed = rw (run_steps, h, k, failed) refl

  -- a step that leaves the artifacts, or fails as what follows does
  step_or_fails :
      (key : StepKey) (rest : List StepKey) (st : Artifacts W T D R) (e : PipelineError E)
      → ((fn : F) → (adapter calls key q fn st ≡ err e) ⊎ (adapter calls key q fn st ≡ ok st))
      → run_steps calls q keys fns rest st ≡ err e
      → run_steps calls q keys fns (key ∷ rest) st ≡ err e
  unfolding run_steps
  step_or_fails key rest st e h later = elim (Bool-cases (keys key)) [
    | inr skip ↦ step_off key rest st skip ∙ later
    | inl wanted ↦ elim (Option-cases (fns key)) [
      | inl missing ↦ step_missing key rest st wanted missing ∙ later
      | inr (fn, found) ↦ elim (h fn) [
        | inl failed ↦ step_fails key rest st fn e wanted found failed
        | inr same ↦ rw (run_steps, wanted, found, same) later
      ]
    ]
  ]

  dark_load :
      (st : Artifacts W T D R) → IsDark st → net_load calls st ≡ err (key_error dc_production)
  unfolding net_load production_kw
  dark_load st h = rw (h.no_battery, h.no_snow, h.no_dc) refl

  dark_tariff :
      (st : Artifacts W T D R) (schedule : TariffSchedule W) (fn : F)
      → IsDark st
      → q.schedule ≡ some schedule
      → adapter calls tariff q fn st ≡ err (key_error dc_production)
  unfolding adapter
  dark_tariff st schedule fn h given = rw (given, dark_load st h) refl

  dark_battery :
      (st : Artifacts W T D R) (fn : F)
      → IsDark st
      → (adapter calls battery_dispatch q fn st ≡ err (key_error dc_production))
        ⊎ (adapter calls battery_dispatch q fn st ≡ ok st)
  unfolding adapter
  dark_battery st fn h = elim (Option-cases q.battery) [
    | inl e ↦ inr (rw e refl)
    | inr (battery, e) ↦ inl (rw (e, dark_load st h) refl)
  ]

  dark_snow :
      (st : Artifacts W T D R) (fn : F)
      → IsDark st
      → adapter calls snow q fn st ≡ err (key_error dc_production)
  unfolding adapter
  dark_snow st fn h = rw h.no_dc refl

  nothing_done :
      (st : Artifacts W T D R) (fn : F)
      → (adapter calls irradiance q fn st ≡ ok st) × (adapter calls consumption q fn st ≡ ok st)
  unfolding adapter
  nothing_done st fn = (refl, refl)

  dark_run :
      (st : Artifacts W T D R) (schedule : TariffSchedule W) (fn : F)
      → IsDark st
      → q.schedule ≡ some schedule
      → keys dc_production ≡ false
      → keys degradation ≡ false
      → keys tariff ≡ true
      → fns tariff ≡ some fn
      → run_steps calls q keys fns engine_step_order st ≡ err (key_error dc_production)
  dark_run st schedule fn h given no_dc no_degradation wanted found =
      let e = key_error dc_production in
      let billed = tariff ∷ export_credit ∷ finance ∷ [] in
      let stored = battery_dispatch ∷ billed in
      let aged = degradation ∷ stored in
      let melted = snow ∷ aged in
      let made = dc_production ∷ melted in
      let at_tariff =
        step_fails tariff (export_credit ∷ finance ∷ []) st fn e wanted found
          (dark_tariff st schedule fn h given) in
      let at_battery =
        step_or_fails battery_dispatch billed st e (λ g. dark_battery st g h) at_tariff in
      let at_snow =
        step_or_fails snow aged st e (λ g. inl (dark_snow st g h))
          (step_off degradation stored st no_degradation ∙ at_battery) in
      let at_dc = step_off dc_production melted st no_dc ∙ at_snow in
      step_or_fails irradiance (consumption ∷ made) st e (λ g. inr (nothing_done st g).0)
        (step_or_fails consumption made st e (λ g. inr (nothing_done st g).1) at_dc)

module _ {W F S M T D R E : Type 0} ⦃f : Float W⦄ (calls : Calls W F S M T D R E)
    (q : ForecastInputs W S M) where
  -- Where the production and the degradation are not requested, a forecast that is asked for a bill
  -- under a schedule, with the step of the tariff registered, raises a `KeyError`, whatever else is
  -- requested and registered.
  pub bill_needs_production :
      (steps : List (StepRegistration F)) (weather : T) (keys : StepKey → Bool)
      (schedule : TariffSchedule W) (fn : F)
      → q.schedule ≡ some schedule
      → keys dc_production ≡ false
      → keys degradation ≡ false
      → keys tariff ≡ true
      → registered (steps_for keys steps) tariff ≡ some fn
      → run_forecast calls steps q weather (some keys) ≡ err (key_error dc_production)
  unfolding run_forecast initial
  bill_needs_production steps weather keys schedule fn given no_dc no_degradation wanted found =
      dark_run calls q keys (registered (steps_for keys steps)) (initial calls q weather) schedule
        fn (record { no_dc = refl; no_snow = refl; no_battery = refl }) given no_dc no_degradation
        wanted found
