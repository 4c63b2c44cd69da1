-- ===== src/Engine/Billed.antt =====
-- What a forecast bills: the streams of the battery, where there is one.
use chart_solar.Prelude.{
  ◌≡◌, refl, sym, ap, ◌∙◌, inl, inr, Bool, true, false, Option, none, some, List, [], ◌∷◌, ◌++◌,
  Result, ok, err, ◌>>=◌, arith, Bool-cases, Option-cases, Result-cases,
}
use chart_solar.Number.{Float}
use chart_solar.Tariff.Schedule.{TariffSchedule}
use chart_solar.Tariff.Billing.{AnnualBill}
use chart_solar.Battery.{BatteryDispatchResult}
use chart_solar.Engine.{
  StepKey, irradiance, consumption, dc_production, snow, degradation, battery_dispatch, tariff,
  export_credit, finance, StepRegistration, steps_for, registered, PipelineError, raised,
  ForecastInputs, Artifacts, Calls, differences, net_load, adapter, run_steps, initial,
  run_forecast,
}
use chart_solar.Engine.Order.{Keeps, Ignores, run_steps-Keeps}

module _ {W F S M T D R E : Type 0} ⦃f : Float W⦄ (calls : Calls W F S M T D R E)
    (q : ForecastInputs W S M) where
  abbrev before_tariff : List StepKey
  before_tariff =
      irradiance ∷ consumption ∷ dc_production ∷ snow ∷ degradation ∷ battery_dispatch ∷ []

  abbrev after_tariff : List StepKey
  after_tariff = export_credit ∷ finance ∷ []

  -- the loop over two lists of steps
  run_steps-append :
      (requested : StepKey → Bool) (fns : StepKey → Option F) (xs ys : List StepKey)
      (st : Artifacts W T D R)
      → run_steps calls q requested fns (xs ++ ys) st
        ≡ (run_steps calls q requested fns xs st >>= λ st'. run_steps calls q requested fns ys st')
  unfolding run_steps
  run_steps-append requested fns [] ys st = refl
  run_steps-append requested fns (key ∷ xs) ys st = elim (Bool-cases (requested key)) [
    | inr skip ↦ rw (run_steps, skip) (run_steps-append requested fns xs ys st)
    | inl wanted ↦ elim (Option-cases (fns key)) [
      | inl e ↦ rw (run_steps, wanted, e) (run_steps-append requested fns xs ys st)
      | inr (fn, e) ↦ elim (Result-cases (adapter calls key q fn st)) [
        | inr (failure, failed) ↦ rw (run_steps, wanted, e, failed) refl
        | inl (st', done) ↦
            rw (run_steps, wanted, e, done) (run_steps-append requested fns xs ys st')
      ]
    ]
  ]

  -- the bill is that of the battery's streams, under the schedule
  abbrev pub IsBilledOn : BatteryDispatchResult W → AnnualBill W → Type 0
  IsBilledOn b bill =
      (fn : F) × (loads : List W) × (schedule : TariffSchedule W) × (q.schedule ≡ some schedule)
      × (differences {E = E} b.hourly_grid_import_kwh b.hourly_grid_export_kwh ≡ ok loads)
      × (calls.call_tariff fn loads schedule ≡ ok bill)

  some_injective : {A : Type 0} {a b : A} → ◌≡◌ {A = Option A} (some a) (some b) → a ≡ b
  some_injective {A} {a} h = ap (λ o. elim o [ some x ↦ x | none ↦ a ]) h

  ok_injective : {G A : Type 0} {a b : A} → ◌≡◌ {A = Result G A} (ok a) (ok b) → a ≡ b
  ok_injective {G} {A} {a} h = ap (λ r. elim r [ ok x ↦ x | err _ ↦ a ]) h

  -- no step but the tariff writes the bill, and none but the battery its streams
  bill_kept :
      (requested : StepKey → Bool) (fns : StepKey → Option F) (st : Artifacts W T D R)
      → Keeps (λ z. z.bill) st (run_steps calls q requested fns before_tariff st)
  unfolding Ignores
  bill_kept requested fns st =
      run_steps-Keeps calls q (λ z. z.bill) requested fns before_tariff st
        (tt, (tt, (λ z v. refl, (λ z v. refl, (λ z v. refl, (λ z v. refl, tt))))))

  bill_kept_after :
      (requested : StepKey → Bool) (fns : StepKey → Option F) (st : Artifacts W T D R)
      → Keeps (λ z. z.bill) st (run_steps calls q requested fns after_tariff st)
  unfolding Ignores
  bill_kept_after requested fns st =
      run_steps-Keeps calls q (λ z. z.bill) requested fns after_tariff st
        (λ z v. refl, (λ z v. refl, tt))

  streams_kept :
      (requested : StepKey → Bool) (fns : StepKey → Option F) (st : Artifacts W T D R)
      → Keeps (λ z. z.dispatch) st (run_steps calls q requested fns (tariff ∷ after_tariff) st)
  unfolding Ignores
  streams_kept requested fns st =
      run_steps-Keeps calls q (λ z. z.dispatch) requested fns (tariff ∷ after_tariff) st
        (λ z v. refl, (λ z v. refl, (λ z v. refl, tt)))

  adapter-tariff :
      (fn : F) (st st' : Artifacts W T D R) (b : BatteryDispatchResult W) (bill : AnnualBill W)
      → st.bill ≡ none
      → st.dispatch ≡ some b
      → adapter calls tariff q fn st ≡ ok st'
      → st'.bill ≡ some bill
      → IsBilledOn b bill
  unfolding adapter net_load
  adapter-tariff fn st st' b bill unbilled dispatched h billed = elim (Option-cases q.schedule) [
    | inl e ↦
        let same : adapter calls tariff q fn st ≡ ok st = rw e refl in
        absurd
          (ground (arith, sym unbilled ∙ ap (λ z. z.bill) (ok_injective (sym same ∙ h)) ∙ billed))
    | inr (schedule, e) ↦
        elim (Result-cases
          (differences {E = E} b.hourly_grid_import_kwh b.hourly_grid_export_kwh)) [
            | inr (failure, failed) ↦
                let same : adapter calls tariff q fn st ≡ err failure =
                  rw (e, dispatched, failed) refl in
                absurd (ground (arith, sym same ∙ h))
            | inl (loads, netted) ↦ elim (Result-cases (calls.call_tariff fn loads schedule)) [
              | inr (failure, failed) ↦
                  let same : adapter calls tariff q fn st ≡ err (raised failure) =
                    rw (e, dispatched, netted, failed) refl in
                  absurd (ground (arith, sym same ∙ h))
              | inl (charged, called_ok) ↦
                  let same : adapter calls tariff q fn st ≡ ok (record st { bill = some charged }) =
                    rw (e, dispatched, netted, called_ok) refl in
                  let paid = ap (λ z. z.bill) (ok_injective (sym same ∙ h)) ∙ billed in
                  (fn, loads, schedule, e, netted, called_ok ∙ ap ok (some_injective paid))
            ]
          ]
  ]

  -- the bill of a run from the tariff on
  billed_from_tariff :
      (requested : StepKey → Bool) (fns : StepKey → Option F) (st st' : Artifacts W T D R)
      (b : BatteryDispatchResult W) (bill : AnnualBill W)
      → st.bill ≡ none
      → run_steps calls q requested fns (tariff ∷ after_tariff) st ≡ ok st'
      → st'.dispatch ≡ some b
      → st'.bill ≡ some bill
      → IsBilledOn b bill
  unfolding run_steps
  billed_from_tariff requested fns st st' b bill unbilled h dispatched billed =
      let streams = sym (streams_kept requested fns st st' h) ∙ dispatched in
      let skipped : run_steps calls q requested fns after_tariff st ≡ ok st' → ⊥ =
        λ e. ground (arith, sym unbilled ∙ sym (bill_kept_after requested fns st st' e) ∙ billed) in
      elim (Bool-cases (requested tariff)) [
        | inr unwanted ↦ absurd (skipped (sym (step_unwanted requested fns st unwanted) ∙ h))
        | inl wanted ↦ elim (Option-cases (fns tariff)) [
          | inl e ↦ absurd (skipped (sym (step_missing requested fns st wanted e) ∙ h))
          | inr (fn, e) ↦ elim (Result-cases (adapter calls tariff q fn st)) [
            | inr (failure, failed) ↦
                absurd (
                  ground (arith, sym (step_failed requested fns st fn failure wanted e failed) ∙ h))
            | inl (st'', done) ↦ adapter-tariff fn st st'' b bill unbilled streams done (
                sym (
                  bill_kept_after requested fns st'' st'
                    (sym (step_done requested fns st st'' fn wanted e done) ∙ h))
                ∙ billed)
          ]
        ]
      ]
    where
      step_unwanted :
          (requested : StepKey → Bool) (fns : StepKey → Option F) (st : Artifacts W T D R)
          → requested tariff ≡ false
          → run_steps calls q requested fns (tariff ∷ after_tariff) st
            ≡ run_steps calls q requested fns after_tariff st
      step_unwanted requested fns st h = rw (run_steps, h) refl

      step_missing :
          (requested : StepKey → Bool) (fns : StepKey → Option F) (st : Artifacts W T D R)
          → requested tariff ≡ true
          → fns tariff ≡ none
          → run_steps calls q requested fns (tariff ∷ after_tariff) st
            ≡ run_steps calls q requested fns after_tariff st
      step_missing requested fns st h e = rw (run_steps, h, e) refl

      step_failed :
          (requested : StepKey → Bool) (fns : StepKey → Option F) (st : Artifacts W T D R) (fn : F)
          (failure : PipelineError E)
          → requested tariff ≡ true
          → fns tariff ≡ some fn
          → adapter calls tariff q fn st ≡ err failure
          → run_steps calls q requested fns (tariff ∷ after_tariff) st ≡ err failure
      step_failed requested fns st fn failure h e k = rw (run_steps, h, e, k) refl

      step_done :
          (requested : StepKey → Bool) (fns : StepKey → Option F) (st st' : Artifacts W T D R)
          (fn : F)
          → requested tariff ≡ true
          → fns tariff ≡ some fn
          → adapter calls tariff q fn st ≡ ok st'
          → run_steps calls q requested fns (tariff ∷ after_tariff) st
            ≡ run_steps calls q requested fns after_tariff st'
      step_done requested fns st st' fn h e k = rw (run_steps, h, e, k) refl

  -- In a forecast that succeeds, whichever steps were requested and registered, a bill beside a
  -- battery is that of the battery's streams, import less export hour by hour, under the schedule.
  pub billed_after_battery :
      (steps : List (StepRegistration F)) (weather : T) (feature_keys : Option (StepKey → Bool))
      (st : Artifacts W T D R) (b : BatteryDispatchResult W) (bill : AnnualBill W)
      → run_forecast calls steps q weather feature_keys ≡ ok st
      → st.dispatch ≡ some b
      → st.bill ≡ some bill
      → IsBilledOn b bill
  unfolding run_forecast initial
  billed_after_battery steps weather feature_keys st b bill h dispatched billed =
      let requested : StepKey → Bool = elim feature_keys [ none ↦ λ _. true | some keys ↦ keys ] in
      let fns = registered (steps_for requested steps) in
      let start = initial calls q weather in
      let whole =
        sym (run_steps-append requested fns before_tariff (tariff ∷ after_tariff) start) ∙ h in
      let later : Artifacts W T D R → Result (PipelineError E) (Artifacts W T D R) =
        λ z. run_steps calls q requested fns (tariff ∷ after_tariff) z in
      elim (Result-cases (run_steps calls q requested fns before_tariff start)) [
        | inr (failure, failed) ↦
            absurd (ground (arith, sym (ap (λ r. r >>= later) failed) ∙ whole))
        | inl (st', done) ↦
            billed_from_tariff requested fns st' st b bill (bill_kept requested fns start st' done)
              (sym (ap (λ r. r >>= later) done) ∙ whole) dispatched billed
      ]
