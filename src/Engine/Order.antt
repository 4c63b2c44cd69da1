-- ===== src/Engine/Order.antt =====
-- backend/engine/pipeline.py: what the adapters leave alone.
use chart_solar.Prelude.{
  ◌≡◌, refl, sym, ap, ◌∙◌, inl, inr, Bool, Option, none, some, List, [], ◌∷◌, map, All, Result, ok,
  err, ◌>>=◌, arith, Bool-cases, Option-cases, Result-cases,
}
use chart_solar.Number.{Float, max_of}
use chart_solar.Tariff.Billing.{AnnualBill}
use chart_solar.Export.{ExportCreditResult}
use chart_solar.Battery.{BatteryDispatchResult}
use chart_solar.Engine.{
  DcProductionResult, SnowLossResult, StepKey, irradiance, consumption, dc_production, snow,
  degradation, battery_dispatch, tariff, export_credit, finance, ForecastInputs, Artifacts, Calls,
  called, artifact, net_load, adapter, run_steps, derated, note_snow,
}

-- Where the result is a value, it has the part `g` of `x`.
abbrev pub Keeps : {E A B : Type 0} → (A → B) → A → Result E A → Type 0
Keeps {E} {A} g x r = (y : A) → r ≡ ok y → g y ≡ g x

module _ {E A B : Type 0} (g : A → B) (x : A) where
  ok-Keeps : (z : A) → g z ≡ g x → Keeps {E = E} g x (ok z)
  ok-Keeps z h y e = sym (ap (λ r. elim r [ ok w ↦ g w | err _ ↦ g z ]) e) ∙ h

  bind-Keeps :
      {C : Type 0} (r : Result E C) (k : C → Result E A)
      → ((c : C) → Keeps g x (k c))
      → Keeps g x (r >>= k)
  bind-Keeps (ok c) k h = h c
  bind-Keeps (err e) k h = λ y failed. absurd (ground (arith, failed))

  option-Keeps :
      {C : Type 0} (o : Option C) (n : Result E A) (s : C → Result E A)
      → Keeps g x n
      → ((c : C) → Keeps g x (s c))
      → Keeps g x (elim o [ none ↦ n | some c ↦ s c ])
  option-Keeps none n s h k = h
  option-Keeps (some c) n s h k = k c

module _ {W F S M T D R E : Type 0} ⦃f : Float W⦄ (calls : Calls W F S M T D R E)
    (q : ForecastInputs W S M) {B : Type 0} (g : Artifacts W T D R → B) where
  -- the part `g` of the artifacts does not read what the step of the key writes
  unfoldable pub Ignores : StepKey → Type 0
  Ignores irradiance = Unit
  Ignores consumption = Unit
  Ignores dc_production =
      (st : Artifacts W T D R) (v : DcProductionResult W) → g (record st { dc = some v }) ≡ g st
  Ignores snow =
      (st : Artifacts W T D R) (v : SnowLossResult W) → g (record st { snow_loss = some v }) ≡ g st
  Ignores degradation =
      (st : Artifacts W T D R) (v : D) → g (record st { degraded = some v }) ≡ g st
  Ignores battery_dispatch =
      (st : Artifacts W T D R) (v : BatteryDispatchResult W)
      → g (record st { dispatch = some v }) ≡ g st
  Ignores tariff =
      (st : Artifacts W T D R) (v : AnnualBill W) → g (record st { bill = some v }) ≡ g st
  Ignores export_credit =
      (st : Artifacts W T D R) (v : ExportCreditResult W) → g (record st { credit = some v }) ≡ g st
  Ignores finance = (st : Artifacts W T D R) (v : R) → g (record st { finances = some v }) ≡ g st

  snow_ignored :
      (st : Artifacts W T D R) (result : Option (SnowLossResult W))
      → ((z : Artifacts W T D R) (v : SnowLossResult W) → g (record z { snow_loss = some v }) ≡ g z)
      → g (note_snow st result) ≡ g st
  snow_ignored st none h = refl
  snow_ignored st (some loss) h = h st loss

  adapter-Keeps :
      (key : StepKey) (fn : F) (st : Artifacts W T D R)
      → Ignores key
      → Keeps g st (adapter calls key q fn st)
  unfolding adapter Ignores
  adapter-Keeps irradiance fn st h = ok-Keeps g st st refl
  adapter-Keeps consumption fn st h = ok-Keeps g st st refl
  adapter-Keeps dc_production fn st h =
      bind-Keeps g st (called (calls.call_dc_production fn q.system st.tmy)) _
        (λ dc. ok-Keeps g st _ (h st dc))
  adapter-Keeps snow fn st h = bind-Keeps g st (artifact dc_production st.dc) _ (λ dc.
      bind-Keeps g st (called (calls.call_snow fn st.tmy q.system dc)) _
        (λ result. ok-Keeps g st (note_snow st result) (snow_ignored st result h)))
  adapter-Keeps degradation fn st h =
      bind-Keeps g st (called (calls.call_degradation fn q.hold_years)) _
        (λ d. ok-Keeps g st _ (h st d))
  adapter-Keeps battery_dispatch fn st h =
      option-Keeps g st q.battery _ _ (ok-Keeps g st st refl) (λ battery.
        bind-Keeps g st (net_load calls st) _ (λ loads.
          bind-Keeps g st (called (calls.call_battery fn battery loads q.schedule)) _
            (λ b. ok-Keeps g st _ (h st b))))
  adapter-Keeps tariff fn st h =
      option-Keeps g st q.schedule _ _ (ok-Keeps g st st refl) (λ schedule.
        bind-Keeps g st (net_load calls st) _ (λ loads.
          bind-Keeps g st (called (calls.call_tariff fn loads schedule)) _
            (λ bill. ok-Keeps g st _ (h st bill))))
  adapter-Keeps export_credit fn st h =
      option-Keeps g st q.export_config _ _ (ok-Keeps g st st refl) (λ config.
        bind-Keeps g st (net_load calls st) _ (λ loads.
          bind-Keeps g st
            (called (
              calls.call_export_credit fn config (map (λ nl. max_of f.nought (f.neg nl)) loads)
                q.schedule loads))
            _ (λ c. ok-Keeps g st _ (h st c))))
  adapter-Keeps finance fn st h =
      let same = ok-Keeps g st st refl in
      option-Keeps g st q.system_cost _ _ same (λ cost.
        option-Keeps g st q.schedule _ _ same (λ schedule. option-Keeps g st st.dc _ _ same (λ dc.
          option-Keeps g st st.degraded _ _ same (λ d.
            bind-Keeps g st
              (called (
                calls.call_finance fn q.financial st.hourly_consumption (derated dc st.snow_loss) d
                  schedule q.export_config))
              _ (λ r. ok-Keeps g st _ (h st r))))))

  -- steps that `g` ignores leave it as it was
  pub run_steps-Keeps :
      (requested : StepKey → Bool) (fns : StepKey → Option F) (keys : List StepKey)
      (st : Artifacts W T D R)
      → All Ignores keys
      → Keeps g st (run_steps calls q requested fns keys st)
  unfolding run_steps
  run_steps-Keeps requested fns [] st h = ok-Keeps g st st refl
  run_steps-Keeps requested fns (key ∷ keys) st h = elim (Bool-cases (requested key)) [
    | inr skip ↦ rw (run_steps, skip) (run_steps-Keeps requested fns keys st h.1)
    | inl wanted ↦ elim (Option-cases (fns key)) [
      | inl e ↦ rw (run_steps, wanted, e) (run_steps-Keeps requested fns keys st h.1)
      | inr (fn, e) ↦ elim (Result-cases (adapter calls key q fn st)) [
        | inr (failure, failed) ↦
            rw (run_steps, wanted, e, failed) (λ y impossible. absurd (ground (arith, impossible)))
        | inl (st', done) ↦
            rw (run_steps, wanted, e, done)
              (λ y finished.
                run_steps-Keeps requested fns keys st' h.1 y finished
                ∙ adapter-Keeps key fn st h.0 st' done)
      ]
    ]
  ]
