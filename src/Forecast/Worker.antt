-- ===== src/Forecast/Worker.antt =====
-- backend/workers/forecast_worker.py: one job, from its payload to the event that it publishes.
use chart_solar.Prelude.{
  String, ◌≡◌, refl, Option, none, some, List, [], ◌∷◌, map, Result, ok, err, or_else,
}
use chart_solar.Entitlements.{anonymous_user_id}
use chart_solar.Stripe.Json
use chart_solar.Stripe.Json.{Json, Fields, Items, nil, cons, str, arr, end, field, as_str}
use chart_solar.Infra.EventBus.{DomainEvent, forecast_completed, Registry, dispatch}
use chart_solar.Forecast.Queue
use chart_solar.Forecast.Queue.{Job, Rq, IsRq, enqueue_forecast, get_job, job_spec}

-- the artifacts by key
abbrev pub Artifacts : Type 0
Artifacts = List (String × Json)

-- What the worker takes from elsewhere: the validation of the inputs, the fetch of the weather year
-- and the pipeline, which may raise, and Python's sort of texts.
pub record Engine : Type 0 where
  pub forecast : Fields → Result String Artifacts
  pub sorted : List String → List String

-- `get_current_job()`: the job's id and metadata, `none` outside a worker
abbrev pub CurrentJob : Type 0
CurrentJob = Option (String × Fields)

abbrev texts : List String → Items
texts [] = nil
texts (s ∷ ss) = cons (str s) (texts ss)

-- `{"artifact_keys": sorted(artifacts.keys())}`
abbrev pub summary : Engine → Artifacts → Fields
summary engine artifacts =
    field "artifact_keys" (arr (texts (engine.sorted (map (λ a. a.0) artifacts)))) end

abbrev pub completed : Engine → CurrentJob → Artifacts → DomainEvent
completed engine none artifacts = forecast_completed "" anonymous_user_id (summary engine artifacts)
completed engine (some (job_id, meta)) artifacts =
    forecast_completed job_id (or_else (as_str (Json.get "user_id" meta)) anonymous_user_id)
      (summary engine artifacts)

module _ (engine : Engine) {S : Type 0} where
  -- The artifacts, and the state that the subscribers leave.
  unfoldable pub run_forecast_job :
      Registry S → CurrentJob → Fields → S → Result String Artifacts × S
  run_forecast_job bus job payload s = elim (engine.forecast payload) [
    | err e ↦ (err e, s)
    | ok artifacts ↦ (ok artifacts, dispatch bus (completed engine job artifacts) s)
  ]

  -- A worker that runs a job of the queue publishes its completion, when the engine returns, for
  -- the anonymous user, whoever submitted the job; when the engine raises, nothing is published.
  pub run_forecast_job-enqueue_forecast :
      (rq : Rq)
      → IsRq rq
      → (bus : Registry S) (correlation : Json) (id user : String) (inputs : Fields)
        (jobs jobs' : rq.Jobs) (s : S)
      → enqueue_forecast rq correlation id inputs user jobs ≡ ok jobs'
      → (job : Job) × (get_job rq id jobs' ≡ some job)
        × (run_forecast_job bus (some (id, job.meta)) inputs s ≡ elim (engine.forecast inputs) [
          | err e ↦ (err e, s)
          | ok artifacts ↦ (
            ok artifacts,
            dispatch bus (forecast_completed id anonymous_user_id (summary engine artifacts)) s,
          )
        ])
  unfolding enqueue_forecast get_job run_forecast_job Json.get
  run_forecast_job-enqueue_forecast rq laws bus correlation id user inputs jobs jobs' s queued =
      let spec = job_spec correlation id inputs user in
      (
        record { status = Queue.queued; meta = spec.meta; result = none; exc_info = none },
        laws.fetch_new spec jobs jobs' queued,
        refl,
      )
