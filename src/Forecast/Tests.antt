-- ===== src/Forecast/Tests.antt =====
-- Submissions, polls and the worker at concrete inputs.
use chart_solar.Prelude.{
  ℕ, String, ◌≡◌, ◌≢◌, refl, true, false, Option, none, some, List, [], ◌∷◌, ok, err, str_eq,
  eq_iff, eq_refl, arith, is_some, if◌then◌else◌,
}
use chart_solar.Sql.Sample.{sample, sample-IsSql}
use chart_solar.Stripe.Json
use chart_solar.Stripe.Json.{Json, Fields}
use chart_solar.Infra.Idempotency.{JsonLib}
use chart_solar.Infra.EventBus.{Registry, dispatch, forecast_completed}
use chart_solar.Entitlements.{anonymous_user_id}
use chart_solar.Forecast.Queue
use chart_solar.Forecast.Queue.{Job, JobSpec, Rq, IsRq, enqueue_forecast, get_job, job_spec}
use chart_solar.Forecast.Api.{
  Submit, ForecastState, candidate, submit_forecast_endpoint, StatusReply, waiting, done, error,
  api_status_of, forecast_status, get_forecast_job,
}
use chart_solar.Forecast.Submit.{IsRepeat, submit_once, submit_loses_job}
use chart_solar.Forecast.Poll.{forecast_status_own, forecast_status-enqueue_forecast}
use chart_solar.Forecast.Worker.{Engine, run_forecast_job, run_forecast_job-enqueue_forecast}

-- a queue that is a list of the jobs not yet run, newest first
abbrev find_job : String → List JobSpec → Option Job
find_job id [] = none
find_job id (s ∷ rest) =
    let others = find_job id rest in
    if str_eq s.job_id id
    then some (record { status = Queue.queued; meta = s.meta; result = none; exc_info = none })
    else others

abbrev plain : Rq
plain = record { Jobs = List JobSpec; enqueue = λ s jobs. ok (s ∷ jobs); fetch = find_job }

-- one that cannot be reached
abbrev down : Rq
down = record {
  Jobs = List JobSpec;
  enqueue = λ s jobs. err "connection refused";
  fetch = find_job;
}

plain-IsRq : IsRq plain
plain-IsRq = record {
  fetch_new = λ spec jobs jobs' h. ground (arith, eq_refl spec.job_id);
  fetch_other = λ spec jobs jobs' id h ne. ground (arith, eq_iff spec.job_id id, ne);
}

abbrev texts : JsonLib
texts = record {
  Bytes = String;
  Value = String;
  is_empty = λ s. str_eq s "";
  nothing = "";
  sha256_hex = λ s. s;
  loads = λ s. some "{}";
  dumps_sorted = λ s. s;
}

abbrev submission : String → String → ℕ → Submit texts
submission body id now = record {
  user_id = "u7";
  body = body;
  inputs = Json.end;
  job_id = id;
  correlation = Json.null;
  now = now;
}

abbrev first : Submit texts
first = submission "{}" "j1" 0

abbrev second : Submit texts
second = submission "{ }" "j2" 86_399

repeat : IsRepeat first second
repeat = record {
  value = "{}";
  full = refl;
  full' = refl;
  loads = refl;
  loads' = refl;
  same_user = refl;
}

abbrev empty : ForecastState sample texts plain
empty = record { slots = []; jobs = [] }

submit_once_example :
    let (result, st') = submit_forecast_endpoint sample texts plain first empty in
    (result ≡ ok (candidate sample texts plain first))
    × (st'.jobs ≡ job_spec Json.null "j1" Json.end "u7" ∷ [])
    × (submit_forecast_endpoint sample texts plain second st'
        ≡ (ok (candidate sample texts plain first), st'))
unfolding enqueue_forecast
submit_once_example =
    submit_once sample texts plain sample-IsSql first second empty
      (job_spec Json.null "j1" Json.end "u7" ∷ []) repeat refl (omega arith) refl

abbrev empty_down : ForecastState sample texts down
empty_down = record { slots = []; jobs = [] }

submit_loses_job_example :
    let (result, st') = submit_forecast_endpoint sample texts down first empty_down in
    let (again, st'') = submit_forecast_endpoint sample texts down second st' in
    (result ≡ err "connection refused")
    × (again ≡ ok (candidate sample texts down first))
    × (st''.jobs ≡ [])
unfolding enqueue_forecast
submit_loses_job_example =
    submit_loses_job sample texts down sample-IsSql first second empty_down "connection refused"
      repeat refl (omega arith) refl

abbrev jobs : List JobSpec
jobs = job_spec Json.null "j1" Json.end "u7" ∷ []

abbrev seen : StatusReply
seen = record { job_id = "j1"; status = waiting; result = none; error = none }

forecast_status_own_example :
    (job : Job) × (get_job plain "j1" jobs ≡ some job)
    × (Json.get "owner_user_id" job.meta ≡ Json.str "u7")
    × (◌≡◌ {A = String} "j1" "j1")
    × (waiting ≡ api_status_of job.status)
    × (is_some {A = Json} none ≡ true → waiting ≡ done)
    × (is_some {A = String} none ≡ true → waiting ≡ error)
unfolding forecast_status get_forecast_job get_job Json.get
forecast_status_own_example = forecast_status_own plain "j1" "u7" jobs seen refl

differ : (a b : String) → str_eq a b ≡ false → a ≢ b
differ a b e p = ground (arith, eq_iff a b)

forecast_status-enqueue_forecast_test :
    (forecast_status plain "j1" "u7" jobs ≡ some seen)
    × (forecast_status plain "j1" "u8" jobs ≡ none)
    × (forecast_status plain "j2" "u8" jobs ≡ forecast_status plain "j2" "u8" [])
unfolding enqueue_forecast
forecast_status-enqueue_forecast_test =
    forecast_status-enqueue_forecast plain plain-IsRq Json.null "j1" "u7" "u8" "j2" "u8" Json.end []
      jobs refl (differ "u8" "u7" refl) (differ "j2" "j1" refl)

abbrev engine : Engine
engine = record {
  forecast = λ payload. ok (("engine.tariff", Json.null) ∷ []);
  sorted = λ keys. keys;
}

abbrev silent : Registry ℕ
silent _ = []

run_forecast_job-enqueue_forecast_example :
    (job : Job) × (get_job plain "j1" jobs ≡ some job)
    × (run_forecast_job engine silent (some ("j1", job.meta)) Json.end 5 ≡ (
      ok (("engine.tariff", Json.null) ∷ []),
      dispatch silent
          (forecast_completed "j1" anonymous_user_id (
            Json.field "artifact_keys"
              (Json.arr (Json.cons (Json.str "engine.tariff") Json.nil))
              Json.end))
          5,
    ))
unfolding enqueue_forecast
run_forecast_job-enqueue_forecast_example =
    run_forecast_job-enqueue_forecast engine plain plain-IsRq silent Json.null "j1" "u7" Json.end []
      jobs 5 refl
