-- ===== src/Forecast/Api.antt =====
-- backend/services/forecast_service.py and backend/api/forecast.py: submission and status.
use chart_solar.Prelude.{
  ℕ, String, Bool, false, Option, none, some, List, Result, ok, err, str_eq, if◌then◌else◌,
}
use Prim.Native.String.{◌++◌}
use chart_solar.Sql.{Sql}
use chart_solar.Stripe.Json
use chart_solar.Stripe.Json.{Json, Fields, as_str}
use chart_solar.Infra.Idempotency.{
  IdempotencyKey, JsonLib, Request, canonical_request_hash, claim_idempotency_slot,
  default_ttl_seconds,
}
use chart_solar.Forecast.Queue.{
  JobStatus, created, queued, deferred, scheduled, started, finished, failed, stopped, canceled,
  Job, Rq, enqueue_forecast, get_job,
}

-- the four states of the API contract, `queued` being that of a job that has not started
pub data ApiStatus : Type 0 where
  waiting running done error : ApiStatus

-- `_RQ_STATUS_TO_API_STATUS`
abbrev pub api_status_of : JobStatus → ApiStatus
api_status_of created = waiting
api_status_of queued = waiting
api_status_of deferred = waiting
api_status_of scheduled = waiting
api_status_of started = running
api_status_of finished = done
api_status_of failed = error
api_status_of stopped = error
api_status_of canceled = error

pub record ForecastJobView : Type 0 where
  pub job_id : String
  pub status : ApiStatus
  pub owner_user_id : Option String
  pub result : Option Json
  pub error : Option String

-- The view of a job; the owner is the metadata's, where that is a text.
abbrev pub view_job : String → Job → ForecastJobView
view_job job_id job =
    let status = api_status_of job.status in
    record {
      job_id = job_id;
      status = status;
      owner_user_id = as_str (Json.get "owner_user_id" job.meta);
      result = elim status [ done ↦ job.result | _ ↦ none ];
      error = elim status [ error ↦ job.exc_info | _ ↦ none ];
    }

-- The body of an accepted submission, `{"job_id": …, "status": "queued"}`.
pub record Submission : Type 0 where
  pub job_id : String
  pub status : String

-- The body of a status: `result` and `error` are left out where they are none.
pub record StatusReply : Type 0 where
  pub job_id : String
  pub status : ApiStatus
  pub result : Option Json
  pub error : Option String

abbrev pub forecast_route_key : String
forecast_route_key = "POST /api/forecast"

-- A request to the endpoint: the caller, the raw body and its validated inputs, and what the
-- process draws for it: the job id, the correlation id, the time.
pub record Submit (lib : JsonLib) : Type 0 where
  pub user_id : String
  pub body : lib.Bytes
  pub inputs : Fields
  pub job_id : String
  pub correlation : Json
  pub now : ℕ

module _ (db : Sql) (lib : JsonLib) (rq : Rq) where
  pub record ForecastState : Type 0 where
    pub slots : List (IdempotencyKey Submission)
    pub jobs : rq.Jobs

  abbrev pub candidate : Submit lib → Submission
  candidate q = record { job_id = q.job_id; status = "queued" }

  abbrev pub slot_request : Submit lib → Request Submission
  slot_request q =
      let body_hash = canonical_request_hash lib q.body in
      record {
        route = forecast_route_key;
        key = q.user_id ++ (":" ++ body_hash);
        request_hash = body_hash;
        response_body = candidate q;
        response_status = 200;
        ttl_seconds = default_ttl_seconds;
        now = q.now;
      }

  -- The reply, or the exception of a queue that cannot be reached.
  unfoldable pub submit_forecast_endpoint :
      Submit lib → ForecastState → Result String Submission × ForecastState
  unfolding enqueue_forecast
  submit_forecast_endpoint q st =
      let ((won, body), slots) = claim_idempotency_slot db (λ t. t) (slot_request q) st.slots in
      let st' = record st { slots = slots } in
      if won
      then elim (enqueue_forecast rq q.correlation q.job_id q.inputs q.user_id st.jobs) [
        | err e ↦ (err e, st')
        | ok jobs ↦ (ok body, record st' { jobs = jobs })
      ]
      else (ok body, st')

module _ (rq : Rq) where
  unfoldable pub get_forecast_job : String → rq.Jobs → Option ForecastJobView
  unfolding get_job
  get_forecast_job job_id jobs = elim (get_job rq job_id jobs) [
    | none ↦ none
    | some job ↦ some (view_job job_id job)
  ]

  -- `view.owner_user_id == user_id`
  abbrev pub owned_view : ForecastJobView → String → Bool
  owned_view view user_id = elim view.owner_user_id [ none ↦ false | some o ↦ str_eq o user_id ]

  -- `none` is HTTP 404.
  unfoldable pub forecast_status : String → String → rq.Jobs → Option StatusReply
  unfolding get_forecast_job
  forecast_status job_id user_id jobs = elim (get_forecast_job job_id jobs) [
    | none ↦ none
    | some view ↦
        if owned_view view user_id
        then some (record {
          job_id = view.job_id;
          status = view.status;
          result = view.result;
          error = view.error;
        })
        else none
  ]
