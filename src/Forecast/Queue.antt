-- ===== src/Forecast/Queue.antt =====
-- backend/workers/queue.py: the jobs of the queue `forecasts`. RQ over Redis is no code of the
-- repository: it is a record of operations, with what the service relies on as laws.
use chart_solar.Prelude.{ℕ, String, ◌≡◌, ◌≢◌, Option, none, some, List, [], ◌∷◌, length, Result, ok}
use chart_solar.Stripe.Json.{Json, str, Fields, end, field}

-- the members of `rq.job.JobStatus` that the service knows
pub data JobStatus : Type 0 where
  created queued deferred scheduled started finished failed stopped canceled : JobStatus

-- What `Queue.enqueue` is called with.
pub record JobSpec : Type 0 where
  pub job_id : String
  pub payload : Fields
  pub meta : Fields
  pub job_timeout : ℕ
  pub result_ttl : ℕ
  pub failure_ttl : ℕ
  pub max_retries : ℕ
  pub retry_intervals : List ℕ

-- What `Job.fetch` gives: the status, the metadata, and what the worker left.
pub record Job : Type 0 where
  pub status : JobStatus
  pub meta : Fields
  pub result : Option Json
  pub exc_info : Option String

pub record Rq : Type 1 where
  pub Jobs : Type 0
  -- `err` is a Redis error that is raised
  pub enqueue : JobSpec → Jobs → Result String Jobs
  -- `none` is `NoSuchJobError`
  pub fetch : String → Jobs → Option Job

-- A job that was enqueued can be fetched with its metadata, not run yet; no other job changes.
pub record IsRq (rq : Rq) : Type 0 where
  pub fetch_new :
      (spec : JobSpec) (jobs jobs' : rq.Jobs)
      → rq.enqueue spec jobs ≡ ok jobs'
      → rq.fetch spec.job_id jobs'
        ≡ some (record { status = queued; meta = spec.meta; result = none; exc_info = none })
  pub fetch_other :
      (spec : JobSpec) (jobs jobs' : rq.Jobs) (id : String)
      → rq.enqueue spec jobs ≡ ok jobs'
      → id ≢ spec.job_id
      → rq.fetch id jobs' ≡ rq.fetch id jobs

abbrev pub job_timeout_seconds : ℕ
job_timeout_seconds = 300

abbrev pub result_ttl_seconds : ℕ
result_ttl_seconds = 86_400

abbrev pub failure_ttl_seconds : ℕ
failure_ttl_seconds = 86_400

abbrev pub retry_intervals_seconds : List ℕ
retry_intervals_seconds = 10 ∷ 30 ∷ []

-- The job that a submission enqueues; `correlation` is the request's correlation id, `None` as null.
abbrev pub job_spec : Json → String → Fields → String → JobSpec
job_spec correlation job_id payload owner_user_id = record {
  job_id = job_id;
  payload = payload;
  meta = field "correlation_id" correlation (field "owner_user_id" (str owner_user_id) end);
  job_timeout = job_timeout_seconds;
  result_ttl = result_ttl_seconds;
  failure_ttl = failure_ttl_seconds;
  max_retries = length retry_intervals_seconds;
  retry_intervals = retry_intervals_seconds;
}

module _ (rq : Rq) where
  unfoldable pub enqueue_forecast :
      Json → String → Fields → String → rq.Jobs → Result String rq.Jobs
  enqueue_forecast correlation job_id payload owner_user_id =
      rq.enqueue (job_spec correlation job_id payload owner_user_id)

  unfoldable pub get_job : String → rq.Jobs → Option Job
  get_job = rq.fetch
