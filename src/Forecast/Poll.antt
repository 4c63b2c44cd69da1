-- ===== src/Forecast/Poll.antt =====
-- backend/api/forecast.py: who sees the status of a job, and what of it.
use chart_solar.Prelude.{
  String, ◌≡◌, ◌≢◌, refl, true, none, some, arith, ok, str_eq, eq_iff, eq_refl, Option-cases,
  Bool-cases, inl, inr, is_some,
}
use chart_solar.Stripe.Json
use chart_solar.Stripe.Json.{Json, Fields, as_str, str}
use chart_solar.Forecast.Queue.{Job, Rq, IsRq, enqueue_forecast, job_spec, get_job}
use chart_solar.Forecast.Api.{
  ApiStatus, waiting, running, done, error, api_status_of, view_job, StatusReply, get_forecast_job,
  forecast_status,
}

as_str_sound : (v : Json) (s : String) → as_str v ≡ some s → v ≡ str s
as_str_sound Json.null s h = absurd (ground arith)
as_str_sound (Json.bool b) s h = absurd (ground arith)
as_str_sound (Json.num n) s h = absurd (ground arith)
as_str_sound (Json.str t) s h = ground arith
as_str_sound (Json.arr xs) s h = absurd (ground arith)
as_str_sound (Json.dict d) s h = absurd (ground arith)

-- the reply on a job that the caller owns
abbrev reply_of : String → Job → StatusReply
reply_of id job =
    let view = view_job id job in
    record { job_id = id; status = view.status; result = view.result; error = view.error }

result_done :
    (id : String) (job : Job)
    → (is_some (reply_of id job).result ≡ true → (reply_of id job).status ≡ done)
      × (is_some (reply_of id job).error ≡ true → (reply_of id job).status ≡ error)
result_done id job = states (api_status_of job.status)
  where
    states :
        (s : ApiStatus)
        → (is_some (elim s [ done ↦ job.result | _ ↦ none ]) ≡ true → s ≡ done)
          × (is_some (elim s [ error ↦ job.exc_info | _ ↦ none ]) ≡ true → s ≡ error)
    states waiting = (λ h. absurd (ground arith), λ h. absurd (ground arith))
    states running = (λ h. absurd (ground arith), λ h. absurd (ground arith))
    states done = (λ h. refl, λ h. absurd (ground arith))
    states error = (λ h. absurd (ground arith), λ h. refl)

module _ (rq : Rq) where
  answered :
      (id user : String) (jobs : rq.Jobs) (r : StatusReply)
      → forecast_status rq id user jobs ≡ some r
      → (job : Job) × (get_job rq id jobs ≡ some job)
        × (as_str (Json.get "owner_user_id" job.meta) ≡ some user)
        × (reply_of id job ≡ r)
  unfolding forecast_status get_forecast_job get_job
  answered id user jobs r h = elim (Option-cases (rq.fetch id jobs)) [
    | inl absent ↦ absurd (ground arith)
    | inr (job, found) ↦ elim (Option-cases (as_str (Json.get "owner_user_id" job.meta))) [
      | inl nobody ↦ absurd (ground arith)
      | inr (owner, e) ↦ elim (Bool-cases (str_eq owner user)) [
        | inl same ↦ (job, found, ground (arith, eq_iff owner user), ground arith)
        | inr other ↦ absurd (ground arith)
      ]
    ]
  ]

module _ (rq : Rq) where
  -- A status that is answered is that of a job of the queue which the caller submitted: its
  -- metadata names the caller as the owner. A result is shown only of a job that is done, an error
  -- only of one that failed, so never both.
  pub forecast_status_own :
      (id user : String) (jobs : rq.Jobs) (r : StatusReply)
      → forecast_status rq id user jobs ≡ some r
      → (job : Job) × (get_job rq id jobs ≡ some job)
        × (Json.get "owner_user_id" job.meta ≡ str user)
        × (r.job_id ≡ id)
        × (r.status ≡ api_status_of job.status)
        × (is_some r.result ≡ true → r.status ≡ done)
        × (is_some r.error ≡ true → r.status ≡ error)
  forecast_status_own id user jobs r h =
      let (job, found, owner, same) = answered rq id user jobs r h in
      let (shown, failed) = result_done id job in
      rw (← same) (
        job,
        found,
        as_str_sound (Json.get "owner_user_id" job.meta) user owner,
        refl,
        refl,
        shown,
        failed,
      )

  -- Once a submission is in the queue, its caller sees it waiting, without a result or an error;
  -- anybody else is told that there is no such job; and every other job is answered as before.
  pub forecast_status-enqueue_forecast :
      IsRq rq
      → (correlation : Json) (id user other id' caller : String) (inputs : Fields)
        (jobs jobs' : rq.Jobs)
      → enqueue_forecast rq correlation id inputs user jobs ≡ ok jobs'
      → other ≢ user
      → id' ≢ id
      → (forecast_status rq id user jobs'
          ≡ some (record { job_id = id; status = waiting; result = none; error = none }))
        × (forecast_status rq id other jobs' ≡ none)
        × (forecast_status rq id' caller jobs' ≡ forecast_status rq id' caller jobs)
  unfolding enqueue_forecast forecast_status get_forecast_job get_job Json.get
  forecast_status-enqueue_forecast laws correlation id user other id' caller inputs jobs jobs'
        queued not_user not_id =
      let spec = job_spec correlation id inputs user in
      let new = laws.fetch_new spec jobs jobs' queued in
      (
        ground (arith, new, eq_refl user),
        ground (arith, new, eq_iff user other),
        ground (arith, laws.fetch_other spec jobs jobs' id' queued not_id),
      )
