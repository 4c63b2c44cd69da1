-- ===== src/Forecast/Submit.antt =====
-- backend/api/forecast.py: what a submission does, and what a second one of the same inputs does.
use chart_solar.Prelude.{
  ◌+◌, ◌<◌, String, ◌≡◌, refl, ap, Bool, true, false, some, List, any, arith, Result, ok, err,
}
use chart_solar.Sql.{Sql, IsSql}
use chart_solar.Infra.Idempotency.{
  IdempotencyKey, JsonLib, claim_idempotency_slot, in_slot, default_ttl_seconds,
}
use chart_solar.Infra.Idempotency.Claims.{canonical_request_hash-loads, claim_deduplicates}
use chart_solar.Forecast.Queue.{Rq, job_spec, enqueue_forecast}
use chart_solar.Forecast.Api.{
  Submission, Submit, ForecastState, forecast_route_key, candidate, slot_request,
  submit_forecast_endpoint,
}

-- Two submissions by one user whose bodies load as the same JSON value.
pub record IsRepeat {lib : JsonLib} (q q' : Submit lib) : Type 0 where
  pub value : lib.Value
  pub full : lib.is_empty q.body ≡ false
  pub full' : lib.is_empty q'.body ≡ false
  pub loads : lib.loads q.body ≡ some value
  pub loads' : lib.loads q'.body ≡ some value
  pub same_user : q'.user_id ≡ q.user_id

module _ (db : Sql) (lib : JsonLib) (rq : Rq) where
  -- no row is in the slot of the submission
  abbrev pub IsFree : Submit lib → ForecastState db lib rq → Type 0
  IsFree q st = any (in_slot forecast_route_key (slot_request db lib rq q).key) st.slots ≡ false

  abbrev submit :
      Submit lib → ForecastState db lib rq → Result String Submission × ForecastState db lib rq
  submit = submit_forecast_endpoint db lib rq

  submit_won :
      (q : Submit lib) (st : ForecastState db lib rq) (b : Submission)
      (slots : List (IdempotencyKey Submission)) (jobs : rq.Jobs)
      → claim_idempotency_slot db (λ t. t) (slot_request db lib rq q) st.slots ≡ ((true, b), slots)
      → rq.enqueue (job_spec q.correlation q.job_id q.inputs q.user_id) st.jobs ≡ ok jobs
      → submit q st ≡ (ok b, record { slots = slots; jobs = jobs })
  unfolding submit_forecast_endpoint enqueue_forecast
  submit_won q st b slots jobs won queued = ground arith

  submit_failed :
      (q : Submit lib) (st : ForecastState db lib rq) (b : Submission)
      (slots : List (IdempotencyKey Submission)) (e : String)
      → claim_idempotency_slot db (λ t. t) (slot_request db lib rq q) st.slots ≡ ((true, b), slots)
      → rq.enqueue (job_spec q.correlation q.job_id q.inputs q.user_id) st.jobs ≡ err e
      → submit q st ≡ (err e, record st { slots = slots })
  unfolding submit_forecast_endpoint enqueue_forecast
  submit_failed q st b slots e won down = ground arith

  submit_lost :
      (q : Submit lib) (st : ForecastState db lib rq) (b : Submission)
      (slots : List (IdempotencyKey Submission))
      → claim_idempotency_slot db (λ t. t) (slot_request db lib rq q) st.slots ≡ ((false, b), slots)
      → submit q st ≡ (ok b, record st { slots = slots })
  unfolding submit_forecast_endpoint
  submit_lost q st b slots lost = ground arith

  same_key :
      (q q' : Submit lib)
      → IsRepeat q q'
      → (slot_request db lib rq q').key ≡ (slot_request db lib rq q).key
  same_key q q' r =
      let same =
        canonical_request_hash-loads lib q'.body q.body r.value r.full' r.full r.loads' r.loads in
      rw (same, r.same_user) refl

  abbrev claimed :
      Submit lib → ForecastState db lib rq → (Bool × Submission) × List (IdempotencyKey Submission)
  claimed q st = claim_idempotency_slot db (λ t. t) (slot_request db lib rq q) st.slots

  module _ (laws : IsSql db) (q q' : Submit lib) (st : ForecastState db lib rq) where
    claim_lem :
        IsRepeat q q'
        → IsFree q st
        → q'.now < q.now + default_ttl_seconds
        → (claimed q st ≡ ((true, candidate db lib rq q), (claimed q st).1))
          × (claim_idempotency_slot db (λ t. t) (slot_request db lib rq q') (claimed q st).1
              ≡ ((false, candidate db lib rq q), (claimed q st).1))
    claim_lem repeat free soon =
        let (first, second) =
          claim_deduplicates db laws (slot_request db lib rq q) (slot_request db lib rq q') st.slots
            free refl (same_key q q' repeat) soon in
        (ap (λ b. (b, (claimed q st).1)) first, second)

    -- When a user submits inputs for which no slot was claimed, and the queue takes the job, the
    -- reply names the new job, and the queue is the one with exactly that job put in. Every
    -- submission by that user within 24 hours whose body loads as the same JSON value, however it
    -- is formatted, is answered with the first one's job, and changes nothing: the engine is not
    -- asked twice.
    pub submit_once :
        (jobs : rq.Jobs)
        → IsRepeat q q'
        → IsFree q st
        → q'.now < q.now + default_ttl_seconds
        → enqueue_forecast rq q.correlation q.job_id q.inputs q.user_id st.jobs ≡ ok jobs
        → let (result, st') = submit_forecast_endpoint db lib rq q st in
          (result ≡ ok (candidate db lib rq q))
          × (st'.jobs ≡ jobs)
          × (submit_forecast_endpoint db lib rq q' st' ≡ (ok (candidate db lib rq q), st'))
    unfolding enqueue_forecast
    submit_once jobs repeat free soon queued =
        let (first, second) = claim_lem repeat free soon in
        rw (submit_won q st (candidate db lib rq q) (claimed q st).1 jobs first queued) (
          refl,
          refl,
          submit_lost q' (record { slots = (claimed q st).1; jobs = jobs }) (candidate db lib rq q)
              (claimed q st).1 second,
        )

    -- When the queue cannot be reached, the submission raises, but the slot stays claimed: every
    -- submission by that user within 24 hours whose body loads as the same JSON value is answered
    -- with the job id of the first one, whose job was never put into the queue, and is not put
    -- there now.
    pub submit_loses_job :
        (e : String)
        → IsRepeat q q'
        → IsFree q st
        → q'.now < q.now + default_ttl_seconds
        → enqueue_forecast rq q.correlation q.job_id q.inputs q.user_id st.jobs ≡ err e
        → let (result, st') = submit_forecast_endpoint db lib rq q st in
          let (again, st'') = submit_forecast_endpoint db lib rq q' st' in
          (result ≡ err e) × (again ≡ ok (candidate db lib rq q)) × (st''.jobs ≡ st.jobs)
    unfolding enqueue_forecast
    submit_loses_job e repeat free soon down =
        let (first, second) = claim_lem repeat free soon in
        rw
          (
            submit_failed q st (candidate db lib rq q) (claimed q st).1 e first down,
            submit_lost q' (record st { slots = (claimed q st).1 }) (candidate db lib rq q)
                (claimed q st).1 second,
          )
          (refl, refl, refl)
