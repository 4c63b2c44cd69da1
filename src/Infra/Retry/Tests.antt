-- ===== src/Infra/Retry/Tests.antt =====
-- Runs of the retry decorator of backend/infra/retry.py, and its theorems at concrete worlds.
use chart_solar.Prelude.{
  ℕ, ◌+◌, ◌≤◌, String, ◌≡◌, ◌↔◌, ◌<◌, ◌*◌, ◌^◌, refl, none, some, [], ◌∷◌, arith, length, ltb,
  if◌then◌else◌,
}
use chart_solar.Infra.Breaker.{
  CircuitBreaker, default_config, new_breaker, before_call, record_failure,
}
use chart_solar.Infra.Breaker.History.{
  succeeded, failed, replay, opened, Agrees, replay-Agrees, before_call-refuses, get_breaker_twice,
}
use chart_solar.Infra.Breaker.{get_breaker}
use chart_solar.Infra.Retry.{
  returned, retryable, value, circuit_open, exhausted, World, backoff, retry,
}
use chart_solar.Infra.Retry.Laws.{backoff-le}
use chart_solar.Infra.Retry.Calls.{
  run, retry_bounds, retry_refused, retry_succeeds, retry_exhausts, exhausted_opens,
}

-- times out twice and then returns 7
abbrev flaky : World ℕ String
flaky = record {
  call = λ n. if ltb n 3 then retryable "timeout" else returned 7;
  clock = λ n. 100 * n;
  uniform = λ n. 10;
  others = λ n b. b;
}

abbrev dead : World ℕ String
dead = record {
  call = λ n. retryable "timeout";
  clock = λ n. 100 * n;
  uniform = λ n. 10;
  others = λ n b. b;
}

abbrev nsrdb : CircuitBreaker
nsrdb = new_breaker "nsrdb" 3 60_000

abbrev tripped : CircuitBreaker
tripped = record nsrdb { failures = 3; opened_at = some 500 }

flaky_run : (run default_config "nsrdb" flaky 0 nsrdb).sleeps ≡ 210 ∷ 410 ∷ []
unfolding retry before_call backoff record_failure
flaky_run = refl

replay-Agrees_example :
    Agrees
      (replay (new_breaker "nsrdb" 2 60) (failed 9 ∷ failed 5 ∷ succeeded ∷ []))
      "nsrdb"
      2
      60
      (failed 9 ∷ failed 5 ∷ succeeded ∷ [])
replay-Agrees_example = replay-Agrees "nsrdb" 2 60 (failed 9 ∷ failed 5 ∷ succeeded ∷ [])

before_call-refuses_test :
    (before_call (replay (new_breaker "nsrdb" 1 60) (failed 9 ∷ [])) 20 ≡ some 9)
    ↔ ((opened 1 (failed 9 ∷ []) ≡ some 9) × (20 < 9 + 60))
before_call-refuses_test = before_call-refuses "nsrdb" 1 60 (failed 9 ∷ []) 20 9

get_breaker_twice_test :
    let (b, after) = get_breaker "vertex" default_config (("nsrdb", nsrdb) ∷ []) in
    get_breaker "vertex" (record default_config { breaker_threshold = 9 }) after ≡ (b, after)
get_breaker_twice_test =
    get_breaker_twice "vertex" default_config (record default_config { breaker_threshold = 9 })
      (("nsrdb", nsrdb) ∷ [])

backoff-le_test :
    (backoff 9 default_config 10 ≤ 5000 + 10)
    × (5000 ≤ 200 * 2 ^ 8 → backoff 9 default_config 10 ≡ 5000 + 10)
backoff-le_test = backoff-le 9 default_config 10

retry_bounds_test :
    let r = run default_config "nsrdb" dead 0 nsrdb in (r.calls ≤ 4) × (length r.sleeps ≤ r.calls)
retry_bounds_test = retry_bounds default_config "nsrdb" dead 0 nsrdb

retry_refused_test :
    run default_config "nsrdb" flaky 600 tripped
    ≡ record { outcome = circuit_open "nsrdb" 500; breaker = tripped; calls = 0; sleeps = [] }
retry_refused_test = retry_refused default_config "nsrdb" flaky 600 500 tripped refl (omega arith)

retry_succeeds_example :
    let r = run default_config "nsrdb" flaky 0 nsrdb in
    (r.outcome ≡ value 7)
    × (r.calls ≡ 3)
    × (length r.sleeps ≡ 2)
    × (r.breaker.failures ≡ 0)
    × (r.breaker.opened_at ≡ none)
unfolding before_call
retry_succeeds_example =
    retry_succeeds default_config "nsrdb" flaky 0 2 nsrdb (λ n. "timeout") 7 refl
      (λ i lt. ground arith) refl (omega arith)

retry_exhausts_example :
    let r = run default_config "nsrdb" dead 0 nsrdb in
    (r.outcome ≡ exhausted "nsrdb" 4 "timeout") × (r.calls ≡ 4) × (length r.sleeps + 1 ≡ 4)
unfolding before_call
retry_exhausts_example =
    retry_exhausts default_config "nsrdb" dead 0 nsrdb (λ n. "timeout") refl (omega arith)
      (λ i lt. refl)

exhausted_opens_test :
    let c = (run default_config "nsrdb" dead 0 nsrdb).breaker in
    ((run default_config "nsrdb" flaky 1000 c).outcome ≡ circuit_open "nsrdb" 400)
    × ((run default_config "nsrdb" flaky 1000 c).calls ≡ 0)
unfolding before_call
exhausted_opens_test =
    exhausted_opens default_config default_config "nsrdb" dead flaky 0 1000 nsrdb (λ n. "timeout")
      (λ n c. refl) refl (omega arith) (λ i lt. refl) (omega arith) (omega arith)
