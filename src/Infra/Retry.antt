-- ===== src/Infra/Retry.antt =====
-- backend/infra/retry.py: the `retry` decorator. `async_wrapper` and `sync_wrapper` run the same
-- loop; they differ in `await` alone, and one model stands for both.
pub mod Laws
pub mod Calls
mod Tests
use chart_solar.Prelude.{
  ℕ, zero, suc, ◌+◌, ◌-◌, ◌*◌, ◌^◌, String, Option, none, some, List, [], ◌∷◌, ltb, ◌==◌,
  if◌then◌else◌,
}
use chart_solar.Infra.Breaker.{
  CircuitBreaker, RetryConfig, before_call, record_success, record_failure,
}

-- How one call of the decorated function ends: it returns, it raises an exception of
-- `retry_on`, or it raises another one.
pub data Attempt {ℓ} (V E : Type ℓ) : Type ℓ where
  returned : V → Attempt V E
  retryable : E → Attempt V E
  fatal : E → Attempt V E

-- How the wrapper ends; `assertion_failed` is `assert last_error is not None` with no attempt made.
pub data Outcome {ℓ} (V E : Type ℓ) : Type ℓ where
  value : V → Outcome V E
  circuit_open : String → ℕ → Outcome V E
  exhausted : String → ℕ → E → Outcome V E
  raised : E → Outcome V E
  assertion_failed : Outcome V E

-- What the code does not decide: what the attempts do, the clock when a failure is recorded, the
-- jitter drawn, and what the other callers of the service did to the shared breaker up to the end
-- of an attempt. Attempts are numbered from 1.
pub record World {ℓ} (V E : Type ℓ) : Type ℓ where
  pub call : ℕ → Attempt V E
  pub clock : ℕ → ℕ
  pub uniform : ℕ → ℕ
  pub others : ℕ → CircuitBreaker → CircuitBreaker

pub record Run {ℓ} (V E : Type ℓ) : Type ℓ where
  pub outcome : Outcome V E
  pub breaker : CircuitBreaker
  -- how many times the function was called, and the sleeps between
  pub calls : ℕ
  pub sleeps : List ℕ

-- `min(base * 2.0 ** (attempt - 1), max_delay)` and the jitter
unfoldable pub backoff : ℕ → RetryConfig → ℕ → ℕ
backoff attempt cfg jitter =
    let delay = cfg.base_delay * 2 ^ (attempt - 1) in
    (if ltb cfg.max_delay delay then cfg.max_delay else delay) + jitter

-- one more call, with or without a sleep after it
abbrev pub slept {ℓ} : {V E : Type ℓ} → ℕ → Run V E → Run V E
slept d r = record r { calls = suc r.calls; sleeps = d ∷ r.sleeps }

abbrev called {ℓ} : {V E : Type ℓ} → Run V E → Run V E
called r = record r { calls = suc r.calls }

module _ {ℓ} {V E : Type ℓ} (cfg : RetryConfig) (service : String) (w : World V E) where
  -- after the loop
  abbrev give_up : Option E → CircuitBreaker → Run V E
  give_up none b = record { outcome = assertion_failed; breaker = b; calls = 0; sleeps = [] }
  give_up (some e) b = record {
    outcome = exhausted service cfg.max_attempts e;
    breaker = b;
    calls = 0;
    sleeps = [];
  }

  -- the rounds left of `for attempt in range(1, max_attempts + 1)`
  pub attempts_from : (left attempt : ℕ) → Option E → CircuitBreaker → Run V E
  attempts_from zero attempt last b = give_up last b
  attempts_from (suc left) attempt last before =
      let b = w.others attempt before in
      elim (w.call attempt) [
        | returned v ↦ record {
          outcome = value v;
          breaker = record_success b;
          calls = 1;
          sleeps = [];
        }
        | fatal e ↦ record { outcome = raised e; breaker = b; calls = 1; sleeps = [] }
        | retryable e ↦
            let b' = record_failure b (w.clock attempt) in
            let rest = attempts_from left (attempt + 1) (some e) b' in
            if attempt == cfg.max_attempts
            then called (give_up (some e) b')
            else slept (backoff attempt cfg (w.uniform attempt)) rest
      ]

  -- The wrapper, entered at `now`.
  pub retry : ℕ → CircuitBreaker → Run V E
  unfolding attempts_from
  retry now b = elim (before_call b now) [
    | some t ↦ record { outcome = circuit_open b.service t; breaker = b; calls = 0; sleeps = [] }
    | none ↦ attempts_from cfg.max_attempts 1 none b
  ]
