-- ===== src/Infra/Retry/Calls.antt =====
-- What a caller of the decorated function of backend/infra/retry.py can rely on.
use chart_solar.Prelude.{
  ℕ, zero, suc, ◌+◌, ◌≤◌, ◌<◌, String, ◌≡◌, refl, ap, [], none, some, arith, length,
}
use chart_solar.Infra.Breaker.{CircuitBreaker, RetryConfig, before_call}
use chart_solar.Infra.Retry.{
  returned, value, circuit_open, exhausted, World, Run, attempts_from, retry,
}
use chart_solar.Infra.Retry.Laws.{
  FailsFor, loop-IsBounded, loop-succeeds, loop-exhausts, loop-opens,
}

module _ {ℓ} {V E : Type ℓ} (cfg : RetryConfig) (service : String) (w : World V E) where
  abbrev pub run : ℕ → CircuitBreaker → Run V E
  run = retry cfg service w

  entered :
      (now : ℕ) (b : CircuitBreaker)
      → before_call b now ≡ none
      → run now b ≡ attempts_from cfg service w cfg.max_attempts 1 none b
  unfolding retry
  entered now b e = ground arith

  -- Whatever the attempts, the clock, the jitter and the other callers do, the function is called
  -- at most `max_attempts` times, and never more sleeps are taken than calls are made.
  pub retry_bounds :
      (now : ℕ) (b : CircuitBreaker)
      → let r = run now b in (r.calls ≤ cfg.max_attempts) × (length r.sleeps ≤ r.calls)
  unfolding retry
  retry_bounds now b = ground (arith, loop-IsBounded cfg service w cfg.max_attempts 1 none b)

  -- A breaker that is open and has not cooled down ends the call with its own error: the function
  -- is not called, nothing is slept, and the breaker is left as it was.
  pub retry_refused :
      (now t : ℕ) (b : CircuitBreaker)
      → b.opened_at ≡ some t
      → now < t + b.cooldown
      → run now b
        ≡ record { outcome = circuit_open b.service t; breaker = b; calls = 0; sleeps = [] }
  unfolding retry before_call
  retry_refused now t b e lt = ground arith

  -- If the breaker lets the call in, the first `k` attempts fail with errors that are retried, and
  -- attempt `k + 1` of at most `max_attempts` returns, then that value is the result, after exactly
  -- `k + 1` calls and `k` sleeps, and the breaker is closed with no failure counted.
  pub retry_succeeds :
      (now k : ℕ) (b : CircuitBreaker) (errs : ℕ → E) (v : V)
      → before_call b now ≡ none
      → FailsFor cfg service w errs 1 k
      → w.call (1 + k) ≡ returned v
      → k < cfg.max_attempts
      → let r = run now b in
        (r.outcome ≡ value v)
        × (r.calls ≡ k + 1)
        × (length r.sleeps ≡ k)
        × (r.breaker.failures ≡ 0)
        × (r.breaker.opened_at ≡ none)
  retry_succeeds now k b errs v closed fails e lt =
      rw (entered now b closed)
        (loop-succeeds cfg service w k cfg.max_attempts 1 errs none b v fails e lt (omega arith))

  -- the same for a number of rounds that is only known to be positive
  all_fail :
      (left : ℕ) (errs : ℕ → E) (b : CircuitBreaker)
      → 0 < left
      → FailsFor cfg service w errs 1 left
      → left ≡ cfg.max_attempts
      → let r = attempts_from cfg service w left 1 none b in
        (r.outcome ≡ exhausted service cfg.max_attempts (errs cfg.max_attempts))
        × (r.calls ≡ left)
        × (length r.sleeps + 1 ≡ left)
  all_fail zero errs b pos fails m = absurd (omega arith)
  all_fail (suc n) errs b pos fails m =
      let h = loop-exhausts cfg service w n 1 errs none b fails (omega arith) in
      (h.0, h.1, omega arith)

  all_fail_opens :
      (left : ℕ) (errs : ℕ → E) (b : CircuitBreaker)
      → ((n : ℕ) (c : CircuitBreaker) → w.others n c ≡ c)
      → 0 < left
      → FailsFor cfg service w errs 1 left
      → left ≡ cfg.max_attempts
      → b.threshold ≤ left
      → let c = (attempts_from cfg service w left 1 none b).breaker in
        (c.opened_at ≡ some (w.clock cfg.max_attempts))
        × (c.cooldown ≡ b.cooldown)
        × (c.service ≡ b.service)
  all_fail_opens zero errs b alone pos fails m le = absurd (omega arith)
  all_fail_opens (suc n) errs b alone pos fails m le =
      loop-opens cfg service w n 1 errs none b alone fails (omega arith) (omega arith)

  -- If the breaker lets the call in and each of the `max_attempts` attempts, of which there is at
  -- least one, fails with an error that is retried, then the call ends as exhausted with the last
  -- error, after exactly `max_attempts` calls and one sleep fewer.
  pub retry_exhausts :
      (now : ℕ) (b : CircuitBreaker) (errs : ℕ → E)
      → before_call b now ≡ none
      → 0 < cfg.max_attempts
      → FailsFor cfg service w errs 1 cfg.max_attempts
      → let r = run now b in
        (r.outcome ≡ exhausted service cfg.max_attempts (errs cfg.max_attempts))
        × (r.calls ≡ cfg.max_attempts)
        × (length r.sleeps + 1 ≡ cfg.max_attempts)
  retry_exhausts now b errs closed pos fails =
      rw (entered now b closed) (all_fail cfg.max_attempts errs b pos fails refl)

-- If every attempt of an admitted call fails with an error that is retried, there is at least one
-- attempt, nobody else touches the breaker meanwhile, and the breaker's threshold is no more than
-- the number of attempts, then the circuit is open afterwards: the next call, of any
-- configuration and in any world, less than the cooldown after the last failure, raises the open
-- circuit's error and does not call the function.
pub exhausted_opens {ℓ} :
    {V E : Type ℓ} (cfg other : RetryConfig) (service : String) (w w' : World V E) (now later : ℕ)
    (b : CircuitBreaker) (errs : ℕ → E)
    → ((n : ℕ) (c : CircuitBreaker) → w.others n c ≡ c)
    → before_call b now ≡ none
    → 0 < cfg.max_attempts
    → FailsFor cfg service w errs 1 cfg.max_attempts
    → b.threshold ≤ cfg.max_attempts
    → later < w.clock cfg.max_attempts + b.cooldown
    → let c = (run cfg service w now b).breaker in
      ((run other service w' later c).outcome ≡ circuit_open b.service (w.clock cfg.max_attempts))
      × ((run other service w' later c).calls ≡ 0)
exhausted_opens cfg other service w w' now later b errs alone closed pos fails le lt =
    rw (entered cfg service w now b closed) (
      let (opened, cool, same) =
        all_fail_opens cfg service w cfg.max_attempts errs b alone pos fails refl le in
      let c = (attempts_from cfg service w cfg.max_attempts 1 none b).breaker in
      rw (retry_refused other service w' later (w.clock cfg.max_attempts) c opened (rw cool lt))
        (ap (λ s. circuit_open s (w.clock cfg.max_attempts)) same, refl))
