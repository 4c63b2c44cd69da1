-- ===== src/Infra/Retry/Laws.antt =====
-- What a call through the `retry` decorator of backend/infra/retry.py ends with.
use chart_solar.Prelude.{
  ℕ, zero, suc, ◌+◌, ◌≤◌, ◌<◌, String, ◌-◌, ◌*◌, ◌^◌, ◌≡◌, ◌≢◌, ◌⊎◌, inl, inr, refl, ap, Option,
  none, some, [], arith, length,
}
use native.Mathlib.Decide.{ℕ_discrete}
use native.Mathlib.Nat.{add-zero}
use chart_solar.Infra.Breaker.{CircuitBreaker, RetryConfig, record_success, record_failure}
use chart_solar.Infra.Retry.{
  Attempt, returned, retryable, fatal, value, exhausted, raised, World, Run, backoff, slept,
  attempts_from,
}

-- A sleep never exceeds the cap plus the jitter drawn, and reaches the cap once the doubling has.
pub backoff-le :
    (attempt : ℕ) (cfg : RetryConfig) (j : ℕ)
    → (backoff attempt cfg j ≤ cfg.max_delay + j)
      × (cfg.max_delay ≤ cfg.base_delay * 2 ^ (attempt - 1)
          → backoff attempt cfg j ≡ cfg.max_delay + j)
unfolding backoff
backoff-le attempt cfg j = (ground arith, λ h. ground arith)

Attempt-cases {ℓ} :
    {V E : Type ℓ} (a : Attempt V E)
    → ((v : V) × (a ≡ returned v)) ⊎ ((e : E) × (a ≡ fatal e)) ⊎ ((e : E) × (a ≡ retryable e))
Attempt-cases (returned v) = inl (v, refl)
Attempt-cases (fatal e) = inr (inl (e, refl))
Attempt-cases (retryable e) = inr (inr (e, refl))

module _ {ℓ} {V E : Type ℓ} (cfg : RetryConfig) (service : String) (w : World V E) where
  abbrev pub loop : ℕ → ℕ → Option E → CircuitBreaker → Run V E
  loop = attempts_from cfg service w

  -- the breaker after a failed attempt
  abbrev failed_once : ℕ → CircuitBreaker → CircuitBreaker
  failed_once attempt b = record_failure (w.others attempt b) (w.clock attempt)

  loop-returned :
      (left attempt : ℕ) (last : Option E) (b : CircuitBreaker) (v : V)
      → w.call attempt ≡ returned v
      → loop (suc left) attempt last b ≡ record {
        outcome = value v;
        breaker = record_success (w.others attempt b);
        calls = 1;
        sleeps = [];
      }
  unfolding attempts_from
  loop-returned left attempt last b v e = ground arith

  loop-fatal :
      (left attempt : ℕ) (last : Option E) (b : CircuitBreaker) (x : E)
      → w.call attempt ≡ fatal x
      → loop (suc left) attempt last b
        ≡ record { outcome = raised x; breaker = w.others attempt b; calls = 1; sleeps = [] }
  unfolding attempts_from
  loop-fatal left attempt last b x e = ground arith

  loop-last :
      (left attempt : ℕ) (last : Option E) (b : CircuitBreaker) (x : E)
      → w.call attempt ≡ retryable x
      → attempt ≡ cfg.max_attempts
      → loop (suc left) attempt last b ≡ record {
        outcome = exhausted service cfg.max_attempts x;
        breaker = failed_once attempt b;
        calls = 1;
        sleeps = [];
      }
  unfolding attempts_from
  loop-last left attempt last b x e m = ground arith

  loop-again :
      (left attempt : ℕ) (last : Option E) (b : CircuitBreaker) (x : E)
      → w.call attempt ≡ retryable x
      → attempt ≢ cfg.max_attempts
      → loop (suc left) attempt last b
        ≡ slept
            (backoff attempt cfg (w.uniform attempt))
            (loop left (attempt + 1) (some x) (failed_once attempt b))
  unfolding attempts_from
  loop-again left attempt last b x e m = ground arith

  abbrev pub IsBounded : ℕ → Run V E → Type 0
  IsBounded n r = (r.calls ≤ n) × (length r.sleeps ≤ r.calls)

  pub loop-IsBounded :
      (left attempt : ℕ) (last : Option E) (b : CircuitBreaker)
      → IsBounded left (loop left attempt last b)
  loop-IsBounded zero attempt none b = unfold attempts_from in ground arith
  loop-IsBounded zero attempt (some e) b = unfold attempts_from in ground arith
  loop-IsBounded (suc left) attempt last b = elim (Attempt-cases (w.call attempt)) [
    | inl (v, e) ↦ rw (loop-returned left attempt last b v e) (omega arith)
    | inr (inl (x, e)) ↦ rw (loop-fatal left attempt last b x e) (omega arith)
    | inr (inr (x, e)) ↦
        let ih = loop-IsBounded left (attempt + 1) (some x) (failed_once attempt b) in
        elim (ℕ_discrete attempt cfg.max_attempts) [
          | yes m ↦ rw (loop-last left attempt last b x e m) (omega arith)
          | no m ↦ rw (loop-again left attempt last b x e m) (omega arith)
        ]
  ]

  -- `k` retryable failures from `attempt` on
  abbrev pub FailsFor : (ℕ → E) → ℕ → ℕ → Type ℓ
  FailsFor errs attempt k = (i : ℕ) → i < k → w.call (attempt + i) ≡ retryable (errs (attempt + i))

  FailsFor-suc :
      (errs : ℕ → E) (attempt k : ℕ)
      → FailsFor errs attempt (suc k)
      → (w.call attempt ≡ retryable (errs attempt)) × FailsFor errs (attempt + 1) k
  FailsFor-suc errs attempt k h =
      (rw add-zero at (h 0 (omega arith)), λ i lt. rw (shift i) at (h (suc i) (omega arith)))
    where
      shift : (i : ℕ) → attempt + suc i ≡ attempt + 1 + i
      shift i = omega arith

  pub loop-succeeds :
      (k left attempt : ℕ) (errs : ℕ → E) (last : Option E) (b : CircuitBreaker) (v : V)
      → FailsFor errs attempt k
      → w.call (attempt + k) ≡ returned v
      → k < left
      → attempt + left ≡ cfg.max_attempts + 1
      → let r = loop left attempt last b in
        (r.outcome ≡ value v)
        × (r.calls ≡ k + 1)
        × (length r.sleeps ≡ k)
        × (r.breaker.failures ≡ 0)
        × (r.breaker.opened_at ≡ none)
  loop-succeeds k zero attempt errs last b v fails e lt m = absurd (omega arith)
  loop-succeeds zero (suc left) attempt errs last b v fails e lt m =
      rw (loop-returned left attempt last b v (rw add-zero at e))
        (unfold record_success in (refl, refl, refl, refl, refl))
  loop-succeeds (suc k) (suc left) attempt errs last b v fails e lt m =
      let (first, later) = FailsFor-suc errs attempt k fails in
      let ih =
        loop-succeeds k left (attempt + 1) errs (some (errs attempt)) (failed_once attempt b) v
          later (rw (next k) at e) (omega arith) (omega arith) in
      rw (loop-again left attempt last b (errs attempt) first (omega arith))
        (ih.0, omega arith, omega arith, ih.3, ih.4)
    where
      next : (k : ℕ) → attempt + suc k ≡ attempt + 1 + k
      next k = omega arith

  pub loop-exhausts :
      (left attempt : ℕ) (errs : ℕ → E) (last : Option E) (b : CircuitBreaker)
      → FailsFor errs attempt (suc left)
      → attempt + left ≡ cfg.max_attempts
      → let r = loop (suc left) attempt last b in
        (r.outcome ≡ exhausted service cfg.max_attempts (errs cfg.max_attempts))
        × (r.calls ≡ suc left)
        × (length r.sleeps ≡ left)
  loop-exhausts zero attempt errs last b fails m =
      let h = (FailsFor-suc errs attempt 0 fails).0 in
      let last_one : attempt ≡ cfg.max_attempts = omega arith in
      rw (loop-last zero attempt last b (errs attempt) h last_one)
        (ap (λ n. exhausted service cfg.max_attempts (errs n)) last_one, refl, refl)
  loop-exhausts (suc left) attempt errs last b fails m =
      let (first, later) = FailsFor-suc errs attempt (suc left) fails in
      let ih =
        loop-exhausts left (attempt + 1) errs (some (errs attempt)) (failed_once attempt b) later
          (omega arith) in
      rw (loop-again (suc left) attempt last b (errs attempt) first (omega arith))
        (ih.0, omega arith, omega arith)

  -- with nobody else at the breaker, an exhausted loop leaves the last failure's mark
  pub loop-opens :
      (left attempt : ℕ) (errs : ℕ → E) (last : Option E) (b : CircuitBreaker)
      → ((n : ℕ) (c : CircuitBreaker) → w.others n c ≡ c)
      → FailsFor errs attempt (suc left)
      → attempt + left ≡ cfg.max_attempts
      → b.threshold ≤ b.failures + suc left
      → let c = (loop (suc left) attempt last b).breaker in
        (c.opened_at ≡ some (w.clock cfg.max_attempts))
        × (c.cooldown ≡ b.cooldown)
        × (c.service ≡ b.service)
  unfolding record_failure
  loop-opens zero attempt errs last b alone fails m reached =
      let h = (FailsFor-suc errs attempt 0 fails).0 in
      let last_one : attempt ≡ cfg.max_attempts = omega arith in
      rw (loop-last zero attempt last b (errs attempt) h last_one, alone attempt b)
        (ground arith, refl, refl)
  loop-opens (suc left) attempt errs last b alone fails m reached =
      let (first, later) = FailsFor-suc errs attempt (suc left) fails in
      rw (loop-again (suc left) attempt last b (errs attempt) first (omega arith), alone attempt b)
        (loop-opens left (attempt + 1) errs (some (errs attempt))
          (record_failure b (w.clock attempt)) alone later (omega arith) (omega arith))
