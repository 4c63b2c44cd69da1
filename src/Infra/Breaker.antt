-- ===== src/Infra/Breaker.antt =====
-- backend/infra/retry.py: the circuit breaker and the registry of breakers. Times are whole ticks
-- of the monotonic clock.
pub mod History
use chart_solar.Prelude.{
  ℕ, suc, ◌+◌, String, Bool, Option, none, some, List, [], ◌∷◌, map, ltb, leb, str_eq,
  if◌then◌else◌,
}

pub record RetryConfig : Type 0 where
  pub max_attempts : ℕ
  pub base_delay : ℕ
  pub max_delay : ℕ
  pub jitter : ℕ
  pub breaker_threshold : ℕ
  pub breaker_cooldown : ℕ

-- `DEFAULT_CONFIG`, in milliseconds
abbrev pub default_config : RetryConfig
default_config = record {
  max_attempts = 4;
  base_delay = 200;
  max_delay = 5000;
  jitter = 100;
  breaker_threshold = 3;
  breaker_cooldown = 60_000;
}

pub record CircuitBreaker : Type 0 where
  pub service : String
  pub threshold : ℕ
  pub cooldown : ℕ
  pub failures : ℕ
  pub opened_at : Option ℕ

abbrev pub new_breaker : String → ℕ → ℕ → CircuitBreaker
new_breaker service threshold cooldown = record {
  service = service;
  threshold = threshold;
  cooldown = cooldown;
  failures = 0;
  opened_at = none;
}

-- `some t` is `CircuitOpenError` with `opened_at = t`. `now - opened_at < cooldown_s` is written
-- with the sum on the right, which says the same also where the difference would be negative.
unfoldable pub before_call : CircuitBreaker → ℕ → Option ℕ
before_call b now = elim b.opened_at [
  | none ↦ none
  | some t ↦ if ltb now (t + b.cooldown) then some t else none
]

unfoldable pub record_success : CircuitBreaker → CircuitBreaker
record_success b = record b { failures = 0; opened_at = none }

unfoldable pub record_failure : CircuitBreaker → ℕ → CircuitBreaker
record_failure b now = record b {
  failures = b.failures + 1;
  opened_at = if leb b.threshold (b.failures + 1) then some now else b.opened_at;
}

unfoldable pub reset : CircuitBreaker → CircuitBreaker
reset b = record b { failures = 0; opened_at = none }

-- `_breakers`, the dict of breakers by service
abbrev pub Breakers : Type 0
Breakers = List (String × CircuitBreaker)

pub find_breaker : String → Breakers → Option CircuitBreaker
find_breaker service [] = none
find_breaker service ((s, b) ∷ rest) =
    if str_eq s service then some b else find_breaker service rest

pub get_breaker : String → RetryConfig → Breakers → CircuitBreaker × Breakers
get_breaker service cfg breakers = elim (find_breaker service breakers) [
  | some b ↦ (b, breakers)
  | none ↦
      let b = new_breaker service cfg.breaker_threshold cfg.breaker_cooldown in
      (b, (service, b) ∷ breakers)
]

pub reset_breakers : Breakers → Breakers
unfolding reset
reset_breakers [] = []
reset_breakers ((s, b) ∷ rest) = (s, reset b) ∷ reset_breakers rest
