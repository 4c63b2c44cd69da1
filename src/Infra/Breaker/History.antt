-- ===== src/Infra/Breaker/History.antt =====
-- The breaker of backend/infra/retry.py against the history of what was recorded on it.
use chart_solar.Prelude.{
  ℕ, suc, ◌+◌, ◌<◌, String, ◌≡◌, ◌↔◌, refl, Option, none, some, List, [], ◌∷◌, arith, leb, eq_refl,
  if◌then◌else◌,
}
use chart_solar.Infra.Breaker.{
  CircuitBreaker, RetryConfig, Breakers, new_breaker, before_call, record_success, record_failure,
  reset, find_breaker, get_breaker,
}

pub data Event : Type 0 where
  succeeded : Event
  failed : ℕ → Event
  was_reset : Event

unfoldable pub step : CircuitBreaker → Event → CircuitBreaker
unfolding record_success record_failure reset
step b succeeded = record_success b
step b (failed now) = record_failure b now
step b was_reset = reset b

-- A history lists the latest event first; calls of any thread stand in it in the lock's order.
unfoldable pub replay : CircuitBreaker → List Event → CircuitBreaker
unfolding step
replay b [] = b
replay b (e ∷ past) = step (replay b past) e

-- The failures since the last success or reset.
abbrev pub trailing_failures : List Event → ℕ
trailing_failures [] = 0
trailing_failures (succeeded ∷ past) = 0
trailing_failures (failed _ ∷ past) = suc (trailing_failures past)
trailing_failures (was_reset ∷ past) = 0

-- When the circuit opened last: the latest failure that made the count reach the threshold.
abbrev pub opened : ℕ → List Event → Option ℕ
opened threshold [] = none
opened threshold (succeeded ∷ past) = none
opened threshold (failed now ∷ past) =
    if leb threshold (suc (trailing_failures past)) then some now else none
opened threshold (was_reset ∷ past) = none

-- A recorded threshold below the count: then the circuit was not open before either.
opened_below :
    (threshold : ℕ) (past : List Event)
    → trailing_failures past < threshold
    → opened threshold past ≡ none
opened_below threshold [] h = refl
opened_below threshold (succeeded ∷ past) h = refl
opened_below threshold (failed now ∷ past) h = ground arith
opened_below threshold (was_reset ∷ past) h = refl

abbrev pub Agrees : CircuitBreaker → String → ℕ → ℕ → List Event → Type 0
Agrees b service threshold cooldown past =
    (b.failures ≡ trailing_failures past)
    × (b.opened_at ≡ opened threshold past)
    × (b.threshold ≡ threshold)
    × (b.cooldown ≡ cooldown)
    × (b.service ≡ service)

module _ (service : String) (threshold cooldown : ℕ) where
  -- After any sequence of recorded successes, failures and resets, a new breaker counts exactly
  -- the failures since the last success or reset, and it is open exactly when that count has
  -- reached the threshold, with the time of the latest failure.
  pub replay-Agrees :
      (past : List Event)
      → Agrees
          (replay (new_breaker service threshold cooldown) past)
          service
          threshold
          cooldown
          past
  unfolding replay
  replay-Agrees [] = (refl, refl, refl, refl, refl)
  replay-Agrees (succeeded ∷ past) = let h = replay-Agrees past in (refl, refl, h.2, h.3, h.4)
  replay-Agrees (failed now ∷ past) =
      ground (arith, replay-Agrees past, opened_below threshold past)
  replay-Agrees (was_reset ∷ past) = let h = replay-Agrees past in (refl, refl, h.2, h.3, h.4)

  -- A breaker that has recorded any history refuses a call at `now`
  -- exactly when the failures since the last success or reset have reached the threshold and the
  -- latest of them is less than the cooldown ago.
  pub before_call-refuses :
      (past : List Event) (now t : ℕ)
      → (before_call (replay (new_breaker service threshold cooldown) past) now ≡ some t)
        ↔ ((opened threshold past ≡ some t) × (now < t + cooldown))
  unfolding before_call
  before_call-refuses past now t =
      let h = replay-Agrees past in (λ e. ground (arith, h), λ e. ground (arith, h))

-- The first configuration of a service wins: a later look-up, whatever its configuration, returns
-- the same breaker and adds none.
pub get_breaker_twice :
    (service : String) (cfg other : RetryConfig) (breakers : Breakers)
    → let (b, after) = get_breaker service cfg breakers in
      get_breaker service other after ≡ (b, after)
unfolding get_breaker find_breaker
get_breaker_twice service cfg other breakers = ground (arith, eq_refl service)
