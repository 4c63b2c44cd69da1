-- ===== src/RateLimit/Window.antt =====
-- backend/infra/rate_limit.py: how many calls one window lets through, and a window without end.
use chart_solar.Prelude.{
  ℕ, zero, suc, ◌+◌, ◌<◌, String, ◌≡◌, refl, Bool, true, Option, none, some, List, [], ◌∷◌, All, ok,
  err, arith, leb, length,
}
use chart_solar.RateLimit.{Redis, IsRedis, live, check_rate_limit}

-- INCR answers.
abbrev pub IsCounting : Redis → Type 0
IsCounting redis =
    (key : String) (now : ℕ) (ks : redis.Keys)
    → (n : ℕ) × (ks' : redis.Keys) × (redis.incr key now ks ≡ ok (n, ks'))

-- EXPIRE answers.
abbrev pub IsExpiring : Redis → Type 0
IsExpiring redis =
    (key : String) (window now : ℕ) (ks : redis.Keys)
    → (ks' : redis.Keys) × (redis.expire key window now ks ≡ ok ks')

-- the answers to calls of one bucket at these times, in their order
abbrev pub calls : (redis : Redis) → String → ℕ → ℕ → List ℕ → redis.Keys → List Bool
calls redis key limit window [] ks = []
calls redis key limit window (now ∷ later) ks =
    let (allowed, ks') = check_rate_limit redis key limit window now ks in
    allowed ∷ calls redis key limit window later ks'

-- The answers to `n` calls after `k` others: allowed up to the limit.
abbrev pub allowed_from : ℕ → ℕ → ℕ → List Bool
allowed_from limit k zero = []
allowed_from limit k (suc n) = leb (k + 1) limit ∷ allowed_from limit (k + 1) n

module _ (redis : Redis) (laws : IsRedis redis) (key : String) (limit window : ℕ) where
  -- a call within a window that is open
  counted :
      (up : IsCounting redis) (k now : ℕ) (until : Option ℕ) (ks : redis.Keys)
      → live now (redis.entry key ks) ≡ some (suc k, until)
      → let (allowed, ks') = check_rate_limit redis key limit window now ks in
        (allowed ≡ leb (suc k + 1) limit) × (redis.entry key ks' ≡ some (suc (suc k), until))
  unfolding check_rate_limit
  counted up k now until ks h =
      let (n, ks', e) = up key now ks in
      let (count, entry) = laws.incr_entry key now n ks ks' e in (ground arith, ground arith)

  -- the call that opens a window
  opened :
      (up : IsCounting redis) (expiring : IsExpiring redis) (now : ℕ) (ks : redis.Keys)
      → live now (redis.entry key ks) ≡ none
      → let (allowed, ks') = check_rate_limit redis key limit window now ks in
        (allowed ≡ leb 1 limit) × (redis.entry key ks' ≡ some (1, some (now + window)))
  unfolding check_rate_limit
  opened up expiring now ks h =
      let (n, ks', e) = up key now ks in
      let (count, entry) = laws.incr_entry key now n ks ks' e in
      let (ks'', e') = expiring key window now ks' in
      let set = laws.expire_entry key window now 1 none ks' ks'' (ground arith) e' in
      (ground arith, ground arith)

  -- the first call, when EXPIRE raises
  left_open :
      (e : String) (now n : ℕ) (ks ks' : redis.Keys)
      → live now (redis.entry key ks) ≡ none
      → redis.incr key now ks ≡ ok (n, ks')
      → redis.expire key window now ks' ≡ err e
      → (check_rate_limit redis key limit window now ks ≡ (true, ks'))
        × (redis.entry key ks' ≡ some (1, none))
  unfolding check_rate_limit
  left_open e now n ks ks' h up down =
      let (count, entry) = laws.incr_entry key now n ks ks' up in (ground arith, ground arith)

  counted_calls :
      (up : IsCounting redis) (k until : ℕ) (times : List ℕ) (ks : redis.Keys)
      → redis.entry key ks ≡ some (suc k, some until)
      → All (λ t. t < until) times
      → calls redis key limit window times ks ≡ allowed_from limit (suc k) (length times)
  counted_calls up k until [] ks h soon = refl
  counted_calls up k until (now ∷ times) ks h soon =
      let (allowed, next) = counted up k now (some until) ks (ground (arith, soon.0)) in
      ground (
        arith,
        counted_calls up (suc k) until times (check_rate_limit redis key limit window now ks).1 next
            soon.1,
      )

  endless_calls :
      (up : IsCounting redis) (k : ℕ) (times : List ℕ) (ks : redis.Keys)
      → redis.entry key ks ≡ some (suc k, none)
      → calls redis key limit window times ks ≡ allowed_from limit (suc k) (length times)
  endless_calls up k [] ks h = refl
  endless_calls up k (now ∷ times) ks h =
      let (allowed, next) = counted up k now none ks (ground arith) in
      ground (
        arith,
        endless_calls up (suc k) times (check_rate_limit redis key limit window now ks).1 next,
      )

  -- Of the calls of one bucket in one window, which the first of them opens, exactly the first
  -- `limit` are let through, whatever their times before the window's end and in whatever order
  -- the clock reads them.
  pub window_allows :
      (up : IsCounting redis) (expiring : IsExpiring redis) (now : ℕ) (later : List ℕ)
      (ks : redis.Keys)
      → live now (redis.entry key ks) ≡ none
      → All (λ t. t < now + window) later
      → calls redis key limit window (now ∷ later) ks ≡ allowed_from limit 0 (length (now ∷ later))
  window_allows up expiring now later ks h soon =
      let (allowed, next) = opened up expiring now ks h in
      ground (
        arith,
        counted_calls up 0 (now + window) later (check_rate_limit redis key limit window now ks).1
            next soon,
      )

  -- When INCR opens the window of a bucket and EXPIRE then fails, the counter never ends: of all
  -- calls that follow, at whatever times, however late, only `limit - 1` are let through.
  pub window_never_ends :
      (up : IsCounting redis) (e : String) (now n : ℕ) (times : List ℕ) (ks ks' : redis.Keys)
      → live now (redis.entry key ks) ≡ none
      → redis.incr key now ks ≡ ok (n, ks')
      → redis.expire key window now ks' ≡ err e
      → calls redis key limit window times (check_rate_limit redis key limit window now ks).1
        ≡ allowed_from limit 1 (length times)
  window_never_ends up e now n times ks ks' h first down =
      let (here, entry) = left_open e now n ks ks' h first down in
      rw here (endless_calls up 0 times ks' entry)
