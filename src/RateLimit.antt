-- ===== src/RateLimit.antt =====
-- backend/infra/rate_limit.py: the counter of a window in Redis, and the address a caller is
-- counted under. Redis is no code of the repository: it is a record of operations, with what the
-- documentation of INCR and EXPIRE says as laws. Times are seconds.
pub mod Window
pub mod Client
mod Tests
use Prim.Native.String.{◌++◌}
use chart_solar.Prelude.{
  ℕ, suc, ◌+◌, ◌-◌, String, ◌≡◌, ◌≢◌, Bool, true, false, Option, none, some, List, Result, ok, err,
  ltb, leb, ◌==◌, or_else, length, get_elem?, if◌then◌else◌,
}

-- A counter and the time from which it is gone; `none` is a key that does not expire.
abbrev pub Entry : Type 0
Entry = ℕ × Option ℕ

-- The entry that is still there.
abbrev pub live : ℕ → Option Entry → Option Entry
live now none = none
live now (some (n, none)) = some (n, none)
live now (some (n, some until)) = if ltb now until then some (n, some until) else none

abbrev pub incremented : Option Entry → Entry
incremented none = (1, none)
incremented (some (n, until)) = (n + 1, until)

pub record Redis : Type 1 where
  pub Keys : Type 0
  -- `err` is an exception of the client, `ok` the new count
  pub incr : String → ℕ → Keys → Result String (ℕ × Keys)
  -- EXPIRE of a key, in so many seconds from now
  pub expire : String → ℕ → ℕ → Keys → Result String Keys
  -- the entry of a key, for the laws
  pub entry : String → Keys → Option Entry

pub record IsRedis (redis : Redis) : Type 0 where
  pub incr_entry :
      (key : String) (now n : ℕ) (ks ks' : redis.Keys)
      → redis.incr key now ks ≡ ok (n, ks')
      → let next = incremented (live now (redis.entry key ks)) in
        (n ≡ next.0) × (redis.entry key ks' ≡ some next)
  pub expire_entry :
      (key : String) (window now n : ℕ) (until : Option ℕ) (ks ks' : redis.Keys)
      → redis.entry key ks ≡ some (n, until)
      → redis.expire key window now ks ≡ ok ks'
      → redis.entry key ks' ≡ some (n, some (now + window))

-- what the limiter sees of a request
pub record Request : Type 0 where
  pub peer : Option String
  pub forwarded_for : Option String

module _ (redis : Redis) where
  -- Whether the call is allowed, and the keys; a failure of Redis allows it.
  unfoldable pub check_rate_limit : String → ℕ → ℕ → ℕ → redis.Keys → Bool × redis.Keys
  check_rate_limit key limit window_seconds now ks = elim (redis.incr key now ks) [
    | err e ↦ (true, ks)
    | ok (count, ks') ↦
        if count == 1
        then elim (redis.expire key window_seconds now ks') [
          | err e ↦ (true, ks')
          | ok ks'' ↦ (leb count limit, ks'')
        ]
        else (leb count limit, ks')
  ]

-- `hops` is `settings.trust_forwarded_for_hops`, `entries` splits a header at its commas, strips
-- the parts and drops the empty ones.
unfoldable pub client_ip : ℕ → (String → List String) → Request → String
client_ip hops entries request =
    let peer = or_else request.peer "unknown" in
    if hops == 0 then peer else elim request.forwarded_for [
      | none ↦ peer
      | some forwarded ↦
          let parts = entries forwarded in
          if ltb (length parts) hops
          then peer
          else or_else (get_elem? parts (length parts - hops)) peer
    ]

module _ (redis : Redis) where
  -- The `_check` of `rate_limit_dependency`: `none` is HTTP 429.
  unfoldable pub rate_limit_check :
      String
      → ℕ
      → ℕ
      → (Request → String)
      → ℕ
      → Request
      → redis.Keys
      → Option (Unit {0}) × redis.Keys
  unfolding check_rate_limit
  rate_limit_check bucket limit window_seconds key_fn now request ks =
      let redis_key = "rl:" ++ (bucket ++ (":" ++ key_fn request)) in
      let (allowed, ks') = check_rate_limit redis redis_key limit window_seconds now ks in
      ((if allowed then some tt else none), ks')
