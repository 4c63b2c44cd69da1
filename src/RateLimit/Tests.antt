-- ===== src/RateLimit/Tests.antt =====
-- The limiter over a store of counters, at concrete inputs.
use chart_solar.Prelude.{
  ℕ, ◌+◌, String, ◌≡◌, refl, ap, sym, ◌∙◌, Bool, true, false, Option, none, some, [], ◌∷◌, Result,
  ok, err, arith, str_eq, eq_refl, if◌then◌else◌,
}
use chart_solar.RateLimit.{
  Redis, IsRedis, Entry, live, incremented, Request, check_rate_limit, client_ip,
}
use chart_solar.RateLimit.Window.{IsExpiring, calls, window_allows, window_never_ends}
use chart_solar.RateLimit.Client.{client_ip-append}

abbrev Store : Type 0
Store = String → Option Entry

abbrev put : String → Entry → Store → Store
put key e ks other = if str_eq other key then some e else ks other

-- counters by key; `deaf` is a store where EXPIRE fails
abbrev expired_at : Option Entry → String → ℕ → Store → Store
expired_at none key until ks = ks
expired_at (some (n, _)) key until ks = put key (n, some until) ks

abbrev expire_in : Bool → String → ℕ → ℕ → Store → Result String Store
expire_in true key window now ks = err "connection reset"
expire_in false key window now ks = ok (expired_at (ks key) key (now + window) ks)

abbrev store : Bool → Redis
store deaf = record {
  Keys = Store;
  incr = λ key now ks. let next = incremented (live now (ks key)) in ok (next.0, put key next ks);
  expire = expire_in deaf;
  entry = λ key ks. ks key;
}

put_here : (key : String) (e : Entry) (ks : Store) → put key e ks key ≡ some e
put_here key e ks = rw (eq_refl key) refl

-- the entry of a key after an operation that answered
abbrev entry_in : String → Result String (ℕ × Store) → Option Entry
entry_in key (ok (n, ks)) = ks key
entry_in key (err e) = none

abbrev count_in : Result String (ℕ × Store) → ℕ
count_in (ok (n, ks)) = n
count_in (err e) = 0

abbrev key_in : String → Result String Store → Option Entry
key_in key (ok ks) = ks key
key_in key (err e) = none

expire_entry :
    (deaf : Bool) (key : String) (window now n : ℕ) (until : Option ℕ) (ks ks' : Store)
    → ks key ≡ some (n, until)
    → expire_in deaf key window now ks ≡ ok ks'
    → ks' key ≡ some (n, some (now + window))
expire_entry true key window now n until ks ks' e h = absurd (ground arith)
expire_entry false key window now n until ks ks' e h =
    sym (ap (key_in key) h)
    ∙ ap (λ o. expired_at o key (now + window) ks key) e
    ∙ put_here key (n, some (now + window)) ks

store-IsRedis : (deaf : Bool) → IsRedis (store deaf)
store-IsRedis deaf = record {
  incr_entry = λ key now n ks ks' h. (
    sym (ap count_in h),
    sym (ap (entry_in key) h) ∙ put_here key (incremented (live now (ks key))) ks,
  );
  expire_entry = expire_entry deaf;
}

expiring : IsExpiring (store false)
expiring key window now ks = (_, refl)

abbrev fresh : Store
fresh _ = none

-- five calls of a bucket of three within its hour
window_allows_example :
    calls (store false) "rl:login_ip:a" 3 3600 (0 ∷ 10 ∷ 20 ∷ 30 ∷ 3599 ∷ []) fresh
    ≡ true ∷ true ∷ true ∷ false ∷ false ∷ []
window_allows_example =
    window_allows (store false) (store-IsRedis false) "rl:login_ip:a" 3 3600
      (λ key now ks. (_, _, refl)) expiring 0 (10 ∷ 20 ∷ 30 ∷ 3599 ∷ []) fresh refl
      (omega arith, (omega arith, (omega arith, (omega arith, tt))))

-- calls of a bucket of two, days after its counter was left without an end
window_never_ends_example :
    calls
      (store true)
      "rl:login_ip:a"
      2
      3600
      (1_000_000 ∷ 2_000_000 ∷ 3_000_000 ∷ [])
      (check_rate_limit (store true) "rl:login_ip:a" 2 3600 0 fresh).1
    ≡ true ∷ false ∷ false ∷ []
window_never_ends_example =
    window_never_ends (store true) (store-IsRedis true) "rl:login_ip:a" 2 3600
      (λ key now ks. (_, _, refl)) "connection reset" 0 1 (1_000_000 ∷ 2_000_000 ∷ 3_000_000 ∷ [])
      fresh (put "rl:login_ip:a" (1, none) fresh) refl refl refl

abbrev proxied : Request
proxied = record { peer = some "10.0.0.1"; forwarded_for = some "6.6.6.6, 1.2.3.4" }

client_ip-append_example : client_ip 1 (λ h. "6.6.6.6" ∷ "1.2.3.4" ∷ []) proxied ≡ "1.2.3.4"
client_ip-append_example =
    client_ip-append (λ h. "6.6.6.6" ∷ "1.2.3.4" ∷ []) proxied "6.6.6.6, 1.2.3.4" "1.2.3.4"
      ("6.6.6.6" ∷ []) [] refl refl
