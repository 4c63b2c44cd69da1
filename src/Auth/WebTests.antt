-- ===== src/Auth/WebTests.antt =====
-- The routes of backend/api/auth at concrete inputs.
use Prim.Native.String.{◌++◌}
use chart_solar.Prelude.{
  ℕ, ◌+◌, String, ◌≡◌, refl, true, false, none, some, ok, [], ◌∷◌, leb, if◌then◌else◌,
}
use chart_solar.Sql.Sample.{sample, sample-IsSql}
use chart_solar.Entitlements.{anonymous_user_id}
use chart_solar.RateLimit.{Redis}
use chart_solar.Auth.{
  User, MagicLink, AuthDb, Lib, AuthSettings, check_link, upsert_user, consume_writes,
  consume_magic_link,
}
use chart_solar.Auth.Routes.{
  Login, Proxies, Cookie, gone, login, callback, logout, session_cookie, middleware_user_id,
}
use chart_solar.Auth.Web.{with_accounts, login_same, web_session}

abbrev plain : Lib
plain = record {
  sha256_hex = λ s. s;
  normalise = λ s. s;
  Url = String;
  urlparse = λ s. s;
  urlunparse = λ s. s;
  query = λ s. "";
  with_query = λ u q. u ++ q;
  urlencode_token = λ t. t;
}

abbrev settings : AuthSettings
settings = record { magic_link_ttl = 900; session_ttl = 2_592_000; callback_url = "/auth" }

abbrev bob : User
bob = record { id = 7; email = "bob@x"; aggregation_opt_out = false }

abbrev link : MagicLink
link = record { token_hash = "t1"; email = "bob@x"; expires_at = 900; consumed_at = none }

abbrev start : AuthDb
start = record { users = bob ∷ []; links = link ∷ []; sessions = [] }

-- a Redis that counts calls of all keys together
abbrev counter : Redis
counter = record {
  Keys = ℕ;
  incr = λ key now n. ok (n + 1, n + 1);
  expire = λ key window now n. ok n;
  entry = λ key n. none;
}

abbrev direct : Proxies
direct = record { hops = 0; entries = λ header. [] }

abbrev asks : Login
asks = record {
  request = record { peer = some "1.2.3.4"; forwarded_for = none };
  email = "bob@x";
  now = 10;
  raw_token = "t2";
  email_fails = false;
}

login_same_example :
    (login sample plain settings counter direct asks 0 (with_accounts [] [] start)).0
    ≡ (login sample plain settings counter direct asks 0 start).0
login_same_example = login_same sample plain settings counter direct asks 0 start [] []

abbrev cookie : Cookie
cookie = session_cookie sample plain settings true "s1"

abbrev after : AuthDb
after = (callback sample plain settings true "t1" 100 8 "s1" start).1

web_session_example :
    (cookie ≡ session_cookie sample plain settings true "s1")
    × ((t : ℕ)
        → middleware_user_id sample plain settings (λ n. "u7") false (some "s1") t after
          ≡ (if leb (100 + 2_592_000) t then anonymous_user_id else "u7"))
    × ((out t : ℕ)
        → middleware_user_id sample plain settings
            (λ n. "u7")
            false
            (some "s1")
            t
            (logout sample plain settings (some "s1") out after)
          ≡ anonymous_user_id)
    × ((later id : ℕ) (raw : String)
        → callback sample plain settings true "t1" later id raw after ≡ (gone, after))
unfolding callback consume_magic_link check_link consume_writes upsert_user
web_session_example =
    web_session sample sample-IsSql plain settings true (λ n. "u7") "t1" 100 8 "s1" start bob cookie
      refl refl
