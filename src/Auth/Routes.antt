-- ===== src/Auth/Routes.antt =====
-- backend/api/auth/magic_link.py and backend/api/auth/session_middleware.py: sign-in, callback,
-- sign-out, and the user that a request's cookie stands for.
use Prim.Native.String.{◌++◌}
use chart_solar.Prelude.{
  ℕ, String, Bool, true, false, Option, none, some, List, Result, ok, err, str_eq, if◌then◌else◌,
}
use chart_solar.Sql.{Sql}
use chart_solar.Entitlements.{anonymous_user_id}
use chart_solar.RateLimit.{Redis, Request, check_rate_limit, client_ip, rate_limit_check}
use chart_solar.Auth.{
  User, AuthDb, AuthError, integrity_error, unknown_link, already_consumed, link_expired, Lib,
  AuthSettings, PendingMagicLinkEmail, issue_magic_link, consume_magic_link, revoke_session,
  user_id_for_session_token,
}

abbrev pub login_per_ip_limit : ℕ
login_per_ip_limit = 20

abbrev pub login_per_email_limit : ℕ
login_per_email_limit = 5

-- both windows
abbrev pub login_window_seconds : ℕ
login_window_seconds = 3600

-- The answers of the login: HTTP 429, the fixed body, or an exception that nobody catches.
pub data LoginReply : Type 0 where
  too_many_requests magic_link_sent login_failed : LoginReply

pub record Cookie : Type 0 where
  pub value : String
  pub max_age : ℕ
  pub httponly : Bool
  pub secure : Bool
  pub samesite : String
  pub path : String

-- The callback: HTTP 410 without a reason, the user with the cookie, or an uncaught exception.
pub data CallbackReply : Type 0 where
  gone callback_failed : CallbackReply
  signed_in : User → Cookie → CallbackReply

-- One login: the request, what its body holds, and what the process draws for it.
pub record Login : Type 0 where
  pub request : Request
  pub email : String
  pub now : ℕ
  pub raw_token : String
  pub email_fails : Bool

-- what the deployment sets for the throttle of an address
pub record Proxies : Type 0 where
  pub hops : ℕ
  pub entries : String → List String

module _ (db : Sql) (lib : Lib) (settings : AuthSettings) (redis : Redis) (proxies : Proxies) where
  -- `send_magic_link_email`
  abbrev send : Bool → PendingMagicLinkEmail → LoginReply × Option PendingMagicLinkEmail
  send true pending = (login_failed, none)
  send false pending = (magic_link_sent, some pending)

  -- the body of the route, after the throttle of the address
  abbrev login_body :
      Login
      → redis.Keys
      → AuthDb
      → ((LoginReply × Option PendingMagicLinkEmail) × redis.Keys) × AuthDb
  login_body l keys st =
      let email = lib.normalise l.email in
      let (allowed, keys') =
        check_rate_limit redis ("rl:login_email:" ++ email) login_per_email_limit
          login_window_seconds l.now keys in
      if allowed
      then (let (issued, st') = issue_magic_link db lib settings email none l.now l.raw_token st in
          elim issued [
            | err e ↦ (((login_failed, none), keys'), st')
            | ok pending ↦ ((send l.email_fails pending, keys'), st')
          ])
      else (((too_many_requests, none), keys'), st)

  -- The answer, the email that goes out, and the state.
  unfoldable pub login :
      Login
      → redis.Keys
      → AuthDb
      → ((LoginReply × Option PendingMagicLinkEmail) × redis.Keys) × AuthDb
  login l keys st =
      let (pass, keys') =
        rate_limit_check redis "login_ip" login_per_ip_limit login_window_seconds
          (client_ip proxies.hops proxies.entries) l.now l.request keys in
      elim pass [ none ↦ (((too_many_requests, none), keys'), st) | some _ ↦ login_body l keys' st ]

module _ (db : Sql) (lib : Lib) (settings : AuthSettings) (cookie_secure : Bool) where
  abbrev pub session_cookie : String → Cookie
  session_cookie token = record {
    value = token;
    max_age = settings.session_ttl;
    httponly = true;
    secure = cookie_secure;
    samesite = "lax";
    path = "/";
  }

  -- `MagicLinkError` is caught, whatever its reason; nothing else is.
  abbrev pub callback_reply : Result AuthError (User × String) → CallbackReply
  callback_reply (ok (user, token)) = signed_in user (session_cookie token)
  callback_reply (err unknown_link) = gone
  callback_reply (err already_consumed) = gone
  callback_reply (err link_expired) = gone
  callback_reply (err integrity_error) = callback_failed

  unfoldable pub callback : String → ℕ → ℕ → String → AuthDb → CallbackReply × AuthDb
  callback token now fresh_id raw_session st =
      let (result, st') = consume_magic_link db lib settings token now fresh_id raw_session st in
      (callback_reply result, st')

module _ (db : Sql) (lib : Lib) (settings : AuthSettings) where
  -- The reply is the same for every cookie; it deletes the cookie.
  unfoldable pub logout : Option String → ℕ → AuthDb → AuthDb
  logout none now st = st
  logout (some cookie) now st =
      let (flipped, st') = revoke_session db lib settings cookie now st in
      if str_eq cookie "" then st else st'

  -- `request.state.user_id`; `lookup_fails` stands for an exception of the look-up, which is
  -- caught, and for a process without a database, which is not asked; `show` is `str` of a UUID.
  unfoldable pub middleware_user_id : (ℕ → String) → Bool → Option String → ℕ → AuthDb → String
  middleware_user_id show lookup_fails none now st = anonymous_user_id
  middleware_user_id show lookup_fails (some token) now st =
      if str_eq token ""
      then anonymous_user_id
      else if lookup_fails
      then anonymous_user_id
      else elim (user_id_for_session_token db lib settings token now st) [
        | none ↦ anonymous_user_id
        | some user_id ↦ show user_id
      ]
