-- ===== src/Auth/Web.antt =====
-- backend/api/auth: what a browser sees of a sign-in, and what an outsider learns from a login.
use chart_solar.Prelude.{
  ℕ, ◌+◌, String, ◌≡◌, refl, ap, ◌∙◌, Bool, false, Option, none, some, List, Result, ok, err, arith,
  leb, str_eq, Bool-cases, inl, inr, if◌then◌else◌,
}
use chart_solar.Sql.{Sql, IsSql, canonical}
use chart_solar.Entitlements.{anonymous_user_id}
use chart_solar.RateLimit.{Redis}
use chart_solar.Auth.{
  User, Session, AuthDb, AuthError, unknown_link, already_consumed, link_expired, integrity_error,
  Lib, AuthSettings, issue_magic_link, consume_magic_link, revoke_session,
  user_id_for_session_token,
}
use chart_solar.Auth.SignIn.{consume_signs_in, consume_once}
use chart_solar.Auth.Sessions.{revoked_dead}
use chart_solar.Auth.Routes.{
  Login, Proxies, Cookie, signed_in, gone, login, callback, logout, session_cookie, callback_reply,
  middleware_user_id,
}

-- The same tables, but for the users and the sessions.
abbrev pub with_accounts : List User → List Session → AuthDb → AuthDb
with_accounts users sessions st = record st { users = users; sessions = sessions }

module _ (db : Sql) (lib : Lib) (settings : AuthSettings) where
  issue_same :
      (email : String) (callback : Option String) (now : ℕ) (raw : String) (st : AuthDb)
      (users : List User) (sessions : List Session)
      → (issue_magic_link db lib settings email callback now raw
          (with_accounts users sessions st)).0
        ≡ (issue_magic_link db lib settings email callback now raw st).0
  unfolding issue_magic_link
  issue_same email callback now raw st users sessions = ground arith

module _ (db : Sql) (lib : Lib) (settings : AuthSettings) (redis : Redis) (proxies : Proxies) where
  -- What a login answers, what it mails, and what it counts depend on the request, the counters and
  -- the links alone: with any other users and sessions in the tables all three are the same, so a
  -- login does not tell whether an email has an account.
  pub login_same :
      (l : Login) (keys : redis.Keys) (st : AuthDb) (users : List User) (sessions : List Session)
      → (login db lib settings redis proxies l keys (with_accounts users sessions st)).0
        ≡ (login db lib settings redis proxies l keys st).0
  unfolding login
  login_same l keys st users sessions = ground (
    arith,
    issue_same db lib settings (lib.normalise l.email) none l.now l.raw_token st users sessions,
  )

module _ (db : Sql) (lib : Lib) (settings : AuthSettings) (secure : Bool) where
  reply_inv :
      (r : Result AuthError (User × String)) (user : User) (c : Cookie)
      → callback_reply db lib settings secure r ≡ signed_in user c
      → (token : String) × (r ≡ ok (user, token))
        × (c ≡ session_cookie db lib settings secure token)
  reply_inv (ok (u, token)) user c h = (token, ground arith, ground arith)
  reply_inv (err unknown_link) user c h = absurd (ground arith)
  reply_inv (err already_consumed) user c h = absurd (ground arith)
  reply_inv (err link_expired) user c h = absurd (ground arith)
  reply_inv (err integrity_error) user c h = absurd (ground arith)

  resolved :
      (show : ℕ → String) (raw : String) (t : ℕ) (found : Option ℕ) (st : AuthDb)
      → str_eq raw "" ≡ false
      → user_id_for_session_token db lib settings raw t st ≡ found
      → middleware_user_id db lib settings show false (some raw) t st
        ≡ elim found [ none ↦ anonymous_user_id | some user_id ↦ show user_id ]
  unfolding middleware_user_id
  resolved show raw t found st full e = rw (full, e) refl

module _ (db : Sql) (laws : IsSql db) (lib : Lib) (settings : AuthSettings) (secure : Bool) where
  after_logout :
      (show : ℕ → String) (raw : String) (out t : ℕ) (st : AuthDb)
      → str_eq raw "" ≡ false
      → middleware_user_id db lib settings show false
          (some raw)
          t
          (logout db lib settings (some raw) out st)
        ≡ anonymous_user_id
  unfolding logout
  after_logout show raw out t st full =
      let dead : user_id_for_session_token db lib settings raw t
            (revoke_session db lib settings raw out st).1
          ≡ none =
        rw (canonical db laws) (revoked_dead db.top lib settings raw out t st) in
      rw full (
        resolved db lib settings secure show raw t none
          (revoke_session db lib settings raw out st).1 full dead)

  until_expiry :
      (show : ℕ → String) (raw : String) (end t id : ℕ) (st : AuthDb)
      → str_eq raw "" ≡ false
      → user_id_for_session_token db lib settings raw t st ≡ (if leb end t then none else some id)
      → middleware_user_id db lib settings show false (some raw) t st
        ≡ (if leb end t then anonymous_user_id else show id)
  until_expiry show raw end t id st full e = elim (Bool-cases (leb end t)) [
    | inl over ↦ rw over (resolved db lib settings secure show raw t none st full (rw over at e))
    | inr soon ↦
        rw soon (resolved db lib settings secure show raw t (some id) st full (rw soon at e))
  ]

  -- A browser that a callback signs in gets a cookie with the new session's token, which the
  -- middleware resolves to the signed-in user exactly until the session's lifetime is over; once
  -- the browser signs out with it, at whatever time, the cookie stands for the anonymous user for
  -- ever; and the same link, opened again, is answered as gone and changes nothing.
  pub web_session :
      (show : ℕ → String) (token : String) (now fresh_id : ℕ) (raw_session : String) (st : AuthDb)
      (user : User) (cookie : Cookie)
      → str_eq raw_session "" ≡ false
      → (callback db lib settings secure token now fresh_id raw_session st).0
        ≡ signed_in user cookie
      → let st' = (callback db lib settings secure token now fresh_id raw_session st).1 in
        (cookie ≡ session_cookie db lib settings secure raw_session)
        × ((t : ℕ)
            → middleware_user_id db lib settings show false (some raw_session) t st'
              ≡ (if leb (now + settings.session_ttl) t then anonymous_user_id else show user.id))
        × ((out t : ℕ)
            → middleware_user_id db lib settings show false
                (some raw_session)
                t
                (logout db lib settings (some raw_session) out st')
              ≡ anonymous_user_id)
        × ((later id : ℕ) (raw : String)
            → callback db lib settings secure token later id raw st' ≡ (gone, st'))
  unfolding callback
  web_session show token now fresh_id raw_session st user cookie full h =
      let st' = (consume_magic_link db lib settings token now fresh_id raw_session st).1 in
      let (value, consumed, set) =
        reply_inv db lib settings secure
          (consume_magic_link db lib settings token now fresh_id raw_session st).0 user cookie h in
      let (link, checked, row, same, alive) =
        consume_signs_in db laws lib settings token now fresh_id raw_session st (user, value)
          consumed in
      (
        set ∙ ap (session_cookie db lib settings secure) same,
        λ t.
            until_expiry show raw_session (now + settings.session_ttl) t user.id st' full
              (rw same at (alive t)),
        λ out t. after_logout show raw_session out t st' full,
        λ later id raw.
            ap (λ r. (callback_reply db lib settings secure r.0, r.1))
              (consume_once db laws lib settings token now fresh_id raw_session st (user, value)
                consumed later id raw),
      )
