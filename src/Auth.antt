-- ===== src/Auth.antt =====
-- backend/services/auth_service.py over backend/db/auth_models.py: magic links and sessions. Times
-- are seconds, user ids are UUIDs as 128-bit numbers.
mod Links
pub mod SignIn
pub mod Sessions
pub mod Race
pub mod Routes
pub mod Web
mod Tests
mod WebTests
use chart_solar.Prelude.{
  ℕ, ◌+◌, String, Bool, Option, none, some, List, Result, ok, err, ◌>>=◌, transact, leb, is_some,
  or_else, ◌==◌, str_eq, if◌then◌else◌,
}
use Prim.Native.String.{◌++◌}
use chart_solar.Sql.{Sql}

pub record User : Type 0 where
  pub id : ℕ
  pub email : String
  pub aggregation_opt_out : Bool

pub record MagicLink : Type 0 where
  pub token_hash : String
  pub email : String
  pub expires_at : ℕ
  pub consumed_at : Option ℕ

pub record Session : Type 0 where
  pub token_hash : String
  pub user_id : ℕ
  pub expires_at : ℕ
  pub revoked_at : Option ℕ

pub record AuthDb : Type 0 where
  pub users : List User
  pub links : List MagicLink
  pub sessions : List Session

pub data AuthError : Type 0 where
  -- the three reasons of `MagicLinkError`
  unknown_link already_consumed link_expired : AuthError
  -- a row clashes under a unique index when it is flushed
  integrity_error : AuthError

-- What the service takes from the standard library, and its settings: `sha256_hex` of
-- backend/infra/util.py is hashlib's digest, `normalise` is `value.strip().lower()`, and the rest
-- stands for urllib.parse.
pub record Lib : Type 1 where
  pub sha256_hex : String → String
  pub normalise : String → String
  pub Url : Type 0
  pub urlparse : String → Url
  pub urlunparse : Url → String
  pub query : Url → String
  pub with_query : Url → String → Url
  pub urlencode_token : String → String

pub record AuthSettings : Type 0 where
  pub magic_link_ttl : ℕ
  pub session_ttl : ℕ
  pub callback_url : String

pub record PendingMagicLinkEmail : Type 0 where
  pub to : String
  pub subject : String
  pub html_body : String
  pub text_body : String

-- `_magic_link_email_bodies`: the HTML and the plain text
pub magic_link_email_bodies : String → String × String
magic_link_email_bodies callback = (
  "<p>Welcome back to Chart Solar.</p><p>To sign in, click the link below within 15 minutes:</p><p><a href=\""
      ++ (callback
          ++ ("\" style=\"display:inline-block;padding:12px 24px;background:#0b6b4f;color:#fff;text-decoration:none;border-radius:6px;\">Sign in to Chart Solar</a></p><p>Or paste this URL into your browser:<br><code>"
              ++ (callback
                  ++ "</code></p><p>If you didn't request this, ignore this email — no account changes.</p>"))),
  "Welcome back to Chart Solar.\n\nTo sign in, click this link within 15 minutes:\n\n"
      ++ (callback ++ "\n\nIf you didn't request this, ignore this email — no account changes.\n"),
)

-- A row of `magic_links` or `sessions` by its primary key, a row of `users` by its unique email.
abbrev pub link_at : String → MagicLink → Bool
link_at hash l = str_eq l.token_hash hash

abbrev pub session_at : String → Session → Bool
session_at hash s = str_eq s.token_hash hash

abbrev pub user_with : String → User → Bool
user_with email u = str_eq u.email email

-- the unique indexes
abbrev pub link_clash : MagicLink → MagicLink → Bool
link_clash l = link_at l.token_hash

abbrev pub session_clash : Session → Session → Bool
session_clash s = session_at s.token_hash

abbrev pub user_clash : User → User → Bool
user_clash u v = if v.id == u.id then Bool.true else user_with u.email v

-- a unique index refuses the row
abbrev pub flush {ℓ} : {A : Type ℓ} {E : Type ℓ} → E → Option A → Result E A
flush e none = err e
flush e (some a) = ok a

abbrev pub consume_mark : ℕ → MagicLink → MagicLink
consume_mark now link = record link { consumed_at = some now }

abbrev pub revoke_mark : ℕ → Session → Session
revoke_mark now s = record s { revoked_at = some now }

-- `callback_url or default`, of which an empty text is false
abbrev callback_or : Option String → String → String
callback_or none default = default
callback_or (some url) default = if str_eq url "" then default else url

module _ (db : Sql) (lib : Lib) (settings : AuthSettings) where
  pub build_callback_url : String → String → String
  build_callback_url base raw_token =
      let parsed = lib.urlparse base in
      let q = lib.query parsed in
      let extra = lib.urlencode_token raw_token in
      lib.urlunparse (lib.with_query parsed (if str_eq q "" then extra else q ++ ("&" ++ extra)))

  -- `raw_token` is what `secrets.token_urlsafe` draws.
  pub issue_magic_link :
      String → Option String → ℕ → String → AuthDb → Result AuthError PendingMagicLinkEmail × AuthDb
  issue_magic_link email callback_url issued_at raw_token st =
      let target = lib.normalise email in
      let link : MagicLink = record {
        token_hash = lib.sha256_hex raw_token;
        email = target;
        expires_at = issued_at + settings.magic_link_ttl;
        consumed_at = none;
      } in
      let callback =
        build_callback_url (callback_or callback_url settings.callback_url) raw_token in
      let bodies = magic_link_email_bodies callback in
      transact st (do
        links ← flush integrity_error (db.insert link_clash link st.links)
        ok (
          record {
            to = target;
            subject = "Your Chart Solar sign-in link";
            html_body = bodies.0;
            text_body = bodies.1;
          },
          record st { links = links },
        ))

  -- the row of the link, if it may be consumed
  pub check_link : String → ℕ → AuthDb → Result AuthError MagicLink
  check_link raw_token now st = elim (db.get (link_at (lib.sha256_hex raw_token)) st.links) [
    | none ↦ err unknown_link
    | some link ↦
        if is_some link.consumed_at
        then err already_consumed
        else if leb link.expires_at now
        then err link_expired
        else ok link
  ]

  -- the user of the link's email, found before, or created under the id `fresh_id`
  pub upsert_user : MagicLink → Option User → ℕ → AuthDb → Result AuthError (User × AuthDb)
  upsert_user link (some user) fresh_id st = ok (user, st)
  upsert_user link none fresh_id st = do
    let user : User = record { id = fresh_id; email = link.email; aggregation_opt_out = Bool.false }
    users ← flush integrity_error (db.insert user_clash user st.users)
    ok (user, record st { users = users })

  -- The writes of `consume_magic_link`, once its link and the user row were read.
  pub consume_writes :
      MagicLink
      → Option User
      → ℕ
      → ℕ
      → String
      → AuthDb
      → Result AuthError ((User × String) × AuthDb)
  unfolding upsert_user
  consume_writes link found now fresh_id raw_session st = do
    placed ← upsert_user link found fresh_id st
    let user = placed.0
    let st' = placed.1
    let marked = (db.update (link_at link.token_hash) (consume_mark now) st'.links).1
    let row : Session = record {
      token_hash = lib.sha256_hex raw_session;
      user_id = user.id;
      expires_at = now + settings.session_ttl;
      revoked_at = none;
    }
    sessions ← flush integrity_error (db.insert session_clash row st'.sessions)
    ok ((user, raw_session), record st' { links = marked; sessions = sessions })

  pub consume_magic_link :
      String → ℕ → ℕ → String → AuthDb → Result AuthError (User × String) × AuthDb
  unfolding check_link consume_writes
  consume_magic_link raw_token now fresh_id raw_session st = transact st (do
    link ← check_link raw_token now st
    consume_writes link (db.get (user_with link.email) st.users) now fresh_id raw_session st)

  pub revoke_session : String → ℕ → AuthDb → Bool × AuthDb
  revoke_session raw_token now st =
      let hash = lib.sha256_hex raw_token in
      elim (db.get (session_at hash) st.sessions) [
        | none ↦ (Bool.false, st)
        | some row ↦ if is_some row.revoked_at then (Bool.false, st) else (
          Bool.true,
          record st { sessions = (db.update (session_at hash) (revoke_mark now) st.sessions).1 },
        )
      ]

  pub user_id_for_session_token : String → ℕ → AuthDb → Option ℕ
  user_id_for_session_token raw_token now st =
      elim (db.get (session_at (lib.sha256_hex raw_token)) st.sessions) [
        | none ↦ none
        | some row ↦
            if is_some row.revoked_at
            then none
            else if leb row.expires_at now
            then none
            else some row.user_id
      ]
