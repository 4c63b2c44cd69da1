-- ===== src/Auth/SignIn.antt =====
-- backend/services/auth_service.py: from the request of a magic link to the signed-in user.
use chart_solar.Prelude.{
  ℕ, ◌+◌, String, ◌≡◌, refl, ap, ◌∙◌, false, Option, none, some, List, [], ◌∷◌, ◌++◌, arith, ok,
  err, leb, find, any, eq_iff, eq_refl, if◌then◌else◌, Option-cases, inl, inr, Bool-cases,
}
use chart_solar.Sql.{Sql, IsSql, Top, tables, canonical}
use chart_solar.Sql.Rows.{find-append_new, find-any}
use chart_solar.Auth.{
  User, MagicLink, Session, AuthDb, already_consumed, link_expired, Lib, AuthSettings,
  PendingMagicLinkEmail, link_at, session_at, user_with, issue_magic_link, check_link,
  consume_writes, consume_magic_link, user_id_for_session_token,
}
use chart_solar.Auth.Links.{consume_inv, consume_twice, consume_writes_lem}

module _ (top : Top) (lib : Lib) (settings : AuthSettings) where
  abbrev sql : Sql
  sql = tables top

  -- the session row that was just added resolves until it expires
  new_session :
      (raw : String) (t : ℕ) (st : AuthDb) (before : List Session) (row : Session)
      → st.sessions ≡ before ++ row ∷ []
      → any (session_at (lib.sha256_hex raw)) before ≡ false
      → row.token_hash ≡ lib.sha256_hex raw
      → row.revoked_at ≡ none
      → user_id_for_session_token sql lib settings raw t st
        ≡ (if leb row.expires_at t then none else some row.user_id)
  unfolding user_id_for_session_token
  new_session raw t st before row added fresh key live =
      let hash = lib.sha256_hex raw in
      let here =
        ap (find (session_at hash)) added
        ∙ find-append_new (session_at hash) before row (find-any (session_at hash) before fresh)
            ((eq_iff row.token_hash hash).1 key) in
      ground arith

  written_user :
      (link : MagicLink) (now fresh_id : ℕ) (raw : String) (st : AuthDb) (r : User × String)
      (st' : AuthDb)
      → consume_writes sql lib settings link
          (find (user_with link.email) st.users)
          now
          fresh_id
          raw
          st
        ≡ ok (r, st')
      → find (user_with link.email) st'.users ≡ some r.0
  unfolding consume_writes
  written_user link now fresh_id raw st r st' h =
      elim (Option-cases (find (user_with link.email) st.users)) [
        | inl absent ↦ ground (
          arith,
          find-append_new (user_with link.email) st.users
              (record { id = fresh_id; email = link.email; aggregation_opt_out = false }) absent
              (eq_refl link.email),
        )
        | inr (u, there) ↦ ground arith
      ]

  abbrev new_link : String → ℕ → String → MagicLink
  new_link email t raw = record {
    token_hash = lib.sha256_hex raw;
    email = lib.normalise email;
    expires_at = t + settings.magic_link_ttl;
    consumed_at = none;
  }

  issued_links :
      (email : String) (url : Option String) (t : ℕ) (raw : String) (st st' : AuthDb)
      (pending : PendingMagicLinkEmail)
      → issue_magic_link sql lib settings email url t raw st ≡ (ok pending, st')
      → (pending.to ≡ lib.normalise email)
        × (st'.links ≡ st.links ++ new_link email t raw ∷ [])
        × (any (link_at (lib.sha256_hex raw)) st.links ≡ false)
        × (st'.users ≡ st.users)
        × (st'.sessions ≡ st.sessions)
  unfolding issue_magic_link
  issued_links email url t raw st st' pending h =
      elim (Bool-cases (any (link_at (lib.sha256_hex raw)) st.links)) [
        | inl clash ↦ ground arith
        | inr fresh ↦ ground arith
      ]

  check_new :
      (raw : String) (now : ℕ) (st : AuthDb) (before : List MagicLink) (link : MagicLink)
      → st.links ≡ before ++ link ∷ []
      → any (link_at (lib.sha256_hex raw)) before ≡ false
      → link.token_hash ≡ lib.sha256_hex raw
      → link.consumed_at ≡ none
      → check_link sql lib settings raw now st
        ≡ (if leb link.expires_at now then err link_expired else ok link)
  unfolding check_link
  check_new raw now st before link added fresh key unused =
      let hash = lib.sha256_hex raw in
      let here =
        ap (find (link_at hash)) added
        ∙ find-append_new (link_at hash) before link (find-any (link_at hash) before fresh)
            ((eq_iff link.token_hash hash).1 key) in
      ground arith

module _ (db : Sql) (laws : IsSql db) (lib : Lib) (settings : AuthSettings) where
  -- Once a magic link has signed somebody in, the same token is refused as already consumed, at
  -- any later or earlier time and whatever id and session token are drawn, and nothing changes.
  pub consume_once :
      (raw : String) (now fresh_id : ℕ) (session : String) (st : AuthDb) (r : User × String)
      → (consume_magic_link db lib settings raw now fresh_id session st).0 ≡ ok r
      → (now' id' : ℕ) (session' : String)
      → let st' = (consume_magic_link db lib settings raw now fresh_id session st).1 in
        consume_magic_link db lib settings raw now' id' session' st' ≡ (err already_consumed, st')
  consume_once raw now fresh_id session st r =
      rw (canonical db laws) (λ h. consume_twice db.top lib settings raw now fresh_id session st h)

  -- A link that was issued can be consumed exactly while its lifetime lasts: before that ends the
  -- check returns the link with the normalised email, and from then on it is refused as expired.
  -- The email goes to the normalised address, and no user or session row changes.
  pub issued_link :
      (email : String) (url : Option String) (t now : ℕ) (raw : String) (st st' : AuthDb)
      (pending : PendingMagicLinkEmail)
      → issue_magic_link db lib settings email url t raw st ≡ (ok pending, st')
      → (pending.to ≡ lib.normalise email)
        × (check_link db lib settings raw now st' ≡ (
            if leb (t + settings.magic_link_ttl) now
            then err link_expired
            else ok (record {
              token_hash = lib.sha256_hex raw;
              email = lib.normalise email;
              expires_at = t + settings.magic_link_ttl;
              consumed_at = none;
            })))
        × (st'.users ≡ st.users)
        × (st'.sessions ≡ st.sessions)
  issued_link email url t now raw st st' pending = rw (canonical db laws) λ h.
      let (addressed, added, fresh, users, sessions) =
        issued_links db.top lib settings email url t raw st st' pending h in
      (
        addressed,
        check_new db.top lib settings raw now st' st.links
            (new_link db.top lib settings email t raw) added fresh refl refl,
        users,
        sessions,
      )

  -- A consumed link signs in the user of the link's email, who is then the row of that email, and
  -- the session token that is returned resolves to this user exactly until the session's lifetime,
  -- counted from the consumption, has passed.
  pub consume_signs_in :
      (raw : String) (now fresh_id : ℕ) (session : String) (st : AuthDb) (r : User × String)
      → (consume_magic_link db lib settings raw now fresh_id session st).0 ≡ ok r
      → let st' = (consume_magic_link db lib settings raw now fresh_id session st).1 in
        (link : MagicLink) × (check_link db lib settings raw now st ≡ ok link)
        × (find (user_with link.email) st'.users ≡ some r.0)
        × (r.1 ≡ session)
        × ((t : ℕ)
            → user_id_for_session_token db lib settings r.1 t st'
              ≡ (if leb (now + settings.session_ttl) t then none else some r.0.id))
  consume_signs_in raw now fresh_id session st r = rw (canonical db laws) λ h.
      let (link, checked, written) =
        consume_inv db.top lib settings raw now fresh_id session st h in
      let st' = (consume_magic_link (tables db.top) lib settings raw now fresh_id session st).1 in
      let (marked, same, added, fresh) =
        consume_writes_lem db.top lib settings link (find (user_with link.email) st.users) now
          fresh_id session st written in
      (
        link,
        checked,
        written_user db.top lib settings link now fresh_id session st r st' written,
        same,
        λ t. rw same (
            new_session db.top lib settings session t st' st.sessions
              (record {
                token_hash = lib.sha256_hex session;
                user_id = r.0.id;
                expires_at = now + settings.session_ttl;
                revoked_at = none;
              })
              added fresh refl refl),
      )
