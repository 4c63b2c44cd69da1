-- ===== src/Auth/Links.antt =====
-- backend/services/auth_service.py: the rows of the links, and the check of one.
use mathlib.Core.Path.{subst}
use chart_solar.Prelude.{
  ℕ, ◌+◌, ◌<◌, String, ◌≡◌, refl, sym, ap, ◌∙◌, false, Option, none, some, List, [], ◌∷◌, ◌++◌,
  arith, Result, ok, err, find, any, eq_iff,
}
use chart_solar.Sql.{Sql, Top, tables, update_all}
use chart_solar.Sql.Rows.{find_sound, find-update_self}
use chart_solar.Auth.{
  User, MagicLink, AuthDb, AuthError, already_consumed, Lib, AuthSettings, link_at, session_at,
  user_with, check_link, upsert_user, consume_mark, consume_writes, consume_magic_link,
}

-- the link that was found is marked under its own key
marked_found :
    (hash : String) (now : ℕ) (t : List MagicLink) (link : MagicLink)
    → find (link_at hash) t ≡ some link
    → find (link_at hash) (update_all (link_at link.token_hash) (consume_mark now) t)
      ≡ some (consume_mark now link)
marked_found hash now t link e =
    let same : link.token_hash ≡ hash =
      (eq_iff link.token_hash hash).0 (find_sound (link_at hash) t link e) in
    subst
      (λ k.
        find (link_at hash) (update_all (link_at k) (consume_mark now) t)
        ≡ some (consume_mark now link))
      (sym same) (find-update_self (link_at hash) (consume_mark now) t link (λ r h. h) e)

module _ (top : Top) (lib : Lib) (settings : AuthSettings) where
  abbrev pub db : Sql
  db = tables top

  abbrev pub consume : String → ℕ → ℕ → String → AuthDb → Result AuthError (User × String) × AuthDb
  consume = consume_magic_link db lib settings

  pub upsert_keeps_links :
      (link : MagicLink) (found : Option User) (fresh_id : ℕ) (st : AuthDb) {p : User × AuthDb}
      → upsert_user db lib settings link found fresh_id st ≡ ok p
      → (p.1.links ≡ st.links)
        × (p.1.sessions ≡ st.sessions)
        × (found ≡ none → p.0.email ≡ link.email)
  unfolding upsert_user
  upsert_keeps_links link none fresh_id st h = ground arith
  upsert_keeps_links link (some u) fresh_id st h = ground arith

  pub consume_writes_lem :
      (link : MagicLink) (found : Option User) (now fresh_id : ℕ) (raw : String) (st : AuthDb)
      {r : User × String} {st' : AuthDb}
      → consume_writes db lib settings link found now fresh_id raw st ≡ ok (r, st')
      → (st'.links ≡ update_all (link_at link.token_hash) (consume_mark now) st.links)
        × (r.1 ≡ raw)
        × (st'.sessions
            ≡ st.sessions
              ++ record {
                token_hash = lib.sha256_hex raw;
                user_id = r.0.id;
                expires_at = now + settings.session_ttl;
                revoked_at = none;
              }
                ∷ [])
        × (any (session_at (lib.sha256_hex raw)) st.sessions ≡ false)
  unfolding consume_writes upsert_user
  consume_writes_lem link none now fresh_id raw st h = ground arith
  consume_writes_lem link (some u) now fresh_id raw st h = ground arith

  pub check_found :
      (raw : String) (now : ℕ) (st : AuthDb) {link : MagicLink}
      → check_link db lib settings raw now st ≡ ok link
      → (find (link_at (lib.sha256_hex raw)) st.links ≡ some link)
        × (link.consumed_at ≡ none)
        × (now < link.expires_at)
  unfolding check_link
  check_found raw now st h = ground arith

  pub consume_inv :
      (raw : String) (now fresh_id : ℕ) (rs : String) (st : AuthDb) {r : User × String}
      → (consume raw now fresh_id rs st).0 ≡ ok r
      → let st' = (consume raw now fresh_id rs st).1 in
        (link : MagicLink) × (check_link db lib settings raw now st ≡ ok link)
        × (consume_writes db lib settings link
              (find (user_with link.email) st.users)
              now
              fresh_id
              rs
              st
            ≡ ok (r, st'))
  unfolding consume_magic_link
  consume_inv raw now fresh_id rs st h = ground arith

  refused :
      (raw : String) (now fresh_id : ℕ) (rs : String) (st : AuthDb) (e : AuthError)
      → check_link db lib settings raw now st ≡ err e
      → consume raw now fresh_id rs st ≡ (err e, st)
  unfolding consume_magic_link
  refused raw now fresh_id rs st e h = rw h

  check_marked :
      (raw : String) (now : ℕ) (st : AuthDb) {link : MagicLink} {t : ℕ}
      → find (link_at (lib.sha256_hex raw)) st.links ≡ some link
      → link.consumed_at ≡ some t
      → check_link db lib settings raw now st ≡ err already_consumed
  unfolding check_link
  check_marked raw now st found used = ground arith

  pub consume_twice :
      (raw : String) (now fresh_id : ℕ) (rs : String) (st : AuthDb) {r : User × String}
      → (consume raw now fresh_id rs st).0 ≡ ok r
      → let st' = (consume raw now fresh_id rs st).1 in
        (now' id' : ℕ) (rs' : String) → consume raw now' id' rs' st' ≡ (err already_consumed, st')
  consume_twice raw now fresh_id rs st h now' id' rs' =
      let (link, checked, written) = consume_inv raw now fresh_id rs st h in
      let found = (check_found raw now st checked).0 in
      let after =
        (consume_writes_lem link (find (user_with link.email) st.users) now fresh_id rs st
          written).0 in
      let here =
        ap (find (link_at (lib.sha256_hex raw))) after
        ∙ marked_found (lib.sha256_hex raw) now st.links link found in
      refused raw now' id' rs' (consume raw now fresh_id rs st).1 already_consumed
        (check_marked raw now' (consume raw now fresh_id rs st).1 here refl)
