-- ===== src/Auth/Race.antt =====
-- backend/services/auth_service.py: two requests that consume one magic link at the same time,
-- both of which read the row before either writes it.
use chart_solar.Prelude.{
  ℕ, ◌+◌, String, ◌≡◌, ap, ◌≢◌, refl, false, none, some, List, [], ◌∷◌, ◌++◌, arith, ok, find, any,
  any-append, eq_iff,
}
use chart_solar.Sql.{Sql, IsSql, Top, tables, canonical, update_all}
use chart_solar.Auth.{
  User, MagicLink, Session, AuthDb, Lib, AuthSettings, link_at, session_at, user_with, check_link,
  consume_mark, consume_writes,
}

append-append : {A : Type 0} (xs : List A) (y z : A) → xs ++ y ∷ [] ++ z ∷ [] ≡ xs ++ y ∷ z ∷ []
append-append [] y z = refl
append-append (x ∷ xs) y z = ap (λ ys. x ∷ ys) (append-append xs y z)

-- the session of a token drawn at `now`
module _ (lib : Lib) (settings : AuthSettings) where
  abbrev pub new_row : ℕ → String → User → Session
  new_row now raw user = record {
    token_hash = lib.sha256_hex raw;
    user_id = user.id;
    expires_at = now + settings.session_ttl;
    revoked_at = none;
  }

module _ (top : Top) (lib : Lib) (settings : AuthSettings) where
  abbrev sql : Sql
  sql = tables top

  -- the state after the writes, for a user that exists
  abbrev signed_in : MagicLink → User → ℕ → String → AuthDb → AuthDb
  signed_in link user now raw st = record st {
    links = update_all (link_at link.token_hash) (consume_mark now) st.links;
    sessions = st.sessions ++ new_row lib settings now raw user ∷ [];
  }

  writes_pass :
      (link : MagicLink) (user : User) (now fresh_id : ℕ) (raw : String) (st : AuthDb)
      → any (session_at (lib.sha256_hex raw)) st.sessions ≡ false
      → consume_writes sql lib settings link (some user) now fresh_id raw st
        ≡ ok ((user, raw), signed_in link user now raw st)
  unfolding consume_writes
  writes_pass link user now fresh_id raw st fresh = rw fresh

  still_fresh :
      (hash other : String) (rows : List Session) (row : Session)
      → row.token_hash ≡ other
      → other ≢ hash
      → any (session_at hash) rows ≡ false
      → any (session_at hash) (rows ++ row ∷ []) ≡ false
  still_fresh hash other rows row same ne fresh =
      rw any-append (ground (arith, eq_iff row.token_hash hash))

module _ (db : Sql) (laws : IsSql db) (lib : Lib) (settings : AuthSettings) where
  -- If two requests check the same link of an existing user before either writes, and the session
  -- tokens drawn hash to two values that no session has, then both requests succeed, one after the
  -- other, and the table of sessions grows by two live rows of the user, one for each token: a link
  -- that is checked concurrently signs in twice.
  pub consume_race :
      (raw s₁ s₂ : String) (n₁ n₂ i₁ i₂ : ℕ) (st : AuthDb) (link : MagicLink) (user : User)
      → check_link db lib settings raw n₁ st ≡ ok link
      → check_link db lib settings raw n₂ st ≡ ok link
      → find (user_with link.email) st.users ≡ some user
      → any (session_at (lib.sha256_hex s₁)) st.sessions ≡ false
      → any (session_at (lib.sha256_hex s₂)) st.sessions ≡ false
      → lib.sha256_hex s₁ ≢ lib.sha256_hex s₂
      → let found = db.get (user_with link.email) st.users in
        (a : AuthDb) × (b : AuthDb) × (consume_writes db lib settings link found n₁ i₁ s₁ st
          ≡ ok ((user, s₁), a))
        × (consume_writes db lib settings link found n₂ i₂ s₂ a ≡ ok ((user, s₂), b))
        × (b.sessions
            ≡ st.sessions ++ new_row lib settings n₁ s₁ user ∷ new_row lib settings n₂ s₂ user ∷ [])
  consume_race raw s₁ s₂ n₁ n₂ i₁ i₂ st link user c₁ c₂ found f₁ f₂ ne =
      let a = signed_in db.top lib settings link user n₁ s₁ st in
      let fresh =
        still_fresh db.top lib settings (lib.sha256_hex s₂) (lib.sha256_hex s₁) st.sessions
          (new_row lib settings n₁ s₁ user) refl ne f₂ in
      rw (canonical db laws, found)
        (
          a,
          signed_in db.top lib settings link user n₂ s₂ a,
          writes_pass db.top lib settings link user n₁ i₁ s₁ st f₁,
          writes_pass db.top lib settings link user n₂ i₂ s₂ a fresh,
          append-append st.sessions _ _,
        )
