-- ===== src/Auth/Sessions.antt =====
-- backend/services/auth_service.py: sign-out, and the look-up of a session cookie.
use chart_solar.Prelude.{
  ℕ, ◌<◌, String, ◌≡◌, ◌≢◌, ◌↔◌, refl, false, none, some, List, [], ◌∷◌, arith, find, eq_iff,
  Option-cases, inl, inr,
}
use chart_solar.Sql.{Sql, IsSql, Top, tables, canonical, update_all}
use chart_solar.Sql.Rows.{find-update_self}
use chart_solar.Auth.{
  Session, AuthDb, Lib, AuthSettings, session_at, revoke_mark, revoke_session,
  user_id_for_session_token,
}

-- A session that the table holds, not revoked and not expired.
pub record IsLive (lib : Lib) (raw : String) (now user : ℕ) (st : AuthDb) : Type 0 where
  pub row : Session
  pub found : find (session_at (lib.sha256_hex raw)) st.sessions ≡ some row
  pub not_revoked : row.revoked_at ≡ none
  pub not_expired : now < row.expires_at
  pub owner : row.user_id ≡ user

-- an update under one key leaves the rows of another key alone
other_found :
    (hash other : String) (now : ℕ) (t : List Session)
    → hash ≢ other
    → find (session_at other) (update_all (session_at hash) (revoke_mark now) t)
      ≡ find (session_at other) t
other_found hash other now [] ne = refl
other_found hash other now (s ∷ t) ne =
    ground
      (arith, other_found hash other now t ne, eq_iff s.token_hash hash, eq_iff s.token_hash other)

module _ (top : Top) (lib : Lib) (settings : AuthSettings) where
  abbrev sql : Sql
  sql = tables top

  lookup-IsLive_iff :
      (raw : String) (now user : ℕ) (st : AuthDb)
      → user_id_for_session_token sql lib settings raw now st ≡ some user
      → IsLive lib raw now user st
  unfolding user_id_for_session_token
  lookup-IsLive_iff raw now user st h =
      elim (Option-cases (find (session_at (lib.sha256_hex raw)) st.sessions)) [
        | inl absent ↦ ground arith
        | inr (row, e) ↦ record {
          row = row;
          found = e;
          not_revoked = ground arith;
          not_expired = ground arith;
          owner = ground arith;
        }
      ]

  live_lookup :
      (raw : String) (now user : ℕ) (st : AuthDb)
      → IsLive lib raw now user st
      → user_id_for_session_token sql lib settings raw now st ≡ some user
  unfolding user_id_for_session_token
  live_lookup raw now user st live =
      rw (live.found, user_id_for_session_token)
        (ground (arith, live.not_revoked, live.not_expired, live.owner))

  pub revoked_dead :
      (raw : String) (now later : ℕ) (st : AuthDb)
      → user_id_for_session_token sql lib settings raw later
          (revoke_session sql lib settings raw now st).1
        ≡ none
  unfolding user_id_for_session_token revoke_session
  revoked_dead raw now later st =
      let hash = lib.sha256_hex raw in
      elim (Option-cases (find (session_at hash) st.sessions)) [
        | inl absent ↦ ground arith
        | inr (row, e) ↦ ground (
          arith,
          find-update_self (session_at hash) (revoke_mark now) st.sessions row (λ r h. h) e,
        )
      ]

  revoked_twice :
      (raw : String) (now later : ℕ) (st : AuthDb)
      → let st' = (revoke_session sql lib settings raw now st).1 in
        revoke_session sql lib settings raw later st' ≡ (false, st')
  unfolding revoke_session
  revoked_twice raw now later st =
      let hash = lib.sha256_hex raw in
      elim (Option-cases (find (session_at hash) st.sessions)) [
        | inl absent ↦ ground arith
        | inr (row, e) ↦ ground (
          arith,
          find-update_self (session_at hash) (revoke_mark now) st.sessions row (λ r h. h) e,
        )
      ]

  others_keep :
      (raw other : String) (now t : ℕ) (st : AuthDb)
      → lib.sha256_hex raw ≢ lib.sha256_hex other
      → user_id_for_session_token sql lib settings other t
          (revoke_session sql lib settings raw now st).1
        ≡ user_id_for_session_token sql lib settings other t st
  unfolding user_id_for_session_token revoke_session
  others_keep raw other now t st ne =
      let hash = lib.sha256_hex raw in
      elim (Option-cases (find (session_at hash) st.sessions)) [
        | inl absent ↦ ground arith
        | inr (row, e) ↦ ground (arith, other_found hash (lib.sha256_hex other) now st.sessions ne)
      ]

module _ (db : Sql) (laws : IsSql db) (lib : Lib) (settings : AuthSettings) where
  -- A session cookie resolves to a user exactly if the table holds a session under the token's
  -- hash that is not revoked, expires later than now, and belongs to the user.
  pub lookup-IsLive :
      (raw : String) (now user : ℕ) (st : AuthDb)
      → (user_id_for_session_token db lib settings raw now st ≡ some user)
        ↔ IsLive lib raw now user st
  lookup-IsLive raw now user st = rw (canonical db laws) (
    lookup-IsLive_iff db.top lib settings raw now user st,
    live_lookup db.top lib settings raw now user st,
  )

  -- After a sign-out the token resolves to nobody, at any time; signing out again reports that no
  -- row was flipped and changes nothing; and every token with another hash resolves as before.
  pub revoke_signs_out :
      (raw other : String) (now later : ℕ) (st : AuthDb)
      → lib.sha256_hex raw ≢ lib.sha256_hex other
      → let st' = (revoke_session db lib settings raw now st).1 in
        (user_id_for_session_token db lib settings raw later st' ≡ none)
        × (revoke_session db lib settings raw later st' ≡ (false, st'))
        × (user_id_for_session_token db lib settings other later st'
            ≡ user_id_for_session_token db lib settings other later st)
  revoke_signs_out raw other now later st ne = rw (canonical db laws) (
    revoked_dead db.top lib settings raw now later st,
    revoked_twice db.top lib settings raw now later st,
    others_keep db.top lib settings raw other now later st ne,
  )
