-- ===== src/Audits/OptOut.antt =====
-- backend/services/audit_service.py: the opt-out from the aggregates, and the way back.
use chart_solar.Prelude.{
  ℕ, String, ◌≡◌, refl, Bool, true, false, not, Option, some, List, [], ◌∷◌, any, filter, count,
  arith, ok, ltb,
}
use chart_solar.Sql.{Sql, IsSql, Top, tables, canonical, update_all}
use chart_solar.Audits
use chart_solar.Audits.{
  Audit, InstallerQuote, AuditDb, is_of, quote_of, flips, aggregated, opt_out_quote,
  set_user_aggregation_opt_out,
}
use chart_solar.Audits.Rows.{count-any-true}

-- The quote belongs to an audit of the user.
abbrev pub quoted_for : {F : Type 0} → ℕ → List Audit → InstallerQuote F → Bool
quoted_for user audits q = quote_of (filter (is_of user) audits) q

module _ {F : Type 0} (user : ℕ) (audits : List Audit) where
  none_aggregated :
      (quotes : List (InstallerQuote F))
      → any (aggregated user audits) (update_all (aggregated user audits) opt_out_quote quotes)
        ≡ false
  none_aggregated [] = refl
  none_aggregated (q ∷ quotes) = ground (arith, none_aggregated quotes)

  others_kept :
      (quotes : List (InstallerQuote F))
      → filter
          (λ q. not (quoted_for user audits q))
          (update_all (aggregated user audits) opt_out_quote quotes)
        ≡ filter (λ q. not (quoted_for user audits q)) quotes
  others_kept [] = refl
  others_kept (q ∷ quotes) = ground (arith, others_kept quotes)

module _ (top : Top) (parse_uuid : String → Option ℕ) {F : Type 0} where
  flipped :
      (user : ℕ) (user_id : String) (st : AuditDb F)
      → parse_uuid user_id ≡ some user
      → ltb 0 (count (flips user true) st.users) ≡ true
      → set_user_aggregation_opt_out (tables top) parse_uuid user_id true st ≡ (
        ok (true, count (aggregated user st.audits) st.quotes),
        record st {
          users = update_all (flips user true) (Audits.set_opt_out true) st.users;
          quotes = update_all (aggregated user st.audits) opt_out_quote st.quotes;
        },
      )
  unfolding set_user_aggregation_opt_out
  flipped user user_id st e there = ground arith

  returned :
      (user : ℕ) (user_id : String) (st : AuditDb F)
      → parse_uuid user_id ≡ some user
      → set_user_aggregation_opt_out (tables top) parse_uuid user_id false st ≡ (
        ok (false, 0),
        record st { users = update_all (flips user false) (Audits.set_opt_out false) st.users },
      )
  unfolding set_user_aggregation_opt_out
  returned user user_id st e = ground arith

module _ (db : Sql) (laws : IsSql db) (parse_uuid : String → Option ℕ) {F : Type 0} where
  -- When a user who is counted in the aggregates opts out, no quote of their audits is counted any
  -- more, the reply gives the number of quotes taken out, and the audits and every quote of
  -- anybody else stay as they were. When they then come back, no quote changes, so what was taken
  -- out stays out.
  pub set_user_aggregation_opt_out_lem :
      (user : ℕ) (user_id : String) (st : AuditDb F)
      → parse_uuid user_id ≡ some user
      → any (flips user true) st.users ≡ true
      → let (result, st') = set_user_aggregation_opt_out db parse_uuid user_id true st in
        let (back, st'') = set_user_aggregation_opt_out db parse_uuid user_id false st' in
        (result ≡ ok (true, count (aggregated user st.audits) st.quotes))
        × (any (aggregated user st'.audits) st'.quotes ≡ false)
        × (st'.audits ≡ st.audits)
        × (filter (λ q. not (quoted_for user st.audits q)) st'.quotes
            ≡ filter (λ q. not (quoted_for user st.audits q)) st.quotes)
        × (back ≡ ok (false, 0))
        × (st''.quotes ≡ st'.quotes)
        × (st''.audits ≡ st.audits)
  set_user_aggregation_opt_out_lem user user_id st e counted =
      let there = count-any-true (flips user true) st.users counted in
      let out : AuditDb F = record st {
        users = update_all (flips user true) (Audits.set_opt_out true) st.users;
        quotes = update_all (aggregated user st.audits) opt_out_quote st.quotes;
      } in
      rw
        (
          canonical db laws,
          flipped db.top parse_uuid user user_id st e there,
          returned db.top parse_uuid user user_id out e,
        )
        (
          refl,
          none_aggregated user st.audits st.quotes,
          refl,
          others_kept user st.audits st.quotes,
          refl,
          refl,
          refl,
        )
