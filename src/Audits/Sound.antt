-- ===== src/Audits/Sound.antt =====
-- backend/db/audit_models.py: the foreign keys under the operations of
-- backend/services/audit_service.py.
use chart_solar.Prelude.{
  ℕ, String, ◌≡◌, refl, ◌∙◌, sym, Bool, true, false, ◌&&◌, Option, none, some, List, [], ◌∷◌, any,
  filter, All, arith, Option-cases, inl, inr, ltb, if◌then◌else◌, count, ◌==◌,
}
use chart_solar.Sql.{Sql, IsSql, Top, tables, canonical, update_all, drop_all}
use mathlib.Core.Path.{subst}
use chart_solar.Auth.{User}
use chart_solar.Audits
use chart_solar.Audits.{
  Audit, UserPiiVault, InstallerQuote, AuditDb, owned_by, quote_of, linked_to, unlink, vault_of,
  flips, aggregated, opt_out_quote, delete_audit_owned_by, delete_pii_vault_for_user,
  set_user_aggregation_opt_out,
}
use chart_solar.Audits.Rows.{any-split, All-imp, All-update, All-drop}
use chart_solar.Audits.Deletes.{without_pii}

-- Each quote has its audit, and each link of an audit to the vault has its row.
pub record IsSound {F : Type 0} (st : AuditDb F) : Type 0 where
  pub quotes_have_audits : All (λ q. quote_of st.audits q ≡ true) st.quotes
  pub links_have_rows :
      All
        (λ a. (v : ℕ) → a.user_pii_vault_id ≡ some v → any (λ p. p.id == v) st.vaults ≡ true)
        st.audits

-- An operation of the service, by a caller.
pub data Request : Type 0 where
  delete_audit : ℕ → String → Request
  delete_pii : String → Request
  set_opt_out : String → Bool → Request

abbrev pub caller_of : Request → String
caller_of (delete_audit id user_id) = user_id
caller_of (delete_pii user_id) = user_id
caller_of (set_opt_out user_id opt_out) = user_id

quote_of-unlink :
    {F : Type 0} (gone : List UserPiiVault) (audits : List Audit) (q : InstallerQuote F)
    → quote_of (update_all (linked_to gone) unlink audits) q ≡ quote_of audits q
quote_of-unlink gone [] q = refl
quote_of-unlink gone (a ∷ audits) q = ground (arith, quote_of-unlink gone audits q)

module _ {F : Type 0} (st : AuditDb F) (h : IsSound st) where
  deleted-IsSound :
      (p : Audit → Bool)
      → IsSound (record st {
        audits = drop_all p st.audits;
        quotes = drop_all (quote_of (filter p st.audits)) st.quotes;
      })
  deleted-IsSound p = record {
    quotes_have_audits =
        All-drop (λ q. quote_of st.audits q ≡ true) (λ q. quote_of (drop_all p st.audits) q ≡ true)
          (quote_of (filter p st.audits)) st.quotes
          (λ q e have. ground (arith, any-split p (λ a. a.id == q.audit_id) st.audits))
          h.quotes_have_audits;
    links_have_rows = All-drop _ _ p st.audits (λ a e have. have) h.links_have_rows;
  }

  purged-IsSound : (user : ℕ) → IsSound (without_pii user st)
  purged-IsSound user = record {
    quotes_have_audits =
        All-imp (λ q. quote_of st.audits q ≡ true)
          (λ q. quote_of (without_pii user st).audits q ≡ true) st.quotes
          (λ q have. quote_of-unlink (filter (vault_of user) st.vaults) st.audits q ∙ have)
          h.quotes_have_audits;
    links_have_rows =
        All-update
          (λ a. (v : ℕ) → a.user_pii_vault_id ≡ some v → any (λ p. p.id == v) st.vaults ≡ true)
          (λ a.
            (v : ℕ)
            → a.user_pii_vault_id ≡ some v
            → any (λ p. p.id == v) (drop_all (vault_of user) st.vaults) ≡ true)
          (linked_to (filter (vault_of user) st.vaults)) unlink st.audits
          (λ a e have v none_left. absurd (ground arith))
          (λ a e have v link.
            ground (arith, have v link, any-split (vault_of user) (λ p. p.id == v) st.vaults))
          h.links_have_rows;
  }

  opted_out-IsSound :
      (user : ℕ) (touched : Bool) (users : List User)
      → IsSound (record st {
        users = users;
        quotes =
            if touched
            then update_all (aggregated user st.audits) opt_out_quote st.quotes
            else st.quotes;
      })
  opted_out-IsSound user true users = record {
    quotes_have_audits =
        All-update (λ q. quote_of st.audits q ≡ true) (λ q. quote_of st.audits q ≡ true)
          (aggregated user st.audits) opt_out_quote st.quotes (λ q e have. have) (λ q e have. have)
          h.quotes_have_audits;
    links_have_rows = h.links_have_rows;
  }
  opted_out-IsSound user false users = record {
    quotes_have_audits = h.quotes_have_audits;
    links_have_rows = h.links_have_rows;
  }

module _ (db : Sql) (parse_uuid : String → Option ℕ) {F : Type 0} where
  -- The tables that a request leaves.
  abbrev pub perform : Request → AuditDb F → AuditDb F
  perform (delete_audit id user_id) st = (delete_audit_owned_by db parse_uuid id user_id st).1
  perform (delete_pii user_id) st = (delete_pii_vault_for_user db parse_uuid user_id st).1
  perform (set_opt_out user_id opt_out) st =
      (set_user_aggregation_opt_out db parse_uuid user_id opt_out st).1

  abbrev pub perform_all : List Request → AuditDb F → AuditDb F
  perform_all [] st = st
  perform_all (r ∷ rs) st = perform_all rs (perform r st)

module _ (top : Top) (parse_uuid : String → Option ℕ) {F : Type 0} where
  pub after_refused :
      (user_id : String) (r : Request) (st : AuditDb F)
      → parse_uuid user_id ≡ none
      → caller_of r ≡ user_id
      → perform (tables top) parse_uuid r st ≡ st
  unfolding delete_audit_owned_by delete_pii_vault_for_user set_user_aggregation_opt_out
  after_refused user_id (delete_audit id user) st e same = ground arith
  after_refused user_id (delete_pii user) st e same = ground arith
  after_refused user_id (set_opt_out user opt_out) st e same = ground arith

  pub after_delete :
      (id user : ℕ) (user_id : String) (st : AuditDb F)
      → parse_uuid user_id ≡ some user
      → perform (tables top) parse_uuid (delete_audit id user_id) st ≡ record st {
        audits = drop_all (owned_by id user) st.audits;
        quotes = drop_all (quote_of (filter (owned_by id user) st.audits)) st.quotes;
      }
  unfolding delete_audit_owned_by
  after_delete id user user_id st e = ground arith

  pub after_purge :
      (user : ℕ) (user_id : String) (st : AuditDb F)
      → parse_uuid user_id ≡ some user
      → perform (tables top) parse_uuid (delete_pii user_id) st ≡ without_pii user st
  unfolding delete_pii_vault_for_user
  after_purge user user_id st e = ground arith

  pub after_opt_out :
      (user : ℕ) (user_id : String) (opt_out : Bool) (st : AuditDb F)
      → parse_uuid user_id ≡ some user
      → perform (tables top) parse_uuid (set_opt_out user_id opt_out) st ≡ record st {
        users = update_all (flips user opt_out) (Audits.set_opt_out opt_out) st.users;
        quotes =
            if ltb 0 (count (flips user opt_out) st.users) && opt_out
            then update_all (aggregated user st.audits) opt_out_quote st.quotes
            else st.quotes;
      }
  unfolding set_user_aggregation_opt_out
  after_opt_out user user_id true st e = ground arith
  after_opt_out user user_id false st e = ground arith

  performed-IsSound :
      (user : ℕ) (r : Request) (st : AuditDb F)
      → parse_uuid (caller_of r) ≡ some user
      → IsSound st
      → IsSound (perform (tables top) parse_uuid r st)
  performed-IsSound user (delete_audit id user_id) st e h =
      subst IsSound (sym (after_delete id user user_id st e))
        (deleted-IsSound st h (owned_by id user))
  performed-IsSound user (delete_pii user_id) st e h =
      subst IsSound (sym (after_purge user user_id st e)) (purged-IsSound st h user)
  performed-IsSound user (set_opt_out user_id opt_out) st e h =
      subst IsSound (sym (after_opt_out user user_id opt_out st e)) (
        opted_out-IsSound st h user (ltb 0 (count (flips user opt_out) st.users) && opt_out)
          (update_all (flips user opt_out) (Audits.set_opt_out opt_out) st.users))

module _ (db : Sql) (laws : IsSql db) (parse_uuid : String → Option ℕ) {F : Type 0} where
  perform-IsSound :
      (r : Request) (st : AuditDb F) → IsSound st → IsSound (perform db parse_uuid r st)
  perform-IsSound r st h = rw (canonical db laws) (elim (Option-cases (parse_uuid (caller_of r))) [
    | inl e ↦ subst IsSound (sym (after_refused db.top parse_uuid (caller_of r) r st e refl)) h
    | inr (user, e) ↦ performed-IsSound db.top parse_uuid user r st e h
  ])

  -- Whatever deletes, purges and opt-outs run, by whatever callers and in whatever order, from
  -- tables in which no foreign key dangles, none dangles: each quote that is left has its audit,
  -- and each audit that links to the vault links to a row that is there.
  pub perform_all-IsSound :
      (rs : List Request) (st : AuditDb F) → IsSound st → IsSound (perform_all db parse_uuid rs st)
  perform_all-IsSound [] st h = h
  perform_all-IsSound (r ∷ rs) st h =
      perform_all-IsSound rs (perform db parse_uuid r st) (perform-IsSound r st h)
