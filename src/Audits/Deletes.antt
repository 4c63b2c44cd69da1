-- ===== src/Audits/Deletes.antt =====
-- backend/services/audit_service.py: what the two deletes remove, and what they leave.
use chart_solar.Prelude.{
  ℕ, String, ◌≡◌, refl, true, false, Option, some, List, [], ◌∷◌, any, filter, count, count-any,
  map, arith, ok, inl, inr, ◌==◌, Bool-cases, if◌then◌else◌,
}
use chart_solar.Sql.{Sql, IsSql, Top, tables, canonical, update_all, drop_all}
use chart_solar.Audits.{
  Audit, UserPiiVault, InstallerQuote, AuditDb, owned_by, quote_of, linked_to, unlink, vault_of,
  delete_audit_owned_by, delete_pii_vault_for_user,
}
use chart_solar.Audits.Rows.{
  filter_none, drop_none, drop_nothing, any-drop_self, count-any-true, quote_of-owned,
}

-- The tables after the delete of an owned audit.
abbrev pub without_audit : {F : Type 0} → ℕ → ℕ → AuditDb F → AuditDb F
without_audit id user st = record st {
  audits = drop_all (owned_by id user) st.audits;
  quotes = drop_all (λ q. q.audit_id == id) st.quotes;
}

drop_quotes :
    {F : Type 0} (id user : ℕ) (audits : List Audit) (quotes : List (InstallerQuote F))
    → any (owned_by id user) audits ≡ true
    → drop_all (quote_of (filter (owned_by id user) audits)) quotes
      ≡ drop_all (λ q. q.audit_id == id) quotes
drop_quotes id user audits [] h = refl
drop_quotes id user audits (q ∷ quotes) h =
    rw (quote_of-owned id user q audits h, drop_quotes id user audits quotes h) refl

-- The tables after the purge of a user's rows in the vault.
abbrev pub without_pii : {F : Type 0} → ℕ → AuditDb F → AuditDb F
without_pii user st = record st {
  vaults = drop_all (vault_of user) st.vaults;
  audits = update_all (linked_to (filter (vault_of user) st.vaults)) unlink st.audits;
}

unlink_nothing : (audits : List Audit) → update_all (linked_to []) unlink audits ≡ audits
unlink_nothing [] = refl
unlink_nothing (a ∷ audits) = ground (arith, unlink_nothing audits)

-- but for the link, the audits stay as they were
unlink_only :
    (gone : List UserPiiVault) (audits : List Audit)
    → map unlink (update_all (linked_to gone) unlink audits) ≡ map unlink audits
unlink_only gone [] = refl
unlink_only gone (a ∷ audits) = ground (arith, unlink_only gone audits)

unlinked :
    (gone : List UserPiiVault) (audits : List Audit)
    → any (linked_to gone) (update_all (linked_to gone) unlink audits) ≡ false
unlinked gone [] = refl
unlinked gone (a ∷ audits) = ground (arith, unlinked gone audits)

module _ (top : Top) (parse_uuid : String → Option ℕ) {F : Type 0} where
  delete_owned :
      (id user : ℕ) (user_id : String) (st : AuditDb F)
      → parse_uuid user_id ≡ some user
      → any (owned_by id user) st.audits ≡ true
      → delete_audit_owned_by (tables top) parse_uuid id user_id st
        ≡ (ok true, without_audit id user st)
  unfolding delete_audit_owned_by
  delete_owned id user user_id st e owned = ground (
    arith,
    count-any-true (owned_by id user) st.audits owned,
    drop_quotes id user st.audits st.quotes owned,
  )

  delete_unowned :
      (id user : ℕ) (user_id : String) (st : AuditDb F)
      → parse_uuid user_id ≡ some user
      → any (owned_by id user) st.audits ≡ false
      → delete_audit_owned_by (tables top) parse_uuid id user_id st ≡ (ok false, st)
  unfolding delete_audit_owned_by
  delete_unowned id user user_id st e absent = ground (
    arith,
    filter_none (owned_by id user) st.audits absent,
    count-any (owned_by id user) st.audits absent,
    drop_none (owned_by id user) st.audits absent,
    drop_nothing (λ (q : InstallerQuote F). false) st.quotes (λ _. refl),
  )

  purged :
      (user : ℕ) (user_id : String) (st : AuditDb F)
      → parse_uuid user_id ≡ some user
      → delete_pii_vault_for_user (tables top) parse_uuid user_id st
        ≡ (ok (count (vault_of user) st.vaults), without_pii user st)
  unfolding delete_pii_vault_for_user
  purged user user_id st e = ground arith

  purged_twice :
      (user : ℕ) (user_id : String) (st : AuditDb F)
      → parse_uuid user_id ≡ some user
      → any (vault_of user) st.vaults ≡ false
      → delete_pii_vault_for_user (tables top) parse_uuid user_id st ≡ (ok 0, st)
  unfolding delete_pii_vault_for_user
  purged_twice user user_id st e absent = ground (
    arith,
    filter_none (vault_of user) st.vaults absent,
    count-any (vault_of user) st.vaults absent,
    drop_none (vault_of user) st.vaults absent,
    unlink_nothing st.audits,
  )

module _ (db : Sql) (laws : IsSql db) (parse_uuid : String → Option ℕ) {F : Type 0} where
  -- For a caller whose id parses, a delete reports true exactly if the audit is there and theirs;
  -- then the audit goes with exactly the quotes that belong to it, and the users, the vault, all
  -- other audits and all other quotes stay. Otherwise nothing changes.
  pub delete_audit_owned_by_lem :
      (id user : ℕ) (user_id : String) (st : AuditDb F)
      → parse_uuid user_id ≡ some user
      → delete_audit_owned_by db parse_uuid id user_id st ≡ (
          if any (owned_by id user) st.audits
          then (ok true, without_audit id user st)
          else (ok false, st))
  delete_audit_owned_by_lem id user user_id st e =
      rw (canonical db laws) (elim (Bool-cases (any (owned_by id user) st.audits)) [
        | inl owned ↦ rw (owned, delete_owned db.top parse_uuid id user user_id st e owned) refl
        | inr absent ↦
            rw (absent, delete_unowned db.top parse_uuid id user user_id st e absent) refl
      ])

  -- For a caller whose id parses, the purge reports how many rows of the vault were theirs; these
  -- rows are gone and all others stay; no audit links to a purged row, and but for that link the
  -- audits, and with them all quotes and users, are unchanged; a second purge reports no row and
  -- changes nothing.
  pub delete_pii_vault_for_user_lem :
      (user : ℕ) (user_id : String) (st : AuditDb F)
      → parse_uuid user_id ≡ some user
      → let (result, st') = delete_pii_vault_for_user db parse_uuid user_id st in
        (result ≡ ok (count (vault_of user) st.vaults))
        × (st'.vaults ≡ drop_all (vault_of user) st.vaults)
        × (any (linked_to (filter (vault_of user) st.vaults)) st'.audits ≡ false)
        × (map unlink st'.audits ≡ map unlink st.audits)
        × (st'.quotes ≡ st.quotes)
        × (st'.users ≡ st.users)
        × (delete_pii_vault_for_user db parse_uuid user_id st' ≡ (ok 0, st'))
  delete_pii_vault_for_user_lem user user_id st e =
      let gone = filter (vault_of user) st.vaults in
      rw (canonical db laws, purged db.top parse_uuid user user_id st e)
        (
          refl,
          refl,
          unlinked gone st.audits,
          unlink_only gone st.audits,
          refl,
          refl,
          purged_twice db.top parse_uuid user user_id (without_pii user st) e
              (any-drop_self (vault_of user) st.vaults),
        )
